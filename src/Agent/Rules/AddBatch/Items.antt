-- ===== src/Agent/Rules/AddBatch/Items.antt =====
-- The items that the loop of AddRulesBatch of node/agent/api/rules_mutation.go adds to the store.
use mathlib.Core.List.{List, [], ◌∷◌}
use Prim.Native.Nat.{ℕ}
use Prim.Native.String.{String}
use xdrop.Prelude.{
  true, false, Option, some, none, if◌then◌else◌, ◌≡◌, refl, sym, ap, ◌∙◌, subst, arith, Bool-cases,
  inl, inr,
}
use xdrop.Prelude.GoMap.{lookup, is_in, lookup-insert}
use xdrop.Prelude.Text.{string_eq}
use xdrop.Agent.Types.{StoredRule, Rule, rule_key_eq}
use xdrop.Agent.State.{Handlers, Bpf}
use xdrop.Agent.Config.{active_blacklist, set_active_blacklist}
use xdrop.Agent.Rules.{is_taken, write_entry, replace_rule, put_rule, unindex_rule}
use xdrop.Agent.Rules.Frame.{set_active_blacklist-same}
use xdrop.Agent.Rules.AddBatch.{
  Prepared, Item, prepare_rule, put_prepared, keep_prepared, prepare_rules, record_applied,
  apply_rule, apply_rules,
}

abbrev pub ids : List Prepared → List String
ids [] = []
ids (p ∷ ps) = p.id ∷ ids ps

abbrev pub item_ids : List Item → List String
item_ids [] = []
item_ids (item ∷ items) = item.id ∷ item_ids items

abbrev pub IsDistinct : List Prepared → Type 0
IsDistinct [] = Unit
IsDistinct (p ∷ ps) = (is_in p.id (ids ps) ≡ false) × IsDistinct ps

put_prepared-ids :
    (p : Prepared) (ps : List Prepared) (j : String)
    → is_in j (ids (put_prepared p ps)) ≡ (if string_eq.beq p.id j then true else is_in j (ids ps))
unfolding put_prepared is_in
put_prepared-ids p [] j = refl
put_prepared-ids p (q ∷ ps) j = ground (
  arith,
  string_eq.beq_iff q.id p.id,
  string_eq.beq_iff q.id j,
  string_eq.beq_iff p.id j,
  put_prepared-ids p ps j,
)

put_prepared-IsDistinct :
    (p : Prepared) (ps : List Prepared) → IsDistinct ps → IsDistinct (put_prepared p ps)
unfolding put_prepared is_in
put_prepared-IsDistinct p [] d = (refl, tt)
put_prepared-IsDistinct p (q ∷ ps) d = elim (Bool-cases (string_eq.beq q.id p.id)) [
  | inl same ↦
      rw same
        (subst (λ j. is_in j (ids ps) ≡ false) ((string_eq.beq_iff q.id p.id).0 same) d.0, d.1)
  | inr other ↦ rw other (
    ground (
      arith,
      put_prepared-ids p ps q.id,
      string_eq.beq_iff q.id p.id,
      string_eq.beq_iff p.id q.id,
    ),
    put_prepared-IsDistinct p ps d.1,
  )
]

keep_prepared-IsDistinct :
    (o : Option Prepared) (acc : List Prepared × ℕ)
    → IsDistinct acc.0
    → IsDistinct (keep_prepared o acc).0
unfolding keep_prepared
keep_prepared-IsDistinct none (ps, failed) d = d
keep_prepared-IsDistinct (some p) (ps, failed) d = put_prepared-IsDistinct p ps d

pub prepare_rules-IsDistinct :
    (rs : List (String × Rule)) (acc : List Prepared × ℕ)
    → IsDistinct acc.0
    → IsDistinct (prepare_rules rs acc).0
unfolding prepare_rules
prepare_rules-IsDistinct [] acc d = d
prepare_rules-IsDistinct ((new_id, r) ∷ rs) acc d =
    prepare_rules-IsDistinct rs _ (keep_prepared-IsDistinct (prepare_rule new_id r) acc d)

module _ {M C T : Type 0} where
  -- the items are in the store, each under an id of its own, and replaced nothing
  abbrev pub Pending : List Item → Handlers M C T → Type 0
  Pending [] h = Unit
  Pending (item ∷ items) h =
      (item.old_stored ≡ none)
      × (lookup item.id h.rules ≡ some item.stored)
      × (is_in item.id (item_ids items) ≡ false)
      × Pending items h

  pub Pending-kept :
      (items : List Item) (h g : Handlers M C T)
      → ((j : String) → is_in j (item_ids items) ≡ true → lookup j g.rules ≡ lookup j h.rules)
      → Pending items h
      → Pending items g
  unfolding is_in
  Pending-kept [] h g same p = tt
  Pending-kept (item ∷ items) h g same (new, there, alone, rest) = (
    new,
    same item.id (ground (arith, string_eq.beq_iff item.id item.id)) ∙ there,
    alone,
    Pending-kept items h g (λ j here. same j (ground (arith, here))) rest,
  )

  replace_rule-lookup :
      (id j : String) (old : Option StoredRule) (s : StoredRule) (h : Handlers M C T)
      → lookup j (replace_rule id old s h).rules
        ≡ (if string_eq.beq id j then some s else lookup j h.rules)
  unfolding replace_rule put_rule unindex_rule
  replace_rule-lookup id j none s h = lookup-insert id j s h.rules
  replace_rule-lookup id j (some old) s h = lookup-insert id j s h.rules

module _ {M C T : Type 0} (bpf : Bpf M C T) where
  open bpf use {maps}

  apply_rule-lookup :
      (p : Prepared) (old : Option StoredRule) (h : Handlers M C T) (j : String)
      → lookup j (apply_rule bpf p old h).0.rules ≡ (
          if (apply_rule bpf p old h).1
          then if string_eq.beq p.id j then some p.stored else lookup j h.rules
          else lookup j h.rules)
  unfolding apply_rule
  apply_rule-lookup p old h j =
      let written = write_entry bpf old p.stored.key p.value (active_blacklist h) in
      let h' = set_active_blacklist written.0 h in
      let same = ap (lookup j) (set_active_blacklist-same written.0 h).0 in
      elim (Bool-cases (is_taken (lookup p.stored.key h.rule_key_index) p.id)) [
        | inl taken ↦ rw taken refl
        | inr free ↦ elim (Bool-cases written.1) [
          | inr failed ↦ rw (free, failed) same
          | inl done ↦ rw (free, done) (replace_rule-lookup p.id j old p.stored h' ∙ rw same refl)
        ]
      ]

  -- the succeeded items have ids of the prepared rules
  pub succeeded-ids :
      (ps : List Prepared) (h : Handlers M C T) (j : String)
      → is_in j (ids ps) ≡ false
      → is_in j (item_ids (apply_rules bpf ps h).1.succeeded) ≡ false
  unfolding apply_rules is_in record_applied
  succeeded-ids [] h j out = refl
  succeeded-ids (p ∷ ps) h j out =
      let applied = apply_rule bpf p (lookup p.id h.rules) h in
      let rest = succeeded-ids ps applied.0 j (ground (arith, out)) in
      elim (Bool-cases applied.1) [
        | inl done ↦ rw done (ground (arith, out, rest))
        | inr failed ↦ rw failed rest
      ]

  -- nothing else changes in the store
  pub apply_rules-kept :
      (ps : List Prepared) (h : Handlers M C T) (j : String)
      → is_in j (item_ids (apply_rules bpf ps h).1.succeeded) ≡ false
      → lookup j (apply_rules bpf ps h).0.rules ≡ lookup j h.rules
  unfolding apply_rules is_in record_applied
  apply_rules-kept [] h j out = refl
  apply_rules-kept (p ∷ ps) h j out =
      let old = lookup p.id h.rules in
      let applied = apply_rule bpf p old h in
      let here = apply_rule-lookup p old h j in
      elim (Bool-cases applied.1) [
        | inl done ↦ elim (Bool-cases (string_eq.beq p.id j)) [
          | inl mine ↦ (let never : true ≡ false = rw (done, mine) at out in cc)
          | inr other ↦
              apply_rules-kept ps applied.0 j (rw (done, other) at out) ∙ (rw (done, other) at here)
        ]
        | inr failed ↦ apply_rules-kept ps applied.0 j (rw failed at out) ∙ (rw failed at here)
      ]

  -- an id that is still to come has no rule after the first one either
  later :
      (p : Prepared) (ps : List Prepared) (h : Handlers M C T) (j : String)
      → is_in p.id (ids ps) ≡ false
      → is_in j (ids ps) ≡ true
      → (is_in j (ids (p ∷ ps)) ≡ true → lookup j h.rules ≡ none)
      → lookup j (apply_rule bpf p (lookup p.id h.rules) h).0.rules ≡ none
  unfolding is_in
  later p ps h j alone here fresh = elim (Bool-cases (string_eq.beq p.id j)) [
    | inl mine ↦
        let same = (string_eq.beq_iff p.id j).0 mine in
        let never : false ≡ true = sym (subst (λ i. is_in i (ids ps) ≡ false) same alone) ∙ here in
        cc
    | inr other ↦
        let none_before = fresh (rw other here) in
        apply_rule-lookup p (lookup p.id h.rules) h j ∙ rw (other, none_before) (ground arith)
  ]

  pub apply_rules-Pending :
      (ps : List Prepared) (h : Handlers M C T)
      → IsDistinct ps
      → ((j : String) → is_in j (ids ps) ≡ true → lookup j h.rules ≡ none)
      → Pending (apply_rules bpf ps h).1.succeeded (apply_rules bpf ps h).0
  unfolding apply_rules is_in record_applied
  apply_rules-Pending [] h d fresh = tt
  apply_rules-Pending (p ∷ ps) h d fresh =
      let old = lookup p.id h.rules in
      let applied = apply_rule bpf p old h in
      let alone = succeeded-ids ps applied.0 p.id d.0 in
      let new = fresh p.id (ground (arith, string_eq.beq_iff p.id p.id)) in
      let rest =
        apply_rules-Pending ps applied.0 d.1 (λ j here. later p ps h j d.0 here (fresh j)) in
      elim (Bool-cases applied.1) [
        | inr failed ↦ rw failed rest
        | inl done ↦ rw done (
          new,
          apply_rules-kept ps applied.0 p.id alone
              ∙ (rw (done, (string_eq.beq_iff p.id p.id).1 refl) at
                  (apply_rule-lookup p old h p.id)),
          alone,
          rest,
        )
      ]
