-- ===== src/Agent/Rules/AddBatch/RolledBack.antt =====
-- What AddRulesBatch of node/agent/api/rules_mutation.go leaves where its publication fails.
use mathlib.Core.List.{List, [], ◌∷◌}
use Prim.Native.Nat.{ℕ}
use Prim.Native.String.{String}
use xdrop.Prelude.{
  Bool, true, false, some, none, if◌then◌else◌, ◌==◌, ◌+◌, length, ◌≡◌, refl, sym, ap, ◌∙◌, subst,
  arith, Bool-cases, inl, inr,
}
use xdrop.Prelude.GoMap.{lookup, is_in, lookup-delete}
use xdrop.Prelude.Int.{pos}
use xdrop.Prelude.Text.{string_eq}
use xdrop.Agent.Types.{Rule, rule_key_eq}
use xdrop.Agent.Wire.{rule_key_to_bytes}
use xdrop.Agent.State.{Handlers, Bpf}
use xdrop.Agent.Config.{active_blacklist, set_active_blacklist, publish_config_update}
use xdrop.Agent.Rules.{remove_rule, restore_rule}
use xdrop.Agent.Rules.Frame.{
  IsRules, set_active_blacklist-IsRules, set_active_blacklist-same, publish-IsRules, publish-same,
}
use xdrop.Agent.Rules.Invariant.{remove_rule-IsRules}
use xdrop.Agent.Rules.AddBatch.{
  Prepared, Item, Applied, publish_failed, prepare_rules, net_new, apply_rules, roll_back,
  roll_back_all, settle_batch, publish_batch, add_cidr_rules, add_rules_batch, cidr_rules,
  exact_rules,
}
use xdrop.Agent.Rules.AddBatch.Invariant.{apply_rules-IsRules, add_cidr_rules-IsRules}
use xdrop.Agent.Rules.AddBatch.Phases.{cidr_store, add_cidr_rules-rules, exact_phase-store}
use xdrop.Agent.Rules.AddBatch.Items.{
  ids, item_ids, prepare_rules-IsDistinct, Pending, Pending-kept, apply_rules-Pending,
  apply_rules-kept, succeeded-ids,
}

module _ {M C T : Type 0} (bpf : Bpf M C T) where
  open bpf use {maps}

  roll_back_new :
      (item : Item) (h : Handlers M C T)
      → IsRules h
      → item.old_stored ≡ none
      → lookup item.id h.rules ≡ some item.stored
      → IsRules (roll_back bpf item h)
        × ((j : String)
            → lookup j (roll_back bpf item h).rules
              ≡ (if string_eq.beq item.id j then none else lookup j h.rules))
  unfolding roll_back restore_rule
  roll_back_new item h r new there =
      let bl = (maps.delete (active_blacklist h) (rule_key_to_bytes item.stored.key)).0 in
      let same = (set_active_blacklist-same bl h).0 in
      let r' = set_active_blacklist-IsRules bl h r in
      rw new (
        remove_rule-IsRules item.id item.stored (set_active_blacklist bl h) r'
            (ap (lookup item.id) same ∙ there),
        λ j.
            unfold remove_rule in
            lookup-delete item.id j (set_active_blacklist bl h).rules ∙ rw same refl,
      )

  elsewhere :
      (item : Item) (items : List Item) (h : Handlers M C T) (j : String)
      → is_in item.id (item_ids items) ≡ false
      → is_in j (item_ids items) ≡ true
      → lookup j (roll_back bpf item h).rules
        ≡ (if string_eq.beq item.id j then none else lookup j h.rules)
      → lookup j (roll_back bpf item h).rules ≡ lookup j h.rules
  elsewhere item items h j alone here after = elim (Bool-cases (string_eq.beq item.id j)) [
    | inl mine ↦
        let same = (string_eq.beq_iff item.id j).0 mine in
        let never : false ≡ true =
          sym (subst (λ i. is_in i (item_ids items) ≡ false) same alone) ∙ here in
        cc
    | inr other ↦ after ∙ rw other refl
  ]

  roll_back_all-IsRules :
      (items : List Item) (h : Handlers M C T)
      → IsRules h
      → Pending items h
      → IsRules (roll_back_all bpf items h)
        × ((j : String)
            → lookup j (roll_back_all bpf items h).rules
              ≡ (if is_in j (item_ids items) then none else lookup j h.rules))
  unfolding roll_back_all is_in
  roll_back_all-IsRules [] h r pending = (r, λ j. refl)
  roll_back_all-IsRules (item ∷ items) h r (new, there, alone, rest) =
      let back = roll_back_new item h r new there in
      let kept = λ (j : String) (here : is_in j (item_ids items) ≡ true).
        elsewhere item items h j alone here (back.1 j) in
      let tail =
        roll_back_all-IsRules items (roll_back bpf item h) back.0
          (Pending-kept items h (roll_back bpf item h) kept rest) in
      (tail.0, λ j. tail.1 j ∙ ground (arith, back.1 j))

  -- the store without the items is the store from before them
  before :
      (ps : List Prepared) (h g : Handlers M C T) (j : String)
      → ((i : String) → is_in i (ids ps) ≡ true → lookup i h.rules ≡ none)
      → g.rules ≡ (apply_rules bpf ps h).0.rules
      → (if is_in j (item_ids (apply_rules bpf ps h).1.succeeded) then none else lookup j g.rules)
        ≡ lookup j h.rules
  before ps h g j fresh same =
      let items = (apply_rules bpf ps h).1.succeeded in
      elim (Bool-cases (is_in j (item_ids items))) [
        | inr other ↦ rw other (ap (lookup j) same ∙ apply_rules-kept bpf ps h j other)
        | inl added ↦ elim (Bool-cases (is_in j (ids ps))) [
          | inl asked ↦ rw added (sym (fresh j asked))
          | inr not_asked ↦
              (let never : true ≡ false = sym added ∙ succeeded-ids bpf ps h j not_asked in cc)
        ]
      ]

  settle_batch-failed :
      (items : List Item) (added failed : ℕ) (p : Handlers M C T × Bool)
      → (settle_batch bpf items added failed p).1 ≡ publish_failed
      → (p.1 ≡ false) × ((settle_batch bpf items added failed p).0 ≡ roll_back_all bpf items p.0)
  unfolding settle_batch
  settle_batch-failed items added failed (h, true) stop = cc
  settle_batch-failed items added failed (h, false) stop = (refl, refl)

  -- the state that is rolled back has the rules that the loop left
  publish_batch-failed :
      (p : Handlers M C T × Applied) (counts : ℕ × ℕ)
      → IsRules p.0
      → (publish_batch bpf p counts).1 ≡ publish_failed
      → (g : Handlers M C T) × ((publish_batch bpf p counts).0 ≡ roll_back_all bpf p.1.succeeded g)
        × (g.rules ≡ p.0.rules)
        × IsRules g
  unfolding publish_batch
  publish_batch-failed (h, applied) (added, failed) r stop =
      let items = applied.succeeded in
      let g = publish_config_update bpf h (pos (net_new items)) (pos 0) (pos 0) in
      let added' = added + length items in
      let failed' = failed + applied.failed in
      elim (Bool-cases (length items == 0)) [
        | inl nothing ↦
            let settled = settle_batch-failed items added' failed' (h, true) (rw nothing at stop) in
            let never : true ≡ false = settled.0 in cc
        | inr some_items ↦ (
          g.0,
          rw some_items (settle_batch-failed items added' failed' g (rw some_items at stop)).1,
          (publish-same bpf h (pos (net_new items)) (pos 0) (pos 0)).0,
          publish-IsRules bpf h _ _ _ r,
        )
      ]

  -- the phase of the exact rules, from the state that the phase of the CIDR rules left
  exact_phase-IsRules :
      (rs : List (String × Rule)) (failed : ℕ) (counts : ℕ × ℕ) (h : Handlers M C T)
      → IsRules h
      → ((j : String)
          → is_in j (ids (prepare_rules rs ([], failed)).0) ≡ true
          → lookup j h.rules ≡ none)
      → (publish_batch bpf (apply_rules bpf (prepare_rules rs ([], failed)).0 h) counts).1
        ≡ publish_failed
      → IsRules (publish_batch bpf (apply_rules bpf (prepare_rules rs ([], failed)).0 h) counts).0
        × ((j : String)
            → lookup j
                (publish_batch bpf
                  (apply_rules bpf (prepare_rules rs ([], failed)).0 h)
                  counts).0.rules
              ≡ lookup j h.rules)
  exact_phase-IsRules rs failed counts h r fresh stop =
      let ps = (prepare_rules rs ([], failed)).0 in
      let applied = apply_rules bpf ps h in
      let items = applied.1.succeeded in
      let distinct = prepare_rules-IsDistinct rs ([], failed) tt in
      let undone = publish_batch-failed applied counts (apply_rules-IsRules bpf ps h r) stop in
      let g = undone.0 in
      let pending =
        Pending-kept items applied.0 g (λ j here. ap (lookup j) undone.2)
          (apply_rules-Pending bpf ps h distinct fresh) in
      let back = roll_back_all-IsRules items g undone.3 pending in
      (
        subst IsRules (sym undone.1) back.0,
        λ j.
            ap (λ (x : Handlers M C T). lookup j x.rules) undone.1
            ∙ back.1 j
            ∙ before ps h g j fresh undone.2,
      )

  -- the exact rules of a request that pass the checks, with their ids
  abbrev pub to_add : List (String × Rule) → Handlers M C T → List Prepared
  to_add rs h =
      let cidrs = add_cidr_rules bpf (cidr_rules rs) (0, 0) h in
      (prepare_rules (exact_rules rs) ([], cidrs.1.1)).0

  -- If the two rule stores are consistent, no exact rule of the request that passes the checks has the
  -- id of a stored exact rule, and AddRulesBatch fails because its publication fails, then the two rule
  -- stores are consistent after it. The exact rules are taken back from the agent's memory: each id has
  -- the exact rule that it had before the call, or none. The CIDR rules of the request are not: the
  -- store of the CIDR rules, with its index and its counts, is the one that the CIDR phase of the call
  -- left. This says nothing of the entries in the BPF maps.
  pub rolled_back-IsRules :
      (rs : List (String × Rule)) (h : Handlers M C T)
      → IsRules h
      → ((j : String) → is_in j (ids (to_add rs h)) ≡ true → lookup j h.rules ≡ none)
      → (add_rules_batch bpf rs h).1 ≡ publish_failed
      → IsRules (add_rules_batch bpf rs h).0
        × ((j : String) → lookup j (add_rules_batch bpf rs h).0.rules ≡ lookup j h.rules)
        × (cidr_store (add_rules_batch bpf rs h).0
            ≡ cidr_store (add_cidr_rules bpf (cidr_rules rs) (0, 0) h).0)
  unfolding add_rules_batch
  rolled_back-IsRules rs h r fresh stop =
      let cidrs = add_cidr_rules bpf (cidr_rules rs) (0, 0) h in
      let prepared = prepare_rules (exact_rules rs) ([], cidrs.1.1) in
      let counts : ℕ × ℕ = (cidrs.1.0, prepared.1) in
      let same = add_cidr_rules-rules bpf (cidr_rules rs) (0, 0) h in
      let taken_back =
        exact_phase-IsRules (exact_rules rs) cidrs.1.1 counts cidrs.0
          (add_cidr_rules-IsRules bpf (cidr_rules rs) (0, 0) h r)
          (λ j here. ap (lookup j) same ∙ fresh j here) stop in
      (
        taken_back.0,
        λ j. taken_back.1 j ∙ ap (lookup j) same,
        exact_phase-store bpf prepared.0 counts cidrs.0,
      )
