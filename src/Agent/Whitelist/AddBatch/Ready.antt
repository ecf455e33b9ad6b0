-- ===== src/Agent/Whitelist/AddBatch/Ready.antt =====
-- What the checks of AddWhitelistBatch of node/agent/api/whitelist.go give for its later phases.
use mathlib.Core.List.{List, [], ◌∷◌}
use Prim.Native.String.{String}
use xdrop.Prelude.{
  Bool, Option, some, none, true, false, ◌≡◌, refl, sym, subst, arith, Bool-cases, inl, inr, ◌⊎◌,
}
use xdrop.Prelude.GoMap.{GoMap, lookup, insert, IsUnique, lookup-insert}
use xdrop.Prelude.Text.{string_eq}
use xdrop.Agent.Types.{RuleKey, rule_key_eq}
use xdrop.Agent.State.{Handlers}
use xdrop.Agent.Rules.{is_taken}
use xdrop.Agent.Whitelist.Invariant.{View, wl_view}
use xdrop.Agent.Whitelist.AddBatch.{Change, add_change, check_batch}

-- no change has this id or this key
abbrev pub AllApart : String → RuleKey → List Change → Type 0
AllApart id key [] = Unit
AllApart id key (c ∷ cs) =
    (string_eq.beq id c.id ≡ false) × (rule_key_eq.beq key c.key ≡ false) × AllApart id key cs

-- each change has the key of its id, its new key is free, and the changes are apart
abbrev pub AllReady : View → List Change → Type 0
AllReady v [] = Unit
AllReady v (c ∷ cs) =
    (lookup c.id v.0 ≡ c.old_key)
    × (is_taken (lookup c.key v.1) c.id ≡ false)
    × AllApart c.id c.key cs
    × AllReady v cs

add_change-cases :
    (c : Change) (unchanged : Bool) (o : Option (List Change)) (cs : List Change)
    → add_change c unchanged o ≡ some cs
    → (rest : List Change) × (o ≡ some rest) × ((cs ≡ rest) ⊎ (cs ≡ c ∷ rest))
unfolding add_change
add_change-cases c unchanged none cs h = cc
add_change-cases c true (some rest) cs h = (rest, refl, inl cc)
add_change-cases c false (some rest) cs h = (rest, refl, inr cc)

other_key :
    (id : String) (k key : RuleKey) (owner : String) (seen : GoMap RuleKey String)
    → lookup key seen ≡ some owner
    → string_eq.beq id owner ≡ false
    → is_taken (lookup k seen) id ≡ false
    → rule_key_eq.beq key k ≡ false
unfolding is_taken
other_key id k key owner seen mine others once = elim (Bool-cases (rule_key_eq.beq key k)) [
  | inr apart ↦ apart
  | inl same ↦
      let there : lookup k seen ≡ some owner =
        subst (λ j. lookup j seen ≡ some owner) ((rule_key_eq.beq_iff key k).0 same) mine in
      let owned : string_eq.beq owner id ≡ true = ground (arith, rw there at once) in
      ground (arith, owned, others, string_eq.beq_iff owner id, string_eq.beq_iff id owner)
]

module _ {M C T : Type 0} where
  check_batch-cons :
      (id : String) (key : RuleKey) (ps : GoMap String RuleKey) (seen : GoMap RuleKey String)
      (h : Handlers M C T) (cs : List Change)
      → check_batch ((id, key) ∷ ps) seen h ≡ some cs
      → (is_taken (lookup key seen) id ≡ false)
        × (is_taken (lookup key h.wl_key_index) id ≡ false)
        × ((rest : List Change) × (check_batch ps (insert key id seen) h ≡ some rest)
            × ((cs ≡ rest)
                ⊎ (cs ≡ record { id = id; key = key; old_key = lookup id h.wl_entries } ∷ rest)))
  unfolding check_batch
  check_batch-cons id key ps seen h cs e = elim (Bool-cases (is_taken (lookup key seen) id)) [
    | inl twice ↦ (let never : none ≡ some cs = rw twice at e in cc)
    | inr once ↦ elim (Bool-cases (is_taken (lookup key h.wl_key_index) id)) [
      | inl taken ↦ (let never : none ≡ some cs = rw (once, taken) at e in cc)
      | inr free ↦ (once, free, add_change-cases _ _ _ cs (rw (once, free) at e))
    ]
  ]

  -- a key whose owner was seen comes only with its owner
  check_batch-AllApart :
      (ps : GoMap String RuleKey) (seen : GoMap RuleKey String) (h : Handlers M C T)
      (cs : List Change) (key : RuleKey) (owner : String)
      → lookup key seen ≡ some owner
      → lookup owner ps ≡ none
      → check_batch ps seen h ≡ some cs
      → AllApart owner key cs
  unfolding check_batch lookup
  check_batch-AllApart [] seen h [] key owner mine alone e = tt
  check_batch-AllApart [] seen h (c ∷ cs) key owner mine alone e = cc
  check_batch-AllApart ((id, k) ∷ ps) seen h cs key owner mine alone e =
      let s = check_batch-cons id k ps seen h cs e in
      let others : string_eq.beq id owner ≡ false = ground arith in
      let later : lookup owner ps ≡ none = ground (arith, alone) in
      let apart = other_key id k key owner seen mine others s.0 in
      let kept : lookup key (insert k id seen) ≡ some owner =
        ground (arith, lookup-insert k key id seen, mine, apart, rule_key_eq.beq_iff k key) in
      let rest = check_batch-AllApart ps (insert k id seen) h s.2.0 key owner kept later s.2.1 in
      elim s.2.2 [
        | inl same ↦ subst (AllApart owner key) (sym same) rest
        | inr more ↦
            subst (AllApart owner key) (sym more)
              (ground (arith, others, string_eq.beq_iff owner id), apart, rest)
      ]

  pub check_batch-AllReady :
      (ps : GoMap String RuleKey) (seen : GoMap RuleKey String) (h : Handlers M C T)
      (cs : List Change)
      → IsUnique ps
      → check_batch ps seen h ≡ some cs
      → AllReady (wl_view h) cs
  unfolding check_batch
  check_batch-AllReady [] seen h [] u e = tt
  check_batch-AllReady [] seen h (c ∷ cs) u e = cc
  check_batch-AllReady ((id, key) ∷ ps) seen h cs u e =
      let s = check_batch-cons id key ps seen h cs e in
      let ready = check_batch-AllReady ps (insert key id seen) h s.2.0 u.1 s.2.1 in
      let mine : lookup key (insert key id seen) ≡ some id =
        ground (arith, lookup-insert key key id seen, rule_key_eq.beq_iff key key) in
      let apart = check_batch-AllApart ps (insert key id seen) h s.2.0 key id mine u.0 s.2.1 in
      elim s.2.2 [
        | inl same ↦ subst (AllReady (wl_view h)) (sym same) ready
        | inr more ↦ subst (AllReady (wl_view h)) (sym more) (refl, s.1, apart, ready)
      ]
