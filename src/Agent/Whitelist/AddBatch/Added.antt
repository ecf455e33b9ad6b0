-- ===== src/Agent/Whitelist/AddBatch/Added.antt =====
-- What AddWhitelistBatch of node/agent/api/whitelist.go remembers, in terms of its request.
use mathlib.Core.List.{List, [], ◌∷◌}
use Prim.Native.Nat.{ℕ}
use Prim.Native.String.{String}
use xdrop.Prelude.{
  Bool, Option, some, none, true, false, ◌≡◌, ◌≢◌, refl, sym, ap, ◌∙◌, subst, arith, inl, inr, ◌⊎◌,
  if◌then◌else◌, Bool-cases,
}
use xdrop.Prelude.GoMap.{GoMap, lookup, insert, IsUnique, lookup-insert}
use xdrop.Prelude.Text.{string_eq}
use xdrop.Agent.Types.{RuleKey, WhitelistEntry, rule_key_eq}
use xdrop.Agent.State.{Handlers, Bpf}
use xdrop.Agent.Rules.{is_taken}
use xdrop.Agent.Whitelist.{is_unchanged, route_whitelist, commit_whitelist}
use xdrop.Agent.Whitelist.Invariant.{View, wl_view}
use xdrop.Agent.Whitelist.AddBatch.{
  Change, BatchAnswer, bpf_failed, added_entries, add_change, entry_id, prepare_entries,
  check_batch, commit_changes, add_checked, add_prepared, add_whitelist_batch,
}
use xdrop.Agent.Whitelist.AddBatch.Settled.{IsSettled, all_phases-IsSettled}
use xdrop.Agent.Whitelist.AddBatch.Invariant.{prepare_entries-cons, prepare_entries-IsUnique}

-- the entry of the request, or else the remembered one
pub or_else : Option RuleKey → Option RuleKey → Option RuleKey
or_else none old = old
or_else (some key) old = some key

-- the key that the last entry with this id asks for
pub wanted_key : String → List (String × WhitelistEntry) → Option RuleKey
wanted_key j [] = none
wanted_key j ((new_id, entry) ∷ entries) =
    or_else (wanted_key j entries)
      (if string_eq.beq (entry_id new_id entry) j then route_whitelist entry else none)

-- the entries after the changes
abbrev pub put_changes : List Change → GoMap String RuleKey → GoMap String RuleKey
put_changes [] entries = entries
put_changes (c ∷ cs) entries = put_changes cs (insert c.id c.key entries)

is_unchanged-key :
    (old : Option RuleKey) (key : RuleKey) → is_unchanged old key ≡ true → old ≡ some key
unfolding is_unchanged
is_unchanged-key none key h = cc
is_unchanged-key (some old) key h = ap some ((rule_key_eq.beq_iff old key).0 h)

add_change-put :
    (c : Change) (unchanged : Bool) (o : Option (List Change)) (cs : List Change)
    → add_change c unchanged o ≡ some cs
    → (rest : List Change) × (o ≡ some rest)
      × (((unchanged ≡ true) × (cs ≡ rest)) ⊎ (cs ≡ c ∷ rest))
unfolding add_change
add_change-put c unchanged none cs h = cc
add_change-put c true (some rest) cs h = (rest, refl, inl (refl, cc))
add_change-put c false (some rest) cs h = (rest, refl, inr cc)

module _ {M C T : Type 0} where
  check_batch-put :
      (id : String) (key : RuleKey) (ps : GoMap String RuleKey) (seen : GoMap RuleKey String)
      (h : Handlers M C T) (cs : List Change)
      → check_batch ((id, key) ∷ ps) seen h ≡ some cs
      → (rest : List Change) × (check_batch ps (insert key id seen) h ≡ some rest)
        × (((lookup id h.wl_entries ≡ some key) × (cs ≡ rest))
            ⊎ (cs ≡ record { id = id; key = key; old_key = lookup id h.wl_entries } ∷ rest))
  unfolding check_batch
  check_batch-put id key ps seen h cs e = elim (Bool-cases (is_taken (lookup key seen) id)) [
    | inl twice ↦ (let never : none ≡ some cs = rw twice at e in cc)
    | inr once ↦ elim (Bool-cases (is_taken (lookup key h.wl_key_index) id)) [
      | inl taken ↦ (let never : none ≡ some cs = rw (once, taken) at e in cc)
      | inr free ↦
          let s = add_change-put _ _ _ cs (rw (once, free) at e) in
          elim s.2 [
            | inl kept ↦
                (s.0, s.1, inl (is_unchanged-key (lookup id h.wl_entries) key kept.0, kept.1))
            | inr more ↦ (s.0, s.1, inr more)
          ]
    ]
  ]

  put_changes-lookup :
      (ps : GoMap String RuleKey) (seen : GoMap RuleKey String) (h : Handlers M C T)
      (cs : List Change) (m : GoMap String RuleKey) (j : String)
      → IsUnique ps
      → check_batch ps seen h ≡ some cs
      → (lookup j ps ≢ none → lookup j m ≡ lookup j h.wl_entries)
      → lookup j (put_changes cs m) ≡ or_else (lookup j ps) (lookup j m)
  unfolding check_batch or_else lookup
  put_changes-lookup [] seen h [] m j u e same = refl
  put_changes-lookup [] seen h (c ∷ cs) m j u e same = cc
  put_changes-lookup ((id, key) ∷ ps) seen h cs m j u e same =
      let s = check_batch-put id key ps seen h cs e in
      let later =
        λ (w : GoMap String RuleKey)
            (keep : lookup j ps ≢ none → lookup j w ≡ lookup j h.wl_entries).
          put_changes-lookup ps (insert key id seen) h s.0 w j u.1 s.1 keep in
      elim (Bool-cases (string_eq.beq id j)) [
        | inl mine ↦
            let name = (string_eq.beq_iff id j).0 mine in
            let gone = subst (λ i. lookup i ps ≡ none) name u.0 in
            let here : lookup j m ≡ lookup j h.wl_entries = same (rw mine (λ never. cc)) in
            let alone = λ (w : GoMap String RuleKey).
              later w (λ listed. absurd (listed gone)) ∙ ap (λ o. or_else o (lookup j w)) gone in
            rw mine (elim s.2 [
              | inl kept ↦
                  rw kept.1
                    (alone m ∙ here ∙ subst (λ i. lookup i h.wl_entries ≡ some key) name kept.0)
              | inr more ↦
                  rw more (alone (insert id key m) ∙ ground (arith, lookup-insert id j key m, mine))
            ])
        | inr other ↦
            let skipped : lookup j (insert id key m) ≡ lookup j m =
              ground (arith, lookup-insert id j key m, other) in
            let before = λ (listed : lookup j ps ≢ none). same (rw other listed) in
            rw other (elim s.2 [
              | inl kept ↦ rw kept.1 (later m before)
              | inr more ↦ rw more (
                  later (insert id key m) (λ listed. skipped ∙ before listed)
                  ∙ ap (or_else (lookup j ps)) skipped)
            ])
      ]

or_else_assoc : (a b c : Option RuleKey) → or_else a (or_else b c) ≡ or_else (or_else a b) c
unfolding or_else
or_else_assoc none b c = refl
or_else_assoc (some key) b c = refl

or_else_if :
    (b : Bool) (key : RuleKey) (o old : Option RuleKey)
    → o ≡ some key
    → (if b then some key else old) ≡ or_else (if b then o else none) old
unfolding or_else
or_else_if true key o old found = rw found refl
or_else_if false key o old found = refl

prepare_entries-lookup :
    (entries : List (String × WhitelistEntry)) (ps qs : GoMap String RuleKey) (j : String)
    → prepare_entries entries ps ≡ some qs
    → lookup j qs ≡ or_else (wanted_key j entries) (lookup j ps)
unfolding prepare_entries wanted_key or_else
prepare_entries-lookup [] ps qs j e = (let same : ps ≡ qs = cc in ap (lookup j) (sym same))
prepare_entries-lookup ((new_id, entry) ∷ entries) ps qs j e =
    let s = prepare_entries-cons new_id entry entries ps qs (route_whitelist entry) refl e in
    let id = entry_id new_id entry in
    let first =
      lookup-insert id j s.0 ps
      ∙ or_else_if (string_eq.beq id j) s.0 (route_whitelist entry) (lookup j ps) s.1 in
    prepare_entries-lookup entries (insert id s.0 ps) qs j s.2
    ∙ ap (or_else (wanted_key j entries)) first
    ∙ or_else_assoc (wanted_key j entries) _ (lookup j ps)

or_else-none : (a : Option RuleKey) → or_else a none ≡ a
unfolding or_else
or_else-none none = refl
or_else-none (some key) = refl

prepared-lookup :
    (entries : List (String × WhitelistEntry)) (qs : GoMap String RuleKey) (j : String)
    → prepare_entries entries [] ≡ some qs
    → lookup j qs ≡ wanted_key j entries
unfolding lookup
prepared-lookup entries qs j e =
    prepare_entries-lookup entries [] qs j e ∙ or_else-none (wanted_key j entries)

module _ {M C T : Type 0} where
  commit_whitelist-entries :
      (id : String) (old : Option RuleKey) (key : RuleKey) (h : Handlers M C T)
      → (commit_whitelist id old key h).wl_entries ≡ insert id key h.wl_entries
  unfolding commit_whitelist
  commit_whitelist-entries id none key h = refl
  commit_whitelist-entries id (some old) key h = refl

  commit_changes-entries :
      (cs : List Change) (h : Handlers M C T)
      → (commit_changes cs h).wl_entries ≡ put_changes cs h.wl_entries
  unfolding commit_changes
  commit_changes-entries [] h = refl
  commit_changes-entries (c ∷ cs) h =
      commit_changes-entries cs (commit_whitelist c.id c.old_key c.key h)
      ∙ ap (put_changes cs) (commit_whitelist-entries c.id c.old_key c.key h)

module _ {M C T : Type 0} (bpf : Bpf M C T) where
  settled-entries :
      (v : View) (cs : List Change) (p : Handlers M C T × BatchAnswer) (n : ℕ)
      → IsSettled v cs p
      → p.1 ≡ added_entries n
      → p.0.wl_entries ≡ put_changes cs v.0
  settled-entries v cs p n (inl (failed, same)) done =
      (let never : bpf_failed ≡ added_entries n = sym failed ∙ done in cc)
  settled-entries v cs p n (inr (g, same, end)) done =
      ap (λ x. x.0.wl_entries) end ∙ commit_changes-entries cs g ∙ ap (λ w. put_changes cs w.0) same

  add_checked-lookup :
      (o : Option (List Change)) (ps : GoMap String RuleKey) (h : Handlers M C T) (n : ℕ)
      (j : String)
      → IsUnique ps
      → check_batch ps [] h ≡ o
      → (add_checked bpf o h).1 ≡ added_entries n
      → lookup j (add_checked bpf o h).0.wl_entries ≡ or_else (lookup j ps) (lookup j h.wl_entries)
  unfolding add_checked
  add_checked-lookup none ps h n j u e done = cc
  add_checked-lookup (some cs) ps h n j u e done =
      ap (lookup j) (settled-entries (wl_view h) cs _ n (all_phases-IsSettled bpf cs h) done)
      ∙ put_changes-lookup ps [] h cs h.wl_entries j u e (λ listed. refl)

  add_prepared-lookup :
      (o : Option (GoMap String RuleKey)) (entries : List (String × WhitelistEntry))
      (h : Handlers M C T) (n : ℕ) (j : String)
      → prepare_entries entries [] ≡ o
      → (add_prepared bpf o h).1 ≡ added_entries n
      → lookup j (add_prepared bpf o h).0.wl_entries
        ≡ or_else (wanted_key j entries) (lookup j h.wl_entries)
  unfolding add_prepared lookup or_else
  add_prepared-lookup none entries h n j e done = cc
  add_prepared-lookup (some []) entries h n j e done =
      ap (λ o. or_else o (lookup j h.wl_entries)) (prepared-lookup entries [] j e)
  add_prepared-lookup (some (p ∷ ps)) entries h n j e done =
      add_checked-lookup (check_batch (p ∷ ps) [] h) (p ∷ ps) h n j
        (prepare_entries-IsUnique entries [] (p ∷ ps) tt e) refl done
      ∙ ap (λ o. or_else o (lookup j h.wl_entries)) (prepared-lookup entries (p ∷ ps) j e)

  -- Where AddWhitelistBatch answers that entries were added, each id is remembered with the key that
  -- the last entry of the request with this id asks for, and as before where no entry has it.
  pub add_whitelist_batch-lookup :
      (entries : List (String × WhitelistEntry)) (h : Handlers M C T) (n : ℕ) (j : String)
      → (add_whitelist_batch bpf entries h).1 ≡ added_entries n
      → lookup j (add_whitelist_batch bpf entries h).0.wl_entries
        ≡ or_else (wanted_key j entries) (lookup j h.wl_entries)
  unfolding add_whitelist_batch
  add_whitelist_batch-lookup entries h n j done =
      add_prepared-lookup (prepare_entries entries []) entries h n j refl done
