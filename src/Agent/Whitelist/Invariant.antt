-- ===== src/Agent/Whitelist/Invariant.antt =====
-- The invariant of the whitelist under the handlers of node/agent/api/whitelist.go and sync.go.
use xdrop.Prelude.GoMap.{GoMap, lookup, insert, delete}
use xdrop.Prelude.Int.{ℤ, pos, negsuc, ◌+ℤ◌, ◌-ℤ◌}
use xdrop.Prelude.Text.{string_eq}
use xdrop.Agent.Types.{RuleKey, rule_key_eq}
use xdrop.Agent.Combo.{get_combo_type}
use xdrop.Agent.Store.{count_combo}
use xdrop.Agent.Store.Invariant.{IsStore, put_new, put_old}
use xdrop.Agent.Rules.Invariant.{not_taken-cases}
use xdrop.Agent.State.{Handlers, Bpf}
use xdrop.Agent.Config.{
  active_whitelist, set_active_whitelist, set_shadow, switch_active, publish_config_update,
}
use xdrop.Agent.Rules.{is_taken}
use xdrop.Agent.Whitelist.{
  Bool, Option, String, restore_whitelist, undo_whitelist, some, count_old, count_whitelist,
  enter_whitelist, false, update_no_exist, rule_key_to_bytes, wl_value, wl_count_delta,
  replace_whitelist, commit_whitelist, publish_whitelist, drop_old_whitelist, store_whitelist,
  is_unchanged, true,
}
use Prim.Native.Nat.{ℕ}
use xdrop.Prelude.{◌≡◌, ◌∙◌, arith, refl, none, ap, Bool-cases, inl, inr, subst, sym}

abbrev pub View : Type 0
View = GoMap String RuleKey × GoMap RuleKey String × (ℕ → ℤ)

abbrev pub IsConsistent : View → Type 0
IsConsistent v = IsStore (λ (k : RuleKey). k) get_combo_type v.0 v.1 v.2

module _ {M C T : Type 0} where
  -- what the agent remembers of the whitelist
  abbrev pub wl_view : Handlers M C T → View
  wl_view h = (h.wl_entries, h.wl_key_index, h.wl_combo_ref_count)

  pub set_active_whitelist-view :
      (m : M) (h : Handlers M C T) → wl_view (set_active_whitelist m h) ≡ wl_view h
  unfolding set_active_whitelist
  set_active_whitelist-view m h = ground arith

-- each entry is indexed by its key, the index names nothing else, and each combo has its count
abbrev pub IsWhitelist : {M C T : Type 0} → Handlers M C T → Type 0
IsWhitelist h = IsConsistent (wl_view h)

-- the counts with an old entry gone
dec_old : Option RuleKey → (ℕ → ℤ) → ℕ → ℤ
dec_old none refs = refs
dec_old (some old) refs = count_combo (get_combo_type old) (negsuc 0) refs

-- the counts while an entry is on its way
started : Option RuleKey → RuleKey → View → View
started old key v = (v.0, v.1, count_combo (get_combo_type key) (pos 1) (dec_old old v.2))

count_combo_back :
    (k : ℤ) (refs : ℕ → ℤ) (c : ℕ)
    → count_combo k (negsuc 0) (count_combo k (pos 1) refs) c ≡ refs c
unfolding count_combo ◌+ℤ◌
count_combo_back (pos n) refs c = ground arith
count_combo_back (negsuc n) refs c = refl

count_combo_forth :
    (k : ℤ) (refs refs' : ℕ → ℤ) (c : ℕ)
    → refs' c ≡ count_combo k (negsuc 0) refs c
    → count_combo k (pos 1) refs' c ≡ refs c
unfolding count_combo ◌+ℤ◌
count_combo_forth (pos n) refs refs' c same = ground arith
count_combo_forth (negsuc n) refs refs' c same = same

same_counts :
    (v : View) (refs : ℕ → ℤ)
    → IsConsistent v
    → ((c : ℕ) → refs c ≡ v.2 c)
    → IsConsistent (v.0, v.1, refs)
same_counts v refs st same = record {
  unique = st.unique;
  indexed = st.indexed;
  named = st.named;
  counted = λ c small. same c ∙ st.counted c small;
}

pub of_view :
    {M C T : Type 0} (h : Handlers M C T) (v : View)
    → wl_view h ≡ v
    → IsConsistent v
    → IsWhitelist h
of_view h v same st = subst IsConsistent (sym same) st

-- a key that no other id has, where the id has none
pub not_owned :
    (v : View) (id : String) (key : RuleKey)
    → IsConsistent v
    → lookup id v.0 ≡ none
    → is_taken (lookup key v.1) id ≡ false
    → lookup key v.1 ≡ none
not_owned v id key st found free = elim (not_taken-cases (lookup key v.1) id free) [
  | inl unused ↦ unused
  | inr mine ↦ (let owner = st.named key id mine in cc)
]

module _ {M C T : Type 0} (bpf : Bpf M C T) where
  switch_active-view :
      (h : Handlers M C T) (filled : C × Bool) → wl_view (switch_active bpf h filled).0 ≡ wl_view h
  unfolding switch_active set_shadow
  switch_active-view h filled = ground arith

  pub publish-view :
      (h : Handlers M C T) (d wl cidr : ℤ)
      → wl_view (publish_config_update bpf h d wl cidr).0 ≡ wl_view h
  unfolding publish_config_update
  publish-view h d wl cidr = switch_active-view h _

  pub restore_whitelist-view :
      (old : Option RuleKey) (h : Handlers M C T)
      → wl_view (restore_whitelist bpf old h) ≡ wl_view h
  unfolding restore_whitelist
  restore_whitelist-view none h = refl
  restore_whitelist-view (some old) h = set_active_whitelist-view _ h

  undo_whitelist-IsWhitelist :
      (old : Option RuleKey) (key : RuleKey) (h : Handlers M C T) (v : View)
      → IsConsistent v
      → wl_view h ≡ started old key v
      → IsWhitelist (undo_whitelist bpf old key h)
  unfolding undo_whitelist count_old count_whitelist started dec_old
  undo_whitelist-IsWhitelist none key h v st same =
      of_view (undo_whitelist bpf none key h) _
        (ap (λ w. (w.0, w.1, count_combo (get_combo_type key) (negsuc 0) w.2)) same)
        (same_counts v _ st (count_combo_back (get_combo_type key) v.2))
  undo_whitelist-IsWhitelist (some old) key h v st same =
      of_view (undo_whitelist bpf (some old) key h) _
        (restore_whitelist-view (some old)
            (count_old (some old) (pos 1) (count_whitelist key (negsuc 0) h))
          ∙ ap
              (λ w. (
                w.0,
                w.1,
                count_combo (get_combo_type old) (pos 1)
                    (count_combo (get_combo_type key) (negsuc 0) w.2),
              ))
              same)
        (same_counts v _ st (λ c. count_combo_forth (get_combo_type old) v.2 _ c (
          count_combo_back (get_combo_type key) (count_combo (get_combo_type old) (negsuc 0) v.2)
            c)))

  commit_whitelist-IsWhitelist :
      (id : String) (old : Option RuleKey) (key : RuleKey) (h : Handlers M C T) (v : View)
      → IsConsistent v
      → lookup id v.0 ≡ old
      → is_taken (lookup key v.1) id ≡ false
      → wl_view h ≡ started old key v
      → IsWhitelist (commit_whitelist id old key h)
  unfolding commit_whitelist started dec_old
  commit_whitelist-IsWhitelist id none key h v st found free same =
      of_view (commit_whitelist id none key h) _
        (ap (λ w. (insert id key w.0, insert key id w.1, w.2)) same)
        (put_new _ _ v.0 v.1 v.2 st id key found (not_owned v id key st found free))
  commit_whitelist-IsWhitelist id (some old) key h v st found free same =
      of_view (commit_whitelist id (some old) key h) _
        (ap (λ w. (insert id key w.0, insert key id (delete old w.1), w.2)) same)
        (put_old _ _ v.0 v.1 v.2 st id key old found (not_taken-cases (lookup key v.1) id free))

  enter_whitelist-IsWhitelist :
      (id : String) (old : Option RuleKey) (key : RuleKey) (h : Handlers M C T) (v : View)
      → IsConsistent v
      → lookup id v.0 ≡ old
      → is_taken (lookup key v.1) id ≡ false
      → wl_view h ≡ started old key v
      → IsWhitelist (enter_whitelist bpf id old key h).0
  unfolding enter_whitelist
  enter_whitelist-IsWhitelist id old key h v st found free same =
      let written =
        bpf.maps.update (active_whitelist h) update_no_exist (rule_key_to_bytes key) wl_value in
      let h' = set_active_whitelist written.0 h in
      let same' : wl_view h' ≡ started old key v = set_active_whitelist-view written.0 h ∙ same in
      elim (Bool-cases written.1) [
        | inl done ↦ rw done (commit_whitelist-IsWhitelist id old key h' v st found free same')
        | inr failed ↦
            let undone = undo_whitelist-IsWhitelist old key h' v st same' in
            rw failed (
              rw
                (publish-view (undo_whitelist bpf old key h') (pos 0) (pos 0 -ℤ wl_count_delta old)
                  (pos 0))
                undone)
      ]

  publish_whitelist-IsWhitelist :
      (id : String) (old : Option RuleKey) (key : RuleKey) (p : Handlers M C T × Bool) (v : View)
      → IsConsistent v
      → lookup id v.0 ≡ old
      → is_taken (lookup key v.1) id ≡ false
      → wl_view p.0 ≡ started old key v
      → IsWhitelist (publish_whitelist bpf id old key p).0
  unfolding publish_whitelist
  publish_whitelist-IsWhitelist id old key (h, true) v st found free same =
      enter_whitelist-IsWhitelist id old key h v st found free same
  publish_whitelist-IsWhitelist id old key (h, false) v st found free same =
      undo_whitelist-IsWhitelist old key h v st same

  dropped-view :
      (old : Option RuleKey) (key : RuleKey) (h : Handlers M C T)
      → (drop_old_whitelist bpf old h).1 ≡ true
      → wl_view (count_whitelist key (pos 1) (drop_old_whitelist bpf old h).0)
        ≡ started old key (wl_view h)
  unfolding drop_old_whitelist count_whitelist started dec_old
  dropped-view none key h done = refl
  dropped-view (some old) key h done =
      let deleted = bpf.maps.delete (active_whitelist h) (rule_key_to_bytes old) in
      elim (Bool-cases deleted.1) [
        | inl ok ↦ rw ok (
            ap
              (λ w. (
                w.0,
                w.1,
                count_combo (get_combo_type key) (pos 1)
                    (count_combo (get_combo_type old) (negsuc 0) w.2),
              ))
              (set_active_whitelist-view deleted.0 h))
        | inr stop ↦ (let never : false ≡ true = rw stop at done in cc)
      ]

  kept-view :
      (old : Option RuleKey) (h : Handlers M C T)
      → (drop_old_whitelist bpf old h).1 ≡ false
      → wl_view (drop_old_whitelist bpf old h).0 ≡ wl_view h
  unfolding drop_old_whitelist
  kept-view none h failed = cc
  kept-view (some old) h failed =
      let deleted = bpf.maps.delete (active_whitelist h) (rule_key_to_bytes old) in
      elim (Bool-cases deleted.1) [
        | inl ok ↦ (let never : true ≡ false = rw ok at failed in cc)
        | inr stop ↦ rw stop (set_active_whitelist-view deleted.0 h)
      ]

  replace_whitelist-IsWhitelist :
      (id : String) (old : Option RuleKey) (key : RuleKey) (h : Handlers M C T)
      → IsWhitelist h
      → lookup id h.wl_entries ≡ old
      → is_taken (lookup key h.wl_key_index) id ≡ false
      → IsWhitelist (replace_whitelist bpf id old key h).0
  unfolding replace_whitelist
  replace_whitelist-IsWhitelist id old key h st found free =
      let dropped = drop_old_whitelist bpf old h in
      let counted = count_whitelist key (pos 1) dropped.0 in
      elim (Bool-cases dropped.1) [
        | inl done ↦ rw done (
            publish_whitelist-IsWhitelist id old key
              (publish_config_update bpf counted (pos 0) (wl_count_delta old) (pos 0)) (wl_view h)
              st found free
              (publish-view counted (pos 0) (wl_count_delta old) (pos 0)
                ∙ dropped-view old key h done))
        | inr failed ↦ rw failed (of_view dropped.0 (wl_view h) (kept-view old h failed) st)
      ]

  -- If the whitelist is consistent (each entry is indexed by its key, the index names nothing else,
  -- and each combo has the count of its entries), it is consistent after the locked part of
  -- AddWhitelist and of AddWhitelistFromSync, whichever call fails.
  pub store_whitelist-IsWhitelist :
      (h : Handlers M C T) (id : String) (key : RuleKey)
      → IsWhitelist h
      → IsWhitelist (store_whitelist bpf h id key).0
  unfolding store_whitelist
  store_whitelist-IsWhitelist h id key st =
      elim (Bool-cases (is_taken (lookup key h.wl_key_index) id)) [
        | inl taken ↦ rw taken st
        | inr free ↦ elim (Bool-cases (is_unchanged (lookup id h.wl_entries) key)) [
          | inl same ↦ rw (free, same) st
          | inr other ↦
              rw (free, other)
                (replace_whitelist-IsWhitelist id (lookup id h.wl_entries) key h st refl free)
        ]
      ]
