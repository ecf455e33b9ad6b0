-- ===== src/Agent/Whitelist/Clear.antt =====
-- ClearAllWhitelistFromSync of node/agent/api/sync.go.
use mathlib.Core.List.{[], ◌∷◌}
use Prim.Native.Nat.{ℕ, zero, suc}
use Prim.Native.String.{String}
use xdrop.Prelude.{
  Bool, true, false, if◌then◌else◌, ◌≡◌, refl, ap, ◌∙◌, Bool-cases, inl, inr, arith, some, subst,
}
use xdrop.Prelude.GoMap.{GoMap, lookup, delete, delete_absent, IsUnique}
use xdrop.Prelude.Int.{pos, ◌-ℤ◌}
use xdrop.Prelude.Text.{string_eq}
use xdrop.Agent.Types.{RuleKey, rule_key_eq}
use xdrop.Agent.Wire.{rule_key_to_bytes}
use xdrop.Agent.State.{Handlers, Bpf}
use xdrop.Agent.Config.{active_whitelist, set_active_whitelist, publish_config_update}
use xdrop.Agent.Whitelist.{take_whitelist, count_whitelist}
use xdrop.Agent.Whitelist.Invariant.{
  IsWhitelist, IsConsistent, wl_view, of_view, set_active_whitelist-view, publish-view,
}
use xdrop.Agent.Whitelist.Deleted.{take_whitelist-IsConsistent}

module _ {M C T : Type 0} (bpf : Bpf M C T) where
  open bpf use {maps}

  -- the loop, which stops at the first error; `n` entries are deleted before it
  unfoldable pub clear_entries :
      GoMap String RuleKey → ℕ → Handlers M C T → (Handlers M C T × ℕ) × Bool
  unfolding take_whitelist
  clear_entries [] n h = ((h, n), true)
  clear_entries ((id, key) ∷ entries) n h =
      let deleted = maps.delete (active_whitelist h) (rule_key_to_bytes key) in
      let h' = set_active_whitelist deleted.0 h in
      let rest = clear_entries entries (suc n) (take_whitelist id key h') in
      if deleted.1 then rest else ((h', n), false)

  -- a publication of the deleted entries, if there are any
  unfoldable pub publish_cleared : ℕ → Handlers M C T → Handlers M C T × Bool
  publish_cleared zero h = (h, true)
  publish_cleared (suc n) h = publish_config_update bpf h (pos 0) (pos 0 -ℤ pos (suc n)) (pos 0)

  -- the flag is false where an error is returned
  unfoldable pub clear_all_whitelist_from_sync : Handlers M C T → Handlers M C T × Bool
  unfolding clear_entries publish_cleared
  clear_all_whitelist_from_sync h =
      let cleared = clear_entries h.wl_entries 0 h in
      let left = cleared.0.0 in
      if cleared.1
      then publish_cleared cleared.0.1 (record left { wl_combo_ref_count = λ c. pos 0 })
      else ((publish_cleared cleared.0.1 left).0, false)

  take_whitelist-entries :
      (id : String) (key : RuleKey) (entries : GoMap String RuleKey) (h : Handlers M C T)
      → h.wl_entries ≡ (id, key) ∷ entries
      → IsUnique ((id, key) ∷ entries)
      → (take_whitelist id key h).wl_entries ≡ entries
  unfolding take_whitelist count_whitelist delete
  take_whitelist-entries id key entries h same u =
      ap (delete id) same ∙ ground (arith, delete_absent id entries u.0, string_eq.beq_iff id id)

  first_entry :
      (id : String) (key : RuleKey) (entries : GoMap String RuleKey)
      → lookup id ((id, key) ∷ entries) ≡ some key
  unfolding lookup
  first_entry id key entries = ground (arith, string_eq.beq_iff id id)

  -- what the loop leaves: a consistent whitelist, and an empty one if there was no error
  clear_entries-IsWhitelist :
      (entries : GoMap String RuleKey) (n : ℕ) (h : Handlers M C T)
      → h.wl_entries ≡ entries
      → IsWhitelist h
      → IsWhitelist (clear_entries entries n h).0.0
        × ((clear_entries entries n h).1 ≡ true → (clear_entries entries n h).0.0.wl_entries ≡ [])
  unfolding clear_entries
  clear_entries-IsWhitelist [] n h same st = (st, λ ok. same)
  clear_entries-IsWhitelist ((id, key) ∷ entries) n h same st =
      let deleted = maps.delete (active_whitelist h) (rule_key_to_bytes key) in
      let h' = set_active_whitelist deleted.0 h in
      let view = set_active_whitelist-view deleted.0 h in
      let there = ap (lookup id) same ∙ first_entry id key entries in
      let taken = take_whitelist-IsConsistent bpf id key h' (wl_view h) st there view in
      let left =
        take_whitelist-entries id key entries h' (ap (λ v. v.0) view ∙ same)
          (subst IsUnique same st.unique) in
      elim (Bool-cases deleted.1) [
        | inl done ↦
            rw done
              (clear_entries-IsWhitelist entries (suc n) (take_whitelist id key h') left taken)
        | inr failed ↦ rw failed (of_view h' (wl_view h) view st, λ ok. cc)
      ]

  publish_cleared-view : (n : ℕ) (h : Handlers M C T) → wl_view (publish_cleared n h).0 ≡ wl_view h
  unfolding publish_cleared
  publish_cleared-view zero h = refl
  publish_cleared-view (suc n) h = publish-view bpf h (pos 0) _ (pos 0)

  -- an empty whitelist has no counts
  without_counts :
      (h : Handlers M C T)
      → IsWhitelist h
      → h.wl_entries ≡ []
      → IsConsistent (h.wl_entries, h.wl_key_index, λ c. pos 0)
  without_counts h st empty = record {
    unique = st.unique;
    indexed = st.indexed;
    named = st.named;
    counted = λ c small. rw empty refl;
  }

  cleared_state :
      (h : Handlers M C T)
      → IsWhitelist h
      → IsWhitelist (clear_all_whitelist_from_sync h).0
        × ((clear_all_whitelist_from_sync h).1 ≡ true
            → (clear_all_whitelist_from_sync h).0.wl_entries ≡ [])
  unfolding clear_all_whitelist_from_sync
  cleared_state h st =
      let cleared = clear_entries h.wl_entries 0 h in
      let left = cleared.0.0 in
      let reset = record left { wl_combo_ref_count = λ c. pos 0 } in
      let loop = clear_entries-IsWhitelist h.wl_entries 0 h refl st in
      elim (Bool-cases cleared.1) [
        | inl done ↦
            let empty = loop.1 done in
            let view = publish_cleared-view cleared.0.1 reset in
            rw done (
              of_view (publish_cleared cleared.0.1 reset).0 _ view
                  (without_counts left loop.0 empty),
              λ ok. ap (λ v. v.0) view ∙ empty,
            )
        | inr failed ↦ rw failed (
          of_view (publish_cleared cleared.0.1 left).0 _ (publish_cleared-view cleared.0.1 left)
              loop.0,
          λ ok. cc,
        )
      ]

  -- If the whitelist is consistent (each entry is indexed by its key, the index names nothing else,
  -- and each combo has the count of its entries), it is consistent after ClearAllWhitelistFromSync,
  -- wherever that stops.
  pub clear_all-IsWhitelist :
      (h : Handlers M C T) → IsWhitelist h → IsWhitelist (clear_all_whitelist_from_sync h).0
  clear_all-IsWhitelist h st = (cleared_state h st).0

  -- If the whitelist is consistent and ClearAllWhitelistFromSync returns no error, no entry is left.
  pub clear_all-empty :
      (h : Handlers M C T)
      → IsWhitelist h
      → (clear_all_whitelist_from_sync h).1 ≡ true
      → (clear_all_whitelist_from_sync h).0.wl_entries ≡ []
  clear_all-empty h st done = (cleared_state h st).1 done
