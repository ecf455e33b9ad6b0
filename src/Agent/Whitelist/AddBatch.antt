-- ===== src/Agent/Whitelist/AddBatch.antt =====
-- AddWhitelistBatch of node/agent/api/whitelist.go: all entries of the request, or none.
pub mod Counts
pub mod Settled
pub mod Ready
pub mod Invariant
pub mod Added
mod Tests
use mathlib.Core.List.{List, [], ◌∷◌, ◌++◌}
use Prim.Native.Nat.{ℕ, zero, suc}
use Prim.Native.String.{String}
use xdrop.Prelude.{Bool, Option, some, none, true, false, if◌then◌else◌, length, ◌+◌}
use xdrop.Prelude.GoMap.{GoMap, lookup, insert}
use xdrop.Prelude.Int.{ℤ, pos, negsuc, ◌-ℤ◌}
use xdrop.Prelude.Text.{string_eq}
use xdrop.Ebpf.{update_no_exist}
use xdrop.Agent.Types.{RuleKey, WhitelistEntry, rule_key_eq}
use xdrop.Agent.Wire.{rule_key_to_bytes}
use xdrop.Agent.State.{Handlers, Bpf}
use xdrop.Agent.Config.{active_whitelist, set_active_whitelist, publish_config_update}
use xdrop.Agent.Rules.{is_taken}
use xdrop.Agent.Whitelist.{
  route_whitelist, wl_value, is_unchanged, count_whitelist, count_old, commit_whitelist,
  restore_whitelist, undo_whitelist,
}

-- the id of an entry, or the UUID that it gets
pub entry_id : String → WhitelistEntry → String
entry_id new_id entry = if string_eq.beq entry.id "" then new_id else entry.id

-- phase 1: the keys by their ids, a later entry in the place of an earlier one with its id; `none`
-- is a refusal
unfoldable pub prepare_entries :
    List (String × WhitelistEntry) → GoMap String RuleKey → Option (GoMap String RuleKey)
unfolding entry_id insert
prepare_entries [] prepared = some prepared
prepare_entries ((new_id, entry) ∷ entries) prepared = elim (route_whitelist entry) [
  | none ↦ none
  | some key ↦ prepare_entries entries (insert (entry_id new_id entry) key prepared)
]

-- `preparedEntry`, after phase 2
pub record Change : Type 0 where
  pub id : String
  pub key : RuleKey
  pub old_key : Option RuleKey

-- an entry that keeps its key is skipped by the later phases, so it is left out here
unfoldable pub add_change : Change → Bool → Option (List Change) → Option (List Change)
add_change c unchanged none = none
add_change c true (some cs) = some cs
add_change c false (some cs) = some (c ∷ cs)

is_new_entry : Option RuleKey → ℕ
is_new_entry none = 1
is_new_entry (some old) = 0

unfoldable pub net_new_entries : List Change → ℕ
unfolding is_new_entry
net_new_entries [] = 0
net_new_entries (c ∷ cs) = is_new_entry c.old_key + net_new_entries cs

pub data BatchAnswer : Type 0 where
  added_entries : ℕ → BatchAnswer
  invalid_entry : BatchAnswer
  conflicting_key : BatchAnswer
  bpf_failed : BatchAnswer

module _ {M C T : Type 0} where
  -- phase 2, with the owners of the keys seen so far; `none` is a conflict
  unfoldable pub check_batch :
      GoMap String RuleKey → GoMap RuleKey String → Handlers M C T → Option (List Change)
  unfolding is_taken is_unchanged lookup insert add_change
  check_batch [] seen h = some []
  check_batch ((id, key) ∷ ps) seen h =
      let old = lookup id h.wl_entries in
      let rest = check_batch ps (insert key id seen) h in
      if is_taken (lookup key seen) id
      then none
      else if is_taken (lookup key h.wl_key_index) id
      then none
      else add_change (record { id = id; key = key; old_key = old }) (is_unchanged old key) rest

  -- phase 4
  unfoldable pub count_changes : List Change → Handlers M C T → Handlers M C T
  unfolding count_whitelist count_old
  count_changes [] h = h
  count_changes (c ∷ cs) h =
      count_changes cs (count_whitelist c.key (pos 1) (count_old c.old_key (negsuc 0) h))

  -- phase 7
  unfoldable pub commit_changes : List Change → Handlers M C T → Handlers M C T
  unfolding commit_whitelist
  commit_changes [] h = h
  commit_changes (c ∷ cs) h = commit_changes cs (commit_whitelist c.id c.old_key c.key h)

module _ {M C T : Type 0} (bpf : Bpf M C T) where
  open bpf use {maps}

  unfoldable pub delete_old : Option RuleKey → Handlers M C T → Handlers M C T × Bool
  delete_old none h = (h, true)
  delete_old (some old) h =
      let deleted = maps.delete (active_whitelist h) (rule_key_to_bytes old) in
      (set_active_whitelist deleted.0 h, deleted.1)

  unfoldable pub restore_olds : List Change → Handlers M C T → Handlers M C T
  unfolding restore_whitelist
  restore_olds [] h = h
  restore_olds (c ∷ cs) h = restore_olds cs (restore_whitelist bpf c.old_key h)

  -- phase 3, with the changes whose old entries are deleted
  unfoldable pub delete_olds : List Change → List Change → Handlers M C T → Handlers M C T × Bool
  unfolding delete_old restore_olds
  delete_olds done [] h = (h, true)
  delete_olds done (c ∷ cs) h =
      let deleted = delete_old c.old_key h in
      let rest = delete_olds (done ++ (c ∷ [])) cs deleted.0 in
      if deleted.1 then rest else (restore_olds done deleted.0, false)

  -- the rollback of the counts and of the old entries
  unfoldable pub undo_changes : List Change → Handlers M C T → Handlers M C T
  unfolding undo_whitelist
  undo_changes [] h = h
  undo_changes (c ∷ cs) h = undo_changes cs (undo_whitelist bpf c.old_key c.key h)

  unfoldable pub delete_inserted : List Change → Handlers M C T → Handlers M C T
  delete_inserted [] h = h
  delete_inserted (c ∷ cs) h =
      delete_inserted cs
        (set_active_whitelist (maps.delete (active_whitelist h) (rule_key_to_bytes c.key)).0 h)

  -- the rollback of phase 6
  unfoldable pub take_back : List Change → List Change → Handlers M C T → Handlers M C T
  unfolding undo_changes delete_inserted net_new_entries
  take_back cs inserted h =
      (publish_config_update bpf (undo_changes cs (delete_inserted inserted h)) (pos 0)
        (pos 0 -ℤ pos (net_new_entries cs)) (pos 0)).0

  -- phase 6, for all changes of the batch, with the inserted ones
  unfoldable pub insert_entries :
      List Change → List Change → List Change → Handlers M C T → Handlers M C T × Bool
  unfolding take_back
  insert_entries all inserted [] h = (h, true)
  insert_entries all inserted (c ∷ cs) h =
      let written =
        maps.update (active_whitelist h) update_no_exist (rule_key_to_bytes c.key) wl_value in
      let h' = set_active_whitelist written.0 h in
      let rest = insert_entries all (inserted ++ (c ∷ [])) cs h' in
      if written.1 then rest else (take_back all inserted h', false)

  unfoldable pub settle_inserted :
      List Change → Handlers M C T × Bool → Handlers M C T × BatchAnswer
  unfolding commit_changes
  settle_inserted cs (h, true) = (commit_changes cs h, added_entries (length cs))
  settle_inserted cs (h, false) = (h, bpf_failed)

  unfoldable pub insert_published :
      List Change → Handlers M C T × Bool → Handlers M C T × BatchAnswer
  unfolding settle_inserted insert_entries undo_changes
  insert_published cs (h, true) = settle_inserted cs (insert_entries cs [] cs h)
  insert_published cs (h, false) = (undo_changes cs h, bpf_failed)

  -- phases 4 and 5
  unfoldable pub publish_changes :
      List Change → Handlers M C T × Bool → Handlers M C T × BatchAnswer
  unfolding insert_published count_changes net_new_entries
  publish_changes cs (h, true) =
      insert_published cs
        (publish_config_update bpf (count_changes cs h) (pos 0) (pos (net_new_entries cs)) (pos 0))
  publish_changes cs (h, false) = (h, bpf_failed)

  unfoldable pub add_checked : Option (List Change) → Handlers M C T → Handlers M C T × BatchAnswer
  unfolding publish_changes delete_olds
  add_checked none h = (h, conflicting_key)
  add_checked (some cs) h = publish_changes cs (delete_olds [] cs h)

  unfoldable pub add_prepared :
      Option (GoMap String RuleKey) → Handlers M C T → Handlers M C T × BatchAnswer
  unfolding add_checked check_batch
  add_prepared none h = (h, invalid_entry)
  add_prepared (some []) h = (h, added_entries 0)
  add_prepared (some (p ∷ ps)) h = add_checked (check_batch (p ∷ ps) [] h) h

  unfoldable pub add_whitelist_batch :
      List (String × WhitelistEntry) → Handlers M C T → Handlers M C T × BatchAnswer
  unfolding prepare_entries add_prepared
  add_whitelist_batch entries h = add_prepared (prepare_entries entries []) h
