-- ===== src/Agent/Whitelist.antt =====
-- node/agent/api/whitelist.go, and AddWhitelistFromSync and ClearAllWhitelistFromSync of sync.go: the
-- whitelist, whose BPF map is doubled like the blacklist's.
pub mod Invariant
pub mod Deleted
pub mod Clear
pub mod Batch
pub mod AddBatch
mod Tests
use Prim.Native.String.{String}
use mathlib.Core.List.{List, [], ◌∷◌}
use xdrop.Prelude.GoMap.{GoMap, lookup, insert, delete}
use xdrop.Prelude.Int.{ℤ, pos, negsuc, ◌-ℤ◌}
use xdrop.Prelude.Text.{string_eq}
use xdrop.Prelude.Bytes.{Bytes}
use xdrop.Ebpf.{MapOps, update_no_exist}
use xdrop.Agent.Types.{RuleKey, WhitelistEntry, rule_key_eq}
use xdrop.Agent.Combo.{validate_combo_type, get_combo_type}
use xdrop.Agent.Wire.{rule_key_to_bytes}
use xdrop.Agent.Validate.{validate_port_protocol_compat_node}
use xdrop.Agent.Convert.{whitelist_to_key}
use xdrop.Agent.Store.{count_combo}
use xdrop.Agent.State.{Handlers, Bpf}
use xdrop.Agent.Config.{publish_config_update, active_whitelist, set_active_whitelist}
use xdrop.Agent.Rules.{Reply, success, conflict, internal_error, not_found, is_taken}
use xdrop.Prelude.{Bool, Option, if◌then◌else◌, true, some, false, none}

-- the checks before the locks; `none` is a refusal
unfoldable pub route_whitelist : WhitelistEntry → Option RuleKey
route_whitelist req = elim (whitelist_to_key req) [
  | none ↦ none
  | some key ↦ elim (validate_combo_type (get_combo_type key)) [
    | some e ↦ none
    | none ↦ elim (validate_port_protocol_compat_node req.protocol req.src_port req.dst_port) [
      | some e ↦ none
      | none ↦ some key
    ]
  ]
]

-- `[]byte{1}`
abbrev pub wl_value : Bytes
wl_value = 1 ∷ []

-- the count of the entries does not change where one is replaced
unfoldable pub wl_count_delta : Option RuleKey → ℤ
wl_count_delta none = pos 1
wl_count_delta (some old) = pos 0

-- `oldKey != nil && *oldKey == key`
unfoldable pub is_unchanged : Option RuleKey → RuleKey → Bool
is_unchanged none key = false
is_unchanged (some old) key = rule_key_eq.beq old key

module _ {M C T : Type 0} where
  -- `h.wlComboRefCount[getComboType(key)] += delta`: the combo of a key that passed the checks
  unfoldable pub count_whitelist : RuleKey → ℤ → Handlers M C T → Handlers M C T
  unfolding count_combo
  count_whitelist key delta h = record h {
    wl_combo_ref_count = count_combo (get_combo_type key) delta h.wl_combo_ref_count;
  }

  unfoldable pub count_old : Option RuleKey → ℤ → Handlers M C T → Handlers M C T
  unfolding count_whitelist
  count_old none delta h = h
  count_old (some old) delta h = count_whitelist old delta h

  -- the memory of an entry
  unfoldable pub commit_whitelist :
      String → Option RuleKey → RuleKey → Handlers M C T → Handlers M C T
  unfolding insert delete
  commit_whitelist id none key h = record h {
    wl_entries = insert id key h.wl_entries;
    wl_key_index = insert key id h.wl_key_index;
  }
  commit_whitelist id (some old) key h = record h {
    wl_entries = insert id key h.wl_entries;
    wl_key_index = insert key id (delete old h.wl_key_index);
  }

  unfoldable pub take_whitelist : String → RuleKey → Handlers M C T → Handlers M C T
  unfolding count_whitelist delete
  take_whitelist id key h =
      let h' = count_whitelist key (negsuc 0) h in
      record h' { wl_key_index = delete key h'.wl_key_index; wl_entries = delete id h'.wl_entries }

  unfoldable pub put_whitelist : String → RuleKey → Handlers M C T → Handlers M C T
  unfolding count_whitelist insert
  put_whitelist id key h =
      let h' = count_whitelist key (pos 1) h in
      record h' {
        wl_entries = insert id key h'.wl_entries;
        wl_key_index = insert key id h'.wl_key_index;
      }

module _ {M C T : Type 0} (bpf : Bpf M C T) where
  open bpf use {maps}

  -- the entry of an old key goes before the new one comes; the flag is false if it stays
  unfoldable pub drop_old_whitelist : Option RuleKey → Handlers M C T → Handlers M C T × Bool
  unfolding count_whitelist
  drop_old_whitelist none h = (h, true)
  drop_old_whitelist (some old) h =
      let deleted = maps.delete (active_whitelist h) (rule_key_to_bytes old) in
      let h' = set_active_whitelist deleted.0 h in
      if deleted.1 then (count_whitelist old (negsuc 0) h', true) else (h', false)

  -- the entry of an old key, written again as far as that succeeds
  unfoldable pub restore_whitelist : Option RuleKey → Handlers M C T → Handlers M C T
  restore_whitelist none h = h
  restore_whitelist (some old) h =
      let written =
        maps.update (active_whitelist h) update_no_exist (rule_key_to_bytes old) wl_value in
      set_active_whitelist written.0 h

  -- the counts and the entry of the old key, as they were
  unfoldable pub undo_whitelist : Option RuleKey → RuleKey → Handlers M C T → Handlers M C T
  unfolding count_old count_whitelist restore_whitelist
  undo_whitelist old key h =
      restore_whitelist old (count_old old (pos 1) (count_whitelist key (negsuc 0) h))

  -- the entry of the new key, after a publication; where that fails, all the way back
  unfoldable pub enter_whitelist :
      String → Option RuleKey → RuleKey → Handlers M C T → Handlers M C T × Reply
  unfolding commit_whitelist undo_whitelist wl_count_delta
  enter_whitelist id old key h =
      let written =
        maps.update (active_whitelist h) update_no_exist (rule_key_to_bytes key) wl_value in
      let h' = set_active_whitelist written.0 h in
      if written.1 then (commit_whitelist id old key h', success id) else (
        (publish_config_update bpf (undo_whitelist old key h') (pos 0) (pos 0 -ℤ wl_count_delta old)
            (pos 0)).0,
        internal_error,
      )

  unfoldable pub publish_whitelist :
      String → Option RuleKey → RuleKey → Handlers M C T × Bool → Handlers M C T × Reply
  unfolding enter_whitelist undo_whitelist
  publish_whitelist id old key (h, true) = enter_whitelist id old key h
  publish_whitelist id old key (h, false) = (undo_whitelist old key h, internal_error)

  unfoldable pub replace_whitelist :
      String → Option RuleKey → RuleKey → Handlers M C T → Handlers M C T × Reply
  unfolding drop_old_whitelist publish_whitelist count_whitelist wl_count_delta
  replace_whitelist id old key h =
      let dropped = drop_old_whitelist old h in
      let counted = count_whitelist key (pos 1) dropped.0 in
      if dropped.1
      then publish_whitelist id old key
          (publish_config_update bpf counted (pos 0) (wl_count_delta old) (pos 0))
      else (dropped.0, internal_error)

  -- AddWhitelist and AddWhitelistFromSync under their locks
  unfoldable pub store_whitelist : Handlers M C T → String → RuleKey → Handlers M C T × Reply
  unfolding is_taken is_unchanged replace_whitelist
  store_whitelist h id key =
      let old = lookup id h.wl_entries in
      if is_taken (lookup key h.wl_key_index) id
      then (h, conflict)
      else if is_unchanged old key
      then (h, success id)
      else replace_whitelist id old key h

  unfoldable pub publish_delete : String → RuleKey → Handlers M C T × Bool → Handlers M C T × Reply
  unfolding restore_whitelist put_whitelist
  publish_delete id key (h, true) = (h, success id)
  publish_delete id key (h, false) =
      (restore_whitelist (some key) (put_whitelist id key h), internal_error)

  unfoldable pub delete_entry : String → Option RuleKey → Handlers M C T → Handlers M C T × Reply
  unfolding take_whitelist publish_delete
  delete_entry id none h = (h, not_found)
  delete_entry id (some key) h =
      let deleted = maps.delete (active_whitelist h) (rule_key_to_bytes key) in
      let h' = set_active_whitelist deleted.0 h in
      if deleted.1
      then publish_delete id key
          (publish_config_update bpf (take_whitelist id key h') (pos 0) (negsuc 0) (pos 0))
      else (h', internal_error)

  unfoldable pub delete_whitelist : String → Handlers M C T → Handlers M C T × Reply
  unfolding delete_entry
  delete_whitelist id h = delete_entry id (lookup id h.wl_entries) h
