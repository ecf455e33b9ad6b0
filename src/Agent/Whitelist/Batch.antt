-- ===== src/Agent/Whitelist/Batch.antt =====
-- DeleteWhitelistBatch of node/agent/api/whitelist.go: each entry that can be deleted goes, and then
-- one configuration is published for all; where that fails, all deleted entries come back.
pub mod Invariant
use mathlib.Core.List.{List, [], ◌∷◌}
use Prim.Native.Nat.{ℕ, zero, suc}
use Prim.Native.String.{String}
use xdrop.Prelude.{Bool, Option, some, none, true, false, if◌then◌else◌, length}
use xdrop.Prelude.GoMap.{lookup}
use xdrop.Prelude.Int.{ℤ, pos, ◌-ℤ◌}
use xdrop.Prelude.Text.{string_eq}
use xdrop.Agent.Types.{RuleKey}
use xdrop.Agent.Wire.{rule_key_to_bytes}
use xdrop.Agent.State.{Handlers, Bpf}
use xdrop.Agent.Config.{active_whitelist, set_active_whitelist, publish_config_update}
use xdrop.Agent.Whitelist.{take_whitelist, put_whitelist, restore_whitelist}

pub record DeletedItem : Type 0 where
  pub id : String
  pub key : RuleKey

-- the answer; `ok` is false where the publication fails
pub record BatchReply : Type 0 where
  pub ok : Bool
  pub deleted : ℕ
  pub failed : ℕ

unfoldable pub add_item : Option DeletedItem → List DeletedItem → List DeletedItem
add_item none items = items
add_item (some item) items = item ∷ items

unfoldable pub add_failure : Option DeletedItem → ℕ → ℕ
add_failure none failed = suc failed
add_failure (some item) failed = failed

module _ {M C T : Type 0} (bpf : Bpf M C T) where
  open bpf use {maps}

  -- one id: the item, if its entry was deleted
  unfoldable pub drop_entry :
      String → Option RuleKey → Handlers M C T → Handlers M C T × Option DeletedItem
  unfolding take_whitelist
  drop_entry id none h = (h, none)
  drop_entry id (some key) h =
      let deleted = maps.delete (active_whitelist h) (rule_key_to_bytes key) in
      let h' = set_active_whitelist deleted.0 h in
      if deleted.1
      then (take_whitelist id key h', some (record { id = id; key = key }))
      else (h', none)

  -- the loop: the items in their order, and the number of the failures
  unfoldable pub drop_entries :
      List String → Handlers M C T → Handlers M C T × (List DeletedItem × ℕ)
  unfolding drop_entry add_item add_failure
  drop_entries [] h = (h, ([], 0))
  drop_entries (id ∷ ids) h =
      let dropped = drop_entry id (lookup id h.wl_entries) h in
      let rest = drop_entries ids dropped.0 in
      (rest.0, (add_item dropped.1 rest.1.0, add_failure dropped.1 rest.1.1))

  unfoldable pub put_items : List DeletedItem → Handlers M C T → Handlers M C T
  unfolding put_whitelist restore_whitelist
  put_items [] h = h
  put_items (item ∷ items) h =
      put_items items (restore_whitelist bpf (some item.key) (put_whitelist item.id item.key h))

  unfoldable pub settle_batch :
      List DeletedItem → ℕ → Handlers M C T × Bool → Handlers M C T × BatchReply
  unfolding put_items
  settle_batch items failed (h, true) =
      (h, record { ok = true; deleted = length items; failed = failed })
  settle_batch items failed (h, false) =
      (put_items items h, record { ok = false; deleted = length items; failed = failed })

  -- without a deleted entry there is nothing to publish
  unfoldable pub publish_items : List DeletedItem → Handlers M C T → Handlers M C T × Bool
  publish_items [] h = (h, true)
  publish_items (item ∷ items) h =
      publish_config_update bpf h (pos 0) (pos 0 -ℤ pos (suc (length items))) (pos 0)

  unfoldable pub delete_whitelist_batch : List String → Handlers M C T → Handlers M C T × BatchReply
  unfolding drop_entries publish_items settle_batch
  delete_whitelist_batch ids h =
      let dropped = drop_entries ids h in
      settle_batch dropped.1.0 dropped.1.1 (publish_items dropped.1.0 dropped.0)
