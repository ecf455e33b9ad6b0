-- ===== src/Agent/Sync/Whitelist.antt =====
-- DoWhitelistAtomicSync of node/agent/api/sync.go, and publishConfigUpdateForWLSync of config.go.
pub mod Checked
pub mod Built
pub mod Atomic
pub mod Synced
use mathlib.Core.List.{List, [], ◌∷◌}
use Prim.Native.Nat.{ℕ, suc}
use Prim.Native.String.{String}
use xdrop.Prelude.{Bool, Option, some, none, true, false, if◌then◌else◌, length, ◌-◌, ◌==◌}
use xdrop.Prelude.GoMap.{GoMap, insert, is_in}
use xdrop.Prelude.Int.{ℤ, pos}
use xdrop.Prelude.Text.{string_eq}
use xdrop.Ebpf.{update_no_exist}
use xdrop.Agent.Types
use xdrop.Agent.Types.{RuleKey, WhitelistEntry, rule_key_eq}
use xdrop.Agent.Combo.{validate_combo_type, get_combo_type}
use xdrop.Agent.Wire.{rule_key_to_bytes}
use xdrop.Agent.Validate.{validate_port_protocol_compat_node}
use xdrop.Agent.Convert.{whitelist_to_key}
use xdrop.Agent.Store.{count_combo}
use xdrop.Agent.State.{Handlers, Bpf}
use xdrop.Agent.Config.{
  ◌▸◌, combo_bitmap, set_entry, copy_entries, active_map, shadow_map, switch_active,
  shadow_whitelist, set_shadow_whitelist,
}
use xdrop.Agent.Clear.{clear_map}
use xdrop.Agent.Whitelist.{wl_value}

-- an entry that passed the checks
pub record Prepared : Type 0 where
  pub id : String
  pub key : RuleKey

-- the checks of phase 1, in their order; `none` is a wlSyncValidationError
unfoldable pub check_entry : WhitelistEntry → List String → List RuleKey → Option RuleKey
unfolding is_in
check_entry e seen_ids seen_keys =
    if string_eq.beq e.id ""
    then none
    else if is_in e.id seen_ids
    then none
    else elim (whitelist_to_key e) [
      | none ↦ none
      | some key ↦
          if is_in key seen_keys then none else elim (validate_combo_type (get_combo_type key)) [
            | some err ↦ none
            | none ↦ elim (validate_port_protocol_compat_node e.protocol e.src_port e.dst_port) [
              | some err ↦ none
              | none ↦ some key
            ]
          ]
    ]

unfoldable pub prepare : List WhitelistEntry → List String → List RuleKey → Option (List Prepared)
unfolding check_entry
prepare [] seen_ids seen_keys = some []
prepare (e ∷ es) seen_ids seen_keys = elim (check_entry e seen_ids seen_keys) [
  | none ↦ none
  | some key ↦ elim (prepare es (e.id ∷ seen_ids) (key ∷ seen_keys)) [
    | none ↦ none
    | some items ↦ some (record { id = e.id; key = key } ∷ items)
  ]
]

-- the shadow map and what the agent will remember of it
pub record Build (M : Type 0) : Type 0 where
  pub shadow : M
  pub entries : GoMap String RuleKey
  pub key_index : GoMap RuleKey String
  pub refs : ℕ → ℤ  -- [64]int

unfoldable pub build_empty : {M : Type 0} → M → Build M
build_empty m = record { shadow = m; entries = []; key_index = []; refs = λ c. pos 0 }

unfoldable pub remember : {M : Type 0} → Prepared → Build M → Build M
unfolding insert count_combo
remember item b = record b {
  entries = insert item.id item.key b.entries;
  key_index = insert item.key item.id b.key_index;
  refs = count_combo (get_combo_type item.key) (pos 1) b.refs;
}

-- the answer: 200, 400 or 500
pub data Outcome : Type 0 where
  synced invalid failed : Outcome

module _ {M C T : Type 0} (bpf : Bpf M C T) where
  open bpf use {maps, configs}

  -- phase 3, which stops at the first error
  unfoldable pub write_items : List Prepared → Build M → Build M × Bool
  unfolding remember
  write_items [] b = (b, true)
  write_items (item ∷ items) b =
      let written = maps.update b.shadow update_no_exist (rule_key_to_bytes item.key) wl_value in
      let rest = write_items items (remember item (record b { shadow = written.0 })) in
      if written.1 then rest else (record b { shadow = written.0 }, false)

  unfoldable pub fill_wl_shadow : Handlers M C T → ℕ → (ℕ → ℤ) → C × Bool
  unfolding combo_bitmap set_entry copy_entries
  fill_wl_shadow h wl_absolute_count refs =
      copy_entries configs (active_map h) Types.config_map_entries (shadow_map h)
      ▸ set_entry configs Types.config_whitelist_count wl_absolute_count
      ▸ set_entry configs Types.config_wl_bitmap (combo_bitmap refs)
      ▸ set_entry configs Types.config_wl_map_selector h.active_wl_slot

  unfoldable pub publish_config_update_for_wl_sync :
      Handlers M C T → ℕ → (ℕ → ℤ) → Handlers M C T × Bool
  unfolding fill_wl_shadow switch_active
  publish_config_update_for_wl_sync h wl_absolute_count refs =
      switch_active bpf h (fill_wl_shadow h wl_absolute_count refs)

  -- phases 5 and 6, or the way back
  unfoldable pub settle_whitelist :
      Handlers M C T → Build M → Handlers M C T × Bool → Handlers M C T × Outcome
  unfolding clear_map
  settle_whitelist before b (h, true) =
      let h' = record h { wl_entries = b.entries; wl_key_index = b.key_index } in
      (set_shadow_whitelist (clear_map maps (shadow_whitelist h')).0 h', synced)
  settle_whitelist before b (h, false) = (
    record h {
      active_wl_slot = before.active_wl_slot;
      wl_combo_ref_count = before.wl_combo_ref_count;
    },
    failed,
  )

  -- phases 4 to 6
  unfoldable pub flip_whitelist :
      List Prepared → Build M × Bool → Handlers M C T → Handlers M C T × Outcome
  unfolding publish_config_update_for_wl_sync settle_whitelist
  flip_whitelist items (b, false) h = (set_shadow_whitelist b.shadow h, failed)
  flip_whitelist items (b, true) h =
      let built = set_shadow_whitelist b.shadow h in
      let flipped = record built {
        active_wl_slot = 1 - built.active_wl_slot;
        wl_combo_ref_count = b.refs;
      } in
      settle_whitelist built b (publish_config_update_for_wl_sync flipped (length items) b.refs)

  -- phases 2 to 6
  unfoldable pub sync_prepared : List Prepared → Handlers M C T → Handlers M C T × Outcome
  unfolding flip_whitelist write_items clear_map build_empty
  sync_prepared items h =
      let cleared = clear_map maps (shadow_whitelist h) in
      if cleared.1
      then flip_whitelist items (write_items items (build_empty cleared.0)) h
      else (set_shadow_whitelist cleared.0 h, failed)

  unfoldable pub sync_checked : Option (List Prepared) → Handlers M C T → Handlers M C T × Outcome
  unfolding sync_prepared
  sync_checked none h = (h, invalid)
  sync_checked (some items) h = sync_prepared items h

  unfoldable pub do_whitelist_atomic_sync :
      List WhitelistEntry → Handlers M C T → Handlers M C T × Outcome
  unfolding prepare sync_checked
  do_whitelist_atomic_sync entries h = sync_checked (prepare entries [] []) h
