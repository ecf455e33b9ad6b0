-- ===== src/Agent/Config.antt =====
-- node/agent/api/config.go: the double buffer of config maps. An update is written into the shadow
-- map and published by one write of the selector.
pub mod Publish
use Prim.Native.Nat.{bit_or, ℕ, suc}
use xdrop.Ebpf.{MapOps, update_exist}
use xdrop.Prelude.GoMap.{GoMap, weigh}
use xdrop.Prelude.Int.{ℤ, pos, negsuc, ltb_ℤ, ◌+ℤ◌, pos_part}
use xdrop.Agent.Types
use xdrop.Agent.Types.{StoredRule, StoredCidrRule}
use xdrop.Agent.State.{Handlers, Bpf}
use Prim.Native.String.{String}
use xdrop.Prelude.{
  Bool, if◌then◌else◌, ◌-◌, ◌+◌, Option, true, ◌==◌, zero, ◌^◌, false, not, some, none,
}

-- the first `n` rounds of the loop that sets bit `i` for each combo with a rule
unfoldable pub bitmap_below : ℕ → (ℕ → ℤ) → ℕ
bitmap_below zero refs = 0
bitmap_below (suc n) refs =
    let bitmap = bitmap_below n refs in
    if ltb_ℤ (pos 0) (refs n) then bit_or bitmap (2 ^ n) else bitmap

unfoldable pub combo_bitmap : (ℕ → ℤ) → ℕ
unfolding bitmap_below
combo_bitmap refs = bitmap_below 64 refs

is_anomaly : StoredRule → ℕ
is_anomaly r = if r.match_anomaly == 0 then 0 else 1

is_cidr_anomaly : StoredCidrRule → ℕ
is_cidr_anomaly r = if r.match_anomaly == 0 then 0 else 1

unfoldable pub count_anomaly_rules_in : GoMap String StoredRule → GoMap String StoredCidrRule → ℕ
unfolding is_anomaly is_cidr_anomaly
count_anomaly_rules_in rules cidr_rules = weigh is_anomaly rules + weigh is_cidr_anomaly cidr_rules

unfoldable pub is_zero : ℤ → Bool
is_zero (pos n) = n == 0
is_zero (negsuc n) = false

unfoldable pub value_or_zero : Option ℕ → ℕ
value_or_zero none = 0
value_or_zero (some v) = v

-- writes that stop at the first error; the flag is false for an error
infixl 5 ◌▸◌
abbrev pub ◌▸◌ {ℓ} : {C : Type ℓ} → C × Bool → (C → C × Bool) → C × Bool
r ▸ f = if r.1 then f r.0 else r

module _ {C : Type 0} (configs : MapOps C ℕ ℕ) where
  unfoldable pub set_entry : ℕ → ℕ → C → C × Bool
  set_entry i v shadow = configs.update shadow update_exist i v

  -- a lookup that fails skips its index
  unfoldable pub copy_entry : Option ℕ → ℕ → C → C × Bool
  unfolding set_entry
  copy_entry none i shadow = (shadow, true)
  copy_entry (some v) i shadow = set_entry i v shadow

  -- the first `n` indices, in ascending order
  unfoldable pub copy_entries : C → ℕ → C → C × Bool
  unfolding copy_entry
  copy_entries active zero shadow = (shadow, true)
  copy_entries active (suc n) shadow =
      copy_entries active n shadow ▸ copy_entry (configs.lookup active n) n

  -- an entry that is not there reads as 0, and the count does not fall below 0
  unfoldable pub add_count : ℕ → ℤ → C → C × Bool
  unfolding set_entry ◌+ℤ◌ is_zero value_or_zero
  add_count i delta shadow =
      let current = pos (value_or_zero (configs.lookup shadow i)) in
      let count = current +ℤ delta in
      if is_zero delta
      then (shadow, true)
      else set_entry i (pos_part (if ltb_ℤ count (pos 0) then pos 0 else count)) shadow

module _ {M C T : Type 0} where
  unfoldable pub active_map : Handlers M C T → C
  active_map h = if h.active_slot == 0 then h.config_a else h.config_b

  unfoldable pub shadow_map : Handlers M C T → C
  shadow_map h = if h.active_slot == 0 then h.config_b else h.config_a

  -- what was written to the shadow map
  unfoldable pub set_shadow : C → Handlers M C T → Handlers M C T
  set_shadow c h =
      if h.active_slot == 0 then record h { config_b = c } else record h { config_a = c }

  unfoldable pub active_blacklist : Handlers M C T → M
  active_blacklist h = if h.active_rule_slot == 0 then h.blacklist else h.blacklist_b

  unfoldable pub set_active_blacklist : M → Handlers M C T → Handlers M C T
  set_active_blacklist m h =
      if h.active_rule_slot == 0 then record h { blacklist = m } else record h { blacklist_b = m }

  unfoldable pub active_whitelist : Handlers M C T → M
  active_whitelist h = if h.active_wl_slot == 0 then h.whitelist else h.whitelist_b

  unfoldable pub shadow_whitelist : Handlers M C T → M
  shadow_whitelist h = if h.active_wl_slot == 0 then h.whitelist_b else h.whitelist

  unfoldable pub set_active_whitelist : M → Handlers M C T → Handlers M C T
  set_active_whitelist m h =
      if h.active_wl_slot == 0 then record h { whitelist = m } else record h { whitelist_b = m }

  unfoldable pub set_shadow_whitelist : M → Handlers M C T → Handlers M C T
  set_shadow_whitelist m h =
      if h.active_wl_slot == 0 then record h { whitelist_b = m } else record h { whitelist = m }

  unfoldable pub shadow_blacklist : Handlers M C T → M
  shadow_blacklist h = if h.active_rule_slot == 0 then h.blacklist_b else h.blacklist

  unfoldable pub set_shadow_blacklist : M → Handlers M C T → Handlers M C T
  set_shadow_blacklist m h =
      if h.active_rule_slot == 0 then record h { blacklist_b = m } else record h { blacklist = m }

  unfoldable pub shadow_cidr_blacklist : Handlers M C T → M
  shadow_cidr_blacklist h = if h.active_rule_slot == 0 then h.cidr_blacklist_b else h.cidr_blacklist

  unfoldable pub set_shadow_cidr_blacklist : M → Handlers M C T → Handlers M C T
  set_shadow_cidr_blacklist m h =
      if h.active_rule_slot == 0
      then record h { cidr_blacklist_b = m }
      else record h { cidr_blacklist = m }

  unfoldable pub active_cidr_blacklist : Handlers M C T → M
  active_cidr_blacklist h = if h.active_rule_slot == 0 then h.cidr_blacklist else h.cidr_blacklist_b

  unfoldable pub set_active_cidr_blacklist : M → Handlers M C T → Handlers M C T
  set_active_cidr_blacklist m h =
      if h.active_rule_slot == 0
      then record h { cidr_blacklist = m }
      else record h { cidr_blacklist_b = m }

module _ {M C T : Type 0} (bpf : Bpf M C T) where
  open bpf use {configs}

  -- steps 1 and 2: the shadow map, filled
  unfoldable pub fill_shadow : Handlers M C T → ℤ → ℤ → ℤ → C × Bool
  unfolding combo_bitmap count_anomaly_rules_in set_entry copy_entries add_count
  fill_shadow h count_delta wl_count_delta cidr_count_delta =
      copy_entries configs (active_map h) Types.config_map_entries (shadow_map h)
      ▸ set_entry configs Types.config_rule_bitmap (combo_bitmap h.combo_ref_count)
      ▸ set_entry configs Types.config_wl_bitmap (combo_bitmap h.wl_combo_ref_count)
      ▸ set_entry configs Types.config_wl_map_selector h.active_wl_slot
      ▸ add_count configs Types.config_blacklist_count count_delta
      ▸ add_count configs Types.config_whitelist_count wl_count_delta
      ▸ set_entry configs Types.config_cidr_bitmap (combo_bitmap h.cidr_combo_ref_count)
      ▸ add_count configs Types.config_cidr_rule_count cidr_count_delta
      ▸ set_entry configs Types.config_anomaly_rule_count
          (count_anomaly_rules_in h.rules h.cidr_rules)

  -- step 3: the selector, if the shadow map was filled
  unfoldable pub switch_active : Handlers M C T → C × Bool → Handlers M C T × Bool
  unfolding set_shadow set_entry
  switch_active h filled =
      let h' = set_shadow filled.0 h in
      let switched = set_entry configs 0 (1 - h.active_slot) h.active_config in
      if not filled.1
      then (h', false)
      else if not switched.1
      then (record h' { active_config = switched.0 }, false)
      else (record h' { active_config = switched.0; active_slot = 1 - h.active_slot }, true)

  unfoldable pub publish_config_update : Handlers M C T → ℤ → ℤ → ℤ → Handlers M C T × Bool
  unfolding fill_shadow switch_active
  publish_config_update h count_delta wl_count_delta cidr_count_delta =
      switch_active h (fill_shadow h count_delta wl_count_delta cidr_count_delta)
