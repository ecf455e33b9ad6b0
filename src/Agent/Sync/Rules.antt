-- ===== src/Agent/Sync/Rules.antt =====
-- DoAtomicSync of node/agent/api/sync.go. The request is a list of rules, each with the UUID that it
-- gets if it has no id.
pub mod Entries
pub mod Built
pub mod Abort
pub mod Install
pub mod Wanted
pub mod WantedCidr
pub mod Configured
use mathlib.Core.List.{List, [], ◌∷◌}
use Prim.Native.Nat.{ℕ, zero, suc}
use Prim.Native.String.{String}
use xdrop.Prelude.{Bool, Option, some, none, true, false, if◌then◌else◌, ◌==◌, ◌-◌}
use xdrop.Prelude.GoMap.{GoMap, insert}
use xdrop.Prelude.Int.{ℤ, pos}
use xdrop.Prelude.Text.{string_eq}
use xdrop.Ebpf.{MapOps, update_no_exist}
use xdrop.Cidr.Manager.{LpmKey, Manager}
use xdrop.Agent.Types
use xdrop.Agent.Types.{
  RuleKey, RuleValue, CidrRuleKey, StoredRule, StoredCidrRule, Rule, rule_key_eq, cidr_rule_key_eq,
}
use xdrop.Agent.Combo.{get_combo_type, get_cidr_combo_type}
use xdrop.Agent.Wire.{rule_key_to_bytes, cidr_rule_key_to_bytes, rule_value_to_bytes}
use xdrop.Agent.Store.{count_combo}
use xdrop.Agent.State.{Handlers, Bpf}
use xdrop.Agent.Config.{
  ◌▸◌, combo_bitmap, count_anomaly_rules_in, set_entry, active_map, shadow_map, switch_active,
  shadow_blacklist, set_shadow_blacklist, shadow_cidr_blacklist, set_shadow_cidr_blacklist,
}
use xdrop.Agent.Clear.{clear_map}
use xdrop.Agent.Sync.Route.{SyncRoute, rejected, cidr_rule, exact_rule, route_sync}
use xdrop.Agent.Rules.{rule_id, stored_rule}
use xdrop.Agent.Cidrs.{release_cidrs}
use xdrop.Agent.CidrRules.{CidrPlan, reserve_cidr, cidr_rule_value, stored_cidr_rule}

-- the shadow maps, the CIDR manager, and what the agent will remember
pub record Build (M T : Type 0) : Type 0 where
  pub shadow : M
  pub cidr_shadow : M
  pub cidr_mgr : Manager T
  pub rules : GoMap String StoredRule
  pub rule_key_index : GoMap RuleKey String
  pub cidr_rules : GoMap String StoredCidrRule
  pub cidr_rule_key_index : GoMap CidrRuleKey String
  pub combo : ℕ → ℤ  -- [64]int
  pub cidr_combo : ℕ → ℤ  -- [64]int
  pub rule_count : ℕ
  pub cidr_count : ℕ
  pub added : ℕ
  pub failed : ℕ

unfoldable pub build_empty : {M T : Type 0} → M → M → Manager T → Build M T
build_empty shadow cidr_shadow m = record {
  shadow = shadow;
  cidr_shadow = cidr_shadow;
  cidr_mgr = m;
  rules = [];
  rule_key_index = [];
  cidr_rules = [];
  cidr_rule_key_index = [];
  combo = λ c. pos 0;
  cidr_combo = λ c. pos 0;
  rule_count = 0;
  cidr_count = 0;
  added = 0;
  failed = 0;
}

unfoldable pub fail : {M T : Type 0} → Build M T → Build M T
fail b = record b { failed = suc b.failed }

unfoldable pub add_exact : {M T : Type 0} → String → StoredRule → Build M T → Build M T
unfolding count_combo insert
add_exact id s b = record b {
  combo = count_combo (get_combo_type s.key) (pos 1) b.combo;
  rule_count = suc b.rule_count;
  rules = insert id s b.rules;
  rule_key_index = insert s.key id b.rule_key_index;
  added = suc b.added;
}

unfoldable pub add_cidr : {M T : Type 0} → String → StoredCidrRule → Build M T → Build M T
unfolding count_combo insert
add_cidr id s b = record b {
  cidr_combo = count_combo (get_cidr_combo_type s.key) (pos 1) b.cidr_combo;
  cidr_count = suc b.cidr_count;
  cidr_rules = insert id s b.cidr_rules;
  cidr_rule_key_index = insert s.key id b.cidr_rule_key_index;
  added = suc b.added;
}

-- the references of these rules on their CIDRs go
unfoldable pub release_all :
    {T : Type 0} → MapOps T LpmKey ℕ → GoMap String StoredCidrRule → Manager T → Manager T
unfolding release_cidrs
release_all ops [] m = m
release_all ops ((id, s) ∷ rules) m =
    release_all ops rules (release_cidrs ops s.src_cidr s.dst_cidr m)

-- the body of the answer, and whether it is a success
pub record AtomicSyncResult : Type 0 where
  pub ok : Bool
  pub added : ℕ
  pub failed : ℕ
  pub exact_rules : ℕ
  pub cidr_rules : ℕ

unfoldable pub aborted : {M T : Type 0} → Build M T → AtomicSyncResult
aborted b = record {
  ok = false;
  added = b.added;
  failed = b.failed;
  exact_rules = 0;
  cidr_rules = 0;
}

module _ {M C T : Type 0} where
  -- the shadow maps and the manager as the loop left them
  unfoldable pub place_build : Build M T → Handlers M C T → Handlers M C T
  place_build b h =
      set_shadow_cidr_blacklist b.cidr_shadow
        (set_shadow_blacklist b.shadow (record h { cidr_mgr = b.cidr_mgr }))

module _ {M C T : Type 0} (bpf : Bpf M C T) where
  open bpf use {maps, configs, tries}

  unfoldable pub write_exact : String → RuleKey → RuleValue → Rule → Build M T → Build M T
  unfolding fail add_exact
  write_exact id key value r b =
      let written =
        maps.update b.shadow update_no_exist (rule_key_to_bytes key) (rule_value_to_bytes value) in
      let b' = record b { shadow = written.0 } in
      if written.1 then add_exact id (stored_rule key r) b' else fail b'

  -- without its entry, a rule gives its numbers back
  unfoldable pub write_cidr :
      String → CidrPlan → RuleValue → Rule → Build M T → Option CidrRuleKey → Build M T
  unfolding fail add_cidr release_cidrs
  write_cidr id plan value r b none = fail b
  write_cidr id plan value r b (some key) =
      let written =
        maps.update b.cidr_shadow update_no_exist (cidr_rule_key_to_bytes key)
          (rule_value_to_bytes value) in
      let b' = record b { cidr_shadow = written.0 } in
      if written.1
      then add_cidr id (stored_cidr_rule plan key r) b'
      else fail
          (record b' { cidr_mgr = release_cidrs tries plan.src_cidr plan.dst_cidr b'.cidr_mgr })

  unfoldable pub build_route : String → Rule → Build M T → SyncRoute → Build M T
  unfolding fail write_exact write_cidr reserve_cidr cidr_rule_value
  build_route id r b rejected = fail b
  build_route id r b (exact_rule key value) = write_exact id key value r b
  build_route id r b (cidr_rule plan flags) =
      let reserved = reserve_cidr tries plan r b.cidr_mgr in
      write_cidr id plan (cidr_rule_value plan flags.0 flags.1 r) r
        (record b { cidr_mgr = reserved.0 }) reserved.1

  -- step 2, which goes on after a failure
  unfoldable pub build_rules : List (String × Rule) → Build M T → Build M T
  unfolding build_route route_sync rule_id
  build_rules [] b = b
  build_rules ((new_id, r) ∷ rs) b =
      build_rules rs (build_route (rule_id r new_id) r b (route_sync r))

  -- step 3a: an error of a write is ignored
  unfoldable pub copy_over : Option ℕ → ℕ → C → C
  unfolding set_entry
  copy_over none i shadow = shadow
  copy_over (some v) i shadow = (set_entry configs i v shadow).0

  unfoldable pub copy_config : C → ℕ → C → C
  unfolding copy_over
  copy_config active zero shadow = shadow
  copy_config active (suc n) shadow =
      copy_over (configs.lookup active n) n (copy_config active n shadow)

  -- steps 3a and 3b
  unfoldable pub fill_sync_shadow : Handlers M C T → Build M T → C × Bool
  unfolding copy_config set_entry combo_bitmap count_anomaly_rules_in
  fill_sync_shadow h b =
      (copy_config (active_map h) Types.config_map_entries (shadow_map h), true)
      ▸ set_entry configs Types.config_rule_bitmap (combo_bitmap b.combo)
      ▸ set_entry configs Types.config_blacklist_count b.rule_count
      ▸ set_entry configs Types.config_cidr_bitmap (combo_bitmap b.cidr_combo)
      ▸ set_entry configs Types.config_cidr_rule_count b.cidr_count
      ▸ set_entry configs Types.config_rule_map_selector (1 - h.active_rule_slot)
      ▸ set_entry configs Types.config_anomaly_rule_count
          (count_anomaly_rules_in b.rules b.cidr_rules)

  unfoldable pub abort_sync : Build M T → Handlers M C T → Handlers M C T × AtomicSyncResult
  unfolding release_all aborted
  abort_sync b h = (record h { cidr_mgr = release_all tries b.cidr_rules h.cidr_mgr }, aborted b)

  -- the rest of step 4, step 5 and step 5b
  unfoldable pub install_build : Build M T → Handlers M C T → Handlers M C T
  unfolding release_all
  install_build b h = record h {
    active_rule_slot = 1 - h.active_rule_slot;
    rules = b.rules;
    rule_key_index = b.rule_key_index;
    cidr_rules = b.cidr_rules;
    cidr_rule_key_index = b.cidr_rule_key_index;
    combo_ref_count = b.combo;
    cidr_combo_ref_count = b.cidr_combo;
    cidr_mgr = release_all tries h.cidr_rules h.cidr_mgr;
    last_rule_drop_count = [];
    last_rule_stats_time = [];
  }

  -- steps 1 and 6; errors are ignored
  unfoldable pub clear_shadows : Handlers M C T → Handlers M C T
  unfolding clear_map
  clear_shadows h =
      let h' = set_shadow_blacklist (clear_map maps (shadow_blacklist h)).0 h in
      set_shadow_cidr_blacklist (clear_map maps (shadow_cidr_blacklist h')).0 h'

  unfoldable pub finish_sync : Build M T → Handlers M C T × Bool → Handlers M C T × AtomicSyncResult
  unfolding abort_sync install_build clear_shadows
  finish_sync b (h, false) = abort_sync b h
  finish_sync b (h, true) = (
    clear_shadows (install_build b h),
    record {
      ok = true;
      added = b.added;
      failed = b.failed;
      exact_rules = b.rule_count;
      cidr_rules = b.cidr_count;
    },
  )

  -- steps 3 to 6
  unfoldable pub flip_rules : Build M T → Handlers M C T → Handlers M C T × AtomicSyncResult
  unfolding abort_sync finish_sync fill_sync_shadow switch_active
  flip_rules b h =
      if b.failed == 0
      then finish_sync b (switch_active bpf h (fill_sync_shadow h b))
      else abort_sync b h

  unfoldable pub build_all : List (String × Rule) → Handlers M C T → Build M T
  unfolding build_rules build_empty
  build_all rs h =
      build_rules rs (build_empty (shadow_blacklist h) (shadow_cidr_blacklist h) h.cidr_mgr)

  unfoldable pub do_atomic_sync :
      List (String × Rule) → Handlers M C T → Handlers M C T × AtomicSyncResult
  unfolding flip_rules place_build build_all clear_shadows
  do_atomic_sync rs h =
      let cleared = clear_shadows h in
      let b = build_all rs cleared in flip_rules b (place_build b cleared)
