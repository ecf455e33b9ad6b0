-- ===== src/Agent/State.antt =====
-- The Handlers of node/agent/api/bpf_types.go: the BPF maps and the agent's own record of the rules.
-- `M` is the type of the hash maps, with keys and values as bytes; `C` that of the config arrays, in
-- which the four bytes of a key and the eight bytes of a value are the numbers that they encode; `T`
-- that of the LPM tries. The locks syncMu, publishMu, rulesMu and wlMu are left out: a function here is
-- what a handler, or the part of it that is under the locks, does as one step. The fields that only
-- the statistics read are left out as well.
use xdrop.Prelude.{ℕ, String, Option}
use xdrop.Prelude.Int.{ℤ}
use xdrop.Prelude.Bytes.{Bytes}
use xdrop.Prelude.GoMap.{GoMap}
use xdrop.Ebpf.{MapOps}
use xdrop.Cidr.Manager.{LpmKey, Manager}
use xdrop.Agent.Types.{RuleKey, CidrRuleKey, StoredRule, StoredCidrRule}

pub record Handlers (M C T : Type 0) : Type 0 where
  pub blacklist : M
  pub blacklist_b : M
  pub rl_states : Option M
  pub config_a : C
  pub config_b : C
  pub active_config : C
  pub active_slot : ℕ
  pub active_rule_slot : ℕ
  pub active_wl_slot : ℕ
  pub whitelist : M
  pub whitelist_b : M
  pub wl_entries : GoMap String RuleKey
  pub wl_key_index : GoMap RuleKey String
  pub wl_combo_ref_count : ℕ → ℤ  -- [64]int
  pub rules : GoMap String StoredRule
  pub rule_key_index : GoMap RuleKey String
  pub combo_ref_count : ℕ → ℤ  -- [64]int
  pub cidr_blacklist : M
  pub cidr_blacklist_b : M
  pub cidr_rl_states : Option M
  pub cidr_mgr : Manager T
  pub cidr_rules : GoMap String StoredCidrRule
  pub cidr_rule_key_index : GoMap CidrRuleKey String
  pub cidr_combo_ref_count : ℕ → ℤ  -- [64]int
  pub last_rule_drop_count : GoMap String ℕ
  pub last_rule_stats_time : GoMap String ℕ

-- the operations of the three kinds of BPF maps
pub record Bpf (M C T : Type 0) : Type 0 where
  pub maps : MapOps M Bytes Bytes
  pub configs : MapOps C ℕ ℕ
  pub tries : MapOps T LpmKey ℕ
