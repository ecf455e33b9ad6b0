-- ===== src/Agent/Fixture.antt =====
-- An agent of node/agent/api for the examples: its BPF maps are association lists, and it has no rules.
use xdrop.Prelude.{nat_eq, [], ◌∷◌, ℕ, replicate, arith, suc, zero, refl}
use xdrop.Prelude.GoMap.{GoMap, lookup}
use xdrop.Prelude.Int.{pos}
use xdrop.Prelude.Text.{codes, text_eq, string_eq}
use xdrop.Prelude.Bytes.{Bytes}
use xdrop.Prelude.{none}
use xdrop.Ebpf.Lists.{list_ops}
use xdrop.Cidr.Manager.{LpmKey, new_manager}
use xdrop.Cidr.Manager.Entries.{lpm_key_eq}
use xdrop.Agent.Types.{RuleKey, RuleValue, Rule}
use xdrop.Agent.State.{Handlers, Bpf}
use xdrop.Agent.Rules.Frame.{IsRules}

abbrev pub M : Type 0
M = GoMap Bytes Bytes

abbrev pub C : Type 0
C = GoMap ℕ ℕ

abbrev pub T : Type 0
T = GoMap LpmKey ℕ

abbrev pub bpf : Bpf M C T
bpf = record { maps = list_ops; configs = list_ops; tries = list_ops }

-- the first `n` config entries, all 0
abbrev pub zeros : ℕ → C
zeros zero = []
zeros (suc n) = (n, 0) ∷ zeros n

abbrev pub key : RuleKey
key = record {
  src_ip = replicate 16 0;
  dst_ip = 0 ∷ 0 ∷ 0 ∷ 0 ∷ 0 ∷ 0 ∷ 0 ∷ 0 ∷ 0 ∷ 0 ∷ 0xff ∷ 0xff ∷ 10 ∷ 0 ∷ 0 ∷ 1 ∷ [];
  src_port = 0;
  dst_port = 0x5000;
  protocol = 6;
}

abbrev pub request : Rule
request = record {
  id = "web";
  src_ip = [];
  dst_ip = codes "10.0.0.1";
  src_cidr = [];
  dst_cidr = [];
  src_port = 0;
  dst_port = 80;
  protocol = "tcp";
  action = "drop";
  rate_limit = 0;
  pkt_len_min = 0;
  pkt_len_max = 0;
  tcp_flags = [];
  match_anomaly = 0;
}

abbrev pub value : RuleValue
value = record {
  action = 1;
  tcp_flags_mask = 0;
  tcp_flags_value = 0;
  match_anomaly = 0;
  rate_limit = 0;
  match_count = 0;
  drop_count = 0;
  pkt_len_min = 0;
  pkt_len_max = 0;
}

-- an agent without rules, its maps as they are loaded
abbrev pub fresh : Handlers M C T
fresh = record {
  blacklist = [];
  blacklist_b = [];
  rl_states = none;
  config_a = zeros 12;
  config_b = zeros 12;
  active_config = (0, 0) ∷ [];
  active_slot = 0;
  active_rule_slot = 0;
  active_wl_slot = 0;
  whitelist = [];
  whitelist_b = [];
  wl_entries = [];
  wl_key_index = [];
  wl_combo_ref_count = λ c. pos 0;
  rules = [];
  rule_key_index = [];
  combo_ref_count = λ c. pos 0;
  cidr_blacklist = [];
  cidr_blacklist_b = [];
  cidr_rl_states = none;
  cidr_mgr = new_manager [] [] [] [];
  cidr_rules = [];
  cidr_rule_key_index = [];
  cidr_combo_ref_count = λ c. pos 0;
  last_rule_drop_count = [];
  last_rule_stats_time = [];
}

pub fresh-IsRules : IsRules fresh
unfolding lookup
fresh-IsRules = record {
  exact = record {
    unique = tt;
    indexed = λ id s h. ground arith;
    named = λ k id h. ground arith;
    counted = λ c small. refl;
  };
  cidr = record {
    unique = tt;
    indexed = λ id s h. ground arith;
    named = λ k id h. ground arith;
    counted = λ c small. refl;
  };
}
