-- ===== src/Agent/Types.antt =====
-- The wire types and constants of node/agent/api/bpf_types.go. The padding fields of the Go
-- structs are left out: no code of the agent writes them, so they are always zero.
use xdrop.Prelude.{ℕ, List, String, Eq, Discrete-Eq, ℕ_discrete}
use xdrop.Prelude.Text.{Text}

abbrev pub proto_all : ℕ
proto_all = 0

abbrev pub proto_icmp : ℕ
proto_icmp = 1

abbrev pub proto_igmp : ℕ
proto_igmp = 2

abbrev pub proto_tcp : ℕ
proto_tcp = 6

abbrev pub proto_udp : ℕ
proto_udp = 17

abbrev pub proto_gre : ℕ
proto_gre = 47

abbrev pub proto_esp : ℕ
proto_esp = 50

abbrev pub proto_icmpv6 : ℕ
proto_icmpv6 = 58

abbrev pub action_pass : ℕ
action_pass = 0

abbrev pub action_drop : ℕ
action_drop = 1

abbrev pub action_rate_limit : ℕ
action_rate_limit = 2

-- the bits of `RuleValue.MatchAnomaly`
abbrev pub anomaly_bad_fragment : ℕ
anomaly_bad_fragment = 0x01

abbrev pub anomaly_invalid : ℕ
anomaly_invalid = 0x02

-- the indices of the config maps
abbrev pub config_blacklist_count : ℕ
config_blacklist_count = 0

abbrev pub config_whitelist_count : ℕ
config_whitelist_count = 1

abbrev pub config_rule_bitmap : ℕ
config_rule_bitmap = 2

abbrev pub config_wl_bitmap : ℕ
config_wl_bitmap = 3

abbrev pub config_cidr_rule_count : ℕ
config_cidr_rule_count = 6

abbrev pub config_cidr_bitmap : ℕ
config_cidr_bitmap = 7

abbrev pub config_wl_map_selector : ℕ
config_wl_map_selector = 8

abbrev pub config_rule_map_selector : ℕ
config_rule_map_selector = 9

abbrev pub config_anomaly_rule_count : ℕ
config_anomaly_rule_count = 10

abbrev pub config_map_entries : ℕ
config_map_entries = 12

-- `[16]byte`
abbrev pub IpAddr : Type 0
IpAddr = List ℕ

pub record RuleKey : Type 0 where
  pub src_ip : IpAddr
  pub dst_ip : IpAddr
  pub src_port : ℕ  -- uint16
  pub dst_port : ℕ  -- uint16
  pub protocol : ℕ  -- uint8

pub record RuleValue : Type 0 where
  pub action : ℕ  -- uint8
  pub tcp_flags_mask : ℕ  -- uint8
  pub tcp_flags_value : ℕ  -- uint8
  pub match_anomaly : ℕ  -- uint8
  pub rate_limit : ℕ  -- uint32
  pub match_count : ℕ  -- uint64
  pub drop_count : ℕ  -- uint64
  pub pkt_len_min : ℕ  -- uint16
  pub pkt_len_max : ℕ  -- uint16

pub record CidrRuleKey : Type 0 where
  pub src_id : ℕ  -- uint32
  pub dst_id : ℕ  -- uint32
  pub src_port : ℕ  -- uint16
  pub dst_port : ℕ  -- uint16
  pub protocol : ℕ  -- uint8

pub record StoredRule : Type 0 where
  pub key : RuleKey
  pub action : String
  pub rate_limit : ℕ
  pub pkt_len_min : ℕ
  pub pkt_len_max : ℕ
  pub tcp_flags : Text
  pub match_anomaly : ℕ

pub record StoredCidrRule : Type 0 where
  pub key : CidrRuleKey
  pub src_cidr : Text
  pub dst_cidr : Text
  pub action : String
  pub rate_limit : ℕ
  pub pkt_len_min : ℕ
  pub pkt_len_max : ℕ
  pub tcp_flags : Text
  pub match_anomaly : ℕ

-- the API's `Rule`, without the comment and the statistics, which no operation reads; the JSON
-- decoder has filled the fields, within the ranges of their Go types
pub record Rule : Type 0 where
  pub id : String
  pub src_ip : Text
  pub dst_ip : Text
  pub src_cidr : Text
  pub dst_cidr : Text
  pub src_port : ℕ
  pub dst_port : ℕ
  pub protocol : String
  pub action : String
  pub rate_limit : ℕ
  pub pkt_len_min : ℕ
  pub pkt_len_max : ℕ
  pub tcp_flags : Text
  pub match_anomaly : ℕ

-- the API's `WhitelistEntry`, which has the fields of `SyncWhitelistEntry`
pub record WhitelistEntry : Type 0 where
  pub id : String
  pub src_ip : Text
  pub dst_ip : Text
  pub src_port : ℕ
  pub dst_port : ℕ
  pub protocol : String

unfoldable pub RuleKey-discrete : Discrete RuleKey
RuleKey-discrete = hlevel ℕ_discrete

unfoldable pub CidrRuleKey-discrete : Discrete CidrRuleKey
CidrRuleKey-discrete = hlevel ℕ_discrete

instance abbrev pub rule_key_eq : Eq RuleKey
rule_key_eq = Discrete-Eq RuleKey-discrete

instance abbrev pub cidr_rule_key_eq : Eq CidrRuleKey
cidr_rule_key_eq = Discrete-Eq CidrRuleKey-discrete
