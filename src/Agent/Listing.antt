-- ===== src/Agent/Listing.antt =====
-- The listing direction of node/agent/api/convert.go, and ipAddrToString of serialize.go: stored rules and
-- keys as the API's rules and entries. The comment and the statistics are left out.
pub mod Sides
pub mod Sent
pub mod Entries
mod Tests
use mathlib.Core.List.{[], ◌∷◌}
use text.Mathlib.Text.{◌==◌ as str_eq}
use xdrop.Prelude.{Bool, true, ◌&&◌, ◌==◌, String, if◌then◌else◌, take, drop}
use xdrop.Prelude.Bytes.{Bytes}
use xdrop.Prelude.Text.{Text, text_beq}
use xdrop.Net.Print.{ip_to_string}
use xdrop.Agent.Types.{IpAddr, RuleKey, StoredRule, StoredCidrRule, Rule, WhitelistEntry}
use xdrop.Agent.Validate.{ntohs, protocol_to_string}

unfoldable pub is_zeros : Bytes → Bool
is_zeros [] = true
is_zeros (b ∷ bytes) = b == 0 && is_zeros bytes

-- an IPv4-mapped address is printed with dots; all zeros stand for any address
unfoldable pub ip_addr_to_string : IpAddr → Text
unfolding is_zeros text_beq
ip_addr_to_string addr =
    if is_zeros addr
    then []
    else if is_zeros (take 10 addr) && text_beq (take 2 (drop 10 addr)) (0xff ∷ 0xff ∷ [])
    then ip_to_string (take 4 (drop 12 addr))
    else ip_to_string addr

-- the empty action is a drop
unfoldable pub listed_action : String → String
listed_action action = if str_eq action "" then "drop" else action

unfoldable pub stored_rule_to_rule : String → StoredRule → Rule
unfolding ip_addr_to_string listed_action
stored_rule_to_rule id s = record {
  id = id;
  src_ip = ip_addr_to_string s.key.src_ip;
  dst_ip = ip_addr_to_string s.key.dst_ip;
  src_cidr = [];
  dst_cidr = [];
  src_port = ntohs s.key.src_port;
  dst_port = ntohs s.key.dst_port;
  protocol = protocol_to_string s.key.protocol;
  action = listed_action s.action;
  rate_limit = s.rate_limit;
  pkt_len_min = s.pkt_len_min;
  pkt_len_max = s.pkt_len_max;
  tcp_flags = s.tcp_flags;
  match_anomaly = s.match_anomaly;
}

unfoldable pub stored_cidr_rule_to_rule : String → StoredCidrRule → Rule
unfolding listed_action
stored_cidr_rule_to_rule id s = record {
  id = id;
  src_ip = [];
  dst_ip = [];
  src_cidr = s.src_cidr;
  dst_cidr = s.dst_cidr;
  src_port = ntohs s.key.src_port;
  dst_port = ntohs s.key.dst_port;
  protocol = protocol_to_string s.key.protocol;
  action = listed_action s.action;
  rate_limit = s.rate_limit;
  pkt_len_min = s.pkt_len_min;
  pkt_len_max = s.pkt_len_max;
  tcp_flags = s.tcp_flags;
  match_anomaly = s.match_anomaly;
}

unfoldable pub key_to_whitelist : String → RuleKey → WhitelistEntry
unfolding ip_addr_to_string
key_to_whitelist id k = record {
  id = id;
  src_ip = ip_addr_to_string k.src_ip;
  dst_ip = ip_addr_to_string k.dst_ip;
  src_port = ntohs k.src_port;
  dst_port = ntohs k.dst_port;
  protocol = protocol_to_string k.protocol;
}
