-- ===== src/Agent/Wire.antt =====
-- node/agent/api/serialize.go: the bytes of the keys and values of the BPF maps.
pub mod Layout
use xdrop.Prelude.{ℕ, set, replicate}
use xdrop.Prelude.Bytes.{Bytes, copy_at, put_uint16, put_uint32, put_uint64}
use xdrop.Agent.Types.{RuleKey, RuleValue, CidrRuleKey}

unfoldable pub cidr_rule_key_to_bytes : CidrRuleKey → Bytes
unfolding put_uint16 put_uint32
cidr_rule_key_to_bytes k =
    let b = replicate 16 0 in
    let b = put_uint32 0 k.src_id b in
    let b = put_uint32 4 k.dst_id b in
    let b = put_uint16 8 k.src_port b in let b = put_uint16 10 k.dst_port b in set b 12 k.protocol

unfoldable pub rule_key_to_bytes : RuleKey → Bytes
unfolding copy_at put_uint16
rule_key_to_bytes k =
    let b = replicate 40 0 in
    let b = copy_at 0 k.src_ip b in
    let b = copy_at 16 k.dst_ip b in
    let b = put_uint16 32 k.src_port b in let b = put_uint16 34 k.dst_port b in set b 36 k.protocol

unfoldable pub rule_value_to_bytes : RuleValue → Bytes
unfolding put_uint16 put_uint32 put_uint64
rule_value_to_bytes v =
    let b = replicate 32 0 in
    let b = set b 0 v.action in
    let b = set b 1 v.tcp_flags_mask in
    let b = set b 2 v.tcp_flags_value in
    let b = set b 3 v.match_anomaly in
    let b = put_uint32 4 v.rate_limit b in
    let b = put_uint64 8 v.match_count b in
    let b = put_uint64 16 v.drop_count b in
    let b = put_uint16 24 v.pkt_len_min b in put_uint16 26 v.pkt_len_max b
