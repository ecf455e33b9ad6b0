-- ===== src/Agent/Convert.antt =====
-- node/agent/api/convert.go and ipToIPAddr of serialize.go: between the requests, the stored rules
-- and the wire types.
use Prim.Native.Nat.{bit_and, ℕ}
use mathlib.Core.List.{replicate, []}
use xdrop.Prelude.Bytes.{copy_at}
use text.Mathlib.Text.{◌==◌ as str_eq}
use xdrop.Prelude.Text.{Text, codes, text_beq, text_eq}
use xdrop.Net.{Ip, to4, to16, is_unspecified, parse_ip, parse_cidr}
use xdrop.Agent.Types
use xdrop.Agent.Types.{IpAddr, RuleKey, RuleValue, StoredRule, StoredCidrRule, Rule, WhitelistEntry}
use xdrop.Agent.Validate.{
  Result, ok, err, htons, parse_protocol, parse_protocol_strict, parse_action, parse_tcp_flags,
}
use xdrop.Prelude.{
  Bool, Option, if◌then◌else◌, some, not, String, ◌||◌, true, ◌∷◌, ◌==◌, ◌&&◌, none, false, ltb,
  ◌+◌,
}

unfoldable pub ip_to_ip_addr : Ip → IpAddr
unfolding to4 to16 copy_at
ip_to_ip_addr ip = elim (to4 ip) [
  | some ip4 ↦ copy_at 10 (0xff ∷ 0xff ∷ ip4) (replicate 16 0)
  | none ↦ elim (to16 ip) [ some ip16 ↦ copy_at 0 ip16 (replicate 16 0) | none ↦ replicate 16 0 ]
]

-- `s != "" && s != "0.0.0.0" && s != "::"`
unfoldable pub is_set : Text → Bool
unfolding text_beq
is_set s =
    not (text_beq s []) && not (text_beq s (codes "0.0.0.0")) && not (text_beq s (codes "::"))

-- the address of one side of a key; `none` where it does not parse
unfoldable pub side_addr : Text → Option IpAddr
unfolding is_set ip_to_ip_addr
side_addr s =
    let parsed = parse_ip s in
    if is_set s
    then elim parsed [ none ↦ none | some ip ↦ some (ip_to_ip_addr ip) ]
    else some (replicate 16 0)

unfoldable pub rule_to_key : Rule → Option RuleKey
unfolding side_addr
rule_to_key r = elim (side_addr r.src_ip) [
  | none ↦ none
  | some src ↦ elim (side_addr r.dst_ip) [
    | none ↦ none
    | some dst ↦ some (record {
      src_ip = src;
      dst_ip = dst;
      src_port = htons r.src_port;
      dst_port = htons r.dst_port;
      protocol = parse_protocol r.protocol;
    })
  ]
]

unfoldable pub whitelist_to_key : WhitelistEntry → Option RuleKey
unfolding side_addr
whitelist_to_key w = elim (side_addr w.src_ip) [
  | none ↦ none
  | some src ↦ elim (side_addr w.dst_ip) [
    | none ↦ none
    | some dst ↦ elim (parse_protocol_strict w.protocol) [
      | err e ↦ none
      | ok proto ↦ some (record {
        src_ip = src;
        dst_ip = dst;
        src_port = htons w.src_port;
        dst_port = htons w.dst_port;
        protocol = proto;
      })
    ]
  ]
]

-- one round of the loop over the addresses that looks for a real constraint
unfoldable pub bounded_ip : Text → Bool
unfolding is_set is_unspecified
bounded_ip s = elim (parse_ip s) [ none ↦ false | some ip ↦ is_set s && not (is_unspecified ip) ]

unfoldable pub bounded_cidr : Text → Bool
unfolding text_beq
bounded_cidr s = elim (parse_cidr s) [
  | none ↦ false
  | some (ip, n) ↦ not (text_beq s []) && ltb 0 n.ones
]

unfoldable pub is_v4 : Ip → Bool
unfolding to4
is_v4 ip = elim (to4 ip) [ some ip4 ↦ true | none ↦ false ]

unfoldable pub v6_ip : Text → Bool
unfolding text_beq is_v4 is_unspecified
v6_ip s = elim (parse_ip s) [
  | none ↦ false
  | some ip ↦ not (text_beq s []) && not (is_v4 ip) && not (is_unspecified ip)
]

unfoldable pub v6_cidr : Text → Bool
unfolding text_beq is_v4
v6_cidr s = elim (parse_cidr s) [
  | none ↦ false
  | some (ip, n) ↦ not (text_beq s []) && not (is_v4 ip)
]

pub data AnomalyError : Type 0 where
  invalid_bits not_drop unbounded ipv6_bad_fragment : AnomalyError

-- `nil` is `none`; the bits outside of the two valid ones are those above the lowest two
unfoldable pub validate_node_anomaly_fields :
    ℕ → String → Text → Text → Text → Text → Option AnomalyError
unfolding bounded_ip bounded_cidr v6_ip v6_cidr
validate_node_anomaly_fields match_anomaly action src_ip dst_ip src_cidr dst_cidr =
    let has_bounded =
      bounded_ip src_ip || bounded_ip dst_ip || bounded_cidr src_cidr || bounded_cidr dst_cidr in
    if match_anomaly == 0
    then none
    else if ltb (Types.anomaly_bad_fragment + Types.anomaly_invalid) match_anomaly
    then some invalid_bits
    else if str_eq action "rate_limit"
    then some not_drop
    else if not has_bounded
    then some unbounded
    else if not (bit_and match_anomaly Types.anomaly_bad_fragment == 0)
        && (v6_ip src_ip || v6_ip dst_ip || v6_cidr src_cidr || v6_cidr dst_cidr)
    then some ipv6_bad_fragment
    else none

unfoldable pub or_drop : Result ℕ → ℕ
or_drop (ok action) = action
or_drop (err e) = Types.action_drop

unfoldable pub or_no_flags : Result (ℕ × ℕ) → ℕ × ℕ
or_no_flags (ok flags) = flags
or_no_flags (err e) = (0, 0)

-- an action or flags that do not parse fall back to a drop without flags
unfoldable pub rule_value_from_stored : StoredRule → RuleValue
unfolding or_drop or_no_flags
rule_value_from_stored s =
    let flags = or_no_flags (parse_tcp_flags s.tcp_flags) in
    record {
      action = or_drop (parse_action s.action);
      tcp_flags_mask = flags.0;
      tcp_flags_value = flags.1;
      match_anomaly = s.match_anomaly;
      rate_limit = s.rate_limit;
      match_count = 0;
      drop_count = 0;
      pkt_len_min = s.pkt_len_min;
      pkt_len_max = s.pkt_len_max;
    }

unfoldable pub rule_value_from_stored_cidr : StoredCidrRule → RuleValue
unfolding or_drop or_no_flags
rule_value_from_stored_cidr s =
    let flags = or_no_flags (parse_tcp_flags s.tcp_flags) in
    record {
      action = or_drop (parse_action s.action);
      tcp_flags_mask = flags.0;
      tcp_flags_value = flags.1;
      match_anomaly = s.match_anomaly;
      rate_limit = s.rate_limit;
      match_count = 0;
      drop_count = 0;
      pkt_len_min = s.pkt_len_min;
      pkt_len_max = s.pkt_len_max;
    }
