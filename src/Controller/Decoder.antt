-- ===== src/Controller/Decoder.antt =====
-- controller/internal/service/decoder.go: the decoders that stand for fields of a rule, and the checks
-- on anomaly bits.
use Prim.Native.Nat.{ℕ, bit_and}
use mathlib.Core.List.{[], ◌∷◌}
use text.Mathlib.Text.{◌==◌ as str_eq}
use xdrop.Prelude.{
  Bool, true, false, not, ◌&&◌, ◌||◌, Option, some, none, String, if◌then◌else◌, ◌==◌, ltb, ◌+◌,
}
use xdrop.Prelude.GoMap.{GoMap, lookup}
use xdrop.Prelude.Int.{ℤ, pos, negsuc}
use xdrop.Prelude.Text.{Text, codes, text_beq, string_eq}
use xdrop.Net.{Ip, to4, is_unspecified, parse_ip, parse_cidr}
use xdrop.Controller.Types.{RuleRequest, Rule}
pub mod Expansion
pub mod Accepted

pub record DecoderSpec : Type 0 where
  pub protocol : String
  pub tcp_flags : Text
  pub anomaly_bits : ℕ  -- uint8

abbrev pub anomaly_bad_fragment : ℕ
anomaly_bad_fragment = 0x01

abbrev pub anomaly_invalid : ℕ
anomaly_invalid = 0x02

abbrev pub known_decoders : GoMap String DecoderSpec
known_decoders =
    ("tcp_ack", record { protocol = "tcp"; tcp_flags = codes "ACK,!SYN"; anomaly_bits = 0 })
    ∷ ("tcp_rst", record { protocol = "tcp"; tcp_flags = codes "RST"; anomaly_bits = 0 })
    ∷ ("tcp_fin", record { protocol = "tcp"; tcp_flags = codes "FIN"; anomaly_bits = 0 })
    ∷ (
      "bad_fragment",
      record { protocol = ""; tcp_flags = []; anomaly_bits = anomaly_bad_fragment },
    )
    ∷ ("invalid", record { protocol = ""; tcp_flags = []; anomaly_bits = anomaly_invalid })
    ∷ []

pub data DecoderError : Type 0 where
  unknown_decoder protocol_conflict tcp_flags_conflict anomaly_conflict anomaly_rate_limit
        ipv6_target no_target :
      DecoderError

is_v4 : Ip → Bool
unfolding to4
is_v4 ip = elim (to4 ip) [ some ip4 ↦ true | none ↦ false ]

unfoldable pub is_ipv6_string : Text → Bool
unfolding is_v4 text_beq
is_ipv6_string s = elim (parse_ip s) [
  | none ↦ false
  | some ip ↦ not (text_beq s []) && not (is_v4 ip)
]

unfoldable pub is_ipv6_cidr : Text → Bool
unfolding is_v4 text_beq
is_ipv6_cidr s = elim (parse_cidr s) [
  | none ↦ false
  | some (ip, n) ↦ not (text_beq s []) && not (is_v4 ip)
]

unfoldable pub has_explicit_target : RuleRequest → Bool
unfolding text_beq
has_explicit_target req =
    not (text_beq req.dst_ip [])
    || not (text_beq req.dst_cidr [])
    || not (text_beq req.src_ip [])
    || not (text_beq req.src_cidr [])

-- whether `rejectIPv6AnomalyTarget` returns an error
unfoldable pub reject_ipv6_anomaly_target : RuleRequest → Bool
unfolding is_ipv6_string is_ipv6_cidr
reject_ipv6_anomaly_target req =
    is_ipv6_string req.dst_ip
    || is_ipv6_string req.src_ip
    || is_ipv6_cidr req.dst_cidr
    || is_ipv6_cidr req.src_cidr

-- `req.TcpFlags != nil && *req.TcpFlags != ""`
unfoldable pub has_tcp_flags : Option Text → Bool
unfolding text_beq
has_tcp_flags none = false
has_tcp_flags (some s) = not (text_beq s [])

-- the first two assignments of the expansion
unfoldable pub expand_tcp : DecoderSpec → RuleRequest → RuleRequest
unfolding text_beq
expand_tcp spec req = record req {
  protocol = if str_eq spec.protocol "" then req.protocol else spec.protocol;
  tcp_flags = if text_beq spec.tcp_flags [] then req.tcp_flags else some spec.tcp_flags;
}

-- the guards on an anomaly decoder, in their order
unfoldable pub check_anomaly_decoder : ℕ → Bool → RuleRequest → Option DecoderError
unfolding reject_ipv6_anomaly_target has_explicit_target
check_anomaly_decoder bits require_explicit_target req =
    if str_eq req.action "rate_limit"
    then some anomaly_rate_limit
    else if bits == anomaly_bad_fragment && reject_ipv6_anomaly_target req
    then some ipv6_target
    else if require_explicit_target && not (has_explicit_target req)
    then some no_target
    else none

-- the rest of the expansion, on what the guards answer
unfoldable pub expand_anomaly :
    ℕ → RuleRequest → Option DecoderError → RuleRequest × Option DecoderError
expand_anomaly bits req (some e) = (req, some e)
expand_anomaly bits req none = (record req { match_anomaly = pos bits; decoder = "" }, none)

unfoldable pub expand : Bool → RuleRequest → DecoderSpec → RuleRequest × Option DecoderError
unfolding expand_tcp check_anomaly_decoder expand_anomaly
expand require_explicit_target req spec =
    let req' = expand_tcp spec req in
    let bits = spec.anomaly_bits in
    if bits == 0
    then (record req' { decoder = "" }, none)
    else expand_anomaly bits req' (check_anomaly_decoder bits require_explicit_target req')

-- `req.MatchAnomaly != 0`
unfoldable pub is_zero : ℤ → Bool
is_zero (pos n) = n == 0
is_zero (negsuc n) = false

unfoldable pub expand_known :
    Bool → RuleRequest → Option DecoderSpec → RuleRequest × Option DecoderError
unfolding expand has_tcp_flags is_zero
expand_known require_explicit_target req none = (req, some unknown_decoder)
expand_known require_explicit_target req (some spec) =
    if not (str_eq req.protocol "")
    then (req, some protocol_conflict)
    else if has_tcp_flags req.tcp_flags
    then (req, some tcp_flags_conflict)
    else if not (is_zero req.match_anomaly)
    then (req, some anomaly_conflict)
    else expand require_explicit_target req spec

-- the request that the function changes in place, and its error
unfoldable pub normalize_decoder_internal : Bool → RuleRequest → RuleRequest × Option DecoderError
unfolding expand_known lookup
normalize_decoder_internal require_explicit_target req =
    if str_eq req.decoder ""
    then (req, none)
    else expand_known require_explicit_target req (lookup req.decoder known_decoders)

unfoldable pub normalize_decoder : RuleRequest → RuleRequest × Option DecoderError
unfolding normalize_decoder_internal
normalize_decoder req = normalize_decoder_internal true req

-- a request without a target borrows that of the rule, and gives it back
unfoldable pub normalize_decoder_for_update : RuleRequest → Rule → RuleRequest × Option DecoderError
unfolding normalize_decoder_internal has_explicit_target
normalize_decoder_for_update req existing =
    let seeded = record req {
      dst_ip = existing.dst_ip;
      src_ip = existing.src_ip;
      dst_cidr = existing.dst_cidr;
      src_cidr = existing.src_cidr;
    } in
    let result = normalize_decoder_internal false seeded in
    if not (has_explicit_target req)
    then (
      record result.0 {
        dst_ip = req.dst_ip;
        src_ip = req.src_ip;
        dst_cidr = req.dst_cidr;
        src_cidr = req.src_cidr;
      },
      result.1,
    )
    else normalize_decoder_internal true req

unfoldable pub bounded_exact : Text → Bool
unfolding text_beq is_unspecified
bounded_exact s = elim (parse_ip s) [
  | none ↦ false
  | some ip ↦ not (text_beq s []) && not (is_unspecified ip)
]

unfoldable pub bounded_cidr : Text → Bool
unfolding text_beq
bounded_cidr s = elim (parse_cidr s) [
  | none ↦ false
  | some (ip, n) ↦ not (text_beq s []) && ltb 0 n.ones
]

unfoldable pub has_bounded_anomaly_target : Text → Text → Text → Text → Bool
unfolding bounded_exact bounded_cidr
has_bounded_anomaly_target src_ip dst_ip src_cidr dst_cidr =
    bounded_exact src_ip || bounded_exact dst_ip || bounded_cidr src_cidr || bounded_cidr dst_cidr

pub data AnomalyError : Type 0 where
  invalid_bits not_drop unbounded ipv6_bad_fragment : AnomalyError

-- `nil` is `none`; of the bits above the lowest two, one is set in every number above 3
unfoldable pub validate_anomaly_effective :
    ℤ → String → Text → Text → Text → Text → Option AnomalyError
unfolding has_bounded_anomaly_target is_ipv6_string is_ipv6_cidr
validate_anomaly_effective (negsuc n) action src_ip dst_ip src_cidr dst_cidr = some invalid_bits
validate_anomaly_effective (pos n) action src_ip dst_ip src_cidr dst_cidr =
    if n == 0
    then none
    else if ltb (anomaly_bad_fragment + anomaly_invalid) n
    then some invalid_bits
    else if str_eq action "rate_limit"
    then some not_drop
    else if not (has_bounded_anomaly_target src_ip dst_ip src_cidr dst_cidr)
    then some unbounded
    else if not (bit_and n anomaly_bad_fragment == 0)
        && (is_ipv6_string src_ip
            || is_ipv6_string dst_ip
            || is_ipv6_cidr src_cidr
            || is_ipv6_cidr dst_cidr)
    then some ipv6_bad_fragment
    else none

unfoldable pub validate_anomaly_fields : RuleRequest → Option AnomalyError
unfolding validate_anomaly_effective
validate_anomaly_fields req =
    validate_anomaly_effective req.match_anomaly req.action req.src_ip req.dst_ip req.src_cidr
      req.dst_cidr

unfoldable pub validate_anomaly_fields_for_update : RuleRequest → Rule → Option AnomalyError
unfolding validate_anomaly_effective is_zero
validate_anomaly_fields_for_update req existing =
    let eff_anomaly =
      if is_zero req.match_anomaly then existing.match_anomaly else req.match_anomaly in
    let eff_action = if str_eq req.action "" then existing.action else req.action in
    validate_anomaly_effective eff_anomaly eff_action existing.src_ip existing.dst_ip
      existing.src_cidr existing.dst_cidr
