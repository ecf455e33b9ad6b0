-- ===== src/Controller/Validate.antt =====
-- The checks of controller/internal/service/rule_service.go on the fields of a request.
use Prim.Native.Nat.{ℕ}
use mathlib.Core.List.{List, [], ◌∷◌}
use text.Mathlib.Text.{◌==◌ as str_eq}
use xdrop.Prelude.{
  Bool, true, false, not, ◌&&◌, ◌||◌, Option, some, none, String, if◌then◌else◌, ◌==◌, ltb, leb,
  ◌≡◌,
}
use xdrop.Prelude.GoMap.{GoMap, lookup, insert}
use xdrop.Prelude.Int.{ℤ, pos, negsuc, ltb_ℤ}
use xdrop.Prelude.Text.{
  Text, codes, text_beq, string_eq, text_eq, trim_space, to_upper, split, join,
}
use xdrop.Net.{to4, parse_ip, parse_cidr}
use xdrop.Net.Print.{ip_to_string, net_to_string}
use xdrop.Controller.Types.{RuleRequest}
use xdrop.Controller.Decoder.{is_zero, has_tcp_flags}
pub mod Flags

pub data Error : Type 0 where
  decoder_error action_required invalid_action rate_limit_required invalid_ip out_of_range
        drop_with_rate invalid_protocol portless_with_ports pure_length invalid_length
        flags_without_tcp unknown_flag contradictory_flags no_cidr mixed_ip_and_cidr invalid_cidr
        overlap anomaly_error flags_and_anomaly lookup_failed merge_refused already_exists
        invalid_expiry store_failed rule_not_found cidr_fixed ip_fixed protocol_fixed port_fixed
        rate_conflict :
      Error

pub data Result {ℓ} (A : Type ℓ) : Type ℓ where
  ok : A → Result A
  err : Error → Result A

infixl 5 ◌>>=◌
unfoldable pub ◌>>=◌ {ℓ κ} : {X : Type ℓ} {Y : Type κ} → Result X → (X → Result Y) → Result Y
ok x >>= next = next x
err e >>= next = err e

-- `if test { return error }`
unfoldable pub refuse_if {ℓ} : {A : Type ℓ} → Bool → Error → Result A → Result A
refuse_if test e rest = if test then err e else rest

abbrev valid_protocols : GoMap String Bool
valid_protocols =
    ("all", true)
    ∷ ("tcp", true)
    ∷ ("udp", true)
    ∷ ("icmp", true)
    ∷ ("icmpv6", true)
    ∷ ("igmp", true)
    ∷ ("gre", true)
    ∷ ("esp", true)
    ∷ ("", true)
    ∷ []

abbrev portless_protocols : GoMap String Bool
portless_protocols =
    ("icmp", true) ∷ ("icmpv6", true) ∷ ("igmp", true) ∷ ("gre", true) ∷ ("esp", true) ∷ []

or_false : Option Bool → Bool
or_false none = false
or_false (some b) = b

-- `validProtocols[protocol]`
unfoldable pub is_valid_protocol : String → Bool
unfolding lookup or_false
is_valid_protocol protocol = or_false (lookup protocol valid_protocols)

-- whether `validatePortProtocolCompat` returns an error
unfoldable pub ports_without_carrier : String → ℤ → ℤ → Bool
unfolding lookup or_false is_zero
ports_without_carrier protocol src_port dst_port =
    or_false (lookup protocol portless_protocols) && not (is_zero src_port && is_zero dst_port)

-- from 0 to the given bound
unfoldable pub in_range : ℕ → ℤ → Bool
in_range max (pos n) = leb n max
in_range max (negsuc n) = false

in_range_if : ℕ → Option ℤ → Bool
unfolding in_range
in_range_if max none = true
in_range_if max (some n) = in_range max n

unfoldable pub validate_rule_scalar_bounds : RuleRequest → Result RuleRequest
unfolding in_range in_range_if
validate_rule_scalar_bounds req = refuse_if (not (in_range 65535 req.src_port)) out_of_range (
    refuse_if (not (in_range 65535 req.dst_port)) out_of_range (
      refuse_if (not (in_range_if 65535 req.pkt_len_min)) out_of_range (
        refuse_if (not (in_range_if 65535 req.pkt_len_max)) out_of_range (
          refuse_if (not (in_range 4294967295 req.rate_limit)) out_of_range (
            refuse_if (str_eq req.action "drop" && ltb_ℤ (pos 0) req.rate_limit) drop_with_rate
              (ok req))))))

unfoldable pub validate_and_normalize_ip_field : Text → Result Text
unfolding text_beq to4
validate_and_normalize_ip_field value =
    let parsed = parse_ip value in
    if text_beq value [] then ok [] else elim parsed [
      | none ↦ err invalid_ip
      | some ip ↦ elim (to4 ip) [ some ip4 ↦ ok (ip_to_string ip4) | none ↦ ok (ip_to_string ip) ]
    ]

-- a request that is refused is not read again, so that an error carries none
unfoldable pub validate_ip_fields : RuleRequest → Result RuleRequest
unfolding validate_and_normalize_ip_field
validate_ip_fields req = do
  src_ip ← validate_and_normalize_ip_field req.src_ip
  dst_ip ← validate_and_normalize_ip_field req.dst_ip
  ok (record req { src_ip = src_ip; dst_ip = dst_ip })

normalize_cidr : Text → Result Text
unfolding text_beq
normalize_cidr cidr =
    let parsed = parse_cidr cidr in
    if text_beq cidr []
    then ok cidr
    else elim parsed [ none ↦ err invalid_cidr | some (ip, network) ↦ ok (net_to_string network) ]

unfoldable pub validate_cidr_rule : RuleRequest → Result RuleRequest
unfolding normalize_cidr text_beq
validate_cidr_rule req = refuse_if (text_beq req.src_cidr [] && text_beq req.dst_cidr []) no_cidr (
    refuse_if (not (text_beq req.src_ip []) || not (text_beq req.dst_ip [])) mixed_ip_and_cidr (do
      src_cidr ← normalize_cidr req.src_cidr
      dst_cidr ← normalize_cidr req.dst_cidr
      ok (record req { src_cidr = src_cidr; dst_cidr = dst_cidr })))

-- the three maps of `validateAndNormalizeTcpFlags`
pub record FlagSets : Type 0 where
  pub seen : GoMap Text Bool
  pub set_flags : GoMap Text Bool
  pub clear_flags : GoMap Text Bool

abbrev pub canonical_order : List Text
canonical_order =
    codes "CWR"
    ∷ codes "ECE"
    ∷ codes "URG"
    ∷ codes "ACK"
    ∷ codes "PSH"
    ∷ codes "RST"
    ∷ codes "SYN"
    ∷ codes "FIN"
    ∷ []

abbrev valid_tcp_flags : GoMap Text Bool
valid_tcp_flags =
    (codes "FIN", true)
    ∷ (codes "SYN", true)
    ∷ (codes "RST", true)
    ∷ (codes "PSH", true)
    ∷ (codes "ACK", true)
    ∷ (codes "URG", true)
    ∷ (codes "ECE", true)
    ∷ (codes "CWR", true)
    ∷ []

-- `m[name]`, false for a name that is not there
unfoldable pub holds : GoMap Text Bool → Text → Bool
unfolding lookup or_false text_beq
holds m name = or_false (lookup name m)

-- `strings.HasPrefix(name, "!")` with the name behind it
strip_bang : Text → Bool × Text
strip_bang [] = (false, [])
strip_bang (c ∷ name) = if c == b'!' then (true, name) else (false, c ∷ name)

-- the last part of a round, for a name that was not seen
unfoldable pub mark_flag : Bool → Text → FlagSets → Result FlagSets
unfolding holds insert text_beq
mark_flag negate name sets =
    let seen = insert name true sets.seen in
    if negate
    then refuse_if (holds sets.set_flags name) contradictory_flags
        (ok (record sets { seen = seen; clear_flags = insert name true sets.clear_flags }))
    else refuse_if (holds sets.clear_flags name) contradictory_flags
        (ok (record sets { seen = seen; set_flags = insert name true sets.set_flags }))

unfoldable pub add_name : Bool → Text → FlagSets → Result FlagSets
unfolding holds mark_flag
add_name negate name sets =
    if not (holds valid_tcp_flags name)
    then err unknown_flag
    else if holds sets.seen name
    then ok sets
    else mark_flag negate name sets

unfoldable pub add_part : Text → FlagSets → Result FlagSets
unfolding add_name strip_bang trim_space to_upper text_beq
add_part part sets =
    let part = trim_space part in
    let (negate, name) = strip_bang (to_upper part) in
    if text_beq part [] then ok sets else add_name negate name sets

unfoldable pub add_parts : List Text → FlagSets → Result FlagSets
unfolding add_part
add_parts [] sets = ok sets
add_parts (part ∷ parts) sets = add_part part sets >>= λ sets'. add_parts parts sets'

emit_flags : FlagSets → List Text → List Text
unfolding holds
emit_flags sets [] = []
emit_flags sets (name ∷ names) =
    let rest = emit_flags sets names in
    if holds sets.set_flags name
    then name ∷ rest
    else if holds sets.clear_flags name
    then (b'!' ∷ name) ∷ rest
    else rest

unfoldable pub validate_and_normalize_tcp_flags : Text → Result Text
unfolding add_parts emit_flags trim_space split join text_beq
validate_and_normalize_tcp_flags s = if text_beq (trim_space s) [] then ok [] else (do
  sets ←
      add_parts (split b',' (trim_space s)) (record { seen = []; set_flags = []; clear_flags = [] })
  ok (join b',' (emit_flags sets canonical_order)))

unfoldable pub deref_int : Option ℤ → ℤ
deref_int none = pos 0
deref_int (some n) = n

-- the last part of `validatePktLenRule`
unfoldable pub validate_tcp_flags : Option Text → RuleRequest → Result RuleRequest
unfolding validate_and_normalize_tcp_flags text_beq
validate_tcp_flags none req = ok req
validate_tcp_flags (some flags) req =
    if text_beq flags []
    then ok req
    else refuse_if (not (str_eq req.protocol "tcp")) flags_without_tcp (do
      text ← validate_and_normalize_tcp_flags flags
      ok (record req { tcp_flags = some text }))

unfoldable pub validate_pkt_len_rule : RuleRequest → Result RuleRequest
unfolding validate_tcp_flags deref_int is_zero text_beq
validate_pkt_len_rule req =
    let pkt_min = deref_int req.pkt_len_min in
    let pkt_max = deref_int req.pkt_len_max in
    let has_length_filter = ltb_ℤ (pos 0) pkt_min || ltb_ℤ (pos 0) pkt_max in
    let has5_tuple =
      not (text_beq req.src_ip [])
      || not (text_beq req.dst_ip [])
      || not (text_beq req.src_cidr [])
      || not (text_beq req.dst_cidr [])
      || not (is_zero req.src_port)
      || not (is_zero req.dst_port)
      || not (str_eq req.protocol "") && not (str_eq req.protocol "all") in
    refuse_if (has_length_filter && not has5_tuple) pure_length (
      refuse_if (ltb_ℤ (pos 0) pkt_min && ltb_ℤ (pos 0) pkt_max && ltb_ℤ pkt_max pkt_min)
        invalid_length (validate_tcp_flags req.tcp_flags req))
