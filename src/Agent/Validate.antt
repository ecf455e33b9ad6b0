-- ===== src/Agent/Validate.antt =====
-- node/agent/api/validate.go: byte order, names of protocols and actions, TCP flags, and the checks
-- on the fields of a rule.
pub mod Flags
pub mod Fields
pub mod FlagTables
use Prim.Native.Nat.{bit_and, bit_or}
use xdrop.Prelude.{
  ℕ, ◌*◌, ◌/◌, ◌^◌, ◌%◌, Bool, true, false, not, ◌&&◌, ◌||◌, String, Option, none, some, List, [],
  ◌∷◌, ◌++◌, ltb, ◌==◌, if◌then◌else◌, Eq,
}
use xdrop.Prelude.GoMap.{GoMap, lookup, insert}
use xdrop.Prelude.{ℕ_discrete, ◌≡◌, refl}
use xdrop.Prelude.Text.{
  text_beq, Text, codes, string_eq, text_eq, trim_space, to_upper, to_lower, split, join,
}
use text.Mathlib.Text.{◌==◌ as str_eq}
use xdrop.Agent.Types

-- `(n>>8)&0xff | (n&0xff)<<8` on a uint16
unfoldable pub htons : ℕ → ℕ
htons n = bit_or (bit_and (n / 2 ^ 8) 0xff) (bit_and n 0xff * 2 ^ 8 % 2 ^ 16)

unfoldable pub ntohs : ℕ → ℕ
unfolding htons
ntohs n = htons n

pub data ValidateError : Type 0 where
  unknown_protocol invalid_action unknown_flag contradictory_flags pure_length invalid_length
        portless_with_ports :
      ValidateError

pub data Result {ℓ} (A : Type ℓ) : Type ℓ where
  ok : A → Result A
  err : ValidateError → Result A

infixl 5 ◌>>=◌
abbrev pub ◌>>=◌ {ℓ κ} : {X : Type ℓ} {Y : Type κ} → Result X → (X → Result Y) → Result Y
ok x >>= next = next x
err reason >>= next = err reason

-- a chain that succeeds: its first step does, and so does the rest on what that step gives
pub >>=-eq-ok {ℓ κ} :
    {X : Type ℓ} {Y : Type κ} (first : Result X) (next : X → Result Y) {y : Y}
    → (first >>= next) ≡ ok y
    → (x : X) × (first ≡ ok x) × (next x ≡ ok y)
>>=-eq-ok (ok x) next done = (x, refl, done)
>>=-eq-ok (err reason) next done = cc

unfoldable pub parse_protocol_strict : String → Result ℕ
parse_protocol_strict s =
    if str_eq s "" || str_eq s "all"
    then ok Types.proto_all
    else if str_eq s "tcp"
    then ok Types.proto_tcp
    else if str_eq s "udp"
    then ok Types.proto_udp
    else if str_eq s "icmp"
    then ok Types.proto_icmp
    else if str_eq s "icmpv6"
    then ok Types.proto_icmpv6
    else if str_eq s "igmp"
    then ok Types.proto_igmp
    else if str_eq s "gre"
    then ok Types.proto_gre
    else if str_eq s "esp"
    then ok Types.proto_esp
    else err unknown_protocol

-- the error is dropped, and the number that comes with it is 0
unfoldable pub parse_protocol : String → ℕ
unfolding parse_protocol_strict
parse_protocol s = elim (parse_protocol_strict s) [ ok p ↦ p | err e ↦ 0 ]

unfoldable pub protocol_to_string : ℕ → String
protocol_to_string p =
    if p == Types.proto_tcp
    then "tcp"
    else if p == Types.proto_udp
    then "udp"
    else if p == Types.proto_icmp
    then "icmp"
    else if p == Types.proto_icmpv6
    then "icmpv6"
    else if p == Types.proto_igmp
    then "igmp"
    else if p == Types.proto_gre
    then "gre"
    else if p == Types.proto_esp
    then "esp"
    else "all"

unfoldable pub parse_action : String → Result ℕ
parse_action s =
    if str_eq s "drop" || str_eq s ""
    then ok Types.action_drop
    else if str_eq s "rate_limit"
    then ok Types.action_rate_limit
    else err invalid_action

abbrev pub tcp_flag_bits : GoMap Text ℕ
tcp_flag_bits =
    (codes "FIN", 0x01)
    ∷ (codes "SYN", 0x02)
    ∷ (codes "RST", 0x04)
    ∷ (codes "PSH", 0x08)
    ∷ (codes "ACK", 0x10)
    ∷ (codes "URG", 0x20)
    ∷ (codes "ECE", 0x40)
    ∷ (codes "CWR", 0x80)
    ∷ []

-- the variables of the loop of `parseTcpFlags`
pub record FlagState : Type 0 where
  pub mask : ℕ
  pub value : ℕ
  pub seen : GoMap Text Bool

-- `seen[key]`, false for a key that is not there
is_seen : GoMap Text Bool → Text → Bool
unfolding lookup text_beq
is_seen seen key = elim (lookup key seen) [ none ↦ false | some b ↦ b ]

-- `strings.HasPrefix(name, "!")` with the name behind it
strip_bang : Text → Bool × Text
strip_bang [] = (false, [])
strip_bang (c ∷ name) = if c == b'!' then (true, name) else (false, c ∷ name)

-- the rest of the body, from the checks for a contradiction on
unfoldable pub add_flag : FlagState → Bool → Text → ℕ → Result FlagState
unfolding is_seen insert text_beq
add_flag st negate name bit =
    let key = if negate then b'!' ∷ name else name in
    if negate && is_seen st.seen name
    then err contradictory_flags
    else if not negate && is_seen st.seen (b'!' ∷ name)
    then err contradictory_flags
    else if is_seen st.seen key
    then ok st
    else ok (record {
      mask = bit_or st.mask bit;
      value = if not negate then bit_or st.value bit else st.value;
      seen = insert key true st.seen;
    })

-- `bit, ok := tcpFlagBits[name]`, and the error if `!ok`
unfoldable pub add_known : FlagState → Bool → Text → Option ℕ → Result FlagState
unfolding add_flag
add_known st negate name none = err unknown_flag
add_known st negate name (some bit) = add_flag st negate name bit

-- one round of the loop, on one part of the text
unfoldable pub parse_flag : FlagState → Text → Result FlagState
unfolding strip_bang add_known lookup trim_space to_upper text_beq
parse_flag st part =
    let part = trim_space part in
    let (negate, name) = strip_bang (to_upper part) in
    if text_eq.beq part [] then ok st else add_known st negate name (lookup name tcp_flag_bits)

unfoldable pub parse_flag_parts : FlagState → List Text → Result FlagState
unfolding parse_flag
parse_flag_parts st [] = ok st
parse_flag_parts st (part ∷ parts) = parse_flag st part >>= λ st'. parse_flag_parts st' parts

abbrev pub no_flags : FlagState
no_flags = record { mask = 0; value = 0; seen = [] }

-- (mask, value)
unfoldable pub parse_tcp_flags : Text → Result (ℕ × ℕ)
unfolding parse_flag_parts trim_space split text_beq
parse_tcp_flags s =
    if text_eq.beq (trim_space s) []
    then ok (0, 0)
    else (do st ← parse_flag_parts no_flags (split b',' (trim_space s)); ok (st.mask, st.value))

abbrev flag_names : List Text
flag_names =
    codes "CWR"
    ∷ codes "ECE"
    ∷ codes "URG"
    ∷ codes "ACK"
    ∷ codes "PSH"
    ∷ codes "RST"
    ∷ codes "SYN"
    ∷ codes "FIN"
    ∷ []

-- `tcpFlagBits[name]`
bit_of : Text → ℕ
unfolding lookup text_beq
bit_of name = elim (lookup name tcp_flag_bits) [ none ↦ 0 | some bit ↦ bit ]

flag_parts : ℕ → ℕ → List Text → List Text
unfolding bit_of
flag_parts mask value [] = []
flag_parts mask value (name ∷ names) =
    let parts = flag_parts mask value names in
    let bit = bit_of name in
    if bit_and mask bit == 0
    then parts
    else if not (bit_and value bit == 0)
    then name ∷ parts
    else (b'!' ∷ name) ∷ parts

unfoldable pub tcp_flags_to_string : ℕ → ℕ → Text
unfolding flag_parts join
tcp_flags_to_string mask value =
    if mask == 0 then [] else join b',' (flag_parts mask value flag_names)

abbrev portless_protocols_node : GoMap Text Bool
portless_protocols_node =
    (codes "icmp", true)
    ∷ (codes "icmpv6", true)
    ∷ (codes "igmp", true)
    ∷ (codes "gre", true)
    ∷ (codes "esp", true)
    ∷ []

-- `portlessProtocolsNode[strings.ToLower(protocol)]`
unfoldable pub is_portless : String → Bool
unfolding lookup to_lower text_beq
is_portless protocol = elim (lookup (to_lower (codes protocol)) portless_protocols_node) [
  | none ↦ false
  | some b ↦ b
]

unfoldable pub validate_port_protocol_compat_node : String → ℕ → ℕ → Option ValidateError
validate_port_protocol_compat_node protocol src_port dst_port =
    if not (is_portless protocol)
    then none
    else if src_port == 0 && dst_port == 0
    then none
    else some portless_with_ports

-- `nil` is `none`
unfoldable pub validate_rule : Text → Text → String → ℕ → ℕ → ℕ → ℕ → Option ValidateError
unfolding validate_port_protocol_compat_node
validate_rule src_ip dst_ip protocol src_port dst_port pkt_len_min pkt_len_max =
    let has_length_filter = ltb 0 pkt_len_min || ltb 0 pkt_len_max in
    let has5_tuple =
      not (text_eq.beq src_ip [])
      || not (text_eq.beq dst_ip [])
      || not (src_port == 0)
      || not (dst_port == 0)
      || not (str_eq protocol "") && not (str_eq protocol "all") in
    if has_length_filter && not has5_tuple
    then some pure_length
    else if ltb 0 pkt_len_min && ltb 0 pkt_len_max && ltb pkt_len_max pkt_len_min
    then some invalid_length
    else validate_port_protocol_compat_node protocol src_port dst_port
