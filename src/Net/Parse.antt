-- ===== src/Net/Parse.antt =====
-- `netip.ParseAddr` without zones, which net.ParseIP and net.ParseCIDR refuse.
use xdrop.Prelude.{
  ℕ, zero, suc, ◌+◌, ◌-◌, ◌*◌, ◌/◌, ◌%◌, Bool, true, false, ◌&&◌, ◌||◌, not, Option, none, some,
  List, [], ◌∷◌, ◌++◌, length, take, drop, replicate, ltb, leb, ◌==◌, if◌then◌else◌,
}
use xdrop.Prelude.Bytes.{Bytes}

-- `netip.Addr`: 4 bytes and 32 bits, or 16 bytes and 128 bits
pub record BitAddr : Type 0 where
  pub addr : Bytes
  pub bits : ℕ

-- what stands before and behind the first `c`
unfoldable pub cut : ℕ → List ℕ → Option (List ℕ × List ℕ)
cut c [] = none
cut c (x ∷ s) =
    let rest = cut c s in
    if x == c then some ([], s) else elim rest [ none ↦ none | some (a, b) ↦ some (x ∷ a, b) ]

unfoldable pub is_digit : ℕ → Bool
is_digit c = leb b'0' c && leb c b'9'

-- `dtoi` on the whole text; its limit 0xFFFFFF is above every prefix length
decimal_from : ℕ → List ℕ → Option ℕ
unfolding is_digit
decimal_from n [] = some n
decimal_from n (c ∷ s) =
    let n' = n * 10 + (c - b'0') in
    let rest = decimal_from n' s in
    if not (is_digit c) then none else if leb 0xffffff n' then none else rest

unfoldable pub parse_decimal : List ℕ → Option ℕ
unfolding decimal_from
parse_decimal [] = none
parse_decimal (c ∷ s) = decimal_from 0 (c ∷ s)

-- `parseIPv4Fields`: the fields so far, the value and the digits of the field that is open
unfoldable pub v4_fields : List ℕ → ℕ → ℕ → List ℕ → Option Bytes
unfolding is_digit
v4_fields fields val digits [] =
    if not (digits == 0) && length fields == 3 then some (fields ++ val ∷ []) else none
v4_fields fields val digits (c ∷ s) =
    let val' = val * 10 + (c - b'0') in
    let digit = v4_fields fields val' (digits + 1) s in
    let dot = v4_fields (fields ++ val ∷ []) 0 0 s in
    if is_digit c
    then (if digits == 1 && val == 0 || ltb 255 val' then none else digit)
    else if c == b'.'
    then (if digits == 0 || length fields == 3 then none else dot)
    else none

hex_value : ℕ → Option ℕ
hex_value c =
    if leb b'0' c && leb c b'9'
    then some (c - b'0')
    else if leb b'a' c && leb c b'f'
    then some (c - b'a' + 10)
    else if leb b'A' c && leb c b'F'
    then some (c - b'A' + 10)
    else none

-- the digits in front: their number, their value and the rest
hex_digits : ℕ → ℕ → List ℕ → ℕ × ℕ × List ℕ
unfolding hex_value
hex_digits off acc [] = (off, acc, [])
hex_digits off acc (c ∷ s) = elim (hex_value c) [
  | none ↦ (off, acc, c ∷ s)
  | some d ↦ hex_digits (off + 1) (acc * 16 + d) s
]

-- where the loop of `parseIPv6` stands: the bytes so far, and how many of them the `::` follows
record V6State : Type 0 where
  bytes : Bytes
  ellipsis : Option ℕ

-- the `::` is filled with zeros
v6_finish : V6State → Option Bytes
v6_finish st = elim st.ellipsis [
  | none ↦ if length st.bytes == 16 then some st.bytes else none
  | some at ↦
      if ltb (length st.bytes) 16
      then some (take at st.bytes ++ (replicate (16 - length st.bytes) 0 ++ drop at st.bytes))
      else none
]

is_none : Option ℕ → Bool
is_none none = true
is_none (some _) = false

-- behind a `::` that closes a group
v6_ellipsis : (V6State → List ℕ → Option Bytes) → V6State → List ℕ → Option Bytes
unfolding v6_finish is_none
v6_ellipsis loop st [] =
    if not (is_none st.ellipsis)
    then none
    else v6_finish (record st { ellipsis = some (length st.bytes) })
v6_ellipsis loop st (c ∷ s) =
    if not (is_none st.ellipsis)
    then none
    else loop (record st { ellipsis = some (length st.bytes) }) (c ∷ s)

-- behind the colon that closes a group
v6_colon : (V6State → List ℕ → Option Bytes) → V6State → List ℕ → Option Bytes
unfolding v6_ellipsis
v6_colon loop st [] = none
v6_colon loop st (c ∷ s) = if c == b':' then v6_ellipsis loop st s else loop st (c ∷ s)

-- the rest of a round behind the digits of a group; `loop` is the next round
v6_group : (V6State → List ℕ → Option Bytes) → V6State → List ℕ → Option Bytes
unfolding v6_finish v6_colon
v6_group loop st [] = v6_finish st
v6_group loop st (c ∷ s) = if c == b':' then v6_colon loop st s else none

-- an embedded dotted address ends the text
v6_dotted : V6State → List ℕ → Option Bytes
unfolding v4_fields v6_finish is_none
v6_dotted st s =
    if is_none st.ellipsis && not (length st.bytes == 12) || ltb 12 (length st.bytes)
    then none
    else elim (v4_fields [] 0 0 s) [
      | none ↦ none
      | some v4 ↦ v6_finish (record st { bytes = st.bytes ++ v4 })
    ]

starts_dot : List ℕ → Bool
starts_dot [] = false
starts_dot (c ∷ s) = c == b'.'

-- at most eight groups; a ninth is refused, as the loop ends with text left
v6_loop : ℕ → V6State → List ℕ → Option Bytes
unfolding hex_digits v6_group v6_dotted starts_dot
v6_loop zero st s = none
v6_loop (suc n) st s =
    let (off, acc, rest) = hex_digits 0 0 s in
    if not (off == 0) && not (ltb 4 off) && starts_dot rest
    then v6_dotted st s
    else if off == 0 || ltb 4 off
    then none
    else v6_group (v6_loop n) (record st { bytes = st.bytes ++ (acc / 256 ∷ acc % 256 ∷ []) }) rest

parse_v6 : List ℕ → Option Bytes
unfolding v6_loop
parse_v6 (a ∷ b ∷ s) =
    if a == b':' && b == b':'
    then elim s [
      | [] ↦ some (replicate 16 0)
      | c ∷ r ↦ v6_loop 8 (record { bytes = []; ellipsis = some 0 }) (c ∷ r)
    ]
    else v6_loop 8 (record { bytes = []; ellipsis = none }) (a ∷ b ∷ s)
parse_v6 s = none

-- whether a dot stands before every colon
unfoldable pub is_dotted : List ℕ → Bool
is_dotted [] = false
is_dotted (c ∷ s) =
    let rest = is_dotted s in if c == b'.' then true else if c == b':' then false else rest

unfoldable pub parse_addr : List ℕ → Option BitAddr
unfolding is_dotted v4_fields parse_v6
parse_addr s =
    if is_dotted s
    then elim (v4_fields [] 0 0 s) [
      | none ↦ none
      | some v4 ↦ some (record { addr = v4; bits = 32 })
    ]
    else elim (parse_v6 s) [ none ↦ none | some v6 ↦ some (record { addr = v6; bits = 128 }) ]
