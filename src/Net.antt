-- ===== src/Net.antt =====
-- What the program uses of Go's package net: addresses and CIDR prefixes, read from text and printed.
pub mod Parse
pub mod Print
pub mod Dotted
mod Tests
use xdrop.Prelude.{
  ℕ, ◌+◌, ◌-◌, ◌*◌, ◌/◌, ◌^◌, Bool, true, false, ◌&&◌, not, Option, none, some, List, [], ◌∷◌, ◌++◌,
  length, take, drop, replicate, ltb, ◌==◌, if◌then◌else◌,
}
use xdrop.Prelude.Bytes.{Bytes}
use xdrop.Prelude.Text.{text_beq}
use Parse.{BitAddr, cut, parse_addr, parse_decimal}

-- `net.IP`: 4 or 16 bytes
abbrev pub Ip : Type 0
Ip = Bytes

-- `net.IPNet`, its mask by the number of its ones and by its size in bits
pub record IpNet : Type 0 where
  pub ip : Ip
  pub ones : ℕ
  pub bits : ℕ

abbrev pub v4_in_v6_prefix : Bytes
v4_in_v6_prefix = 0 ∷ 0 ∷ 0 ∷ 0 ∷ 0 ∷ 0 ∷ 0 ∷ 0 ∷ 0 ∷ 0 ∷ 0xff ∷ 0xff ∷ []

-- `ip.To4()`
unfoldable pub to4 : Ip → Option Ip
unfolding text_beq
to4 ip =
    if length ip == 4
    then some ip
    else if length ip == 16 && text_beq (take 12 ip) v4_in_v6_prefix
    then some (drop 12 ip)
    else none

-- `ip.To16()`
unfoldable pub to16 : Ip → Option Ip
to16 ip =
    if length ip == 4
    then some (v4_in_v6_prefix ++ ip)
    else if length ip == 16
    then some ip
    else none

-- `ip.IsUnspecified()`: 0.0.0.0 and ::
unfoldable pub is_unspecified : Ip → Bool
unfolding to4 text_beq
is_unspecified ip = elim (to4 ip) [
  | some v4 ↦ text_beq v4 (replicate 4 0)
  | none ↦ text_beq ip (replicate 16 0)
]

unfoldable pub as16 : BitAddr → Ip
as16 a = if a.bits == 32 then v4_in_v6_prefix ++ a.addr else a.addr

-- `net.ParseIP`: 16 bytes, or nil
unfoldable pub parse_ip : List ℕ → Option Ip
unfolding parse_addr as16
parse_ip s = elim (parse_addr s) [ none ↦ none | some a ↦ some (as16 a) ]

-- the first `ones` bits of an address
unfoldable pub mask_bytes : ℕ → Bytes → Bytes
mask_bytes ones [] = []
mask_bytes ones (b ∷ ip) =
    let rest = mask_bytes (ones - 8) ip in
    (if ltb ones 8 then b / 2 ^ (8 - ones) * 2 ^ (8 - ones) else b) ∷ rest

-- `net.ParseCIDR`: the address as 16 bytes and the network, which has 4 bytes for an address
-- written with dots and 16 for the others
unfoldable pub parse_cidr : List ℕ → Option (Ip × IpNet)
unfolding cut parse_addr parse_decimal as16 mask_bytes
parse_cidr s = elim (cut b'/' s) [
  | none ↦ none
  | some (addr, mask) ↦ elim (parse_addr addr) [
    | none ↦ none
    | some a ↦ elim (parse_decimal mask) [
      | none ↦ none
      | some n ↦
          if ltb a.bits n
          then none
          else some (as16 a, record { ip = mask_bytes n a.addr; ones = n; bits = a.bits })
    ]
  ]
]

-- the 4 bytes of an IPv4 address, the 16 bytes of any other
unfoldable pub short_form : Ip → Ip
unfolding to4
short_form ip = elim (to4 ip) [ some v4 ↦ v4 | none ↦ ip ]

-- `n.Contains(ip)`, with `networkNumberAndMask` for a mask of 16 bytes over a mapped address
unfoldable pub contains : IpNet → Ip → Bool
unfolding short_form mask_bytes text_beq
contains n ip =
    let nn = short_form n.ip in
    let ones = if length nn == 4 && n.bits == 128 then n.ones - 96 else n.ones in
    let x = short_form ip in
    length x == length nn && text_beq (mask_bytes ones nn) (mask_bytes ones x)
