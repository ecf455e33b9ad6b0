-- ===== src/Net/Print.antt =====
-- `IP.String` and `IPNet.String`, as code points.
use xdrop.Net.{
  Ip, IpNet, to4, short_form, List, ℕ, Bytes, some, if◌then◌else◌, ◌∷◌, length, ltb, [], take, drop,
}
use xdrop.Prelude.Text.{Text, join}
use xdrop.Prelude.{map, ◌+◌, none, ◌*◌, ◌==◌, ◌&&◌, suc, ◌-◌, ◌++◌, ◌/◌, ◌%◌}

-- a decimal number below 1000
unfoldable pub decimal : ℕ → Text
decimal n =
    if ltb n 10
    then (b'0' + n) ∷ []
    else if ltb n 100
    then (b'0' + n / 10) ∷ (b'0' + n % 10) ∷ []
    else (b'0' + n / 100) ∷ (b'0' + n / 10 % 10) ∷ (b'0' + n % 10) ∷ []

unfoldable pub print_v4 : Bytes → Text
unfolding decimal join
print_v4 ip = join b'.' (map decimal ip)

hex_digit : ℕ → ℕ
hex_digit d = if ltb d 10 then b'0' + d else b'a' + (d - 10)

-- a group of an IPv6 address, without leading zeros
hex : ℕ → Text
unfolding hex_digit
hex g =
    if ltb g 16
    then hex_digit g ∷ []
    else if ltb g 256
    then hex_digit (g / 16) ∷ hex_digit (g % 16) ∷ []
    else if ltb g 4096
    then hex_digit (g / 256) ∷ hex_digit (g / 16 % 16) ∷ hex_digit (g % 16) ∷ []
    else hex_digit (g / 4096)
      ∷ hex_digit (g / 256 % 16)
      ∷ hex_digit (g / 16 % 16)
      ∷ hex_digit (g % 16)
      ∷ []

groups : Bytes → List ℕ
groups (a ∷ b ∷ ip) = (a * 256 + b) ∷ groups ip
groups ip = []

-- the zeros in front
zeros : List ℕ → ℕ
zeros [] = 0
zeros (g ∷ gs) = let rest = zeros gs in if g == 0 then suc rest else 0

-- the first longest run of zeros: where it starts and how long it is
longest : ℕ → ℕ × ℕ → List ℕ → ℕ × ℕ
unfolding zeros
longest at best [] = best
longest at best (g ∷ gs) =
    longest (at + 1) (if ltb best.1 (zeros (g ∷ gs)) then (at, zeros (g ∷ gs)) else best) gs

-- a run of at least two zeros is written `::`
print_v6 : Bytes → Text
unfolding hex groups longest join
print_v6 ip =
    let gs = groups ip in
    let (at, run) = longest 0 (0, 0) gs in
    if ltb run 2
    then join b':' (map hex gs)
    else join b':' (map hex (take at gs))
      ++ (b':' ∷ b':' ∷ join b':' (map hex (drop (at + run) gs)))

-- `ip.String()`
unfoldable pub ip_to_string : Ip → Text
unfolding to4 print_v4 print_v6
ip_to_string ip = elim (to4 ip) [ some v4 ↦ print_v4 v4 | none ↦ print_v6 ip ]

-- `n.String()`: a mapped IPv6 network is written with dots, its prefix 96 shorter; a mask shorter
-- than that does not fit it
unfoldable pub net_to_string : IpNet → Text
unfolding short_form ip_to_string decimal
net_to_string n =
    let ones = if length (short_form n.ip) == 4 && n.bits == 128 then n.ones - 96 else n.ones in
    ip_to_string n.ip ++ (b'/' ∷ decimal ones)
