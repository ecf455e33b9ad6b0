-- ===== src/Net/Tests.antt =====
-- Addresses and prefixes as Go reads and prints them.
use xdrop.Net.{parse_ip, parse_cidr, Option, none, some}
use xdrop.Net.Print.{ip_to_string, net_to_string}
use Prim.Native.String.{String}
use xdrop.Prelude.{◌≡◌, refl}
use xdrop.Prelude.Text.{Text, codes}

abbrev reprint : String → Option Text
reprint s = elim (parse_ip (codes s)) [ none ↦ none | some ip ↦ some (ip_to_string ip) ]

abbrev network : String → Option Text
network s = elim (parse_cidr (codes s)) [ none ↦ none | some (ip, n) ↦ some (net_to_string n) ]

v4 : reprint "192.168.1.5" ≡ some (codes "192.168.1.5")
unfolding parse_ip ip_to_string
v4 = refl

v4_bad : (reprint "192.168.01.5" ≡ none) × (reprint "1.2.3" ≡ none) × (reprint "1.2.3.256" ≡ none)
unfolding parse_ip
v4_bad = (refl, refl, refl)

v6 : reprint "2001:DB8:0:0:1::1" ≡ some (codes "2001:db8::1:0:0:1")
unfolding parse_ip ip_to_string
v6 = refl

v6_short :
    (reprint "::" ≡ some (codes "::"))
    × (reprint "fe80::" ≡ some (codes "fe80::"))
    × (reprint "::ffff:1.2.3.4" ≡ some (codes "1.2.3.4"))
unfolding parse_ip ip_to_string
v6_short = (refl, refl, refl)

v6_bad :
    (reprint "1:2:3:4:5:6:7:8:9" ≡ none)
    × (reprint "1::2::3" ≡ none)
    × (reprint "12345::" ≡ none)
    × (reprint "fe80::1%eth0" ≡ none)
unfolding parse_ip
v6_bad = (refl, refl, refl, refl)

cidr :
    (network "192.168.1.5/24" ≡ some (codes "192.168.1.0/24"))
    × (network "10.1.2.3/33" ≡ none)
    × (network "2001:db8::1/33" ≡ some (codes "2001:db8::/33"))
    × (network "1.2.3.4" ≡ none)
unfolding parse_cidr net_to_string
cidr = (refl, refl, refl, refl)
