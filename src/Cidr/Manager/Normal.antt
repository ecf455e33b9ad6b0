-- ===== src/Cidr/Manager/Normal.antt =====
-- CIDRs in normal form, which the callers of the Manager pass, and their trie keys.
use xdrop.Net.{Ip, IpNet, to4, to16, parse_cidr}
use xdrop.Net.Print.{net_to_string}
use xdrop.Cidr.Manager.{make_lpm_v4_key, make_lpm_v6_key, make_key, Bool, Text, some, none}
use xdrop.Prelude.{◌≡◌, sym, ◌∙◌, arith, length, ap, if◌then◌else◌, ◌*◌, true, false}

-- A text that `NormalizeCIDR` leaves as it is, of the family `is_v6`. The mask has the size of the
-- address: a mapped IPv4 network is written with dots in normal form.
pub record IsNormal (is_v6 : Bool) (cidr : Text) : Type 0 where
  pub ip : Ip
  pub net : IpNet
  pub parsed : parse_cidr cidr ≡ some (ip, net)
  pub printed : net_to_string net ≡ cidr
  pub size : length net.ip ≡ (if is_v6 then 16 else 4)
  pub bits : net.bits ≡ 8 * length net.ip

-- the key of a CIDR in normal form has the bytes of its network
normal-make_key :
    (is_v6 : Bool) (c : Text) (n : IsNormal is_v6 c)
    → make_key is_v6 c ≡ some (record { prefix_len = n.net.ones; bytes = n.net.ip })
unfolding make_key make_lpm_v4_key make_lpm_v6_key to4 to16
normal-make_key true c n = ground (arith, n.parsed, n.size)
normal-make_key false c n = ground (arith, n.parsed, n.size)

-- CIDRs in normal form are known by their keys
pub make_key-injective :
    (is_v6 : Bool) (c d : Text)
    → IsNormal is_v6 c
    → IsNormal is_v6 d
    → make_key is_v6 c ≡ make_key is_v6 d
    → c ≡ d
make_key-injective is_v6 c d n m h =
    let same = sym (normal-make_key is_v6 c n) ∙ h ∙ normal-make_key is_v6 d m in
    let net : n.net ≡ m.net = ground (arith, same, n.size, m.size, n.bits, m.bits) in
    sym n.printed ∙ ap net_to_string net ∙ m.printed

pub normal-has_key : (is_v6 : Bool) (c : Text) → IsNormal is_v6 c → ¬ (make_key is_v6 c ≡ none)
normal-has_key is_v6 c n h = cc (normal-make_key is_v6 c n)
