-- ===== src/Agent/Listing/Sides.antt =====
-- The addresses of ipAddrToString of node/agent/api/serialize.go, sent back to the agent.
use Prim.Native.Nat.{ℕ, ◌≤◌}
use mathlib.Core.List.{[], ◌∷◌, replicate}
use xdrop.Prelude.{
  true, false, some, none, ◌≡◌, ◌≢◌, ◌⊎◌, inl, inr, refl, sym, ap, ◌∙◌, Bool-cases, arith, drop,
  ◌++◌, subst,
}
use xdrop.Prelude.Text.{Text, codes, text_beq, text_eq}
use xdrop.Prelude.Bytes.{Bytes}
use xdrop.Net.{parse_ip, v4_in_v6_prefix, as16}
use xdrop.Net.Parse.{parse_addr}
use xdrop.Net.Print.{print_v4, ip_to_string}
use xdrop.Net.Dotted.{v4_read}
use xdrop.Agent.Types.{IpAddr}
use xdrop.Agent.Convert.{side_addr, is_set, ip_to_ip_addr}
use xdrop.Agent.Listing.{ip_addr_to_string}

abbrev pub mapped : ℕ → ℕ → ℕ → ℕ → IpAddr
mapped a b c d = v4_in_v6_prefix ++ (a ∷ b ∷ c ∷ d ∷ [])

-- an IPv4 address other than 0.0.0.0
pub record IsDotted (addr : IpAddr) : Type 0 where
  pub a : ℕ
  pub b : ℕ
  pub c : ℕ
  pub d : ℕ
  pub bytes : (a ≤ 255) × (b ≤ 255) × (c ≤ 255) × (d ≤ 255)
  pub set : a ∷ b ∷ c ∷ d ∷ [] ≢ 0 ∷ 0 ∷ 0 ∷ 0 ∷ []
  pub is_mapped : addr ≡ mapped a b c d

-- any address, or one of IPv4
abbrev pub IsV4 : IpAddr → Type 0
IsV4 addr = (addr ≡ replicate 16 0) ⊎ IsDotted addr

nothing_parsed : parse_ip [] ≡ none
unfolding parse_ip parse_addr
nothing_parsed = refl

zeros_parsed : parse_ip (codes "0.0.0.0") ≡ some (mapped 0 0 0 0)
unfolding parse_ip parse_addr as16
zeros_parsed = refl

colons_parsed : parse_ip (codes "::") ≡ some (replicate 16 0)
unfolding parse_ip parse_addr as16
colons_parsed = refl

some_equal : (x y : Bytes) → some x ≡ some y → x ≡ y
some_equal x y same = cc

printed : (a b c d : ℕ) → ip_addr_to_string (mapped a b c d) ≡ print_v4 (a ∷ b ∷ c ∷ d ∷ [])
unfolding ip_addr_to_string ip_to_string
printed a b c d = refl

module _ (a b c d : ℕ) (ha : a ≤ 255) (hb : b ≤ 255) (hc : c ≤ 255) (hd : d ≤ 255) where
  parsed : parse_ip (print_v4 (a ∷ b ∷ c ∷ d ∷ [])) ≡ some (mapped a b c d)
  unfolding parse_ip as16
  parsed = rw (v4_read a b c d ha hb hc hd, parse_ip) refl

  module _ (set : a ∷ b ∷ c ∷ d ∷ [] ≢ 0 ∷ 0 ∷ 0 ∷ 0 ∷ []) where
    -- the text is not one of those that stand for any address
    differs :
        (text : Text)
        → parse_ip text ≢ some (mapped a b c d)
        → text_beq (print_v4 (a ∷ b ∷ c ∷ d ∷ [])) text ≡ false
    differs text other = elim (Bool-cases (text_beq (print_v4 (a ∷ b ∷ c ∷ d ∷ [])) text)) [
      | inl same ↦
          let texts = (text_eq.beq_iff (print_v4 (a ∷ b ∷ c ∷ d ∷ [])) text).0 same in
          absurd (other (ap parse_ip (sym texts) ∙ parsed))
      | inr unlike ↦ unlike
    ]

    printed_set : is_set (print_v4 (a ∷ b ∷ c ∷ d ∷ [])) ≡ true
    unfolding is_set
    printed_set =
        let mine = mapped a b c d in
        let nothing : parse_ip [] ≢ some mine =
          λ same. (let never : none ≡ some mine = sym nothing_parsed ∙ same in cc) in
        let zeros : parse_ip (codes "0.0.0.0") ≢ some mine =
          λ same. set (sym (ap (drop 12) (some_equal _ mine (sym zeros_parsed ∙ same)))) in
        let colons : parse_ip (codes "::") ≢ some mine = λ same.
          (let never = ap (drop 10) (some_equal _ mine (sym colons_parsed ∙ same)) in
            ground arith) in
        rw (differs [] nothing, differs (codes "0.0.0.0") zeros, differs (codes "::") colons) refl

    side_dotted : side_addr (print_v4 (a ∷ b ∷ c ∷ d ∷ [])) ≡ some (mapped a b c d)
    unfolding side_addr ip_to_ip_addr
    side_dotted = rw (printed_set, parsed) refl

no_side : side_addr (ip_addr_to_string (replicate 16 0)) ≡ some (replicate 16 0)
unfolding side_addr ip_addr_to_string is_set
no_side = refl

pub side_addr-ip_addr_to_string :
    (addr : IpAddr) → IsV4 addr → side_addr (ip_addr_to_string addr) ≡ some addr
side_addr-ip_addr_to_string addr (inl any) =
    subst (λ x. side_addr (ip_addr_to_string x) ≡ some x) (sym any) no_side
side_addr-ip_addr_to_string addr (inr v4) =
    subst (λ x. side_addr (ip_addr_to_string x) ≡ some x) (sym v4.is_mapped)
      (ap side_addr (printed v4.a v4.b v4.c v4.d)
        ∙ side_dotted v4.a v4.b v4.c v4.d v4.bytes.0 v4.bytes.1 v4.bytes.2 v4.bytes.3 v4.set)
