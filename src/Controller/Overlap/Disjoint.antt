-- ===== src/Controller/Overlap/Disjoint.antt =====
-- What the overlap test of controller/internal/service/rule_service.go keeps apart.
use Prim.Native.Nat.{ℕ, zero, suc, ◌≤◌, ◌<◌, ◌+◌, ◌-◌, ◌*◌, ◌/◌, ◌^◌}
use native.Mathlib.Nat.{div-div-eq-div-mul, div-eq_of_eq-mul_left, zero-add, mul-one}
use native.Mathlib.Omega.{pow_step}
use mathlib.Core.List.{List, [], ◌∷◌}
use xdrop.Prelude.{
  true, false, ◌&&◌, some, none, if◌then◌else◌, leb, ltb, ◌==◌, arith, refl, ◌≡◌, ◌∙◌, ap, sym,
  and_parts, Bool-cases, inl, inr, length, ==_iff, leb→le, subst, ◌≢◌,
}
use xdrop.Prelude.Text.{Text, text_beq, text_beq_iff, text_eq}
use xdrop.Prelude.Bytes.{Bytes}
use xdrop.Prelude.GoMap.{is_in}
use xdrop.Controller.Overlap.{nets_overlap, conflicts, find_conflict, find_cidr_overlap}
use xdrop.Net.{Ip, IpNet, parse_cidr, contains, mask_bytes, short_form}

pow_pos : (n : ℕ) → 0 < 2 ^ n
pow_pos zero = omega arith
pow_pos (suc n) = omega (arith, pow_step 2 n, pow_pos n)

pow_add : (d e : ℕ) → 2 ^ (d + e) ≡ 2 ^ e * 2 ^ d
pow_add zero e = simp (zero-add, mul-one)
pow_add (suc d) e =
    let next : suc d + e ≡ suc (d + e) = omega arith in
    rw (next, pow_step 2 (d + e), pow_step 2 d, pow_add d e) (grind arith)

-- the bits that a shorter mask keeps, from those that a longer one keeps
div_masked : (p q b : ℕ) → 0 < p → b / p * p / (p * q) ≡ b / (p * q)
div_masked p q b positive =
    sym (div-div-eq-div-mul (b / p * p) p q)
    ∙ ap (λ c. c / q) (div-eq_of_eq-mul_left positive refl)
    ∙ div-div-eq-div-mul b p q

-- the first `k` bits of a byte
mask_byte : ℕ → ℕ → ℕ
mask_byte k b = if ltb k 8 then b / 2 ^ (8 - k) * 2 ^ (8 - k) else b

mask_byte_shorter : (j k b : ℕ) → j ≤ k → mask_byte j (mask_byte k b) ≡ mask_byte j b
unfolding mask_byte
mask_byte_shorter j k b small = elim (Bool-cases (ltb k 8)) [
  | inr whole ↦ rw whole refl
  | inl below ↦
      let shorter : ltb j 8 ≡ true = ground arith in
      let exponent : 8 - j ≡ k - j + (8 - k) = ground arith in
      let split : 2 ^ (8 - j) ≡ 2 ^ (8 - k) * 2 ^ (k - j) =
        ap (λ n. 2 ^ n) exponent ∙ pow_add (k - j) (8 - k) in
      rw (below, shorter, split)
        (ap (λ c. c * (2 ^ (8 - k) * 2 ^ (k - j)))
          (div_masked (2 ^ (8 - k)) (2 ^ (k - j)) b (pow_pos (8 - k))))
]

mask_bytes_shorter :
    (j k : ℕ) (ip : Bytes) → j ≤ k → mask_bytes j (mask_bytes k ip) ≡ mask_bytes j ip
unfolding mask_bytes mask_byte
mask_bytes_shorter j k [] small = refl
mask_bytes_shorter j k (b ∷ ip) small =
    let head : mask_byte j (mask_byte k b) ≡ mask_byte j b = mask_byte_shorter j k b small in
    λ i. head i ∷ mask_bytes_shorter (j - 8) (k - 8) ip (omega arith) i

-- a network by its shortest address and by the ones of the mask over that
base : IpNet → Ip
base n = short_form n.ip

ones_of : IpNet → ℕ
ones_of n = if length (base n) == 4 && n.bits == 128 then n.ones - 96 else n.ones

-- two networks of one size in bits that share an address: the shorter mask keeps the same of both bases
shared_base :
    (j k : ℕ) (m n x : Ip)
    → j ≤ k
    → mask_bytes j m ≡ mask_bytes j x
    → mask_bytes k n ≡ mask_bytes k x
    → mask_bytes j m ≡ mask_bytes j n
shared_base j k m n x small in_m in_n =
    in_m
    ∙ sym (mask_bytes_shorter j k x small)
    ∙ ap (mask_bytes j) (sym in_n)
    ∙ mask_bytes_shorter j k n small

contains_parts :
    (n : IpNet) (x : Ip)
    → contains n x ≡ true
    → (length (short_form x) ≡ length (base n))
      × (mask_bytes (ones_of n) (base n) ≡ mask_bytes (ones_of n) (short_form x))
unfolding contains base ones_of
contains_parts n x h =
    let parts = and_parts (length (short_form x) == length (short_form n.ip)) _ h in
    ((==_iff _ _).0 parts.0, (text_beq_iff _ _).0 parts.1)

contains_of :
    (n : IpNet) (x : Ip)
    → length (short_form x) ≡ length (base n)
    → mask_bytes (ones_of n) (base n) ≡ mask_bytes (ones_of n) (short_form x)
    → contains n x ≡ true
unfolding contains base ones_of
contains_of n x same_length same =
    rw ((==_iff (length (short_form x)) (length (short_form n.ip))).1 same_length)
      ((text_beq_iff _ _).1 same)

-- of two networks of one family that share an address, the one with the shorter mask contains the other
shorter_contains :
    (m n : IpNet) (x : Ip)
    → m.bits ≡ n.bits
    → m.ones ≤ n.ones
    → contains m x ≡ true
    → contains n x ≡ true
    → contains m n.ip ≡ true
unfolding base ones_of
shorter_contains m n x family shorter in_m in_n =
    let m_parts = contains_parts m x in_m in
    let n_parts = contains_parts n x in_n in
    let same_length : length (short_form n.ip) ≡ length (short_form m.ip) =
      sym n_parts.0 ∙ m_parts.0 in
    contains_of m n.ip same_length (
      shared_base (ones_of m) (ones_of n) (base m) (base n) (short_form x)
        (rw (same_length, family) (ground arith)) m_parts.1 n_parts.1)

nets_share :
    (m n : IpNet) (x : Ip)
    → m.bits ≡ n.bits
    → contains m x ≡ true
    → contains n x ≡ true
    → nets_overlap m n ≡ true
unfolding nets_overlap
nets_share m n x family in_m in_n = elim (Bool-cases (leb n.ones m.ones)) [
  | inl longer ↦
      let inside = shorter_contains n m x (sym family) (leb→le _ _ longer) in_n in_m in
      rw (longer, inside) refl
  | inr shorter ↦
      let below : leb m.ones n.ones ≡ true = ground arith in
      let inside = shorter_contains m n x family (ground arith) in_m in_n in
      rw (shorter, below, inside) refl
]

found_conflict :
    (new_cidr : Text) (new_net : IpNet) (existing : List Text) (e : Text)
    → is_in e existing ≡ true
    → find_conflict new_cidr new_net existing ≡ none
    → conflicts new_cidr new_net e ≡ false
unfolding find_conflict is_in
found_conflict new_cidr new_net [] e here free = cc
found_conflict new_cidr new_net (d ∷ existing) e here free =
    elim (Bool-cases (conflicts new_cidr new_net d)) [
      | inl conflict ↦ (let never : some d ≡ none = rw conflict at free in cc)
      | inr clear ↦ elim (Bool-cases (text_eq.beq d e)) [
        | inl same ↦
            subst (λ t. conflicts new_cidr new_net t ≡ false) ((text_beq_iff d e).0 same) clear
        | inr other ↦
            found_conflict new_cidr new_net existing e (rw other at here) (rw clear at free)
      ]
    ]

overlap-conflicts :
    (new_cidr e : Text) (new_net net : IpNet) (ip : Ip)
    → e ≢ new_cidr
    → parse_cidr e ≡ some (ip, net)
    → nets_overlap new_net net ≡ true
    → conflicts new_cidr new_net e ≡ true
unfolding conflicts
overlap-conflicts new_cidr e new_net net ip other parsed overlap =
    elim (Bool-cases (text_beq e new_cidr)) [
      | inl same ↦ absurd (other ((text_beq_iff e new_cidr).0 same))
      | inr differs ↦ rw (parsed, conflicts) (rw (differs, overlap) refl)
    ]

-- Where findCIDROverlap finds no conflict, no address lies both in the new CIDR and in one of the
-- existing ones, if that is written differently and is a network of the same address family.
pub find_cidr_overlap-disjoint :
    (new_cidr e : Text) (existing : List Text) (ip ip' x : Ip) (new_net net : IpNet)
    → find_cidr_overlap new_cidr existing ≡ none
    → is_in e existing ≡ true
    → e ≢ new_cidr
    → parse_cidr new_cidr ≡ some (ip, new_net)
    → parse_cidr e ≡ some (ip', net)
    → new_net.bits ≡ net.bits
    → contains new_net x ≡ true
    → contains net x ≡ false
unfolding find_cidr_overlap
find_cidr_overlap-disjoint new_cidr e existing ip ip' x new_net net free here other new_parsed
      parsed family inside =
    elim (Bool-cases (contains net x)) [
      | inr outside ↦ outside
      | inl both ↦
          let overlap = nets_share new_net net x family inside both in
          let clear =
            found_conflict new_cidr new_net existing e here
              (rw (new_parsed, find_cidr_overlap) at free) in
          let conflict = overlap-conflicts new_cidr e new_net net ip' other parsed overlap in
          (let never : true ≡ false = sym conflict ∙ clear in cc)
    ]
