-- ===== src/Agent/Validate/FlagTables.antt =====
-- TCP flag bytes, checked value by value: what a printed pair reads back as, and what one more flag
-- does to a mask and a value within it.
use Prim.Native.Nat.{bit_and, bit_or}
use xdrop.Prelude.{
  ℕ, ◌+◌, ◌-◌, ◌<◌, ◌≤◌, ◌≡◌, refl, Bool, true, false, ◌&&◌, ◌==◌, ltb, if◌then◌else◌, arith,
  ==_iff,
}
use xdrop.Prelude.Range.{all_below, all_below_sound}
use native.Mathlib.Decide.{dec_lt}
use xdrop.Agent.Validate.{Result, ok, err, parse_tcp_flags, tcp_flags_to_string}

abbrev is_pair : Result (ℕ × ℕ) → ℕ → ℕ → Bool
is_pair (ok (a, b)) c d = a == c && b == d
is_pair (err e) c d = false

reads_back : ℕ → ℕ → Bool
unfolding parse_tcp_flags tcp_flags_to_string
reads_back m v = is_pair (parse_tcp_flags (tcp_flags_to_string m v)) m v

comes_back : ℕ → ℕ → Bool
unfolding reads_back
comes_back m v = if bit_and v m == v then reads_back m v else true

fits : ℕ → ℕ → ℕ → Bool
fits b m v =
    let m' = bit_or m b in
    let v' = bit_or v b in ltb m' 256 && ltb v' 256 && bit_and v' m' == v' && bit_and v m' == v

stays_within : ℕ → ℕ → ℕ → Bool
unfolding fits
stays_within b m v = if bit_and v m == v then fits b m v else true

back_table0 : all_below 32 (λ m. all_below 256 (λ v. comes_back (0 + m) v)) ≡ true
unfolding all_below comes_back
back_table0 = refl

back_table1 : all_below 32 (λ m. all_below 256 (λ v. comes_back (32 + m) v)) ≡ true
unfolding all_below comes_back
back_table1 = refl

back_table2 : all_below 32 (λ m. all_below 256 (λ v. comes_back (64 + m) v)) ≡ true
unfolding all_below comes_back
back_table2 = refl

back_table3 : all_below 32 (λ m. all_below 256 (λ v. comes_back (96 + m) v)) ≡ true
unfolding all_below comes_back
back_table3 = refl

back_table4 : all_below 32 (λ m. all_below 256 (λ v. comes_back (128 + m) v)) ≡ true
unfolding all_below comes_back
back_table4 = refl

back_table5 : all_below 32 (λ m. all_below 256 (λ v. comes_back (160 + m) v)) ≡ true
unfolding all_below comes_back
back_table5 = refl

back_table6 : all_below 32 (λ m. all_below 256 (λ v. comes_back (192 + m) v)) ≡ true
unfolding all_below comes_back
back_table6 = refl

back_table7 : all_below 32 (λ m. all_below 256 (λ v. comes_back (224 + m) v)) ≡ true
unfolding all_below comes_back
back_table7 = refl

within_table1 : all_below 256 (λ m. all_below 256 (λ v. stays_within 1 m v)) ≡ true
unfolding all_below stays_within
within_table1 = refl

within_table2 : all_below 256 (λ m. all_below 256 (λ v. stays_within 2 m v)) ≡ true
unfolding all_below stays_within
within_table2 = refl

within_table4 : all_below 256 (λ m. all_below 256 (λ v. stays_within 4 m v)) ≡ true
unfolding all_below stays_within
within_table4 = refl

within_table8 : all_below 256 (λ m. all_below 256 (λ v. stays_within 8 m v)) ≡ true
unfolding all_below stays_within
within_table8 = refl

within_table16 : all_below 256 (λ m. all_below 256 (λ v. stays_within 16 m v)) ≡ true
unfolding all_below stays_within
within_table16 = refl

within_table32 : all_below 256 (λ m. all_below 256 (λ v. stays_within 32 m v)) ≡ true
unfolding all_below stays_within
within_table32 = refl

within_table64 : all_below 256 (λ m. all_below 256 (λ v. stays_within 64 m v)) ≡ true
unfolding all_below stays_within
within_table64 = refl

within_table128 : all_below 256 (λ m. all_below 256 (λ v. stays_within 128 m v)) ≡ true
unfolding all_below stays_within
within_table128 = refl

-- what a table of pairs says of one pair
pair_sound :
    (n : ℕ) (p : ℕ → ℕ → Bool) (m v : ℕ)
    → all_below n (λ m. all_below 256 (p m)) ≡ true
    → m < n
    → v < 256
    → p m v ≡ true
pair_sound n p m v h hm hv =
    all_below_sound 256 (p m) v (all_below_sound n (λ m. all_below 256 (p m)) m h hm) hv

row_sound :
    (k m v : ℕ)
    → all_below 32 (λ m. all_below 256 (λ v. comes_back (k + m) v)) ≡ true
    → k ≤ m
    → m < k + 32
    → v < 256
    → comes_back m v ≡ true
row_sound k m v h lo hi hv =
    let e : k + (m - k) ≡ m = omega arith in
    rw e at (pair_sound 32 (λ m v. comes_back (k + m) v) (m - k) v h (omega arith) hv)

back_low : (m v : ℕ) → m < 128 → v < 256 → comes_back m v ≡ true
back_low m v hm hv = elim (dec_lt m 64) [
  | yes a ↦ elim (dec_lt m 32) [
    | yes b ↦ row_sound 0 m v back_table0 (omega arith) (omega arith) hv
    | no b ↦ row_sound 32 m v back_table1 (omega arith) (omega arith) hv
  ]
  | no a ↦ elim (dec_lt m 96) [
    | yes b ↦ row_sound 64 m v back_table2 (omega arith) (omega arith) hv
    | no b ↦ row_sound 96 m v back_table3 (omega arith) (omega arith) hv
  ]
]

back_high : (m v : ℕ) → 128 ≤ m → m < 256 → v < 256 → comes_back m v ≡ true
back_high m v lo hm hv = elim (dec_lt m 192) [
  | yes a ↦ elim (dec_lt m 160) [
    | yes b ↦ row_sound 128 m v back_table4 (omega arith) (omega arith) hv
    | no b ↦ row_sound 160 m v back_table5 (omega arith) (omega arith) hv
  ]
  | no a ↦ elim (dec_lt m 224) [
    | yes b ↦ row_sound 192 m v back_table6 (omega arith) (omega arith) hv
    | no b ↦ row_sound 224 m v back_table7 (omega arith) (omega arith) hv
  ]
]

is_pair_sound : (r : Result (ℕ × ℕ)) (m v : ℕ) → is_pair r m v ≡ true → r ≡ ok (m, v)
is_pair_sound (ok (a, b)) m v h = ground arith
is_pair_sound (err e) m v h = cc

comes_back_sound :
    (m v : ℕ)
    → bit_and v m ≡ v
    → comes_back m v ≡ true
    → is_pair (parse_tcp_flags (tcp_flags_to_string m v)) m v ≡ true
unfolding comes_back
comes_back_sound m v within h = ground (arith, (==_iff (bit_and v m) v).1 within)

-- a pair whose value lies within its mask is read back from its text
pub parse-to_string :
    (m v : ℕ)
    → m < 256
    → v < 256
    → bit_and v m ≡ v
    → parse_tcp_flags (tcp_flags_to_string m v) ≡ ok (m, v)
parse-to_string m v hm hv within = is_pair_sound _ m v (
    comes_back_sound m v within (elim (dec_lt m 128) [
      | yes low ↦ back_low m v low hv
      | no high ↦ back_high m v (omega arith) hm hv
    ]))

-- a mask and a value that one flag of the eight extends
pub record IsWithin (m v : ℕ) : Type 0 where
  pub mask : m < 256
  pub value : v < 256
  pub within : bit_and v m ≡ v

pub data IsFlag : ℕ → Type 0 where
  fin : IsFlag 0x01
  syn : IsFlag 0x02
  rst : IsFlag 0x04
  psh : IsFlag 0x08
  ack : IsFlag 0x10
  urg : IsFlag 0x20
  ece : IsFlag 0x40
  cwr : IsFlag 0x80

within_table :
    {b : ℕ} → IsFlag b → all_below 256 (λ m. all_below 256 (λ v. stays_within b m v)) ≡ true
within_table fin = within_table1
within_table syn = within_table2
within_table rst = within_table4
within_table psh = within_table8
within_table ack = within_table16
within_table urg = within_table32
within_table ece = within_table64
within_table cwr = within_table128

fits-IsWithin :
    (b m v : ℕ)
    → v < 256
    → fits b m v ≡ true
    → IsWithin (bit_or m b) (bit_or v b) × IsWithin (bit_or m b) v
unfolding fits
fits-IsWithin b m v hv h = (ground arith, ground arith)

stays_within_sound : (b m v : ℕ) → bit_and v m ≡ v → stays_within b m v ≡ true → fits b m v ≡ true
unfolding stays_within
stays_within_sound b m v within h = ground (arith, (==_iff (bit_and v m) v).1 within)

pub add_bit-IsWithin :
    {b : ℕ} (m v : ℕ)
    → IsFlag b
    → IsWithin m v
    → IsWithin (bit_or m b) (bit_or v b) × IsWithin (bit_or m b) v
add_bit-IsWithin {b} m v f w = fits-IsWithin b m v w.value (
    stays_within_sound b m v w.within
      (pair_sound 256 (stays_within b) m v (within_table f) w.mask w.value))
