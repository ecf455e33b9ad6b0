-- ===== src/Net/Dotted.antt =====
-- Addresses with dots, printed and read again.
use mathlib.Core.List.{append-nil}
use Prim.Native.Nat.{ℕ, ◌≤◌}
use xdrop.Prelude.{
  ◌+◌, ◌-◌, ◌*◌, ◌/◌, ◌%◌, true, false, ◌&&◌, some, [], ◌∷◌, ◌++◌, length, ltb, ◌==◌, ◌≡◌, ◌∙◌,
  refl, sym, ap, arith, Bool-cases, inl, inr,
}
use xdrop.Prelude.Text.{Text}
use xdrop.Prelude.Bytes.{Bytes}
use xdrop.Net.Parse.{v4_fields, is_dotted, is_digit, parse_addr}
use xdrop.Net.Print.{decimal, print_v4}

is_digit_lem : (d : ℕ) → d ≤ 9 → is_digit (48 + d) ≡ true
unfolding is_digit
is_digit_lem d h = ground arith

digit_read :
    (fields : Bytes) (val digits d v k : ℕ) (s : Text)
    → d ≤ 9
    → (digits == 1 && val == 0) ≡ false
    → v ≡ val * 10 + d
    → v ≤ 255
    → k ≡ digits + 1
    → v4_fields fields val digits ((48 + d) ∷ s) ≡ v4_fields fields v k s
unfolding v4_fields
digit_read fields val digits d v k s h z sum small next =
    let same : val * 10 + (48 + d - 48) ≡ v = omega (arith, sum) in
    let fits : ltb 255 v ≡ false = ground arith in rw (is_digit_lem d h, same, z, fits, next) refl

dot_read :
    (fields : Bytes) (val digits : ℕ) (s : Text)
    → 1 ≤ digits
    → length fields ≤ 2
    → v4_fields fields val digits (b'.' ∷ s) ≡ v4_fields (fields ++ val ∷ []) 0 0 s
unfolding v4_fields is_digit
dot_read fields val digits s some_digits few = ground arith

one_read :
    (fields : Bytes) (n : ℕ) (s : Text)
    → n ≤ 9
    → v4_fields fields 0 0 ((48 + n) ∷ s) ≡ v4_fields fields n 1 s
one_read fields n s small =
    digit_read fields 0 0 n n 1 s small refl (omega arith) (omega arith) refl

two_read :
    (fields : Bytes) (n : ℕ) (s : Text)
    → 10 ≤ n
    → n ≤ 99
    → v4_fields fields 0 0 ((48 + n / 10) ∷ (48 + n % 10) ∷ s) ≡ v4_fields fields n 2 s
two_read fields n s low high =
    digit_read fields 0 0 (n / 10) (n / 10) 1 _ (omega arith) refl (omega arith) (omega arith) refl
    ∙ digit_read fields (n / 10) 1 (n % 10) n 2 s (omega arith) (ground arith) (omega arith)
        (omega arith) refl

three_read :
    (fields : Bytes) (n : ℕ) (s : Text)
    → 100 ≤ n
    → n ≤ 255
    → v4_fields fields 0 0 ((48 + n / 100) ∷ (48 + n / 10 % 10) ∷ (48 + n % 10) ∷ s)
      ≡ v4_fields fields n 3 s
three_read fields n s low high =
    digit_read fields 0 0 (n / 100) (n / 100) 1 _ (omega arith) refl (omega arith) (omega arith)
      refl
    ∙ digit_read fields (n / 100) 1 (n / 10 % 10) (n / 10) 2 _ (omega arith) (ground arith)
        (omega arith) (omega arith) refl
    ∙ digit_read fields (n / 10) 2 (n % 10) n 3 s (omega arith) refl (omega arith) (omega arith)
        refl

-- one part is read as the number that it prints
decimal_read :
    (fields : Bytes) (n : ℕ) (s : Text)
    → n ≤ 255
    → (digits : ℕ) × (1 ≤ digits)
      × (v4_fields fields 0 0 (decimal n ++ s) ≡ v4_fields fields n digits s)
unfolding decimal
decimal_read fields n s h = elim (Bool-cases (ltb n 10)) [
  | inl one ↦ rw one (1, omega arith, one_read fields n s (ground arith))
  | inr more ↦ elim (Bool-cases (ltb n 100)) [
    | inl two ↦ rw (more, two) (2, omega arith, two_read fields n s (ground arith) (ground arith))
    | inr three ↦ rw (more, three) (3, omega arith, three_read fields n s (ground arith) h)
  ]
]

part_read :
    (fields : Bytes) (n : ℕ) (s : Text)
    → n ≤ 255
    → length fields ≤ 2
    → v4_fields fields 0 0 (decimal n ++ (b'.' ∷ s)) ≡ v4_fields (fields ++ n ∷ []) 0 0 s
part_read fields n s h few =
    let (digits, some_digits, same) = decimal_read fields n (b'.' ∷ s) h in
    same ∙ dot_read fields n digits s some_digits few

last_read :
    (fields : Bytes) (n : ℕ)
    → n ≤ 255
    → length fields ≡ 3
    → v4_fields fields 0 0 (decimal n) ≡ some (fields ++ n ∷ [])
unfolding v4_fields
last_read fields n h full =
    let (digits, some_digits, same) = decimal_read fields n [] h in
    ap (v4_fields fields 0 0) (sym (append-nil (decimal n))) ∙ same ∙ ground arith

decimal_dotted : (n : ℕ) (s : Text) → n ≤ 255 → is_dotted (decimal n ++ (b'.' ∷ s)) ≡ true
unfolding is_dotted decimal
decimal_dotted n s h = ground arith

-- What is printed with dots is read again.
pub v4_read :
    (a b c d : ℕ)
    → a ≤ 255
    → b ≤ 255
    → c ≤ 255
    → d ≤ 255
    → parse_addr (print_v4 (a ∷ b ∷ c ∷ d ∷ []))
      ≡ some (record { addr = a ∷ b ∷ c ∷ d ∷ []; bits = 32 })
unfolding print_v4 parse_addr
v4_read a b c d ha hb hc hd =
    let third = decimal c ++ (b'.' ∷ decimal d) in
    let rest = decimal b ++ (b'.' ∷ third) in
    let dotted = decimal_dotted a rest ha in
    let read =
      part_read [] a rest ha (omega arith)
      ∙ part_read (a ∷ []) b third hb (ground arith)
      ∙ part_read (a ∷ b ∷ []) c (decimal d) hc (ground arith)
      ∙ last_read (a ∷ b ∷ c ∷ []) d hd refl in
    rw (dotted, read) refl
