-- ===== src/Agent/Validate/Flags.antt =====
-- What `parseTcpFlags` accepts, and the canonical text of what it gives.
use Prim.Native.Nat.{ℕ}
use mathlib.Core.Path.{subst, ◌≡◌, sym}
use xdrop.Prelude.Text.{text_eq, text_beq, trim_space, to_upper, split}
use xdrop.Prelude.GoMap.{lookup, lookup-AllValues}
use xdrop.Agent.Validate.FlagTables.{
  IsWithin, IsFlag, fin, syn, rst, psh, ack, urg, ece, cwr, add_bit-IsWithin, parse-to_string,
}
use xdrop.Agent.Validate.{
  ok, FlagState, tcp_flag_bits, no_flags, add_flag, add_known, strip_bang, ◌>>=◌, >>=-eq-ok,
  parse_flag, parse_flag_parts, parse_tcp_flags, tcp_flags_to_string, Text, Bool, List, Option,
  some, ◌∷◌, [],
}
use xdrop.Prelude.{arith, Bool-cases, inl, inr, none, refl, ◌∙◌}

ok-injective {ℓ} : {A : Type ℓ} {a b : A} → ok a ≡ ok b → a ≡ b
ok-injective h = ground arith

no_flags-IsSound : IsWithin 0 0
no_flags-IsSound = record { mask = omega arith; value = omega arith; within = refl }

abbrev IsSound : FlagState → Type 0
IsSound st = IsWithin st.mask st.value

lookup-IsFlag : (name : Text) (bit : ℕ) → lookup name tcp_flag_bits ≡ some bit → IsFlag bit
lookup-IsFlag name bit h =
    lookup-AllValues IsFlag name bit tcp_flag_bits
      (fin, (syn, (rst, (psh, (ack, (urg, (ece, (cwr, tt)))))))) h

add_flag-IsSound :
    (st st' : FlagState) (negate : Bool) (name : Text) (bit : ℕ)
    → IsFlag bit
    → IsSound st
    → add_flag st negate name bit ≡ ok st'
    → IsSound st'
unfolding add_flag
add_flag-IsSound st st' negate name bit f s h =
    ground (arith, add_bit-IsWithin st.mask st.value f s)

add_known-IsSound :
    (st st' : FlagState) (negate : Bool) (name : Text) (found : Option ℕ)
    → ((bit : ℕ) → found ≡ some bit → IsFlag bit)
    → IsSound st
    → add_known st negate name found ≡ ok st'
    → IsSound st'
unfolding add_known
add_known-IsSound st st' negate name none f s h = cc
add_known-IsSound st st' negate name (some bit) f s h =
    add_flag-IsSound st st' negate name bit (f bit refl) s h

parse_flag-IsSound :
    (st st' : FlagState) (part : Text) → IsSound st → parse_flag st part ≡ ok st' → IsSound st'
unfolding parse_flag
parse_flag-IsSound st st' part s h =
    let (negate, name) = strip_bang (to_upper (trim_space part)) in
    elim (Bool-cases (text_beq (trim_space part) [])) [
      | inl empty ↦ subst IsSound (ok-injective (rw empty at h)) s
      | inr full ↦
          add_known-IsSound st st' negate name (lookup name tcp_flag_bits) (lookup-IsFlag name) s
            (rw full at h)
    ]

parse_flag_parts-nil : (st : FlagState) → parse_flag_parts st [] ≡ ok st
unfolding parse_flag_parts
parse_flag_parts-nil st = refl

parse_flag_parts-cons :
    (st : FlagState) (part : Text) (parts : List Text)
    → parse_flag_parts st (part ∷ parts) ≡ (parse_flag st part >>= λ t. parse_flag_parts t parts)
unfolding parse_flag_parts
parse_flag_parts-cons st part parts = refl

parse_flag_parts-IsSound :
    (st st' : FlagState) (parts : List Text)
    → IsSound st
    → parse_flag_parts st parts ≡ ok st'
    → IsSound st'
parse_flag_parts-IsSound st st' [] s h =
    subst IsSound (ok-injective (sym (parse_flag_parts-nil st) ∙ h)) s
parse_flag_parts-IsSound st st' (part ∷ parts) s h =
    let (mid, one, rest) =
      >>=-eq-ok (parse_flag st part) (λ t. parse_flag_parts t parts)
        (sym (parse_flag_parts-cons st part parts) ∙ h) in
    parse_flag_parts-IsSound mid st' parts (parse_flag-IsSound st mid part s one) rest

pair_path : {a b m v : ℕ} → ◌≡◌ {A = ℕ × ℕ} (a, b) (m, v) → IsWithin a b → IsWithin m v
pair_path {a} {b} {m} {v} p w =
    let x : a ≡ m = ground arith in let y : b ≡ v = ground arith in rw (← x, ← y) w

-- An accepted text has a mask and a value of one byte, and the value sets no bit that the mask
-- leaves out.
pub parse_tcp_flags-IsWithin : (s : Text) (m v : ℕ) → parse_tcp_flags s ≡ ok (m, v) → IsWithin m v
unfolding parse_tcp_flags
parse_tcp_flags-IsWithin s m v h = elim (Bool-cases (text_beq (trim_space s) [])) [
  | inl empty ↦ pair_path (ok-injective (rw empty at h)) no_flags-IsSound
  | inr full ↦
      let (st, parsed, made) =
        >>=-eq-ok (parse_flag_parts no_flags (split b',' (trim_space s)))
          (λ t. ok (t.mask, t.value)) (rw full at h) in
      pair_path (ok-injective made)
        (parse_flag_parts-IsSound no_flags st (split b',' (trim_space s)) no_flags-IsSound parsed)
]

-- The canonical text that is stored for an accepted text is accepted too, with the same mask and
-- the same value.
pub canonical_flags :
    (s : Text) (m v : ℕ)
    → parse_tcp_flags s ≡ ok (m, v)
    → parse_tcp_flags (tcp_flags_to_string m v) ≡ ok (m, v)
canonical_flags s m v h =
    let w = parse_tcp_flags-IsWithin s m v h in parse-to_string m v w.mask w.value w.within
