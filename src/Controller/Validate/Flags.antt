-- ===== src/Controller/Validate/Flags.antt =====
-- The TCP flags that controller/internal/service/rule_service.go takes.
use mathlib.Core.List.{List, [], ◌∷◌}
use xdrop.Prelude.{
  Bool, true, false, not, if◌then◌else◌, ◌≡◌, ◌≢◌, refl, Bool-cases, inl, inr, ◌∙◌, sym,
}
use xdrop.Prelude.GoMap.{GoMap, lookup, insert, lookup-insert}
use xdrop.Prelude.Text.{Text, text_beq, text_eq, trim_space, split, to_upper, join}
use xdrop.Controller.Validate.{
  FlagSets, Result, ok, err, holds, or_false, mark_flag, add_name, add_part, add_parts, strip_bang,
  validate_and_normalize_tcp_flags, contradictory_flags, unknown_flag, valid_tcp_flags, ◌>>=◌,
  emit_flags, canonical_order, refuse_if,
}

-- a flag that was not seen is neither set nor cleared
abbrev IsTracked : FlagSets → Type 0
IsTracked sets =
    (name : Text)
    → holds sets.seen name ≡ false
    → (holds sets.set_flags name ≡ false) × (holds sets.clear_flags name ≡ false)

-- no contradiction is reported, and the flags stay tracked
abbrev Tracks : Result FlagSets → Type 0
Tracks (ok sets) = IsTracked sets
Tracks (err e) = e ≢ contradictory_flags

holds-insert :
    (m : GoMap Text Bool) (k j : Text)
    → holds (insert k true m) j ≡ (if text_eq.beq k j then true else holds m j)
unfolding holds or_false
holds-insert m k j = elim (Bool-cases (text_eq.beq k j)) [
  | inl same ↦ rw (lookup-insert k j true m, same) refl
  | inr other ↦ rw (lookup-insert k j true m, other) refl
]

unseen_parts :
    (m : GoMap Text Bool) (k j : Text)
    → holds (insert k true m) j ≡ false
    → (text_eq.beq k j ≡ false) × (holds m j ≡ false)
unseen_parts m k j h =
    let read = sym (holds-insert m k j) ∙ h in
    elim (Bool-cases (text_eq.beq k j)) [
      | inl same ↦ (let never : true ≡ false = rw same at read in cc)
      | inr other ↦ (other, rw other at read)
    ]

unset-insert :
    (m : GoMap Text Bool) (k j : Text)
    → text_eq.beq k j ≡ false
    → holds m j ≡ false
    → holds (insert k true m) j ≡ false
unset-insert m k j other unset = holds-insert m k j ∙ rw other unset

mark_flag-Tracks :
    (negate : Bool) (name : Text) (sets : FlagSets)
    → IsTracked sets
    → holds sets.seen name ≡ false
    → Tracks (mark_flag negate name sets)
unfolding mark_flag refuse_if
mark_flag-Tracks true name sets st fresh = rw (st name fresh).0 (λ j unseen.
    let parts = unseen_parts sets.seen name j unseen in
    let old = st j parts.1 in (old.0, unset-insert sets.clear_flags name j parts.0 old.1))
mark_flag-Tracks false name sets st fresh = rw (st name fresh).1 (λ j unseen.
    let parts = unseen_parts sets.seen name j unseen in
    let old = st j parts.1 in (unset-insert sets.set_flags name j parts.0 old.0, old.1))

add_name-Tracks :
    (negate : Bool) (name : Text) (sets : FlagSets)
    → IsTracked sets
    → Tracks (add_name negate name sets)
unfolding add_name
add_name-Tracks negate name sets st = elim (Bool-cases (not (holds valid_tcp_flags name))) [
  | inl unknown ↦ rw unknown (λ (same : unknown_flag ≡ contradictory_flags). cc)
  | inr known ↦ elim (Bool-cases (holds sets.seen name)) [
    | inl seen ↦ rw (known, seen) st
    | inr fresh ↦ rw (known, fresh) (mark_flag-Tracks negate name sets st fresh)
  ]
]

add_part-Tracks : (part : Text) (sets : FlagSets) → IsTracked sets → Tracks (add_part part sets)
unfolding add_part
add_part-Tracks part sets st = elim (Bool-cases (text_beq (trim_space part) [])) [
  | inl blank ↦ rw blank st
  | inr named ↦
      let parts = strip_bang (to_upper (trim_space part)) in
      rw named (add_name-Tracks parts.0 parts.1 sets st)
]

after_part :
    (parts : List Text) (result : Result FlagSets)
    → Tracks result
    → ((sets : FlagSets) → IsTracked sets → Tracks (add_parts parts sets))
    → Tracks (result >>= λ sets. add_parts parts sets)
unfolding ◌>>=◌
after_part parts (ok sets) st rest = rest sets st
after_part parts (err e) st rest = st

add_parts-Tracks :
    (parts : List Text) (sets : FlagSets) → IsTracked sets → Tracks (add_parts parts sets)
unfolding add_parts ◌>>=◌
add_parts-Tracks [] sets st = st
add_parts-Tracks (part ∷ parts) sets st =
    after_part parts (add_part part sets) (add_part-Tracks part sets st)
      (λ sets'. add_parts-Tracks parts sets')

no_flags-IsTracked : IsTracked (record { seen = []; set_flags = []; clear_flags = [] })
unfolding holds or_false lookup
no_flags-IsTracked name unseen = (refl, refl)

emitted : Result FlagSets → Result Text
emitted r = r >>= λ sets. ok (join b',' (emit_flags sets canonical_order))

emitted-ne : (r : Result FlagSets) → Tracks r → emitted r ≢ err contradictory_flags
unfolding emitted ◌>>=◌
emitted-ne (ok sets) st same = cc
emitted-ne (err e) st same = st (cc)

-- The errors of validateAndNormalizeTcpFlags for a flag that is wanted both set and clear are never
-- returned, since the second mention of a flag is skipped before it is looked at.
pub no_contradiction : (s : Text) → validate_and_normalize_tcp_flags s ≢ err contradictory_flags
unfolding validate_and_normalize_tcp_flags emitted ◌>>=◌
no_contradiction s = elim (Bool-cases (text_beq (trim_space s) [])) [
  | inl blank ↦ rw blank (λ (same : ok [] ≡ err contradictory_flags). cc)
  | inr given ↦ rw given (
      emitted-ne (add_parts (split b',' (trim_space s)) _)
        (add_parts-Tracks (split b',' (trim_space s)) _ no_flags-IsTracked))
]
