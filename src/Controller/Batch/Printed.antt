-- ===== src/Controller/Batch/Printed.antt =====
-- The numbers in the key of a batch of controller/internal/service/rule_service.go.
use Prim.Native.Nat.{ℕ, zero, suc, ◌+◌, ◌/◌, ◌%◌, ◌≤◌}
use mathlib.Core.List.{◌∷◌}
use xdrop.Prelude.{◌≡◌, refl, arith}
use xdrop.Prelude.Text.{Text}
use xdrop.Controller.Batch.{print_digits}

-- The rounds of `print_digits` are enough: more of them give the same text.
print_digits_enough :
    (f g n : ℕ) (digits : Text) → n ≤ f → n ≤ g → print_digits f n digits ≡ print_digits g n digits
unfolding print_digits
print_digits_enough zero zero n digits h k = refl
print_digits_enough zero (suc g) n digits h k = ground arith
print_digits_enough (suc f) zero n digits h k = ground arith
print_digits_enough (suc f) (suc g) n digits h k =
    ground (arith, print_digits_enough f g (n / 10) ((b'0' + n % 10) ∷ digits))
