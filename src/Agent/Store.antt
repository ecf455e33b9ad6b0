-- ===== src/Agent/Store.antt =====
-- The rule stores of node/agent/api/bpf_types.go: a map of rules by id, the index of their keys and
-- the number of rules of each combo. The operations are the assignments that the handlers share.
pub mod Invariant
use xdrop.Prelude.GoMap.{GoMap}
use xdrop.Prelude.Int.{ℤ, pos, negsuc, ◌+ℤ◌}
use Prim.Native.Nat.{ℕ}
use xdrop.Prelude.{if◌then◌else◌, ltb, ◌&&◌, ◌==◌}

-- `if comboType >= 0 && comboType < 64 { refs[comboType] += delta }`
unfoldable pub count_combo : ℤ → ℤ → (ℕ → ℤ) → ℕ → ℤ
unfolding ◌+ℤ◌
count_combo (pos n) delta refs c = if ltb n 64 && n == c then refs c +ℤ delta else refs c
count_combo (negsuc n) delta refs c = refs c
