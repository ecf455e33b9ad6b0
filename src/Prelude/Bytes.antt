-- ===== src/Prelude/Bytes.antt =====
-- Byte slices as lists of numbers, little-endian words of encoding/binary, and writes at an offset.
use xdrop.Prelude.{
  ℕ, zero, suc, ◌+◌, ◌/◌, ◌%◌, ◌<◌, ◌≡◌, refl, List, [], ◌∷◌, ◌++◌, length, set, arith, ap,
}
use native.Mathlib.Nat.{zero-add}

abbrev pub Bytes : Type 0
Bytes = List ℕ

-- `copy(b[off:], src)`: as many bytes as both slices have
unfoldable pub copy_at : ℕ → Bytes → Bytes → Bytes
copy_at zero [] b = b
copy_at zero (x ∷ src) [] = []
copy_at zero (x ∷ src) (y ∷ b) = x ∷ copy_at zero src b
copy_at (suc off) src [] = []
copy_at (suc off) src (y ∷ b) = y ∷ copy_at off src b

-- `binary.LittleEndian.PutUint16(b[off:], x)`
unfoldable pub put_uint16 : ℕ → ℕ → Bytes → Bytes
put_uint16 off x b = set (set b off (x % 256)) (suc off) (x / 256 % 256)

-- `binary.LittleEndian.PutUint32(b[off:], x)`
unfoldable pub put_uint32 : ℕ → ℕ → Bytes → Bytes
unfolding put_uint16
put_uint32 off x b = put_uint16 (off + 2) (x / 65536) (put_uint16 off (x % 65536) b)

-- `binary.LittleEndian.PutUint64(b[off:], x)`
unfoldable pub put_uint64 : ℕ → ℕ → Bytes → Bytes
unfolding put_uint32
put_uint64 off x b = put_uint32 (off + 4) (x / 4294967296) (put_uint32 off (x % 4294967296) b)

-- a word of `n` bytes, the lowest first
unfoldable pub le_bytes : ℕ → ℕ → Bytes
le_bytes zero x = []
le_bytes (suc n) x = x % 256 ∷ le_bytes n (x / 256)

pub le_bytes-injective : (x y : ℕ) → x < 65536 → y < 65536 → le_bytes 2 x ≡ le_bytes 2 y → x ≡ y
unfolding le_bytes
le_bytes-injective x y hx hy h = ground arith

pub set-append :
    (pre post : Bytes) (off i v : ℕ)
    → off ≡ length pre + i
    → set (pre ++ post) off v ≡ pre ++ set post i v
set-append [] post off i v h = rw h (rw zero-add)
set-append (x ∷ pre) post zero i v h = absurd (omega arith)
set-append (x ∷ pre) post (suc off) i v h =
    ap (λ t. x ∷ t) (set-append pre post off i v (omega arith))

copy_at_front :
    (mid post src : Bytes) → length mid ≡ length src → copy_at zero src (mid ++ post) ≡ src ++ post
unfolding copy_at
copy_at_front [] post [] e = refl
copy_at_front [] post (x ∷ src) e = absurd (omega arith)
copy_at_front (y ∷ mid) post [] e = absurd (omega arith)
copy_at_front (y ∷ mid) post (x ∷ src) e =
    ap (λ t. x ∷ t) (copy_at_front mid post src (omega arith))

-- a copy overwrites as many bytes as it has, from its offset on
pub copy_at-append :
    (pre mid post src : Bytes) (off : ℕ)
    → off ≡ length pre
    → length mid ≡ length src
    → copy_at off src (pre ++ (mid ++ post)) ≡ pre ++ (src ++ post)
unfolding copy_at
copy_at-append [] mid post src off h e = rw h (copy_at_front mid post src e)
copy_at-append (y ∷ pre) mid post src zero h e = absurd (omega arith)
copy_at-append (y ∷ pre) mid post src (suc off) h e =
    ap (λ t. y ∷ t) (copy_at-append pre mid post src off (omega arith) e)

-- two texts of known lengths are told apart part by part
pub append_split : (a b c d : Bytes) → length a ≡ length b → a ++ c ≡ b ++ d → (a ≡ b) × (c ≡ d)
append_split [] [] c d e h = (refl, h)
append_split [] (y ∷ b) c d e h = absurd (omega arith)
append_split (x ∷ a) [] c d e h = absurd (omega arith)
append_split (x ∷ a) (y ∷ b) c d e h =
    let (p, q) = append_split a b c d (omega arith) (ground arith) in (ground arith, q)
