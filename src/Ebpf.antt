-- ===== src/Ebpf.antt =====
-- The BPF maps of github.com/cilium/ebpf, which the repository only calls: a type of maps with its
-- operations, and what the callers rely on. The flag that comes back is true where the Go call
-- returns a nil error. A call may fail at any time, as far as the laws say.
pub mod Lists
use xdrop.Prelude.{List, Bool, true, false, Option, none, some, ◌≡◌, ◌≢◌, if◌then◌else◌, Eq}
use xdrop.Prelude.GoMap.{is_in}

pub data UpdateFlags : Type 0 where
  update_any update_no_exist update_exist : UpdateFlags

pub record MapOps (M K V : Type 0) : Type 0 where
  pub lookup : M → K → Option V
  pub update : M → UpdateFlags → K → V → M × Bool
  pub delete : M → K → M × Bool
  -- the keys that the iterator gives, and whether it ended without an error
  pub iterate : M → List K × Bool

-- The documented behaviour: a failed call changes nothing that can be looked up; a call that
-- succeeds has the effect of the kernel's map; UpdateNoExist refuses a key that is there,
-- UpdateExist and Delete refuse one that is not; an iteration without an error gives every key.
pub record MapLaws {M K V : Type 0} ⦃e : Eq K⦄ (ops : MapOps M K V) : Type 0 where
  pub update_failed :
      (m : M) (f : UpdateFlags) (k : K) (v : V) (j : K)
      → (ops.update m f k v).1 ≡ false
      → ops.lookup (ops.update m f k v).0 j ≡ ops.lookup m j
  pub update_done :
      (m : M) (f : UpdateFlags) (k : K) (v : V) (j : K)
      → (ops.update m f k v).1 ≡ true
      → ops.lookup (ops.update m f k v).0 j ≡ (if e.beq k j then some v else ops.lookup m j)
  pub update-no_exist :
      (m : M) (k : K) (v : V) → (ops.update m update_no_exist k v).1 ≡ true → ops.lookup m k ≡ none
  pub update-exist :
      (m : M) (k : K) (v : V) → (ops.update m update_exist k v).1 ≡ true → ops.lookup m k ≢ none
  pub delete_failed :
      (m : M) (k j : K)
      → (ops.delete m k).1 ≡ false
      → ops.lookup (ops.delete m k).0 j ≡ ops.lookup m j
  pub delete_done :
      (m : M) (k j : K)
      → (ops.delete m k).1 ≡ true
      → ops.lookup (ops.delete m k).0 j ≡ (if e.beq k j then none else ops.lookup m j)
  pub delete-present : (m : M) (k : K) → (ops.delete m k).1 ≡ true → ops.lookup m k ≢ none
  pub iterate_done :
      (m : M) (k : K)
      → (ops.iterate m).1 ≡ true
      → ops.lookup m k ≢ none
      → is_in k (ops.iterate m).0 ≡ true
