-- ===== src/Agent/Clear.antt =====
-- clearMap of node/agent/api/config.go.
use mathlib.Core.List.{List, [], ◌∷◌}
use xdrop.Prelude.{Eq, Bool, true, none, if◌then◌else◌, ◌==◌, suc, ◌≡◌, arith, refl}
use xdrop.Prelude.GoMap.{is_in}
use xdrop.Ebpf.{MapOps, MapLaws}
use Prim.Native.Nat.{ℕ}

module _ {M K V : Type 0} (ops : MapOps M K V) where
  -- every key is tried; the number of the failures comes back
  unfoldable pub delete_keys : List K → M → M × ℕ
  delete_keys [] m = (m, 0)
  delete_keys (k ∷ ks) m =
      let deleted = ops.delete m k in
      let rest = delete_keys ks deleted.0 in (rest.0, if deleted.1 then rest.1 else suc rest.1)

  -- an error of the iterator is only logged
  unfoldable pub clear_map : M → M × Bool
  unfolding delete_keys
  clear_map m = let r = delete_keys (ops.iterate m).0 m in (r.0, r.1 == 0)

module _ {M K V : Type 0} ⦃e : Eq K⦄ (ops : MapOps M K V) (laws : MapLaws ops) where
  delete_keys-lookup :
      (ks : List K) (m : M) (k : K)
      → (delete_keys ops ks m).1 ≡ 0
      → ops.lookup (delete_keys ops ks m).0 k ≡ (if is_in k ks then none else ops.lookup m k)
  unfolding delete_keys is_in
  delete_keys-lookup [] m k ok = refl
  delete_keys-lookup (j ∷ ks) m k ok =
      ground (arith, laws.delete_done m j k, delete_keys-lookup ks (ops.delete m j).0 k)

  -- If the iterator ends without an error and clearMap reports none, the map has no entry left.
  pub clear_map-empties :
      (m : M) (k : K)
      → (ops.iterate m).1 ≡ true
      → (clear_map ops m).1 ≡ true
      → ops.lookup (clear_map ops m).0 k ≡ none
  unfolding clear_map
  clear_map-empties m k all ok =
      let gone = delete_keys-lookup (ops.iterate m).0 m k (ground arith) in
      ground (arith, gone, laws.iterate_done m k all)
