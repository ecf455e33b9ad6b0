-- ===== src/Ebpf/Lists.antt =====
-- A BPF map that never fails for another reason than its flag: an association list.
use xdrop.Prelude.GoMap.{is_in, GoMap, lookup, insert, delete, lookup-insert, lookup-delete}
use xdrop.Ebpf.{
  MapOps, MapLaws, UpdateFlags, update_any, update_no_exist, update_exist, Eq, Option, Bool, false,
  true, some, List,
}
use xdrop.Prelude.{[], ◌∷◌, arith, if◌then◌else◌, none, map, ◌≢◌, ◌≡◌, Bool-cases, inl, inr, refl}

-- whether a flag refuses a key with this entry
abbrev pub refuses : {V : Type 0} → UpdateFlags → Option V → Bool
refuses update_any o = false
refuses update_no_exist none = false
refuses update_no_exist (some v) = true
refuses update_exist none = true
refuses update_exist (some v) = false

module _ {K V : Type 0} ⦃e : Eq K⦄ where
  unfoldable pub list_update : GoMap K V → UpdateFlags → K → V → GoMap K V × Bool
  unfolding lookup insert
  list_update m f k v = if refuses f (lookup k m) then (m, false) else (insert k v m, true)

  unfoldable pub list_delete : GoMap K V → K → GoMap K V × Bool
  unfolding lookup delete
  list_delete m k = elim (lookup k m) [ none ↦ (m, false) | some v ↦ (delete k m, true) ]

  unfoldable pub list_lookup : GoMap K V → K → Option V
  unfolding lookup
  list_lookup m k = lookup k m

  unfoldable pub list_iterate : GoMap K V → List K × Bool
  list_iterate m = (map (λ entry. entry.0) m, true)

  listed : (m : GoMap K V) (k : K) → lookup k m ≢ none → is_in k (map (λ entry. entry.0) m) ≡ true
  unfolding lookup is_in
  listed [] k h = absurd (h refl)
  listed ((j, v) ∷ m) k h = elim (Bool-cases (e.beq j k)) [
    | inl same ↦ rw same
    | inr other ↦ rw other (listed m k (rw other at h))
  ]

  abbrev pub list_ops : MapOps (GoMap K V) K V
  list_ops = record {
    lookup = list_lookup;
    update = list_update;
    delete = list_delete;
    iterate = list_iterate;
  }

  pub list_ops-MapLaws : MapLaws list_ops
  unfolding list_lookup list_update list_delete list_iterate
  list_ops-MapLaws = record {
    update_failed = λ m f k v j h. ground arith;
    update_done = λ m f k v j h. ground (arith, lookup-insert k j v m);
    update-no_exist = λ m k v h. ground arith;
    update-exist = λ m k v h. ground arith;
    delete_failed = λ m k j h. ground arith;
    delete_done = λ m k j h. ground (arith, lookup-delete k j m);
    delete-present = λ m k h. ground arith;
    iterate_done = λ m k ok h. listed m k h;
  }
