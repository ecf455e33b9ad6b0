-- ===== src/Prelude/GoMap.antt =====
-- Go's built-in `map[K]V` as an association list with at most one entry for a key. Assignment
-- replaces an entry in place; `range` visits the entries in list order.
use mathlib.Core.Path.{subst}
use xdrop.Prelude.{
  ℕ, ◌+◌, ◌≡◌, refl, inl, inr, Option, none, some, List, [], ◌∷◌, arith, if◌then◌else◌, Eq,
  Bool-cases, beq_comm, Bool, false, true,
}

abbrev pub GoMap {ℓ} : Type ℓ → Type ℓ → Type ℓ
GoMap K V = List (K × V)

module _ {ℓ} {K V : Type ℓ} where
  -- the sum of a weight over the entries; `len(m)` for the weight 1
  abbrev pub weigh : (V → ℕ) → GoMap K V → ℕ
  weigh f [] = 0
  weigh f ((k, v) ∷ m) = f v + weigh f m

module _ {ℓ} {K : Type ℓ} ⦃e : Eq K⦄ where
  unfoldable pub is_in : K → List K → Bool
  is_in k [] = false
  is_in k (j ∷ ks) = let rest = is_in k ks in if e.beq j k then true else rest

module _ {ℓ} {K V : Type ℓ} ⦃e : Eq K⦄ where
  -- `v, ok := m[k]`
  unfoldable pub lookup : K → GoMap K V → Option V
  lookup k [] = none
  lookup k ((j, v) ∷ m) = if e.beq j k then some v else lookup k m

  -- `m[k] = v`
  unfoldable pub insert : K → V → GoMap K V → GoMap K V
  insert k v [] = (k, v) ∷ []
  insert k v ((j, w) ∷ m) = if e.beq j k then (k, v) ∷ m else (j, w) ∷ insert k v m

  -- `delete(m, k)`
  unfoldable pub delete : K → GoMap K V → GoMap K V
  delete k [] = []
  delete k ((j, w) ∷ m) = let rest = delete k m in if e.beq j k then rest else (j, w) ∷ rest

  pub lookup-insert :
      (k j : K) (v : V) (m : GoMap K V)
      → lookup j (insert k v m) ≡ (if e.beq k j then some v else lookup j m)
  unfolding lookup insert
  lookup-insert k j v [] = refl
  lookup-insert k j v ((i, w) ∷ m) =
      ground (arith, e.beq_iff k j, e.beq_iff i k, e.beq_iff i j, lookup-insert k j v m)

  pub lookup-delete :
      (k j : K) (m : GoMap K V) → lookup j (delete k m) ≡ (if e.beq k j then none else lookup j m)
  unfolding lookup delete
  lookup-delete k j [] = ground arith
  lookup-delete k j ((i, w) ∷ m) =
      ground (arith, e.beq_iff k j, e.beq_iff i k, e.beq_iff i j, lookup-delete k j m)

  -- no key has two entries
  abbrev pub IsUnique : GoMap K V → Type ℓ
  IsUnique [] = Unit
  IsUnique ((k, v) ∷ m) = (lookup k m ≡ none) × IsUnique m

  pub insert-IsUnique : (k : K) (v : V) (m : GoMap K V) → IsUnique m → IsUnique (insert k v m)
  unfolding lookup insert
  insert-IsUnique k v [] u = (refl, tt)
  insert-IsUnique k v ((j, w) ∷ m) u = elim (Bool-cases (e.beq j k)) [
    | inl same ↦ rw same (rw ((e.beq_iff j k).0 same) at u.0, u.1)
    | inr other ↦ rw other (rw (lookup-insert, beq_comm k j, other) u.0, insert-IsUnique k v m u.1)
  ]

  delete-nil : (k : K) → delete k [] ≡ []
  unfolding delete
  delete-nil k = refl

  delete-cons :
      (k j : K) (w : V) (m : GoMap K V)
      → delete k ((j, w) ∷ m) ≡ (if e.beq j k then delete k m else (j, w) ∷ delete k m)
  unfolding delete
  delete-cons k j w m = refl

  pub delete-IsUnique : (k : K) (m : GoMap K V) → IsUnique m → IsUnique (delete k m)
  delete-IsUnique k [] u = rw delete-nil tt
  delete-IsUnique k ((j, w) ∷ m) u = elim (Bool-cases (e.beq j k)) [
    | inl same ↦ rw (delete-cons, same) (delete-IsUnique k m u.1)
    | inr other ↦
        rw (delete-cons, other)
          (rw (lookup-delete k j m, beq_comm k j, other) u.0, delete-IsUnique k m u.1)
  ]

  pub delete_absent : (k : K) (m : GoMap K V) → lookup k m ≡ none → delete k m ≡ m
  unfolding lookup delete
  delete_absent k [] h = refl
  delete_absent k ((j, w) ∷ m) h = ground (arith, delete_absent k m)

  module _ (f : V → ℕ) where
    pub weigh-insert_new :
        (k : K) (v : V) (m : GoMap K V)
        → lookup k m ≡ none
        → weigh f (insert k v m) ≡ weigh f m + f v
    unfolding lookup insert
    weigh-insert_new k v [] h = omega arith
    weigh-insert_new k v ((j, w) ∷ m) h = ground (arith, weigh-insert_new k v m)

    pub weigh-insert_old :
        (k : K) (v old : V) (m : GoMap K V)
        → lookup k m ≡ some old
        → weigh f (insert k v m) + f old ≡ weigh f m + f v
    unfolding lookup insert
    weigh-insert_old k v old [] h = cc
    weigh-insert_old k v old ((j, w) ∷ m) h = ground (arith, weigh-insert_old k v old m)

    pub weigh-delete :
        (k : K) (old : V) (m : GoMap K V)
        → IsUnique m
        → lookup k m ≡ some old
        → weigh f (delete k m) + f old ≡ weigh f m
    unfolding lookup delete
    weigh-delete k old [] u h = cc
    weigh-delete k old ((j, w) ∷ m) u h = elim (Bool-cases (e.beq j k)) [
      | inl same ↦
          let gone = delete_absent k m (rw ((e.beq_iff j k).0 same) at u.0) in
          rw same (rw gone (ground (arith, same)))
      | inr other ↦ rw other (ground (arith, weigh-delete k old m u.1))
    ]

module _ {ℓ κ} {K V : Type ℓ} ⦃e : Eq K⦄ (P : V → Type κ) where
  -- every value satisfies `P`
  abbrev pub AllValues : GoMap K V → Type κ
  AllValues [] = Unit
  AllValues ((k, v) ∷ m) = P v × AllValues m

  pub lookup-AllValues : (k : K) (v : V) (m : GoMap K V) → AllValues m → lookup k m ≡ some v → P v
  unfolding lookup
  lookup-AllValues k v [] a h = cc
  lookup-AllValues k v ((j, w) ∷ m) a h = elim (Bool-cases (e.beq j k)) [
    | inl same ↦ (let q : w ≡ v = ground arith in subst P q a.0)
    | inr other ↦ lookup-AllValues k v m a.1 (rw other at h)
  ]
