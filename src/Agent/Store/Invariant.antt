-- ===== src/Agent/Store/Invariant.antt =====
-- The invariant of a rule store, and what the assignments of the handlers do to it.
use xdrop.Prelude.GoMap.{
  GoMap, lookup, insert, delete, weigh, IsUnique, lookup-insert, lookup-delete, insert-IsUnique,
  delete-IsUnique, weigh-insert_new, weigh-insert_old, weigh-delete,
}
use xdrop.Prelude.Int.{ℤ, pos, negsuc, ◌+ℤ◌}
use xdrop.Prelude.Text.{string_eq}
use xdrop.Agent.Store.{count_combo, ℕ}
use xdrop.Prelude.{
  Eq, String, if◌then◌else◌, ◌<◌, ◌==◌, ◌≡◌, none, some, ◌+◌, arith, ◌⊎◌, Bool-cases, inl, inr,
}

unfoldable pub is_combo : ℤ → ℕ → ℕ
is_combo (pos n) c = if n == c then 1 else 0
is_combo (negsuc n) c = 0

count_combo_up :
    (k : ℤ) (refs : ℕ → ℤ) (c n : ℕ)
    → c < 64
    → refs c ≡ pos n
    → count_combo k (pos 1) refs c ≡ pos (n + is_combo k c)
unfolding count_combo is_combo ◌+ℤ◌
count_combo_up (pos k) refs c n small same = ground arith
count_combo_up (negsuc k) refs c n small same = ground arith

count_combo_down :
    (k : ℤ) (refs : ℕ → ℤ) (c n m : ℕ)
    → c < 64
    → refs c ≡ pos n
    → m + is_combo k c ≡ n
    → count_combo k (negsuc 0) refs c ≡ pos m
unfolding count_combo is_combo ◌+ℤ◌
count_combo_down (pos k) refs c n m small same less = ground arith
count_combo_down (negsuc k) refs c n m small same less = ground arith

module _ {K S : Type 0} ⦃e : Eq K⦄ (key_of : S → K) (combo : K → ℤ) where
  -- how many rules have combo `c`
  abbrev pub uses : ℕ → S → ℕ
  uses c s = is_combo (combo (key_of s)) c

  -- Each rule is indexed by its key, each entry of the index is the key of the rule that it
  -- names, and each count is the number of the rules of its combo.
  pub record IsStore (rules : GoMap String S) (index : GoMap K String) (refs : ℕ → ℤ) : Type 0 where
    pub unique : IsUnique rules
    pub indexed :
        (id : String) (s : S) → lookup id rules ≡ some s → lookup (key_of s) index ≡ some id
    pub named :
        (k : K) (id : String)
        → lookup k index ≡ some id
        → (s : S) × (lookup id rules ≡ some s) × (key_of s ≡ k)
    pub counted : (c : ℕ) → c < 64 → refs c ≡ pos (weigh (uses c) rules)

  module _ (rules : GoMap String S) (index : GoMap K String) (refs : ℕ → ℤ)
      (st : IsStore rules index refs) where
    pub put_new :
        (id : String) (s : S)
        → lookup id rules ≡ none
        → lookup (key_of s) index ≡ none
        → IsStore
            (insert id s rules)
            (insert (key_of s) id index)
            (count_combo (combo (key_of s)) (pos 1) refs)
    put_new id s fresh free = record {
      unique = insert-IsUnique id s rules st.unique;
      indexed = λ j t h. ground (
        arith,
        lookup-insert id j s rules,
        lookup-insert (key_of s) (key_of t) id index,
        string_eq.beq_iff id j,
        e.beq_iff (key_of s) (key_of t),
        st.indexed j t,
      );
      named = λ k j h. elim (Bool-cases (e.beq (key_of s) k)) [
        | inl same ↦ (
          s,
          ground (
            arith,
            lookup-insert id j s rules,
            lookup-insert (key_of s) k id index,
            string_eq.beq_iff id j,
          ),
          ground (arith, e.beq_iff (key_of s) k),
        )
        | inr other ↦
            let old : lookup k index ≡ some j =
              ground (arith, lookup-insert (key_of s) k id index) in
            let found = st.named k j old in
            (
              found.0,
              ground (arith, found.1, lookup-insert id j s rules, string_eq.beq_iff id j),
              found.2,
            )
      ];
      counted = λ c small. rw (weigh-insert_new (uses c) id s rules fresh) (
          count_combo_up (combo (key_of s)) refs c (weigh (uses c) rules) small
            (st.counted c small));
    }

    pub put_old :
        (id : String) (s old : S)
        → lookup id rules ≡ some old
        → (lookup (key_of s) index ≡ none) ⊎ (lookup (key_of s) index ≡ some id)
        → IsStore (insert id s rules) (insert (key_of s) id (delete (key_of old) index)) (
            count_combo
              (combo (key_of s))
              (pos 1)
              (count_combo (combo (key_of old)) (negsuc 0) refs))
    put_old id s old present free = record {
      unique = insert-IsUnique id s rules st.unique;
      indexed = λ j t h. ground (
        arith,
        lookup-insert id j s rules,
        lookup-insert (key_of s) (key_of t) id (delete (key_of old) index),
        lookup-delete (key_of old) (key_of t) index,
        string_eq.beq_iff id j,
        e.beq_iff (key_of s) (key_of t),
        e.beq_iff (key_of old) (key_of t),
        st.indexed j t,
        st.indexed id old,
      );
      named = λ k j h. elim (Bool-cases (e.beq (key_of s) k)) [
        | inl same ↦ (
          s,
          ground (
            arith,
            lookup-insert id j s rules,
            lookup-insert (key_of s) k id (delete (key_of old) index),
            string_eq.beq_iff id j,
          ),
          ground (arith, e.beq_iff (key_of s) k),
        )
        | inr other ↦
            let kept : lookup k index ≡ some j = ground (
              arith,
              lookup-insert (key_of s) k id (delete (key_of old) index),
              lookup-delete (key_of old) k index,
            ) in
            let found = st.named k j kept in
            (
              found.0,
              ground (
                arith,
                found.1,
                found.2,
                present,
                h,
                lookup-insert id j s rules,
                lookup-insert (key_of s) k id (delete (key_of old) index),
                lookup-delete (key_of old) k index,
                string_eq.beq_iff id j,
                e.beq_iff (key_of old) k,
              ),
              found.2,
            )
      ];
      counted = λ c small.
          let left = weigh (uses c) (delete id rules) in
          let gone : left + uses c old ≡ weigh (uses c) rules =
            weigh-delete (uses c) id old rules st.unique present in
          let fewer =
            count_combo_down (combo (key_of old)) refs c (weigh (uses c) rules) left small
              (st.counted c small) gone in
          let total : weigh (uses c) (insert id s rules) ≡ left + uses c s =
            omega (arith, gone, weigh-insert_old (uses c) id s old rules present) in
          rw total (
            count_combo_up (combo (key_of s)) (count_combo (combo (key_of old)) (negsuc 0) refs) c
              left small fewer);
    }

    pub remove :
        (id : String) (old : S)
        → lookup id rules ≡ some old
        → IsStore
            (delete id rules)
            (delete (key_of old) index)
            (count_combo (combo (key_of old)) (negsuc 0) refs)
    remove id old present = record {
      unique = delete-IsUnique id rules st.unique;
      indexed = λ j t h. ground (
        arith,
        lookup-delete id j rules,
        lookup-delete (key_of old) (key_of t) index,
        string_eq.beq_iff id j,
        e.beq_iff (key_of old) (key_of t),
        st.indexed j t,
        st.indexed id old,
      );
      named = λ k j h.
          let kept : lookup k index ≡ some j = ground (arith, lookup-delete (key_of old) k index) in
          let found = st.named k j kept in
          (
            found.0,
            ground (
              arith,
              found.1,
              found.2,
              present,
              h,
              lookup-delete id j rules,
              lookup-delete (key_of old) k index,
              string_eq.beq_iff id j,
              e.beq_iff (key_of old) k,
            ),
            found.2,
          );
      counted = λ c small.
          count_combo_down (combo (key_of old)) refs c (weigh (uses c) rules)
            (weigh (uses c) (delete id rules)) small (st.counted c small)
            (weigh-delete (uses c) id old rules st.unique present);
    }
