-- ===== src/Agent/Sync/Rules/Entries.antt =====
-- Rules and their entries in a BPF map, as the loop of DoAtomicSync of node/agent/api/sync.go writes
-- them: with UpdateNoExist, so that no entry is written twice.
use xdrop.Prelude.GoMap.{GoMap, lookup, insert, lookup-insert}
use xdrop.Prelude.Int.{ℤ}
use xdrop.Prelude.Text.{string_eq, text_eq}
use xdrop.Prelude.Bytes.{Bytes}
use xdrop.Ebpf.{MapOps, MapLaws, update_no_exist}
use xdrop.Agent.Store.Invariant.{IsStore}
use xdrop.Prelude.{
  Eq, ◌≡◌, String, true, ℕ, some, Bool-cases, arith, none, Option-cases, inl, inr, subst, sym, ◌∙◌,
  ap,
}

module _ {M S : Type 0} (maps : MapOps M Bytes Bytes) (k v : S → Bytes) where
  -- each rule has its entry
  abbrev pub AllWritten : M → GoMap String S → Type 0
  AllWritten m rules =
      (id : String) (s : S) → lookup id rules ≡ some s → maps.lookup m (k s) ≡ some (v s)

module _ {M S : Type 0} (maps : MapOps M Bytes Bytes) (laws : MapLaws maps) (k v : S → Bytes) where
  written_new :
      (m : M) (s : S) (x : Bytes)
      → x ≡ v s
      → (maps.update m update_no_exist (k s) x).1 ≡ true
      → maps.lookup (maps.update m update_no_exist (k s) x).0 (k s) ≡ some (v s)
  written_new m s x same done = ground (
    arith,
    same,
    laws.update_done m update_no_exist (k s) x (k s) done,
    text_eq.beq_iff (k s) (k s),
  )

  written_old :
      (m : M) (s t : S) (x : Bytes)
      → maps.lookup m (k t) ≡ some (v t)
      → (maps.update m update_no_exist (k s) x).1 ≡ true
      → maps.lookup (maps.update m update_no_exist (k s) x).0 (k t) ≡ some (v t)
  written_old m s t x there done = ground (
    arith,
    there,
    laws.update_done m update_no_exist (k s) x (k t) done,
    laws.update-no_exist m (k s) x done,
    text_eq.beq_iff (k s) (k t),
  )

  pub written-insert :
      (m : M) (rules : GoMap String S) (id : String) (s : S) (x : Bytes)
      → x ≡ v s
      → (maps.update m update_no_exist (k s) x).1 ≡ true
      → AllWritten maps k v m rules
      → AllWritten maps k v (maps.update m update_no_exist (k s) x).0 (insert id s rules)
  written-insert m rules id s x same done all j t h = elim (Bool-cases (string_eq.beq id j)) [
    | inl here ↦
        let q : s ≡ t = ground (arith, h, here, lookup-insert id j s rules) in
        subst (λ u. maps.lookup (maps.update m update_no_exist (k s) x).0 (k u) ≡ some (v u)) q
          (written_new m s x same done)
    | inr there ↦
        let old : lookup j rules ≡ some t = ground (arith, h, there, lookup-insert id j s rules) in
        written_old m s t x (all j t old) done
  ]

module _ {M S K : Type 0} ⦃e : Eq K⦄ (maps : MapOps M Bytes Bytes) (key_of : S → K) (combo : K → ℤ)
    (bytes : K → Bytes) (v : S → Bytes) where
  -- a key without an entry has no rule
  pub unwritten_free :
      (m : M) (rules : GoMap String S) (index : GoMap K String) (refs : ℕ → ℤ) (key : K)
      → IsStore key_of combo rules index refs
      → AllWritten maps (λ s. bytes (key_of s)) v m rules
      → maps.lookup m (bytes key) ≡ none
      → lookup key index ≡ none
  unwritten_free m rules index refs key st all unwritten = elim (Option-cases (lookup key index)) [
    | inl free ↦ free
    | inr (id, taken) ↦
        let found = st.named key id taken in
        let there = all id found.0 found.1 in
        let never : none ≡ some (v found.0) =
          sym unwritten ∙ ap (λ x. maps.lookup m (bytes x)) (sym found.2) ∙ there in
        cc
  ]
