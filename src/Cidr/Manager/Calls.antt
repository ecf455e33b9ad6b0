-- ===== src/Cidr/Manager/Calls.antt =====
-- What one call of the Manager does, on every branch.
use xdrop.Ebpf.{MapOps, MapLaws}
use xdrop.Cidr.Manager.{
  LpmKey, Table, count_of, write_trie, delete_trie, alloc_new, alloc, release_last, release, ℕ,
  Bool, Text, ◌+◌, false, none, some,
}
use xdrop.Cidr.Manager.Entries.{lpm_key_eq, trie_at, write_trie_failed, delete_trie_failed}
use xdrop.Cidr.Manager.Invariant.{IsTable}
use xdrop.Cidr.Manager.Trace.{
  alloc_present, alloc_absent, release_absent, release_more, release_one,
}
use xdrop.Prelude.GoMap.{lookup, lookup-insert}
use xdrop.Prelude.Text.{text_eq}
use native.Mathlib.Decide.{dec_lt}
use xdrop.Prelude.{
  ◌≡◌, if◌then◌else◌, ◌<◌, Option-cases, Bool-cases, ◌^◌, ◌⊎◌, suc, inr, inl, arith, refl, ap,
}

-- two states of a table that no lookup tells apart
pub record SameTable {T : Type 0} (ops : MapOps T LpmKey ℕ) (is_v6 : Bool) (t u : Table T)
    : Type 0 where
  pub cidrs : t.cidrs ≡ u.cidrs
  pub refs : t.refs ≡ u.refs
  pub entries : (d : Text) → trie_at ops is_v6 t.trie d ≡ trie_at ops is_v6 u.trie d

module _ {T : Type 0} (ops : MapOps T LpmKey ℕ) (laws : MapLaws ops) (t : Table T) (next_id : ℕ)
    (c : Text) (is_v6 : Bool) where
  failed_last :
      (release_last ops t c (delete_trie ops t.trie c is_v6)).1 ≡ false
      → SameTable ops is_v6 (release_last ops t c (delete_trie ops t.trie c is_v6)).0 t
  unfolding release_last
  failed_last h = elim (Bool-cases (delete_trie ops t.trie c is_v6).1) [
    | inl done ↦ cc (rw done at h)
    | inr failed ↦ rw failed (record {
      cidrs = refl;
      refs = refl;
      entries = λ d. delete_trie_failed ops laws t.trie is_v6 c d failed;
    })
  ]

  failed_release :
      (release ops t c is_v6).1 ≡ false → SameTable ops is_v6 (release ops t c is_v6).0 t
  failed_release h = elim (Option-cases (lookup c t.refs)) [
    | inl absent ↦
        rw (release_absent ops t next_id c is_v6 absent)
          (record { cidrs = refl; refs = refl; entries = λ d. refl })
    | inr (ref, present) ↦ elim (dec_lt 1 ref) [
      | yes more ↦ cc (rw (release_more ops t next_id c is_v6 ref present more) at h)
      | no few ↦
          let one = release_one ops t next_id c is_v6 ref present (omega arith) in
          rw one (failed_last (rw one at h))
    ]
  ]

  failed_new :
      (alloc_new ops t c next_id (write_trie ops t.trie c next_id is_v6)).1 ≡ none
      → SameTable ops is_v6 (alloc_new ops t c next_id (write_trie ops t.trie c next_id is_v6)).0 t
  unfolding alloc_new
  failed_new h = elim (Bool-cases (write_trie ops t.trie c next_id is_v6).1) [
    | inl done ↦ cc (rw done at h)
    | inr failed ↦ rw failed (record {
      cidrs = refl;
      refs = refl;
      entries = λ d. write_trie_failed ops laws t.trie is_v6 c d next_id failed;
    })
  ]

  failed_alloc :
      (alloc ops t next_id c is_v6).2 ≡ none
      → next_id + 1 < 2 ^ 32
      → SameTable ops is_v6 (alloc ops t next_id c is_v6).0 t
        × ((alloc ops t next_id c is_v6).1 ≡ next_id + 1)
  failed_alloc h room = elim (Option-cases (lookup c t.cidrs)) [
    | inl absent ↦
        let new = alloc_absent ops t next_id c is_v6 absent room in
        rw new (failed_new (rw new at h), refl)
    | inr (id, present) ↦ cc (rw (alloc_present ops t next_id c is_v6 id present) at h)
  ]

  -- A release that fails changes nothing that a lookup shows, so that it can be tried again; nor does
  -- an allocation that fails, except that its number is spent.
  pub failed_unchanged :
      ((release ops t c is_v6).1 ≡ false → SameTable ops is_v6 (release ops t c is_v6).0 t)
      × ((alloc ops t next_id c is_v6).2 ≡ none
          → next_id + 1 < 2 ^ 32
          → SameTable ops is_v6 (alloc ops t next_id c is_v6).0 t
            × ((alloc ops t next_id c is_v6).1 ≡ next_id + 1))
  failed_unchanged = (failed_release, failed_alloc)

  -- what a successful allocation leaves: the number and one reference more, at this CIDR alone
  pub record Allocated (id : ℕ) (u : Table T) : Type 0 where
    pub number :
        (d : Text) → lookup d u.cidrs ≡ (if text_eq.beq c d then some id else lookup d t.cidrs)
    pub counts :
        (d : Text)
        → count_of (lookup d u.refs) ≡ (
            if text_eq.beq c d
            then suc (count_of (lookup d t.refs))
            else count_of (lookup d t.refs))

  new_done :
      IsTable ops is_v6 next_id t
      → lookup c t.cidrs ≡ none
      → (id : ℕ) → (alloc_new ops t c next_id (write_trie ops t.trie c next_id is_v6)).1 ≡ some id
      → Allocated id (alloc_new ops t c next_id (write_trie ops t.trie c next_id is_v6)).0
        × (id ≡ next_id)
  unfolding alloc_new
  new_done inv absent id h = elim (Bool-cases (write_trie ops t.trie c next_id is_v6).1) [
    | inr failed ↦ cc (rw failed at h)
    | inl done ↦
        let e : next_id ≡ id = ground (arith, rw done at h) in
        rw (done, e)
          (
            record {
              number = λ d. lookup-insert c d id t.cidrs;
              counts = λ d. rw lookup-insert (
                  ground (
                    arith,
                    inv.uncounted c absent,
                    text_eq.beq_iff c d,
                    ap (λ x. lookup x t.refs),
                  ));
            },
            refl,
          )
  ]

  -- An allocation that succeeds on maps that satisfy the invariant gives the CIDR the number that it
  -- returns and one more reference, and changes neither for any other CIDR. The number is the one
  -- that the CIDR had, with `nextID` unchanged; or, where it had none, the next one, which is spent.
  pub alloc_done :
      IsTable ops is_v6 next_id t
      → next_id + 1 < 2 ^ 32
      → (id : ℕ) → (alloc ops t next_id c is_v6).2 ≡ some id
      → Allocated id (alloc ops t next_id c is_v6).0
        × (((lookup c t.cidrs ≡ some id) × ((alloc ops t next_id c is_v6).1 ≡ next_id))
            ⊎ ((lookup c t.cidrs ≡ none)
                × (id ≡ next_id)
                × ((alloc ops t next_id c is_v6).1 ≡ next_id + 1)))
  alloc_done inv room id h = elim (Option-cases (lookup c t.cidrs)) [
    | inl absent ↦
        let new = alloc_absent ops t next_id c is_v6 absent room in
        let (made, same) = new_done inv absent id (rw new at h) in
        rw new (made, inr (absent, same, refl))
    | inr (old, present) ↦
        let reused = alloc_present ops t next_id c is_v6 old present in
        let e : old ≡ id = ground (arith, rw reused at h) in
        rw reused (
          record {
            number =
                λ d. ground (arith, present, e, text_eq.beq_iff c d, ap (λ x. lookup x t.cidrs));
            counts = λ d.
                rw lookup-insert (ground (arith, text_eq.beq_iff c d, ap (λ x. lookup x t.refs)));
          },
          inl (rw (← e) present, refl),
        )
  ]
