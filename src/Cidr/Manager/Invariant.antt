-- ===== src/Cidr/Manager/Invariant.antt =====
-- What holds of the maps and the trie of one direction and family between two calls.
use xdrop.Ebpf.{MapOps, MapLaws}
use xdrop.Cidr.Manager.{
  LpmKey, Table, count_of, write_trie, delete_trie, ℕ, Bool, Text, some, none, alloc_new,
  release_last, false,
}
use xdrop.Cidr.Manager.Normal.{IsNormal}
use xdrop.Cidr.Manager.Entries.{
  lpm_key_eq, trie_at, write_trie_failed, write_trie_done, delete_trie_failed, delete_trie_done,
}
use xdrop.Prelude.GoMap.{lookup, insert, delete, lookup-insert, lookup-delete}
use xdrop.Prelude.Text.{text_eq}
use xdrop.Prelude.{◌≡◌, ◌+◌, ◌<◌, arith, ap, if◌then◌else◌, Bool-cases, inl, ◌-◌, subst, inr, ◌∙◌}

module _ {T : Type 0} (ops : MapOps T LpmKey ℕ) where
  -- A CIDR has a number exactly while it has references, numbers are distinct, lie above 0 and
  -- below the next one, and stand in the trie.
  pub record IsTable (is_v6 : Bool) (next_id : ℕ) (t : Table T) : Type 0 where
    pub normal : (c : Text) (id : ℕ) → lookup c t.cidrs ≡ some id → IsNormal is_v6 c
    pub counted : (c : Text) (id : ℕ) → lookup c t.cidrs ≡ some id → 0 < count_of (lookup c t.refs)
    pub uncounted : (c : Text) → lookup c t.cidrs ≡ none → lookup c t.refs ≡ none
    pub numbered : (c : Text) (id : ℕ) → lookup c t.cidrs ≡ some id → (0 < id) × (id < next_id)
    pub apart :
        (c d : Text) (id : ℕ) → lookup c t.cidrs ≡ some id → lookup d t.cidrs ≡ some id → c ≡ d
    pub entered :
        (c : Text) (id : ℕ) → lookup c t.cidrs ≡ some id → trie_at ops is_v6 t.trie c ≡ some id

module _ {T : Type 0} (ops : MapOps T LpmKey ℕ) (laws : MapLaws ops) (is_v6 : Bool) (next_id : ℕ)
    (t : Table T) (inv : IsTable ops is_v6 next_id t) (c : Text) where
  -- one more reference to a CIDR that has a number
  pub reuse-IsTable :
      (id : ℕ)
      → lookup c t.cidrs ≡ some id
      → IsTable ops is_v6 next_id
          (record t { refs = insert c (count_of (lookup c t.refs) + 1) t.refs })
  reuse-IsTable id h = record {
    normal = inv.normal;
    counted = λ d i e. rw lookup-insert (ground (arith, inv.counted d i));
    uncounted = λ d e.
        rw lookup-insert
          (ground (arith, inv.uncounted d, text_eq.beq_iff c d, ap (λ x. lookup x t.cidrs)));
    numbered = inv.numbered;
    apart = inv.apart;
    entered = inv.entered;
  }

  pub more_ids : IsTable ops is_v6 (next_id + 1) t
  more_ids = record {
    normal = inv.normal;
    counted = inv.counted;
    uncounted = inv.uncounted;
    numbered = λ d i e. ground (arith, inv.numbered d i);
    apart = inv.apart;
    entered = inv.entered;
  }

  -- a new number, whether or not the trie took it
  pub new-IsTable :
      IsNormal is_v6 c
      → 0 < next_id
      → lookup c t.cidrs ≡ none
      → IsTable ops is_v6
          (next_id + 1)
          (alloc_new ops t c next_id (write_trie ops t.trie c next_id is_v6)).0
  unfolding alloc_new
  new-IsTable n pos h = elim (Bool-cases (write_trie ops t.trie c next_id is_v6).1) [
    | inl done ↦ rw done (record {
      normal = λ d i e. normal_insert d i (lookup-insert c d next_id t.cidrs) e;
      counted = λ d i e.
          rw lookup-insert (ground (arith, lookup-insert c d next_id t.cidrs, inv.counted d i));
      uncounted = λ d e.
          rw lookup-insert (ground (arith, lookup-insert c d next_id t.cidrs, inv.uncounted d));
      numbered = λ d i e. ground (arith, lookup-insert c d next_id t.cidrs, inv.numbered d i);
      apart = λ d d' i e e'. ground (
        arith,
        lookup-insert c d next_id t.cidrs,
        lookup-insert c d' next_id t.cidrs,
        text_eq.beq_iff c d,
        text_eq.beq_iff c d',
        inv.apart d d' i,
        inv.numbered d i,
        inv.numbered d' i,
      );
      entered = λ d i e. ground (
        arith,
        lookup-insert c d next_id t.cidrs,
        inv.entered d i,
        write_trie_done ops laws t.trie is_v6 c d next_id n
            (normal_insert d i (lookup-insert c d next_id t.cidrs) e) done,
      );
    })
    | inr failed ↦ rw failed (record {
      normal = inv.normal;
      counted = inv.counted;
      uncounted = inv.uncounted;
      numbered = λ d i e. ground (arith, inv.numbered d i);
      apart = inv.apart;
      entered =
          λ d i e. write_trie_failed ops laws t.trie is_v6 c d next_id failed ∙ inv.entered d i e;
    })
  ]
    where
      normal_insert :
          (d : Text) (i : ℕ)
          → lookup d (insert c next_id t.cidrs)
            ≡ (if text_eq.beq c d then some next_id else lookup d t.cidrs)
          → lookup d (insert c next_id t.cidrs) ≡ some i
          → IsNormal is_v6 d
      normal_insert d i l e = elim (Bool-cases (text_eq.beq c d)) [
        | inl same ↦ subst (IsNormal is_v6) ((text_eq.beq_iff c d).0 same) n
        | inr other ↦ inv.normal d i (ground arith)
      ]

  -- the last reference goes, and with it the number and the entry, unless the trie keeps it
  pub last-IsTable :
      (id : ℕ)
      → lookup c t.cidrs ≡ some id
      → IsTable ops is_v6 next_id (release_last ops t c (delete_trie ops t.trie c is_v6)).0
  unfolding release_last
  last-IsTable id h = elim (Bool-cases (delete_trie ops t.trie c is_v6).1) [
    | inl done ↦ rw done (record {
      normal = λ d i e. inv.normal d i (kept d i (lookup-delete c d t.cidrs) e).1;
      counted = λ d i e.
          rw lookup-delete
            (ground (arith, kept d i (lookup-delete c d t.cidrs) e, inv.counted d i));
      uncounted =
          λ d e. rw lookup-delete (ground (arith, lookup-delete c d t.cidrs, inv.uncounted d));
      numbered = λ d i e. inv.numbered d i (kept d i (lookup-delete c d t.cidrs) e).1;
      apart = λ d d' i e e'.
          inv.apart d d' i (kept d i (lookup-delete c d t.cidrs) e).1
            (kept d' i (lookup-delete c d' t.cidrs) e').1;
      entered = λ d i e.
          let (ne, old) = kept d i (lookup-delete c d t.cidrs) e in
          rw
            (
              delete_trie_done ops laws t.trie is_v6 c d (inv.normal c id h) (inv.normal d i old)
                  done,
              ne,
            )
            (inv.entered d i old);
    })
    | inr failed ↦ rw failed (record {
      normal = inv.normal;
      counted = inv.counted;
      uncounted = inv.uncounted;
      numbered = inv.numbered;
      apart = inv.apart;
      entered = λ d i e. delete_trie_failed ops laws t.trie is_v6 c d failed ∙ inv.entered d i e;
    })
  ]
    where
      kept :
          (d : Text) (i : ℕ)
          → lookup d (delete c t.cidrs) ≡ (if text_eq.beq c d then none else lookup d t.cidrs)
          → lookup d (delete c t.cidrs) ≡ some i
          → (text_eq.beq c d ≡ false) × (lookup d t.cidrs ≡ some i)
      kept d i l e = ground arith

  pub fewer-IsTable :
      (ref : ℕ)
      → lookup c t.refs ≡ some ref
      → 1 < ref
      → IsTable ops is_v6 next_id (record t { refs = insert c (ref - 1) t.refs })
  fewer-IsTable ref h more = record {
    normal = inv.normal;
    counted = λ d i e. rw lookup-insert (ground (arith, inv.counted d i));
    uncounted = λ d e. rw lookup-insert (
        ground (
          arith,
          inv.uncounted d,
          inv.uncounted c,
          text_eq.beq_iff c d,
          ap (λ x. lookup x t.cidrs),
        ));
    numbered = inv.numbered;
    apart = inv.apart;
    entered = inv.entered;
  }
