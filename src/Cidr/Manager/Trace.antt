-- ===== src/Cidr/Manager/Trace.antt =====
-- The Manager through any sequence of calls.
use native.Mathlib.Decide.{dec_lt}
use xdrop.Ebpf.{MapOps, MapLaws}
use xdrop.Cidr.Manager.{
  LpmKey, Table, Manager, count_of, is_ipv6_cidr, write_trie, delete_trie, alloc_new, alloc,
  release_last, release, new_manager, get_src_maps, get_dst_maps, set_src_maps, set_dst_maps,
  alloc_src_id, alloc_dst_id, release_src_id, release_dst_id, clear_all, clear_table, ℕ, Bool, Text,
  false, true, none, some, leb, [], List, ◌∷◌,
}
use xdrop.Cidr.Manager.Normal.{IsNormal}
use xdrop.Cidr.Manager.Entries.{lpm_key_eq}
use xdrop.Cidr.Manager.Invariant.{IsTable, reuse-IsTable, new-IsTable, last-IsTable, fewer-IsTable}
use xdrop.Prelude.GoMap.{lookup, insert}
use xdrop.Prelude.Text.{text_eq}
use xdrop.Prelude.{◌<◌, ◌+◌, ◌^◌, ◌≤◌, Option-cases, inl, inr, arith, ◌≡◌, ◌%◌, ◌-◌, refl, length}

none-ne-some {ℓ} : {A : Type ℓ} {a : A} → ¬ (none ≡ some a)
none-ne-some h = cc

-- the methods that change the Manager
pub data Call : Type 0 where
  alloc_src alloc_dst release_src release_dst : Text → Call
  clear : Call

-- the CIDR of an allocation is in normal form
abbrev pub IsNormalCall : Call → Type 0
IsNormalCall (alloc_src c) = IsNormal (is_ipv6_cidr c) c
IsNormalCall (alloc_dst c) = IsNormal (is_ipv6_cidr c) c
IsNormalCall _ = Unit

module _ {T : Type 0} (ops : MapOps T LpmKey ℕ) where
  pub record IsManager (m : Manager T) : Type 0 where
    pub positive : 0 < m.next_id
    pub src_v4 : IsTable ops false m.next_id m.src_v4
    pub dst_v4 : IsTable ops false m.next_id m.dst_v4
    pub src_v6 : IsTable ops true m.next_id m.src_v6
    pub dst_v6 : IsTable ops true m.next_id m.dst_v6

  unfoldable pub call : Manager T → Call → Manager T
  call m (alloc_src c) = (alloc_src_id ops m c).0
  call m (alloc_dst c) = (alloc_dst_id ops m c).0
  call m (release_src c) = (release_src_id ops m c).0
  call m (release_dst c) = (release_dst_id ops m c).0
  call m clear = clear_all ops m

module _ {T : Type 0} (ops : MapOps T LpmKey ℕ) (t : Table T) (next_id : ℕ) (c : Text)
    (is_v6 : Bool) where
  pub alloc_present :
      (id : ℕ)
      → lookup c t.cidrs ≡ some id
      → alloc ops t next_id c is_v6
        ≡ (record t { refs = insert c (count_of (lookup c t.refs) + 1) t.refs }, next_id, some id)
  unfolding alloc
  alloc_present id h = rw (h, alloc)

  pub alloc_absent :
      lookup c t.cidrs ≡ none
      → next_id + 1 < 2 ^ 32
      → alloc ops t next_id c is_v6 ≡ (
        (alloc_new ops t c next_id (write_trie ops t.trie c next_id is_v6)).0,
        next_id + 1,
        (alloc_new ops t c next_id (write_trie ops t.trie c next_id is_v6)).1,
      )
  unfolding alloc
  alloc_absent h room =
      let wrap : (next_id + 1) % 2 ^ 32 ≡ next_id + 1 = omega arith in rw (h, alloc, wrap)

  pub release_absent : lookup c t.refs ≡ none → release ops t c is_v6 ≡ (t, false)
  unfolding release
  release_absent h = rw (h, release)

  pub release_more :
      (ref : ℕ)
      → lookup c t.refs ≡ some ref
      → 1 < ref
      → release ops t c is_v6 ≡ (record t { refs = insert c (ref - 1) t.refs }, true)
  unfolding release
  release_more ref h more = let big : leb ref 1 ≡ false = ground arith in rw (h, release, big)

  pub release_one :
      (ref : ℕ)
      → lookup c t.refs ≡ some ref
      → ref ≤ 1
      → release ops t c is_v6 ≡ release_last ops t c (delete_trie ops t.trie c is_v6)
  unfolding release
  release_one ref h few = let small : leb ref 1 ≡ true = ground arith in rw (h, release, small)

module _ {T : Type 0} (ops : MapOps T LpmKey ℕ) (laws : MapLaws ops) where
  module _ (is_v6 : Bool) (next_id : ℕ) (t : Table T) (c : Text)
      (inv : IsTable ops is_v6 next_id t) where
    -- the number wraps after 2 ^ 32 - 1
    alloc-IsTable :
        IsNormal is_v6 c
        → 0 < next_id
        → next_id + 1 < 2 ^ 32
        → IsTable ops is_v6 (alloc ops t next_id c is_v6).1 (alloc ops t next_id c is_v6).0
          × (next_id ≤ (alloc ops t next_id c is_v6).1)
          × ((alloc ops t next_id c is_v6).1 ≤ next_id + 1)
    alloc-IsTable n pos room = elim (Option-cases (lookup c t.cidrs)) [
      | inl absent ↦
          rw (alloc_absent ops t next_id c is_v6 absent room)
            (new-IsTable ops laws is_v6 next_id t inv c n pos absent, omega arith, omega arith)
      | inr (id, present) ↦
          rw (alloc_present ops t next_id c is_v6 id present)
            (reuse-IsTable ops laws is_v6 next_id t inv c id present, omega arith, omega arith)
    ]

    release-IsTable : IsTable ops is_v6 next_id (release ops t c is_v6).0
    release-IsTable = elim (Option-cases (lookup c t.refs)) [
      | inl absent ↦ rw (release_absent ops t next_id c is_v6 absent) inv
      | inr (ref, present) ↦ elim (dec_lt 1 ref) [
        | yes more ↦
            rw (release_more ops t next_id c is_v6 ref present more)
              (fewer-IsTable ops laws is_v6 next_id t inv c ref present more)
        | no few ↦
            rw (release_one ops t next_id c is_v6 ref present (omega arith)) (last ref present)
      ]
    ]
      where
        last :
            (ref : ℕ)
            → lookup c t.refs ≡ some ref
            → IsTable ops is_v6 next_id (release_last ops t c (delete_trie ops t.trie c is_v6)).0
        last ref present = elim (Option-cases (lookup c t.cidrs)) [
          | inl gone ↦ cc (inv.uncounted c gone)
          | inr (id, held) ↦ last-IsTable ops laws is_v6 next_id t inv c id held
        ]

  widen :
      {is_v6 : Bool} {next_id : ℕ} (next_id' : ℕ) {t : Table T}
      → next_id ≤ next_id'
      → IsTable ops is_v6 next_id t
      → IsTable ops is_v6 next_id' t
  widen next_id' more inv = record {
    normal = inv.normal;
    counted = inv.counted;
    uncounted = inv.uncounted;
    numbered = λ d i e. ground (arith, inv.numbered d i);
    apart = inv.apart;
    entered = inv.entered;
  }

  empty-IsTable :
      (is_v6 : Bool) (next_id : ℕ) (trie : T)
      → IsTable ops is_v6 next_id (record { cidrs = []; refs = []; trie = trie })
  unfolding lookup
  empty-IsTable is_v6 next_id trie = record {
    normal = λ d i e. absurd (none-ne-some e);
    counted = λ d i e. absurd (none-ne-some e);
    uncounted = λ d e. refl;
    numbered = λ d i e. absurd (none-ne-some e);
    apart = λ d d' i e e'. absurd (none-ne-some e);
    entered = λ d i e. absurd (none-ne-some e);
  }

  module _ (m : Manager T) (inv : IsManager ops m) where
    src-IsTable : (b : Bool) → IsTable ops b m.next_id (get_src_maps b m)
    unfolding get_src_maps
    src-IsTable true = inv.src_v6
    src-IsTable false = inv.src_v4

    dst-IsTable : (b : Bool) → IsTable ops b m.next_id (get_dst_maps b m)
    unfolding get_dst_maps
    dst-IsTable true = inv.dst_v6
    dst-IsTable false = inv.dst_v4

    set_src-IsManager :
        (b : Bool) (t : Table T) (next_id : ℕ)
        → m.next_id ≤ next_id
        → IsTable ops b next_id t
        → IsManager ops (let m' = set_src_maps b t m in record m' { next_id = next_id })
    unfolding set_src_maps
    set_src-IsManager true t next_id more it = record {
      positive = omega (arith, inv.positive);
      src_v4 = widen next_id more inv.src_v4;
      dst_v4 = widen next_id more inv.dst_v4;
      src_v6 = it;
      dst_v6 = widen next_id more inv.dst_v6;
    }
    set_src-IsManager false t next_id more it = record {
      positive = omega (arith, inv.positive);
      src_v4 = it;
      dst_v4 = widen next_id more inv.dst_v4;
      src_v6 = widen next_id more inv.src_v6;
      dst_v6 = widen next_id more inv.dst_v6;
    }

    set_dst-IsManager :
        (b : Bool) (t : Table T) (next_id : ℕ)
        → m.next_id ≤ next_id
        → IsTable ops b next_id t
        → IsManager ops (let m' = set_dst_maps b t m in record m' { next_id = next_id })
    unfolding set_dst_maps
    set_dst-IsManager true t next_id more it = record {
      positive = omega (arith, inv.positive);
      src_v4 = widen next_id more inv.src_v4;
      dst_v4 = widen next_id more inv.dst_v4;
      src_v6 = widen next_id more inv.src_v6;
      dst_v6 = it;
    }
    set_dst-IsManager false t next_id more it = record {
      positive = omega (arith, inv.positive);
      src_v4 = widen next_id more inv.src_v4;
      dst_v4 = it;
      src_v6 = widen next_id more inv.src_v6;
      dst_v6 = widen next_id more inv.dst_v6;
    }

    keep_src-IsManager :
        (b : Bool) (t : Table T) → IsTable ops b m.next_id t → IsManager ops (set_src_maps b t m)
    unfolding set_src_maps
    keep_src-IsManager true t it = set_src-IsManager true t m.next_id (omega arith) it
    keep_src-IsManager false t it = set_src-IsManager false t m.next_id (omega arith) it

    set_src-next_id : (b : Bool) (t : Table T) → (set_src_maps b t m).next_id ≡ m.next_id
    unfolding set_src_maps
    set_src-next_id true t = refl
    set_src-next_id false t = refl

    keep_dst-IsManager :
        (b : Bool) (t : Table T) → IsTable ops b m.next_id t → IsManager ops (set_dst_maps b t m)
    unfolding set_dst_maps
    keep_dst-IsManager true t it = set_dst-IsManager true t m.next_id (omega arith) it
    keep_dst-IsManager false t it = set_dst-IsManager false t m.next_id (omega arith) it

    set_dst-next_id : (b : Bool) (t : Table T) → (set_dst_maps b t m).next_id ≡ m.next_id
    unfolding set_dst_maps
    set_dst-next_id true t = refl
    set_dst-next_id false t = refl

    -- one call keeps the invariant, and takes at most one number
    call-IsManager :
        (k : Call)
        → IsNormalCall k
        → m.next_id + 1 < 2 ^ 32
        → IsManager ops (call ops m k)
          × (m.next_id ≤ (call ops m k).next_id)
          × ((call ops m k).next_id ≤ m.next_id + 1)
    unfolding call alloc_src_id alloc_dst_id release_src_id release_dst_id clear_all clear_table
    call-IsManager (alloc_src c) n room =
        let b = is_ipv6_cidr c in
        let (it, lo, hi) =
          alloc-IsTable b m.next_id (get_src_maps b m) c (src-IsTable b) n inv.positive room in
        (set_src-IsManager b _ _ lo it, lo, hi)
    call-IsManager (alloc_dst c) n room =
        let b = is_ipv6_cidr c in
        let (it, lo, hi) =
          alloc-IsTable b m.next_id (get_dst_maps b m) c (dst-IsTable b) n inv.positive room in
        (set_dst-IsManager b _ _ lo it, lo, hi)
    call-IsManager (release_src c) n room =
        let b = is_ipv6_cidr c in
        let t = (release ops (get_src_maps b m) c b).0 in
        let same = set_src-next_id b t in
        (
          keep_src-IsManager b t (release-IsTable b m.next_id (get_src_maps b m) c (src-IsTable b)),
          omega arith,
          omega arith,
        )
    call-IsManager (release_dst c) n room =
        let b = is_ipv6_cidr c in
        let t = (release ops (get_dst_maps b m) c b).0 in
        let same = set_dst-next_id b t in
        (
          keep_dst-IsManager b t (release-IsTable b m.next_id (get_dst_maps b m) c (dst-IsTable b)),
          omega arith,
          omega arith,
        )
    call-IsManager clear n room = (
      record {
        positive = inv.positive;
        src_v4 = empty-IsTable false m.next_id _;
        dst_v4 = empty-IsTable false m.next_id _;
        src_v6 = empty-IsTable true m.next_id _;
        dst_v6 = empty-IsTable true m.next_id _;
      },
      omega arith,
      omega arith,
    )

-- a sequence of calls
unfoldable pub run : {T : Type 0} (ops : MapOps T LpmKey ℕ) → Manager T → List Call → Manager T
run ops m [] = m
run ops m (k ∷ ks) = run ops (call ops m k) ks

abbrev pub AllNormal : List Call → Type 0
AllNormal [] = Unit
AllNormal (k ∷ ks) = IsNormalCall k × AllNormal ks

run-IsManager :
    {T : Type 0} (ops : MapOps T LpmKey ℕ) (laws : MapLaws ops) (m : Manager T) (ks : List Call)
    → AllNormal ks
    → m.next_id + length ks < 2 ^ 32
    → IsManager ops m
    → IsManager ops (run ops m ks)
unfolding run
run-IsManager ops laws m [] n room inv = inv
run-IsManager ops laws m (k ∷ ks) n room inv =
    let (inv', lo, hi) = call-IsManager ops laws m inv k n.0 (omega arith) in
    run-IsManager ops laws (call ops m k) ks n.1 (omega arith) inv'

-- After any sequence of fewer than 2 ^ 32 - 1 calls on a new Manager, each of which may fail in the
-- kernel, in which the allocated CIDRs are in normal form: in each direction and family a CIDR has
-- a number exactly while it has references, no two CIDRs share a number, every number lies above 0
-- and below the next one, and the trie has the number under the key of the CIDR.
pub reachable-IsManager :
    {T : Type 0} (ops : MapOps T LpmKey ℕ) (laws : MapLaws ops) (a b c d : T) (ks : List Call)
    → AllNormal ks
    → length ks + 1 < 2 ^ 32
    → IsManager ops (run ops (new_manager a b c d) ks)
unfolding new_manager
reachable-IsManager ops laws a b c d ks n room =
    run-IsManager ops laws (new_manager a b c d) ks n (omega arith) (record {
      positive = omega arith;
      src_v4 = empty-IsTable ops laws false 1 a;
      dst_v4 = empty-IsTable ops laws false 1 b;
      src_v6 = empty-IsTable ops laws true 1 c;
      dst_v6 = empty-IsTable ops laws true 1 d;
    })
