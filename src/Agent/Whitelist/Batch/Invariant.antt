-- ===== src/Agent/Whitelist/Batch/Invariant.antt =====
-- The whitelist under DeleteWhitelistBatch of node/agent/api/whitelist.go.
use mathlib.Core.List.{List, [], ◌∷◌}
use Prim.Native.String.{String}
use xdrop.Prelude.{◌≡◌, arith, ap, refl, subst, sym, true, Bool-cases, inl, inr}
use xdrop.Prelude.GoMap.{lookup, insert, delete, lookup-insert, lookup-delete}
use xdrop.Prelude.Int.{pos}
use xdrop.Prelude.Text.{string_eq}
use xdrop.Agent.Types.{RuleKey, rule_key_eq}
use xdrop.Agent.Wire.{rule_key_to_bytes}
use xdrop.Agent.State.{Handlers, Bpf}
use xdrop.Agent.Config.{active_whitelist, set_active_whitelist}
use xdrop.Agent.Whitelist.{
  take_whitelist, put_whitelist, restore_whitelist, count_whitelist, false, ℤ, none, count_combo,
  some, get_combo_type, negsuc, Option, Bool,
}
use xdrop.Agent.Whitelist.Invariant.{
  View, IsWhitelist, IsConsistent, wl_view, of_view, set_active_whitelist-view, publish-view,
  restore_whitelist-view,
}
use xdrop.Agent.Whitelist.Deleted.{take_whitelist-IsConsistent, put_back-IsWhitelist}
use xdrop.Agent.Whitelist.Batch.{
  DeletedItem, add_item, drop_entry, drop_entries, put_items, settle_batch, publish_items,
  delete_whitelist_batch, ℕ,
}

-- the items have no entry, and no two of them have an id or a key in common
AllAbsent : View → List DeletedItem → Type 0
AllAbsent v [] = Unit
AllAbsent v (item ∷ items) =
    (lookup item.id v.0 ≡ none) × (lookup item.key v.1 ≡ none) × AllAbsent v items

AllApart : DeletedItem → List DeletedItem → Type 0
AllApart item [] = Unit
AllApart item (other ∷ items) =
    (string_eq.beq item.id other.id ≡ false)
    × (rule_key_eq.beq item.key other.key ≡ false)
    × AllApart item items

AreDistinct : List DeletedItem → Type 0
AreDistinct [] = Unit
AreDistinct (item ∷ items) = AllApart item items × AreDistinct items

put_absent :
    (v : View) (item : DeletedItem) (items : List DeletedItem) (refs : ℕ → ℤ)
    → AllApart item items
    → AllAbsent v items
    → AllAbsent (insert item.id item.key v.0, insert item.key item.id v.1, refs) items
unfolding AllApart AllAbsent
put_absent v item [] refs apart absent = tt
put_absent v item (other ∷ items) refs apart absent = (
  ground (arith, apart.0, absent.0, lookup-insert item.id other.id item.key v.0),
  ground (arith, apart.1, absent.1, lookup-insert item.key other.key item.id v.1),
  put_absent v item items refs apart.2 absent.2,
)

AllPresent : View → List DeletedItem → Type 0
AllPresent v [] = Unit
AllPresent v (item ∷ items) = (lookup item.id v.0 ≡ some item.key) × AllPresent v items

-- the loop from `v` to `w`
record IsDropped (v : View) (items : List DeletedItem) (w : View) : Type 0 where
  consistent : IsConsistent w
  present : AllPresent v items
  absent : AllAbsent w items
  distinct : AreDistinct items
  fewer_ids : (j : String) → lookup j v.0 ≡ none → lookup j w.0 ≡ none
  fewer_keys : (k : RuleKey) → lookup k v.1 ≡ none → lookup k w.1 ≡ none

still_present :
    (v : View) (id : String) (key : RuleKey) (refs : ℕ → ℤ) (items : List DeletedItem)
    → AllPresent (delete id v.0, delete key v.1, refs) items
    → AllPresent v items
unfolding AllPresent
still_present v id key refs [] p = tt
still_present v id key refs (item ∷ items) p =
    (ground (arith, p.0, lookup-delete id item.id v.0), still_present v id key refs items p.1)

taken_apart :
    (v : View) (id : String) (key : RuleKey) (refs : ℕ → ℤ) (items : List DeletedItem)
    → IsConsistent (delete id v.0, delete key v.1, refs)
    → AllPresent (delete id v.0, delete key v.1, refs) items
    → AllApart (record { id = id; key = key }) items
unfolding AllApart AllPresent
taken_apart v id key refs [] st p = tt
taken_apart v id key refs (item ∷ items) st p =
    let indexed = st.indexed item.id item.key p.0 in
    (
      ground (arith, p.0, lookup-delete id item.id v.0),
      ground (arith, indexed, lookup-delete key item.key v.1),
      taken_apart v id key refs items st p.1,
    )

add_taken :
    (v w : View) (id : String) (key : RuleKey) (refs : ℕ → ℤ) (items : List DeletedItem)
    → lookup id v.0 ≡ some key
    → IsConsistent (delete id v.0, delete key v.1, refs)
    → IsDropped (delete id v.0, delete key v.1, refs) items w
    → IsDropped v (record { id = id; key = key } ∷ items) w
unfolding AllAbsent AllPresent AreDistinct
add_taken v w id key refs items there st d = record {
  consistent = d.consistent;
  present = (there, still_present v id key refs items d.present);
  absent = (
    d.fewer_ids id (ground (arith, lookup-delete id id v.0, string_eq.beq_iff id id)),
    d.fewer_keys key (ground (arith, lookup-delete key key v.1, rule_key_eq.beq_iff key key)),
    d.absent,
  );
  distinct = (taken_apart v id key refs items st d.present, d.distinct);
  fewer_ids = λ j h. d.fewer_ids j (ground (arith, h, lookup-delete id j v.0));
  fewer_keys = λ k h. d.fewer_keys k (ground (arith, h, lookup-delete key k v.1));
}

module _ {M C T : Type 0} where
  take_whitelist-view :
      (id : String) (key : RuleKey) (h : Handlers M C T) (v : View)
      → wl_view h ≡ v
      → wl_view (take_whitelist id key h)
        ≡ (delete id v.0, delete key v.1, count_combo (get_combo_type key) (negsuc 0) v.2)
  unfolding take_whitelist count_whitelist
  take_whitelist-view id key h v same =
      ap (λ w. (delete id w.0, delete key w.1, count_combo (get_combo_type key) (negsuc 0) w.2))
        same

  put_whitelist-absent :
      (item : DeletedItem) (items : List DeletedItem) (h : Handlers M C T)
      → AllApart item items
      → AllAbsent (wl_view h) items
      → AllAbsent (wl_view (put_whitelist item.id item.key h)) items
  unfolding put_whitelist count_whitelist
  put_whitelist-absent item items h apart absent = put_absent (wl_view h) item items _ apart absent

nothing-IsDropped : (v : View) → IsConsistent v → IsDropped v [] v
unfolding AllPresent AllAbsent AreDistinct
nothing-IsDropped v st = record {
  consistent = st;
  present = tt;
  absent = tt;
  distinct = tt;
  fewer_ids = λ j h. h;
  fewer_keys = λ k h. h;
}

module _ {M C T : Type 0} (bpf : Bpf M C T) where
  open bpf use {maps}

  put_items-IsWhitelist :
      (items : List DeletedItem) (h : Handlers M C T)
      → IsWhitelist h
      → AllAbsent (wl_view h) items
      → AreDistinct items
      → IsWhitelist (put_items bpf items h)
  unfolding put_items AllAbsent AreDistinct
  put_items-IsWhitelist [] h st absent distinct = st
  put_items-IsWhitelist (item ∷ items) h st absent distinct =
      let put = put_whitelist item.id item.key h in
      let g = restore_whitelist bpf (some item.key) put in
      let view = restore_whitelist-view bpf (some item.key) put in
      let back = put_back-IsWhitelist bpf item.id item.key h st absent.0 absent.1 in
      let rest = put_whitelist-absent item items h distinct.0 absent.2 in
      put_items-IsWhitelist items g (of_view g (wl_view put) view back)
        (subst (λ v. AllAbsent v items) (sym view) rest) distinct.1

  drop_entry-step :
      (id : String) (found : Option RuleKey) (h : Handlers M C T) (items : List DeletedItem)
      (w : View)
      → IsWhitelist h
      → lookup id h.wl_entries ≡ found
      → IsWhitelist (drop_entry bpf id found h).0
        × (IsDropped (wl_view (drop_entry bpf id found h).0) items w
            → IsDropped (wl_view h) (add_item (drop_entry bpf id found h).1 items) w)
  unfolding drop_entry add_item
  drop_entry-step id none h items w st found = (st, λ d. d)
  drop_entry-step id (some key) h items w st found =
      let deleted = maps.delete (active_whitelist h) (rule_key_to_bytes key) in
      let h' = set_active_whitelist deleted.0 h in
      let same = set_active_whitelist-view deleted.0 h in
      let taken = take_whitelist id key h' in
      let view = take_whitelist-view id key h' (wl_view h) same in
      let left = take_whitelist-IsConsistent bpf id key h' (wl_view h) st found same in
      elim (Bool-cases deleted.1) [
        | inl done ↦ rw done (
          left,
          λ d.
              add_taken (wl_view h) w id key _ items found (subst IsConsistent view left)
                (subst (λ v. IsDropped v items w) view d),
        )
        | inr failed ↦
            rw failed (of_view h' (wl_view h) same st, λ d. subst (λ v. IsDropped v items w) same d)
      ]

  drop_entries-IsDropped :
      (ids : List String) (h : Handlers M C T)
      → IsWhitelist h
      → IsDropped (wl_view h) (drop_entries bpf ids h).1.0 (wl_view (drop_entries bpf ids h).0)
  unfolding drop_entries
  drop_entries-IsDropped [] h st = nothing-IsDropped (wl_view h) st
  drop_entries-IsDropped (id ∷ ids) h st =
      let g = (drop_entry bpf id (lookup id h.wl_entries) h).0 in
      let rest = drop_entries bpf ids g in
      let first = drop_entry-step id (lookup id h.wl_entries) h rest.1.0 (wl_view rest.0) st refl in
      first.1 (drop_entries-IsDropped ids g first.0)

  publish_items-view :
      (items : List DeletedItem) (h : Handlers M C T)
      → wl_view (publish_items bpf items h).0 ≡ wl_view h
  unfolding publish_items
  publish_items-view [] h = refl
  publish_items-view (item ∷ items) h = publish-view bpf h (pos 0) _ (pos 0)

  settle_batch-IsWhitelist :
      (items : List DeletedItem) (failed : ℕ) (p : Handlers M C T × Bool)
      → IsWhitelist p.0
      → AllAbsent (wl_view p.0) items
      → AreDistinct items
      → IsWhitelist (settle_batch bpf items failed p).0
  unfolding settle_batch
  settle_batch-IsWhitelist items failed (h, true) st absent distinct = st
  settle_batch-IsWhitelist items failed (h, false) st absent distinct =
      put_items-IsWhitelist items h st absent distinct

  -- If the whitelist is consistent (each entry is indexed by its key, the index names nothing else,
  -- and each combo has the count of its entries), it is consistent after DeleteWhitelistBatch, also
  -- where the publication fails and all deleted entries come back, and where an id comes twice.
  pub delete_whitelist_batch-IsWhitelist :
      (ids : List String) (h : Handlers M C T)
      → IsWhitelist h
      → IsWhitelist (delete_whitelist_batch bpf ids h).0
  unfolding delete_whitelist_batch
  delete_whitelist_batch-IsWhitelist ids h st =
      let dropped = drop_entries bpf ids h in
      let items = dropped.1.0 in
      let p = publish_items bpf items dropped.0 in
      let view = publish_items-view items dropped.0 in
      let d = drop_entries-IsDropped ids h st in
      settle_batch-IsWhitelist items dropped.1.1 p (of_view p.0 _ view d.consistent)
        (subst (λ v. AllAbsent v items) (sym view) d.absent) d.distinct
