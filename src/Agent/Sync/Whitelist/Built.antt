-- ===== src/Agent/Sync/Whitelist/Built.antt =====
-- The shadow map that DoWhitelistAtomicSync of node/agent/api/sync.go fills, and what it remembers.
use mathlib.Core.Option.{or_else, none, some}
use xdrop.Prelude.GoMap.{lookup, is_in, lookup-insert}
use xdrop.Prelude.Text.{string_eq, text_eq}
use xdrop.Prelude.Bytes.{Bytes}
use xdrop.Ebpf.{MapLaws, update_no_exist}
use xdrop.Agent.Types.{RuleKey, rule_key_eq}
use xdrop.Agent.State.{Bpf}
use xdrop.Agent.Store.Invariant.{put_new}
use xdrop.Agent.Whitelist.{wl_value}
use xdrop.Agent.Whitelist.Invariant.{IsConsistent, View}
use xdrop.Agent.Sync.Whitelist.{
  Prepared, Build, build_empty, remember, write_items, [], List, Bool, rule_key_to_bytes, ◌∷◌,
  String, false, true,
}
use xdrop.Agent.Sync.Whitelist.Checked.{IsFresh, by_id, item_bytes, fresh-by_id}
use xdrop.Prelude.{◌≡◌, arith, ap, refl, sym, ◌∙◌, if◌then◌else◌, Bool-cases, inl, inr}

abbrev pub build_view : {M : Type 0} → Build M → View
build_view b = (b.entries, b.key_index, b.refs)

-- consistent, and without the ids and the keys that are still to come
pub record IsBuilt {M : Type 0} (ids : List String) (keys : List RuleKey) (b : Build M)
    : Type 0 where
  pub consistent : IsConsistent (build_view b)
  pub fresh_id : (j : String) → is_in j ids ≡ false → lookup j b.entries ≡ none
  pub fresh_key : (k : RuleKey) → is_in k keys ≡ false → lookup k b.key_index ≡ none

pub build_empty-IsBuilt : {M : Type 0} (m : M) → IsBuilt [] [] (build_empty m)
unfolding build_empty lookup
build_empty-IsBuilt m = record {
  consistent = record {
    unique = tt;
    indexed = λ id s h. cc;
    named = λ k id h. cc;
    counted = λ c small. refl;
  };
  fresh_id = λ j h. refl;
  fresh_key = λ k h. refl;
}

module _ {M : Type 0} where
  remember-IsBuilt :
      (ids : List String) (keys : List RuleKey) (item : Prepared) (b : Build M)
      → is_in item.id ids ≡ false
      → is_in item.key keys ≡ false
      → IsBuilt ids keys b
      → IsBuilt (item.id ∷ ids) (item.key ∷ keys) (remember item b)
  unfolding remember is_in
  remember-IsBuilt ids keys item b new_id new_key st = record {
    consistent =
        put_new _ _ b.entries b.key_index b.refs st.consistent item.id item.key
          (st.fresh_id item.id new_id) (st.fresh_key item.key new_key);
    fresh_id = λ j h. ground (arith, lookup-insert item.id j item.key b.entries, st.fresh_id j);
    fresh_key = λ k h. ground (arith, lookup-insert item.key k item.id b.key_index, st.fresh_key k);
  }

  -- the shadow map is apart from what is remembered
  with_shadow-IsBuilt :
      (ids : List String) (keys : List RuleKey) (b : Build M) (m : M)
      → IsBuilt ids keys b
      → IsBuilt ids keys (record b { shadow = m })
  with_shadow-IsBuilt ids keys b m st = record {
    consistent = st.consistent;
    fresh_id = st.fresh_id;
    fresh_key = st.fresh_key;
  }

  remember-entries :
      (item : Prepared) (b : Build M) (items : List Prepared) (j : String)
      → (string_eq.beq item.id j ≡ true → by_id j items ≡ none)
      → or_else (by_id j items) (lookup j (remember item b).entries)
        ≡ or_else (by_id j (item ∷ items)) (lookup j b.entries)
  unfolding remember by_id or_else
  remember-entries item b items j last = elim (Bool-cases (string_eq.beq item.id j)) [
    | inl same ↦ ground (arith, last same, lookup-insert item.id j item.key b.entries)
    | inr other ↦ ground (arith, lookup-insert item.id j item.key b.entries)
  ]

module _ {M C T : Type 0} (bpf : Bpf M C T) where
  open bpf use {maps}

  abbrev inserted : Prepared → Build M → M × Bool
  inserted item b = maps.update b.shadow update_no_exist (rule_key_to_bytes item.key) wl_value

  abbrev stepped : Prepared → Build M → Build M
  stepped item b = remember item (record b { shadow = (inserted item b).0 })

  write_items-cons :
      (item : Prepared) (items : List Prepared) (b : Build M)
      → (write_items bpf (item ∷ items) b).1 ≡ true
      → ((inserted item b).1 ≡ true)
        × (write_items bpf (item ∷ items) b ≡ write_items bpf items (stepped item b))
  unfolding write_items
  write_items-cons item items b ok = ground arith

  pub write_items-IsConsistent :
      (ids : List String) (keys : List RuleKey) (items : List Prepared) (b : Build M)
      → IsFresh ids keys items
      → IsBuilt ids keys b
      → (write_items bpf items b).1 ≡ true
      → IsConsistent (build_view (write_items bpf items b).0)
  unfolding write_items
  write_items-IsConsistent ids keys [] b f st ok = st.consistent
  write_items-IsConsistent ids keys (item ∷ items) b f st ok =
      let step = write_items-cons item items b ok in
      let b' = record b { shadow = (inserted item b).0 } in
      let st' = remember-IsBuilt ids keys item b' f.0 f.1 (with_shadow-IsBuilt ids keys b _ st) in
      rw step.1 (
        write_items-IsConsistent (item.id ∷ ids) (item.key ∷ keys) items (stepped item b) f.2 st'
          (ap (λ w. w.1) (sym step.1) ∙ ok))

  pub write_items-entries :
      (ids : List String) (keys : List RuleKey) (items : List Prepared) (b : Build M) (j : String)
      → IsFresh ids keys items
      → (write_items bpf items b).1 ≡ true
      → lookup j (write_items bpf items b).0.entries ≡ or_else (by_id j items) (lookup j b.entries)
  unfolding write_items by_id or_else is_in
  write_items-entries ids keys [] b j f ok = refl
  write_items-entries ids keys (item ∷ items) b j f ok =
      let step = write_items-cons item items b ok in
      let b' = record b { shadow = (inserted item b).0 } in
      let rest =
        write_items-entries (item.id ∷ ids) (item.key ∷ keys) items (stepped item b) j f.2
          (ap (λ w. w.1) (sym step.1) ∙ ok) in
      let last : string_eq.beq item.id j ≡ true → by_id j items ≡ none =
        λ same. fresh-by_id (item.id ∷ ids) (item.key ∷ keys) items j f.2 (ground (arith, same)) in
      ap (λ w. lookup j w.0.entries) step.1 ∙ rest ∙ remember-entries item b' items j last

  pub write_items-shadow :
      (laws : MapLaws maps) (items : List Prepared) (b : Build M) (x : Bytes)
      → (write_items bpf items b).1 ≡ true
      → maps.lookup (write_items bpf items b).0.shadow x
        ≡ (if is_in x (item_bytes items) then some wl_value else maps.lookup b.shadow x)
  unfolding write_items item_bytes is_in remember
  write_items-shadow laws [] b x ok = refl
  write_items-shadow laws (item ∷ items) b x ok =
      let step = write_items-cons item items b ok in
      let rest =
        write_items-shadow laws items (stepped item b) x (ap (λ w. w.1) (sym step.1) ∙ ok) in
      let here =
        laws.update_done b.shadow update_no_exist (rule_key_to_bytes item.key) wl_value x step.0 in
      ap (λ w. maps.lookup w.0.shadow x) step.1 ∙ rest ∙ ground (arith, here)
