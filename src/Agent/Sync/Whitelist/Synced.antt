-- ===== src/Agent/Sync/Whitelist/Synced.antt =====
-- What DoWhitelistAtomicSync of node/agent/api/sync.go leaves behind where it succeeds.
use mathlib.Core.Option.{or_else}
use xdrop.Prelude.GoMap.{lookup, is_in}
use xdrop.Prelude.Text.{text_eq, string_eq}
use xdrop.Prelude.Bytes.{Bytes}
use xdrop.Ebpf.{MapLaws}
use xdrop.Agent.Types.{WhitelistEntry}
use xdrop.Agent.State.{Handlers, Bpf}
use xdrop.Agent.Clear.{clear_map, clear_map-empties}
use xdrop.Agent.Config.{active_whitelist, shadow_whitelist, set_shadow_whitelist, switch_active}
use xdrop.Agent.Whitelist.{wl_value}
use xdrop.Agent.Whitelist.Invariant.{wl_view, IsWhitelist, of_view}
use xdrop.Agent.Sync.Whitelist.{
  Prepared, Build, build_empty, write_items, synced, failed, publish_config_update_for_wl_sync,
  settle_whitelist, flip_whitelist, sync_prepared, do_whitelist_atomic_sync, prepare, Bool, List,
  false, fill_wl_shadow, [], length, sync_checked, Option, some, String,
}
use xdrop.Agent.Sync.Whitelist.Checked.{
  IsPrepared, prepare-IsPrepared, requested, requested_bytes, by_id,
}
use xdrop.Agent.Sync.Whitelist.Built.{
  build_view, build_empty-IsBuilt, write_items-IsConsistent, write_items-entries,
  write_items-shadow,
}
use xdrop.Prelude.{
  ◌≡◌, arith, ◌-◌, true, Bool-cases, inl, refl, inr, ap, ◌∙◌, none, if◌then◌else◌, or_else-none,
}
use xdrop.Agent.Sync.Whitelist.Atomic.{switch_active-kept}

module _ {M C T : Type 0} (bpf : Bpf M C T) where
  open bpf use {maps}

  settle_whitelist-synced :
      (before : Handlers M C T) (b : Build M) (p : Handlers M C T × Bool)
      → (settle_whitelist bpf before b p).1 ≡ synced
      → p.0.wl_combo_ref_count ≡ b.refs
      → (wl_view (settle_whitelist bpf before b p).0 ≡ build_view b)
        × (active_whitelist (settle_whitelist bpf before b p).0 ≡ active_whitelist p.0)
  unfolding settle_whitelist set_shadow_whitelist active_whitelist
  settle_whitelist-synced before b (h, true) ok same = ground (arith, same)
  settle_whitelist-synced before b (h, false) ok same = cc

  -- the active map of a state in which the slot went from `s` to the other one
  other_slot :
      (m : M) (h g : Handlers M C T)
      → g.whitelist ≡ (set_shadow_whitelist m h).whitelist
      → g.whitelist_b ≡ (set_shadow_whitelist m h).whitelist_b
      → g.active_wl_slot ≡ 1 - h.active_wl_slot
      → active_whitelist g ≡ m
  unfolding set_shadow_whitelist active_whitelist
  other_slot m h g same same_b slot = ground (arith, same, same_b, slot)

  same_slot :
      (m : M) (h : Handlers M C T) → (set_shadow_whitelist m h).active_wl_slot ≡ h.active_wl_slot
  unfolding set_shadow_whitelist
  same_slot m h = ground arith

  flip_whitelist-synced :
      (items : List Prepared) (built : Build M × Bool) (h : Handlers M C T)
      → (flip_whitelist bpf items built h).1 ≡ synced
      → (built.1 ≡ true)
        × (wl_view (flip_whitelist bpf items built h).0 ≡ build_view built.0)
        × (active_whitelist (flip_whitelist bpf items built h).0 ≡ built.0.shadow)
  unfolding flip_whitelist publish_config_update_for_wl_sync
  flip_whitelist-synced items (b, false) h ok = cc
  flip_whitelist-synced items (b, true) h ok =
      let built = set_shadow_whitelist b.shadow h in
      let flipped = record built {
        active_wl_slot = 1 - built.active_wl_slot;
        wl_combo_ref_count = b.refs;
      } in
      let filled = fill_wl_shadow bpf flipped (length items) b.refs in
      let p = switch_active bpf flipped filled in
      let same = switch_active-kept bpf flipped filled in
      let done = settle_whitelist-synced built b p ok (ap (λ k. k.2.2) same.0) in
      (
        refl,
        done.0,
        done.1
            ∙ other_slot b.shadow h p.0 (ap (λ k. k.0) same.0) (ap (λ k. k.1) same.0)
                (same.1 ∙ ap (λ n. 1 - n) (same_slot b.shadow h)),
      )

-- what a synchronisation to these entries leaves behind
pub record IsSynced {M C T : Type 0} (bpf : Bpf M C T) (es : List WhitelistEntry)
    (h : Handlers M C T) : Type 0 where
  pub consistent : IsWhitelist h
  pub remembered : (id : String) → lookup id h.wl_entries ≡ requested id es
  pub published :
      (x : Bytes)
      → bpf.maps.lookup (active_whitelist h) x
        ≡ (if is_in x (requested_bytes es) then some wl_value else none)

module _ {M C T : Type 0} (bpf : Bpf M C T) (laws : MapLaws bpf.maps) where
  open bpf use {maps}

  built-IsSynced :
      (es : List WhitelistEntry) (items : List Prepared) (m : M) (h : Handlers M C T)
      → IsPrepared es [] [] items
      → ((x : Bytes) → maps.lookup m x ≡ none)
      → (flip_whitelist bpf items (write_items bpf items (build_empty m)) h).1 ≡ synced
      → IsSynced bpf es (flip_whitelist bpf items (write_items bpf items (build_empty m)) h).0
  unfolding build_empty lookup or_else
  built-IsSynced es items m h p empty ok =
      let b = write_items bpf items (build_empty m) in
      let r = flip_whitelist-synced bpf items b h ok in
      record {
        consistent = of_view (flip_whitelist bpf items b h).0 _ r.1 (
            write_items-IsConsistent bpf [] [] items (build_empty m) p.fresh (build_empty-IsBuilt m)
              r.0);
        remembered = λ j.
            ap (λ v. lookup j v.0) r.1
            ∙ write_items-entries bpf [] [] items (build_empty m) j p.fresh r.0
            ∙ or_else-none (by_id j items)
            ∙ p.same_keys j;
        published = λ x.
            let here = write_items-shadow bpf laws items (build_empty m) x r.0 in
            ap (λ w. maps.lookup w x) r.2 ∙ rw (p.same_bytes, empty x) at here;
      }

  prepared-IsSynced :
      (es : List WhitelistEntry) (items : List Prepared) (h : Handlers M C T)
      → IsPrepared es [] [] items
      → (maps.iterate (shadow_whitelist h)).1 ≡ true
      → (sync_prepared bpf items h).1 ≡ synced
      → IsSynced bpf es (sync_prepared bpf items h).0
  unfolding sync_prepared
  prepared-IsSynced es items h p all ok =
      let cleared = clear_map maps (shadow_whitelist h) in
      elim (Bool-cases cleared.1) [
        | inl done ↦ rw done (
            built-IsSynced es items cleared.0 h p
              (λ x. clear_map-empties maps laws (shadow_whitelist h) x all done) (rw done at ok))
        | inr error ↦ (let never : failed ≡ synced = rw error at ok in cc)
      ]

  checked-IsSynced :
      (es : List WhitelistEntry) (items : Option (List Prepared)) (h : Handlers M C T)
      → prepare es [] [] ≡ items
      → (maps.iterate (shadow_whitelist h)).1 ≡ true
      → (sync_checked bpf items h).1 ≡ synced
      → IsSynced bpf es (sync_checked bpf items h).0
  unfolding sync_checked
  checked-IsSynced es none h same all ok = cc
  checked-IsSynced es (some items) h same all ok =
      prepared-IsSynced es items h (prepare-IsPrepared es [] [] items same) all ok

  -- With BPF maps that obey their documentation and a shadow map that is listed without an error, a
  -- DoWhitelistAtomicSync that succeeds leaves a consistent whitelist, whatever was there before: the
  -- agent remembers for each id the key of the requested entry and no other id, and the active map
  -- has an entry for the keys of the requested entries and for nothing else.
  pub synced-IsSynced :
      (es : List WhitelistEntry) (h : Handlers M C T)
      → (maps.iterate (shadow_whitelist h)).1 ≡ true
      → (do_whitelist_atomic_sync bpf es h).1 ≡ synced
      → IsSynced bpf es (do_whitelist_atomic_sync bpf es h).0
  unfolding do_whitelist_atomic_sync
  synced-IsSynced es h all ok = checked-IsSynced es (prepare es [] []) h refl all ok
