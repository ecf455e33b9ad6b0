-- ===== src/Agent/Sync/Whitelist/Atomic.antt =====
-- What DoWhitelistAtomicSync of node/agent/api/sync.go leaves behind where it fails.
use xdrop.Prelude.Text.{text_eq, string_eq}
use xdrop.Agent.Types.{WhitelistEntry}
use xdrop.Agent.State.{Handlers, Bpf}
use xdrop.Agent.Clear.{clear_map}
use xdrop.Agent.Config.{
  active_whitelist, shadow_whitelist, set_shadow_whitelist, set_shadow, switch_active, active_map,
}
use xdrop.Agent.Whitelist.Invariant.{View, wl_view}
use xdrop.Agent.Sync.Whitelist.{
  Prepared, Build, synced, publish_config_update_for_wl_sync, settle_whitelist, flip_whitelist,
  sync_prepared, do_whitelist_atomic_sync, prepare, ℕ, Bool, List, false, fill_wl_shadow, [],
  length, sync_checked, Option, some,
}
use xdrop.Prelude.{◌≡◌, arith, ◌≢◌, ◌-◌, true, Bool-cases, inl, refl, inr, ap, ◌∙◌, none}

-- what the programs in the kernel read, and what the agent remembers of the whitelist
module _ {M C T : Type 0} where
  abbrev pub seen : Handlers M C T → M × C × ℕ × View
  seen h = (active_whitelist h, active_map h, h.active_slot, wl_view h)

  set_shadow_whitelist-seen :
      (m : M) (h : Handlers M C T) → seen (set_shadow_whitelist m h) ≡ seen h
  unfolding set_shadow_whitelist active_whitelist active_map
  set_shadow_whitelist-seen m h = ground arith

  set_shadow-seen : (c : C) (h : Handlers M C T) → seen (set_shadow c h) ≡ seen h
  unfolding set_shadow active_whitelist active_map
  set_shadow-seen c h = ground arith

  abbrev pub kept : Handlers M C T → M × M × View
  kept h = (h.whitelist, h.whitelist_b, wl_view h)

  set_shadow-kept : (c : C) (h : Handlers M C T) → kept (set_shadow c h) ≡ kept h
  unfolding set_shadow
  set_shadow-kept c h = ground arith

module _ {M C T : Type 0} (bpf : Bpf M C T) where
  open bpf use {maps, configs}

  pub switch_active-kept :
      (h : Handlers M C T) (filled : C × Bool)
      → (kept (switch_active bpf h filled).0 ≡ kept h)
        × ((switch_active bpf h filled).0.active_wl_slot ≡ h.active_wl_slot)
  unfolding switch_active set_shadow
  switch_active-kept h filled = ground arith

  switch_active-failed :
      (h : Handlers M C T) (filled : C × Bool)
      → (switch_active bpf h filled).1 ≡ false
      → ((switch_active bpf h filled).0.active_slot ≡ h.active_slot)
        × (active_map (switch_active bpf h filled).0 ≡ active_map h)
  unfolding switch_active set_shadow active_map
  switch_active-failed h filled stop = ground arith

  -- the way back: what a failed publication leaves behind, and the fields put back
  settle_whitelist-seen :
      (before : Handlers M C T) (b : Build M) (p : Handlers M C T × Bool)
      → (settle_whitelist bpf before b p).1 ≢ synced
      → (p.0.whitelist ≡ before.whitelist)
        × (p.0.whitelist_b ≡ before.whitelist_b)
        × (p.0.wl_entries ≡ before.wl_entries)
        × (p.0.wl_key_index ≡ before.wl_key_index)
      → (p.1 ≡ false
          → (p.0.active_slot ≡ before.active_slot) × (active_map p.0 ≡ active_map before))
      → seen (settle_whitelist bpf before b p).0 ≡ seen before
  unfolding settle_whitelist active_whitelist active_map
  settle_whitelist-seen before b (h, true) stop same slot = absurd (stop refl)
  settle_whitelist-seen before b (h, false) stop same slot = ground (arith, same, slot refl)

  flip_whitelist-seen :
      (items : List Prepared) (built : Build M × Bool) (h : Handlers M C T)
      → (flip_whitelist bpf items built h).1 ≢ synced
      → seen (flip_whitelist bpf items built h).0 ≡ seen h
  unfolding flip_whitelist publish_config_update_for_wl_sync set_shadow_whitelist active_map
  flip_whitelist-seen items (b, false) h stop = set_shadow_whitelist-seen b.shadow h
  flip_whitelist-seen items (b, true) h stop =
      let built = set_shadow_whitelist b.shadow h in
      let flipped = record built {
        active_wl_slot = 1 - built.active_wl_slot;
        wl_combo_ref_count = b.refs;
      } in
      let filled = fill_wl_shadow bpf flipped (length items) b.refs in
      let same = (switch_active-kept flipped filled).0 in
      settle_whitelist-seen built b (switch_active bpf flipped filled) stop
        (ap (λ k. k.0) same, ap (λ k. k.1) same, ap (λ k. k.2.0) same, ap (λ k. k.2.1) same)
        (λ failed. switch_active-failed flipped filled failed)
      ∙ set_shadow_whitelist-seen b.shadow h

  sync_prepared-seen :
      (items : List Prepared) (h : Handlers M C T)
      → (sync_prepared bpf items h).1 ≢ synced
      → seen (sync_prepared bpf items h).0 ≡ seen h
  unfolding sync_prepared
  sync_prepared-seen items h stop =
      let cleared = clear_map maps (shadow_whitelist h) in
      elim (Bool-cases cleared.1) [
        | inl done ↦ rw done (flip_whitelist-seen items _ h (rw done at stop))
        | inr error ↦ rw error (set_shadow_whitelist-seen cleared.0 h)
      ]

  sync_checked-seen :
      (items : Option (List Prepared)) (h : Handlers M C T)
      → (sync_checked bpf items h).1 ≢ synced
      → seen (sync_checked bpf items h).0 ≡ seen h
  unfolding sync_checked
  sync_checked-seen none h stop = refl
  sync_checked-seen (some items) h stop = sync_prepared-seen items h stop

  -- Where DoWhitelistAtomicSync does not succeed, be it refused, stopped by an error of the shadow
  -- map or stopped by an error of the publication, the active whitelist and the active config map
  -- are those of before, and so are the selector's slot and the agent's entries, index and counts.
  pub sync_failed-seen :
      (es : List WhitelistEntry) (h : Handlers M C T)
      → (do_whitelist_atomic_sync bpf es h).1 ≢ synced
      → seen (do_whitelist_atomic_sync bpf es h).0 ≡ seen h
  unfolding do_whitelist_atomic_sync
  sync_failed-seen es h stop = sync_checked-seen (prepare es [] []) h stop
