-- ===== src/Agent/Startup/Frame.antt =====
-- What the synchronisation of the rules leaves of the whitelist, and that of the whitelist of the rules.
use mathlib.Core.List.{List, [], ◌∷◌}
use Prim.Native.Nat.{ℕ, zero, suc}
use Prim.Native.String.{String}
use xdrop.Prelude.{
  Bool, true, false, none, some, length, ◌≡◌, refl, ◌∙◌, Bool-cases, inl, inr, arith, ◌-◌, ◌==◌,
}
use xdrop.Prelude.GoMap.{GoMap}
use xdrop.Prelude.Int.{ℤ, pos}
use xdrop.Agent.Types
use xdrop.Agent.Types.{RuleKey, CidrRuleKey, StoredRule, StoredCidrRule, WhitelistEntry}
use xdrop.Agent.Wire.{rule_key_to_bytes}
use xdrop.Agent.State.{Handlers, Bpf}
use xdrop.Agent.Config.{
  active_blacklist, active_cidr_blacklist, active_whitelist, set_active_whitelist, set_shadow,
  set_shadow_blacklist, set_shadow_cidr_blacklist, set_shadow_whitelist, switch_active,
  publish_config_update, shadow_blacklist, shadow_whitelist,
}
use xdrop.Agent.Clear.{clear_map}
use xdrop.Agent.Whitelist.{take_whitelist}
use xdrop.Agent.Whitelist.Invariant.{View, wl_view}
use xdrop.Agent.Whitelist.Clear.{clear_entries, publish_cleared, clear_all_whitelist_from_sync}
use xdrop.Agent.Sync.Rules.Install.{shown}
use xdrop.Agent.Sync.Rules.{
  Build, place_build, clear_shadows, abort_sync, install_build, finish_sync, flip_rules, build_all,
  do_atomic_sync, fill_sync_shadow,
}
use xdrop.Agent.Sync.Whitelist
use xdrop.Agent.Sync.Whitelist.{
  Outcome, Prepared, prepare, settle_whitelist, flip_whitelist, sync_prepared, sync_checked,
  do_whitelist_atomic_sync, publish_config_update_for_wl_sync, fill_wl_shadow,
}

module _ {M C T : Type 0} where
  -- the whitelist of the programs and of the agent
  abbrev pub wl_shown : Handlers M C T → M × M × ℕ × View
  wl_shown h = (h.whitelist, h.whitelist_b, h.active_wl_slot, wl_view h)

  set_shadow_blacklist-wl :
      (m : M) (h : Handlers M C T) → wl_shown (set_shadow_blacklist m h) ≡ wl_shown h
  unfolding set_shadow_blacklist
  set_shadow_blacklist-wl m h = ground arith

  set_shadow_cidr_blacklist-wl :
      (m : M) (h : Handlers M C T) → wl_shown (set_shadow_cidr_blacklist m h) ≡ wl_shown h
  unfolding set_shadow_cidr_blacklist
  set_shadow_cidr_blacklist-wl m h = ground arith

  place_build-wl : (b : Build M T) (h : Handlers M C T) → wl_shown (place_build b h) ≡ wl_shown h
  unfolding place_build
  place_build-wl b h =
      set_shadow_cidr_blacklist-wl b.cidr_shadow _
      ∙ set_shadow_blacklist-wl b.shadow (record h { cidr_mgr = b.cidr_mgr })

  set_shadow_whitelist-shown :
      (m : M) (h : Handlers M C T) → shown (set_shadow_whitelist m h) ≡ shown h
  unfolding set_shadow_whitelist active_blacklist active_cidr_blacklist
  set_shadow_whitelist-shown m h = ground arith

  set_active_whitelist-shown :
      (m : M) (h : Handlers M C T) → shown (set_active_whitelist m h) ≡ shown h
  unfolding set_active_whitelist active_blacklist active_cidr_blacklist
  set_active_whitelist-shown m h = ground arith

module _ {M C T : Type 0} (bpf : Bpf M C T) where
  open bpf use {maps}

  switch_active-wl :
      (h : Handlers M C T) (filled : C × Bool)
      → wl_shown (switch_active bpf h filled).0 ≡ wl_shown h
  unfolding switch_active set_shadow
  switch_active-wl h filled = ground arith

  clear_shadows-wl : (h : Handlers M C T) → wl_shown (clear_shadows bpf h) ≡ wl_shown h
  unfolding clear_shadows
  clear_shadows-wl h =
      set_shadow_cidr_blacklist-wl _ _
      ∙ set_shadow_blacklist-wl (clear_map maps (shadow_blacklist h)).0 h

  install_build-wl :
      (b : Build M T) (h : Handlers M C T) → wl_shown (install_build bpf b h) ≡ wl_shown h
  unfolding install_build
  install_build-wl b h = refl

  abort_sync-wl :
      (b : Build M T) (h : Handlers M C T) → wl_shown (abort_sync bpf b h).0 ≡ wl_shown h
  unfolding abort_sync
  abort_sync-wl b h = refl

  finish_sync-wl :
      (b : Build M T) (p : Handlers M C T × Bool) → wl_shown (finish_sync bpf b p).0 ≡ wl_shown p.0
  unfolding finish_sync
  finish_sync-wl b (h, true) = clear_shadows-wl (install_build bpf b h) ∙ install_build-wl b h
  finish_sync-wl b (h, false) = abort_sync-wl b h

  flip_rules-wl :
      (b : Build M T) (h : Handlers M C T) → wl_shown (flip_rules bpf b h).0 ≡ wl_shown h
  unfolding flip_rules
  flip_rules-wl b h =
      let filled = fill_sync_shadow bpf h b in
      elim (Bool-cases (b.failed == 0)) [
        | inl all ↦
            rw all (finish_sync-wl b (switch_active bpf h filled) ∙ switch_active-wl h filled)
        | inr some_failed ↦ rw some_failed (abort_sync-wl b h)
      ]

  pub do_atomic_sync-wl :
      (rs : List (String × Types.Rule)) (h : Handlers M C T)
      → wl_shown (do_atomic_sync bpf rs h).0 ≡ wl_shown h
  unfolding do_atomic_sync
  do_atomic_sync-wl rs h =
      let cleared = clear_shadows bpf h in
      let b = build_all bpf rs cleared in
      flip_rules-wl b (place_build b cleared) ∙ place_build-wl b cleared ∙ clear_shadows-wl h

  switch_active-shown :
      (h : Handlers M C T) (filled : C × Bool) → shown (switch_active bpf h filled).0 ≡ shown h
  unfolding switch_active set_shadow active_blacklist active_cidr_blacklist
  switch_active-shown h filled = ground arith

  publish-shown :
      (h : Handlers M C T) (d wl cidr : ℤ)
      → shown (publish_config_update bpf h d wl cidr).0 ≡ shown h
  unfolding publish_config_update
  publish-shown h d wl cidr = switch_active-shown h _

  settle_whitelist-shown :
      (before : Handlers M C T) (b : Whitelist.Build M) (p : Handlers M C T × Bool)
      → shown (settle_whitelist bpf before b p).0 ≡ shown p.0
  unfolding settle_whitelist active_blacklist active_cidr_blacklist
  settle_whitelist-shown before b (h, true) = set_shadow_whitelist-shown _ _
  settle_whitelist-shown before b (h, false) = refl

  flip_whitelist-shown :
      (items : List Prepared) (built : Whitelist.Build M × Bool) (h : Handlers M C T)
      → shown (flip_whitelist bpf items built h).0 ≡ shown h
  unfolding flip_whitelist publish_config_update_for_wl_sync active_blacklist active_cidr_blacklist
  flip_whitelist-shown items (b, false) h = set_shadow_whitelist-shown b.shadow h
  flip_whitelist-shown items (b, true) h =
      let built = set_shadow_whitelist b.shadow h in
      let flipped = record built {
        active_wl_slot = 1 - built.active_wl_slot;
        wl_combo_ref_count = b.refs;
      } in
      let filled = fill_wl_shadow bpf flipped (length items) b.refs in
      settle_whitelist-shown built b (switch_active bpf flipped filled)
      ∙ switch_active-shown flipped filled
      ∙ set_shadow_whitelist-shown b.shadow h

  sync_prepared-shown :
      (items : List Prepared) (h : Handlers M C T) → shown (sync_prepared bpf items h).0 ≡ shown h
  unfolding sync_prepared
  sync_prepared-shown items h =
      let cleared = clear_map maps (shadow_whitelist h) in
      elim (Bool-cases cleared.1) [
        | inl done ↦ rw done (flip_whitelist-shown items _ h)
        | inr error ↦ rw error (set_shadow_whitelist-shown cleared.0 h)
      ]

  pub do_whitelist_atomic_sync-shown :
      (es : List WhitelistEntry) (h : Handlers M C T)
      → shown (do_whitelist_atomic_sync bpf es h).0 ≡ shown h
  unfolding do_whitelist_atomic_sync sync_checked
  do_whitelist_atomic_sync-shown es h =
      elim (prepare es [] []) as (λ items. shown (sync_checked bpf items h).0 ≡ shown h) [
        | none ↦ refl
        | some items ↦ sync_prepared-shown items h
      ]

  take_whitelist-shown :
      (id : String) (key : RuleKey) (h : Handlers M C T) → shown (take_whitelist id key h) ≡ shown h
  unfolding take_whitelist active_blacklist active_cidr_blacklist
  take_whitelist-shown id key h = ground arith

  clear_entries-shown :
      (entries : GoMap String RuleKey) (n : ℕ) (h : Handlers M C T)
      → shown (clear_entries bpf entries n h).0.0 ≡ shown h
  unfolding clear_entries
  clear_entries-shown [] n h = refl
  clear_entries-shown ((id, key) ∷ entries) n h =
      let deleted = maps.delete (active_whitelist h) (rule_key_to_bytes key) in
      let h' = set_active_whitelist deleted.0 h in
      elim (Bool-cases deleted.1) [
        | inl done ↦ rw done (
            clear_entries-shown entries (suc n) (take_whitelist id key h')
            ∙ take_whitelist-shown id key h'
            ∙ set_active_whitelist-shown deleted.0 h)
        | inr failed ↦ rw failed (set_active_whitelist-shown deleted.0 h)
      ]

  publish_cleared-shown : (n : ℕ) (h : Handlers M C T) → shown (publish_cleared bpf n h).0 ≡ shown h
  unfolding publish_cleared
  publish_cleared-shown zero h = refl
  publish_cleared-shown (suc n) h = publish-shown h (pos 0) _ (pos 0)

  pub clear_all-shown :
      (h : Handlers M C T) → shown (clear_all_whitelist_from_sync bpf h).0 ≡ shown h
  unfolding clear_all_whitelist_from_sync active_blacklist active_cidr_blacklist
  clear_all-shown h =
      let cleared = clear_entries bpf h.wl_entries 0 h in
      let loop = clear_entries-shown h.wl_entries 0 h in
      elim (Bool-cases cleared.1) [
        | inl done ↦ rw done (publish_cleared-shown cleared.0.1 _ ∙ loop)
        | inr failed ↦ rw failed (publish_cleared-shown cleared.0.1 cleared.0.0 ∙ loop)
      ]
