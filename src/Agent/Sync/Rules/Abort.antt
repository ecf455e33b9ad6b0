-- ===== src/Agent/Sync/Rules/Abort.antt =====
-- A full synchronisation of node/agent/api/sync.go that does not succeed.
use xdrop.Prelude.GoMap.{GoMap}
use xdrop.Prelude.Int.{ℤ}
use xdrop.Agent.Types.{RuleKey, CidrRuleKey, StoredRule, StoredCidrRule, Rule}
use xdrop.Agent.State.{Handlers, Bpf}
use xdrop.Agent.Clear.{clear_map}
use xdrop.Agent.Config.{
  active_blacklist, active_cidr_blacklist, active_map, shadow_blacklist, set_shadow_blacklist,
  set_shadow_cidr_blacklist, set_shadow, switch_active,
}
use xdrop.Agent.Sync.Rules.{
  Build, abort_sync, place_build, finish_sync, flip_rules, clear_shadows, build_all, do_atomic_sync,
  fill_sync_shadow, List, ℕ, Bool, String, false,
}
use xdrop.Prelude.{◌≡◌, arith, refl, ◌∙◌, Bool-cases, true, ◌==◌, inl, inr}

abbrev pub Store : Type 0 → Type 0 → Type 0
Store K S = GoMap String S × GoMap K String × (ℕ → ℤ)

-- the drop counts of the rules and their times, by which the agent finds its rates
abbrev Rates : Type 0
Rates = GoMap String ℕ × GoMap String ℕ

-- what the programs in the kernel read, and the agent's two rule stores and rates
abbrev pub View : Type 0 → Type 0 → Type 0
View M C =
    (M × M × C) × (ℕ × ℕ) × Store RuleKey StoredRule × Store CidrRuleKey StoredCidrRule × Rates

module _ {M C T : Type 0} where
  abbrev pub seen : Handlers M C T → View M C
  seen h = (
    (active_blacklist h, active_cidr_blacklist h, active_map h),
    (h.active_slot, h.active_rule_slot),
    (h.rules, h.rule_key_index, h.combo_ref_count),
    (h.cidr_rules, h.cidr_rule_key_index, h.cidr_combo_ref_count),
    (h.last_rule_drop_count, h.last_rule_stats_time),
  )

  set_shadow_blacklist-seen :
      (m : M) (h : Handlers M C T) → seen (set_shadow_blacklist m h) ≡ seen h
  unfolding set_shadow_blacklist active_blacklist active_cidr_blacklist active_map
  set_shadow_blacklist-seen m h = ground arith

  set_shadow_cidr_blacklist-seen :
      (m : M) (h : Handlers M C T) → seen (set_shadow_cidr_blacklist m h) ≡ seen h
  unfolding set_shadow_cidr_blacklist active_blacklist active_cidr_blacklist active_map
  set_shadow_cidr_blacklist-seen m h = ground arith

  pub place_build-seen : (b : Build M T) (h : Handlers M C T) → seen (place_build b h) ≡ seen h
  unfolding place_build active_blacklist active_cidr_blacklist active_map
  place_build-seen b h =
      set_shadow_cidr_blacklist-seen b.cidr_shadow _
      ∙ set_shadow_blacklist-seen b.shadow (record h { cidr_mgr = b.cidr_mgr })

module _ {M C T : Type 0} (bpf : Bpf M C T) where
  open bpf use {maps}

  pub clear_shadows-seen : (h : Handlers M C T) → seen (clear_shadows bpf h) ≡ seen h
  unfolding clear_shadows
  clear_shadows-seen h =
      set_shadow_cidr_blacklist-seen _ _
      ∙ set_shadow_blacklist-seen (clear_map maps (shadow_blacklist h)).0 h

  abort_sync-seen : (b : Build M T) (h : Handlers M C T) → seen (abort_sync bpf b h).0 ≡ seen h
  unfolding abort_sync active_blacklist active_cidr_blacklist active_map
  abort_sync-seen b h = refl

  switch_active-seen :
      (h : Handlers M C T) (filled : C × Bool)
      → (switch_active bpf h filled).1 ≡ false
      → seen (switch_active bpf h filled).0 ≡ seen h
  unfolding switch_active set_shadow active_blacklist active_cidr_blacklist active_map
  switch_active-seen h filled failed = ground arith

  finish_sync-seen :
      (b : Build M T) (p : Handlers M C T × Bool)
      → (finish_sync bpf b p).1.ok ≡ false
      → (p.1 ≡ false) × (seen (finish_sync bpf b p).0 ≡ seen p.0)
  unfolding finish_sync
  finish_sync-seen b (h, true) stop = cc
  finish_sync-seen b (h, false) stop = (refl, abort_sync-seen b h)

  flip_rules-seen :
      (b : Build M T) (h : Handlers M C T)
      → (flip_rules bpf b h).1.ok ≡ false
      → seen (flip_rules bpf b h).0 ≡ seen h
  unfolding flip_rules
  flip_rules-seen b h stop =
      let filled = fill_sync_shadow bpf h b in
      elim (Bool-cases (b.failed == 0)) [
        | inl all ↦
            let back = finish_sync-seen b (switch_active bpf h filled) (rw all at stop) in
            rw all (back.1 ∙ switch_active-seen h filled back.0)
        | inr some_failed ↦ rw some_failed (abort_sync-seen b h)
      ]

  -- Where DoAtomicSync does not succeed, because a rule is rejected, an entry cannot be written, or
  -- the configuration cannot be written or published, the active blacklists and the active config
  -- map are those of before, and so are both slots, both rule stores with their key indexes and combo
  -- counts, and the drop counts and times by which the agent finds the rates of its rules. This says
  -- nothing of the CIDR manager, which may have spent numbers.
  pub aborted-seen :
      (rs : List (String × Rule)) (h : Handlers M C T)
      → (do_atomic_sync bpf rs h).1.ok ≡ false
      → seen (do_atomic_sync bpf rs h).0 ≡ seen h
  unfolding do_atomic_sync
  aborted-seen rs h stop =
      let cleared = clear_shadows bpf h in
      let b = build_all bpf rs cleared in
      flip_rules-seen b (place_build b cleared) stop
      ∙ place_build-seen b cleared
      ∙ clear_shadows-seen h
