-- ===== src/Agent/Sync/Rules/Configured.antt =====
-- The configuration that a full synchronisation of node/agent/api/sync.go publishes.
use xdrop.Prelude.{nat_eq, ◌≤◌, ◌-◌, ◌==◌, Option, some}
use xdrop.Ebpf.{MapLaws}
use xdrop.Agent.Types
use xdrop.Agent.Types.{Rule}
use xdrop.Agent.State.{Handlers, Bpf}
use xdrop.Agent.Config.{
  combo_bitmap, count_anomaly_rules_in, active_map, shadow_map, switch_active, set_shadow_blacklist,
  set_shadow_cidr_blacklist,
}
use xdrop.Agent.Config.Publish.{Reads, overwrite, then_set, switched}
use xdrop.Agent.Sync.Rules.{
  Build, AtomicSyncResult, abort_sync, aborted, install_build, place_build, finish_sync, flip_rules,
  clear_shadows, build_all, do_atomic_sync, fill_sync_shadow, copy_config, ◌-◌, ℕ, Bool, some,
  Option, true, List, String,
}
use xdrop.Agent.Sync.Rules.Abort.{clear_shadows-seen, place_build-seen}
use xdrop.Agent.Sync.Rules.Install.{
  switch_active-maps, shown, to_show, flip_rules-shown, Reports, flip_rules-Reports,
}
use xdrop.Prelude.{◌≡◌, ap, ◌∙◌, false, sym, refl, arith}

-- the six entries that a synchronisation writes, and the selector of the config map, as they are to
-- be with what the agent remembers and answers
pub record IsConfigured {M C T : Type 0} (bpf : Bpf M C T) (a : AtomicSyncResult)
    (h : Handlers M C T) : Type 0 where
  pub rule_bitmap :
      bpf.configs.lookup (active_map h) Types.config_rule_bitmap
      ≡ some (combo_bitmap h.combo_ref_count)
  pub blacklist_count :
      bpf.configs.lookup (active_map h) Types.config_blacklist_count ≡ some a.exact_rules
  pub cidr_bitmap :
      bpf.configs.lookup (active_map h) Types.config_cidr_bitmap
      ≡ some (combo_bitmap h.cidr_combo_ref_count)
  pub cidr_rule_count :
      bpf.configs.lookup (active_map h) Types.config_cidr_rule_count ≡ some a.cidr_rules
  pub rule_map_selector :
      bpf.configs.lookup (active_map h) Types.config_rule_map_selector ≡ some h.active_rule_slot
  pub anomaly_rule_count :
      bpf.configs.lookup (active_map h) Types.config_anomaly_rule_count
      ≡ some (count_anomaly_rules_in h.rules h.cidr_rules)
  pub selected : bpf.configs.lookup h.active_config 0 ≡ some h.active_slot

module _ {M C T : Type 0} (bpf : Bpf M C T) (laws : MapLaws bpf.configs) where
  open bpf use {configs}

  -- the writes of steps 3a and 3b, in the order of the code
  layers : Handlers M C T → Build M T → ℕ → Option ℕ
  layers h b = overwrite 10 (count_anomaly_rules_in b.rules b.cidr_rules) (
      overwrite 9 (1 - h.active_rule_slot) (
        overwrite 6 b.cidr_count (
          overwrite 7 (combo_bitmap b.cidr_combo) (
            overwrite 0 b.rule_count (
              overwrite 2 (combo_bitmap b.combo)
                (configs.lookup (copy_config bpf (active_map h) 12 (shadow_map h))))))))

  filled-Reads :
      (h : Handlers M C T) (b : Build M T) → Reads configs (fill_sync_shadow bpf h b) (layers h b)
  unfolding fill_sync_shadow layers
  filled-Reads h b = then_set configs laws _ _ 10 (count_anomaly_rules_in b.rules b.cidr_rules) (
      then_set configs laws _ _ 9 (1 - h.active_rule_slot) (
        then_set configs laws _ _ 6 b.cidr_count (
          then_set configs laws _ _ 7 (combo_bitmap b.cidr_combo) (
            then_set configs laws _ _ 0 b.rule_count (
              then_set configs laws (copy_config bpf (active_map h) 12 (shadow_map h), true) _ 2
                (combo_bitmap b.combo) (λ ok j. refl))))))

  clear_shadows-config :
      (h : Handlers M C T) → (clear_shadows bpf h).active_config ≡ h.active_config
  unfolding clear_shadows set_shadow_blacklist set_shadow_cidr_blacklist
  clear_shadows-config h = ground arith

  install_build-selected :
      (b : Build M T) (h : Handlers M C T)
      → (active_map (install_build bpf b h) ≡ active_map h)
        × ((install_build bpf b h).active_slot ≡ h.active_slot)
        × ((install_build bpf b h).active_rule_slot ≡ 1 - h.active_rule_slot)
        × ((install_build bpf b h).active_config ≡ h.active_config)
  unfolding install_build active_map
  install_build-selected b h = (refl, refl, refl, refl)

  finish_sync-selected :
      (b : Build M T) (p : Handlers M C T × Bool)
      → (finish_sync bpf b p).1.ok ≡ true
      → (p.1 ≡ true)
        × (active_map (finish_sync bpf b p).0 ≡ active_map p.0)
        × ((finish_sync bpf b p).0.active_slot ≡ p.0.active_slot)
        × ((finish_sync bpf b p).0.active_rule_slot ≡ 1 - p.0.active_rule_slot)
        × ((finish_sync bpf b p).0.active_config ≡ p.0.active_config)
  unfolding finish_sync abort_sync aborted
  finish_sync-selected b (h, false) done = cc
  finish_sync-selected b (h, true) done =
      let same = clear_shadows-seen bpf (install_build bpf b h) in
      let parts = install_build-selected b h in
      (
        refl,
        ap (λ v. v.0.2) same ∙ parts.0,
        ap (λ v. v.1.0) same ∙ parts.1,
        ap (λ v. v.1.1) same ∙ parts.2,
        clear_shadows-config (install_build bpf b h) ∙ parts.3,
      )

  -- each entry as it was written
  layers_lem :
      (h : Handlers M C T) (b : Build M T)
      → (layers h b 2 ≡ some (combo_bitmap b.combo))
        × (layers h b 0 ≡ some b.rule_count)
        × (layers h b 7 ≡ some (combo_bitmap b.cidr_combo))
        × (layers h b 6 ≡ some b.cidr_count)
        × (layers h b 9 ≡ some (1 - h.active_rule_slot))
        × (layers h b 10 ≡ some (count_anomaly_rules_in b.rules b.cidr_rules))
  unfolding layers overwrite
  layers_lem h b = (refl, refl, refl, refl, refl, refl)

  finish_sync-IsConfigured :
      (b : Build M T) (g : Handlers M C T)
      → g.active_slot ≤ 1
      → (a : AtomicSyncResult) → Reports bpf b a
      → (h : Handlers M C T)
      → h ≡ (finish_sync bpf b (switch_active bpf g (fill_sync_shadow bpf g b))).0
      → shown h ≡ to_show b
      → a.ok ≡ true
      → (finish_sync bpf b (switch_active bpf g (fill_sync_shadow bpf g b))).1.ok ≡ true
      → IsConfigured bpf a h
  finish_sync-IsConfigured b g slot a reports h same shows ok done =
      let filled = fill_sync_shadow bpf g b in
      let p = switch_active bpf g filled in
      let sel = finish_sync-selected b p done in
      let sw = switched bpf laws g filled slot sel.0 in
      let read : (j : ℕ) → configs.lookup (active_map h) j ≡ layers g b j = (λ j.
        ap (λ x. configs.lookup (active_map x) j) same
        ∙ ap (λ m. configs.lookup m j) (sel.1 ∙ sw.2)
        ∙ filled-Reads g b sw.0 j) in
      let value = layers_lem g b in
      let counted = reports.2 ok in
      let slot' : h.active_rule_slot ≡ 1 - g.active_rule_slot =
        (ap (λ x. x.active_rule_slot) same
          ∙ sel.3
          ∙ ap (λ n. 1 - n) (switch_active-maps bpf g filled).4) in
      record {
        rule_bitmap = read 2 ∙ value.0 ∙ ap (λ v. some (combo_bitmap v.1.2)) (sym shows);
        blacklist_count = read 0 ∙ value.1 ∙ ap some (sym counted.0);
        cidr_bitmap = read 7 ∙ value.2 ∙ ap (λ v. some (combo_bitmap v.2.2)) (sym shows);
        cidr_rule_count = read 6 ∙ value.3 ∙ ap some (sym counted.1);
        rule_map_selector = read 9 ∙ value.4 ∙ ap some (sym slot');
        anomaly_rule_count =
            read 10 ∙ value.5 ∙ ap (λ v. some (count_anomaly_rules_in v.1.0 v.2.0)) (sym shows);
        selected =
            ap (λ x. configs.lookup x.active_config 0) same
            ∙ ap (λ c. configs.lookup c 0) sel.4
            ∙ sw.4
            ∙ ap some (sym (ap (λ x. x.active_slot) same ∙ sel.2));
      }

  flip_rules-finished :
      (b : Build M T) (g : Handlers M C T)
      → (b.failed == 0) ≡ true
      → flip_rules bpf b g ≡ finish_sync bpf b (switch_active bpf g (fill_sync_shadow bpf g b))
  unfolding flip_rules
  flip_rules-finished b g all = rw all refl

  flip_rules-IsConfigured :
      (b : Build M T) (h : Handlers M C T)
      → (place_build b h).active_slot ≤ 1
      → (flip_rules bpf b (place_build b h)).1.ok ≡ true
      → IsConfigured bpf
          (flip_rules bpf b (place_build b h)).1
          (flip_rules bpf b (place_build b h)).0
  flip_rules-IsConfigured b h slot done =
      let g = place_build b h in
      let shows = flip_rules-shown bpf b h done in
      let same = flip_rules-finished b g shows.0 in
      finish_sync-IsConfigured b g slot (flip_rules bpf b g).1 (flip_rules-Reports bpf b g)
        (flip_rules bpf b g).0 (ap (λ p. p.0) same) shows.1 done
        (ap (λ p. p.1.ok) (sym same) ∙ done)

  -- With BPF maps that obey their documentation and a selector of 0 or 1, a DoAtomicSync that
  -- succeeds leaves an active config map with the bitmaps of the combos that the agent remembers, the
  -- counts of its answer, the slot of the active blacklists and the number of the anomaly rules, and
  -- the selector names this map.
  pub do_atomic_sync-IsConfigured :
      (rs : List (String × Rule)) (h : Handlers M C T)
      → h.active_slot ≤ 1
      → (do_atomic_sync bpf rs h).1.ok ≡ true
      → IsConfigured bpf (do_atomic_sync bpf rs h).1 (do_atomic_sync bpf rs h).0
  unfolding do_atomic_sync
  do_atomic_sync-IsConfigured rs h slot done =
      let cleared = clear_shadows bpf h in
      let b = build_all bpf rs cleared in
      let same : (place_build b cleared).active_slot ≡ h.active_slot =
        ap (λ v. v.1.0) (place_build-seen b cleared ∙ clear_shadows-seen bpf h) in
      flip_rules-IsConfigured b cleared (omega (arith, same, slot)) done
