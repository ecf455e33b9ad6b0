-- ===== src/Agent/Sync/Rules/Install.antt =====
-- A full synchronisation of node/agent/api/sync.go that succeeds.
use xdrop.Prelude.GoMap.{lookup}
use xdrop.Prelude.Text.{string_eq, text_eq}
use xdrop.Ebpf.{MapLaws}
use xdrop.Agent.Types.{rule_key_eq, cidr_rule_key_eq, StoredRule, StoredCidrRule, Rule}
use xdrop.Agent.State.{Handlers, Bpf}
use xdrop.Agent.Config.{
  active_blacklist, active_cidr_blacklist, shadow_blacklist, shadow_cidr_blacklist,
  set_shadow_blacklist, set_shadow_cidr_blacklist, set_shadow, switch_active,
}
use xdrop.Agent.Store.Invariant.{IsStore}
use xdrop.Agent.Combo.{get_combo_type, get_cidr_combo_type}
use xdrop.Agent.Rules.Frame.{IsRules}
use xdrop.Agent.Sync.Rules.{
  Build, build_empty, AtomicSyncResult, abort_sync, install_build, place_build, aborted,
  finish_sync, flip_rules, clear_shadows, build_all, do_atomic_sync, fill_sync_shadow, RuleKey,
  List, Bool, true, String, CidrRuleKey, [],
}
use xdrop.Agent.Sync.Rules.Wanted.{
  wanted, build_rules-rules, tally, counts, build_rules-tally, build_rules-counts,
}
use xdrop.Agent.Sync.Rules.WantedCidr.{without_ids, wanted_cidr, known, build_rules-cidr_rules}
use mathlib.Core.Option
use xdrop.Agent.Sync.Rules.Abort.{seen, clear_shadows-seen, Store}
use xdrop.Agent.Sync.Rules.Entries.{AllWritten}
use xdrop.Agent.Sync.Rules.Built.{
  IsBuilt, IsDistinct, ids_after, build_empty-IsBuilt, build_rules-IsBuilt, exact_key, exact_bytes,
  cidr_key, cidr_bytes,
}
use xdrop.Prelude.{
  ◌≡◌, arith, ap, ◌==◌, Bool-cases, false, inl, ◌∙◌, inr, subst, sym, ◌+◌, length, refl,
  or_else-none,
}

module _ {M C T : Type 0} where
  -- the maps that the slot names, and the stores
  abbrev pub shown :
      Handlers M C T → (M × M) × Store RuleKey StoredRule × Store CidrRuleKey StoredCidrRule
  shown h = (((seen h).0.0, (seen h).0.1), (seen h).2, (seen h).3)

module _ {M T : Type 0} where
  abbrev pub to_show :
      Build M T → (M × M) × Store RuleKey StoredRule × Store CidrRuleKey StoredCidrRule
  to_show b = (
    (b.shadow, b.cidr_shadow),
    (b.rules, b.rule_key_index, b.combo),
    (b.cidr_rules, b.cidr_rule_key_index, b.cidr_combo),
  )

module _ {M C T : Type 0} (bpf : Bpf M C T) where
  pub switch_active-maps :
      (h : Handlers M C T) (filled : C × Bool)
      → ((switch_active bpf h filled).0.blacklist ≡ h.blacklist)
        × ((switch_active bpf h filled).0.blacklist_b ≡ h.blacklist_b)
        × ((switch_active bpf h filled).0.cidr_blacklist ≡ h.cidr_blacklist)
        × ((switch_active bpf h filled).0.cidr_blacklist_b ≡ h.cidr_blacklist_b)
        × ((switch_active bpf h filled).0.active_rule_slot ≡ h.active_rule_slot)
  unfolding switch_active set_shadow
  switch_active-maps h filled = ground arith

  -- the slot names the maps that the loop filled
  install_build-shown :
      (b : Build M T) (h g : Handlers M C T)
      → (g.blacklist ≡ (place_build b h).blacklist)
        × (g.blacklist_b ≡ (place_build b h).blacklist_b)
        × (g.cidr_blacklist ≡ (place_build b h).cidr_blacklist)
        × (g.cidr_blacklist_b ≡ (place_build b h).cidr_blacklist_b)
        × (g.active_rule_slot ≡ (place_build b h).active_rule_slot)
      → shown (install_build bpf b g) ≡ to_show b
  unfolding install_build place_build set_shadow_blacklist set_shadow_cidr_blacklist
      active_blacklist active_cidr_blacklist
  install_build-shown b h g same = ground (arith, same)

  finish_sync-shown :
      (b : Build M T) (p : Handlers M C T × Bool)
      → (finish_sync bpf b p).1.ok ≡ true
      → shown (finish_sync bpf b p).0 ≡ shown (install_build bpf b p.0)
  unfolding finish_sync abort_sync aborted
  finish_sync-shown b (h, true) done =
      ap (λ v. ((v.0.0, v.0.1), v.2, v.3)) (clear_shadows-seen bpf (install_build bpf b h))
  finish_sync-shown b (h, false) done = cc

  pub flip_rules-shown :
      (b : Build M T) (h : Handlers M C T)
      → (flip_rules bpf b (place_build b h)).1.ok ≡ true
      → ((b.failed == 0) ≡ true) × (shown (flip_rules bpf b (place_build b h)).0 ≡ to_show b)
  unfolding flip_rules abort_sync aborted
  flip_rules-shown b h done =
      let g = place_build b h in
      let filled = fill_sync_shadow bpf g b in
      elim (Bool-cases (b.failed == 0)) [
        | inl all ↦ (
          all,
          rw all (
              finish_sync-shown b (switch_active bpf g filled) (rw all at done)
              ∙ install_build-shown b h (switch_active bpf g filled).0
                  (switch_active-maps g filled)),
        )
        | inr some_failed ↦ (let never : false ≡ true = rw some_failed at done in cc)
      ]

-- what a synchronisation that succeeds leaves behind: consistent stores, the requested rules, and in
-- the active maps for each rule an entry with the value that is derived from what is stored
pub record IsInstalled {M C T : Type 0} (bpf : Bpf M C T) (rs : List (String × Rule))
    (h : Handlers M C T) : Type 0 where
  pub remembered : (id : String) → lookup id h.rules ≡ wanted id rs
  pub remembered_cidr :
      (id : String) → Option.map without_ids (lookup id h.cidr_rules) ≡ wanted_cidr id rs
  pub consistent : IsRules h
  pub written : AllWritten bpf.maps exact_key exact_bytes (active_blacklist h) h.rules
  pub written_cidr : AllWritten bpf.maps cidr_key cidr_bytes (active_cidr_blacklist h) h.cidr_rules

module _ {M C T : Type 0} (bpf : Bpf M C T) (laws : MapLaws bpf.maps) where
  shown-IsInstalled :
      (ids : List String) (rs : List (String × Rule)) (b : Build M T) (h : Handlers M C T)
      → shown h ≡ to_show b
      → ((id : String) → lookup id b.rules ≡ wanted id rs)
      → ((id : String) → known id b ≡ wanted_cidr id rs)
      → IsBuilt bpf ids b
      → IsInstalled bpf rs h
  shown-IsInstalled ids rs b h same all all_cidr st = record {
    consistent = record {
      exact =
          subst (λ s. IsStore (λ (s : StoredRule). s.key) get_combo_type s.0 s.1 s.2)
            (sym (ap (λ v. v.1) same)) st.exact;
      cidr =
          subst (λ s. IsStore (λ (s : StoredCidrRule). s.key) get_cidr_combo_type s.0 s.1 s.2)
            (sym (ap (λ v. v.2) same)) st.cidr;
    };
    remembered = λ id. ap (λ v. lookup id v.1.0) same ∙ all id;
    remembered_cidr = λ id. ap (λ v. Option.map without_ids (lookup id v.2.0)) same ∙ all_cidr id;
    written =
        subst (λ v. AllWritten bpf.maps exact_key exact_bytes v.0.0 v.1.0) (sym same) st.written;
    written_cidr =
        subst (λ v. AllWritten bpf.maps cidr_key cidr_bytes v.0.1 v.2.0) (sym same) st.written_cidr;
  }

  build_all-wanted :
      (rs : List (String × Rule)) (h : Handlers M C T) (id : String)
      → IsDistinct [] rs
      → (build_all bpf rs h).failed ≡ 0
      → lookup id (build_all bpf rs h).rules ≡ wanted id rs
  unfolding build_all build_empty lookup
  build_all-wanted rs h id distinct all =
      build_rules-rules bpf [] rs
        (build_empty (shadow_blacklist h) (shadow_cidr_blacklist h) h.cidr_mgr) id distinct all
      ∙ or_else-none (wanted id rs)

  build_all-wanted_cidr :
      (rs : List (String × Rule)) (h : Handlers M C T) (id : String)
      → IsDistinct [] rs
      → (build_all bpf rs h).failed ≡ 0
      → known id (build_all bpf rs h) ≡ wanted_cidr id rs
  unfolding build_all build_empty lookup
  build_all-wanted_cidr rs h id distinct all =
      build_rules-cidr_rules bpf [] rs
        (build_empty (shadow_blacklist h) (shadow_cidr_blacklist h) h.cidr_mgr) id distinct all
      ∙ or_else-none (wanted_cidr id rs)

  -- With BPF maps that obey their documentation and a request in which no id comes twice, a
  -- DoAtomicSync that succeeds leaves two consistent rule stores, whatever was there before; the
  -- exact rules are those of the request and no other, and so are the CIDR rules, up to the numbers of
  -- their CIDRs; and the active blacklists have for each stored rule an entry with the value that is
  -- derived from what is stored.
  pub do_atomic_sync-IsInstalled :
      (rs : List (String × Rule)) (h : Handlers M C T)
      → IsDistinct [] rs
      → (do_atomic_sync bpf rs h).1.ok ≡ true
      → IsInstalled bpf rs (do_atomic_sync bpf rs h).0
  unfolding do_atomic_sync build_all
  do_atomic_sync-IsInstalled rs h distinct done =
      let cleared = clear_shadows bpf h in
      let start =
        build_empty (shadow_blacklist cleared) (shadow_cidr_blacklist cleared) cleared.cidr_mgr in
      let b = build_all bpf rs cleared in
      let shows = flip_rules-shown bpf b cleared done in
      let all : b.failed ≡ 0 = ground (arith, shows.0) in
      shown-IsInstalled (ids_after [] rs) rs b _ shows.1
        (λ id. build_all-wanted rs cleared id distinct all)
        (λ id. build_all-wanted_cidr rs cleared id distinct all)
        (build_rules-IsBuilt bpf laws [] rs start distinct (build_empty-IsBuilt bpf _ _ _))

module _ {M C T : Type 0} (bpf : Bpf M C T) where
  build_all-tally :
      (rs : List (String × Rule)) (h : Handlers M C T)
      → (tally (build_all bpf rs h) ≡ length rs)
        × (counts (build_all bpf rs h) ≡ (build_all bpf rs h).added)
  unfolding build_all build_empty tally counts
  build_all-tally rs h =
      let start = build_empty (shadow_blacklist h) (shadow_cidr_blacklist h) h.cidr_mgr in
      (omega (arith, build_rules-tally bpf rs start), build_rules-counts bpf rs start refl)

  -- an answer that reports what the loop counted
  abbrev pub Reports : Build M T → AtomicSyncResult → Type 0
  Reports b a =
      (a.added ≡ b.added)
      × (a.failed ≡ b.failed)
      × (a.ok ≡ true → (a.exact_rules ≡ b.rule_count) × (a.cidr_rules ≡ b.cidr_count))

  aborted-Reports : (b : Build M T) → Reports b (aborted b)
  unfolding aborted
  aborted-Reports b = (refl, refl, λ done. cc)

  finish_sync-Reports :
      (b : Build M T) (p : Handlers M C T × Bool) → Reports b (finish_sync bpf b p).1
  unfolding finish_sync abort_sync
  finish_sync-Reports b (h, true) = (refl, refl, λ done. (refl, refl))
  finish_sync-Reports b (h, false) = aborted-Reports b

  pub flip_rules-Reports : (b : Build M T) (h : Handlers M C T) → Reports b (flip_rules bpf b h).1
  unfolding flip_rules abort_sync
  flip_rules-Reports b h = elim (Bool-cases (b.failed == 0)) [
    | inl all ↦ rw all (finish_sync-Reports b (switch_active bpf h (fill_sync_shadow bpf h b)))
    | inr some_failed ↦ rw some_failed (aborted-Reports b)
  ]

  -- DoAtomicSync counts each rule of the request once, as added or as failed.
  pub do_atomic_sync-counts :
      (rs : List (String × Rule)) (h : Handlers M C T)
      → (do_atomic_sync bpf rs h).1.added + (do_atomic_sync bpf rs h).1.failed ≡ length rs
  unfolding do_atomic_sync tally
  do_atomic_sync-counts rs h =
      let cleared = clear_shadows bpf h in
      let b = build_all bpf rs cleared in
      let result = flip_rules-Reports b (place_build b cleared) in
      omega (arith, (build_all-tally rs cleared).0, result.0, result.1)

  -- Where DoAtomicSync succeeds, no rule has failed, and the numbers of exact and of CIDR rules in
  -- its answer make up the request.
  pub do_atomic_sync-all :
      (rs : List (String × Rule)) (h : Handlers M C T)
      → (do_atomic_sync bpf rs h).1.ok ≡ true
      → ((do_atomic_sync bpf rs h).1.failed ≡ 0)
        × ((do_atomic_sync bpf rs h).1.exact_rules + (do_atomic_sync bpf rs h).1.cidr_rules
            ≡ length rs)
  unfolding do_atomic_sync tally counts
  do_atomic_sync-all rs h done =
      let cleared = clear_shadows bpf h in
      let b = build_all bpf rs cleared in
      let counted = build_all-tally rs cleared in
      let result = flip_rules-Reports b (place_build b cleared) in
      let parts = result.2 done in
      let all : b.failed ≡ 0 = ground (arith, (flip_rules-shown bpf b cleared done).0) in
      (result.1 ∙ all, omega (arith, counted.0, counted.1, all, parts.0, parts.1))
