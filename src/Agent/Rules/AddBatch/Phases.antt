-- ===== src/Agent/Rules/AddBatch/Phases.antt =====
-- AddRulesBatch of node/agent/api/rules_mutation.go: its phase for CIDR rules leaves the store of exact
-- rules alone, and its phase for exact rules that of the CIDR rules.
use mathlib.Core.List.{List, [], ◌∷◌}
use Prim.Native.Nat.{ℕ}
use Prim.Native.String.{String}
use xdrop.Prelude.{
  Bool, true, false, Option, some, none, ◌==◌, ◌+◌, length, ◌≡◌, refl, ◌∙◌, arith, Bool-cases,
  Option-cases, inl, inr,
}
use xdrop.Prelude.GoMap.{GoMap, lookup}
use xdrop.Prelude.Int.{ℤ, pos}
use xdrop.Prelude.Text.{string_eq}
use xdrop.Agent.Types.{
  RuleKey, RuleValue, CidrRuleKey, StoredRule, StoredCidrRule, Rule, rule_key_eq, cidr_rule_key_eq,
}
use xdrop.Agent.State.{Handlers, Bpf}
use xdrop.Agent.Config.{
  active_blacklist, set_active_blacklist, active_cidr_blacklist, set_active_cidr_blacklist,
  set_shadow, switch_active, publish_config_update,
}
use xdrop.Agent.Rules.{is_taken, write_entry, put_rule, replace_rule, remove_rule, restore_rule}
use xdrop.Agent.Rules.Frame.{publish-same}
use xdrop.Agent.CidrRules.{
  CidrPlan, reserve_cidr, put_cidr_rule, unindex_cidr_rule, remove_cidr_rule, replace_cidr_rule,
  release_rule, release_old, write_cidr_entry, restore_cidr_rule, publish_cidr_rule,
  commit_cidr_rule, store_cidr_rule, cidr_count_delta,
}
use xdrop.Agent.Sync.AddRule.{check_cidr, store_reserved, store_plan}
use xdrop.Agent.Rules.AddBatch.{
  Prepared, Item, net_new, add_cidr_rules, apply_rule, apply_rules, roll_back, roll_back_all,
  settle_batch, publish_batch,
}

module _ {M C T : Type 0} where
  abbrev pub cidr_store :
      Handlers M C T → GoMap String StoredCidrRule × GoMap CidrRuleKey String × (ℕ → ℤ)
  cidr_store h = (h.cidr_rules, h.cidr_rule_key_index, h.cidr_combo_ref_count)

  set_cidr-rules : (m : M) (h : Handlers M C T) → (set_active_cidr_blacklist m h).rules ≡ h.rules
  unfolding set_active_cidr_blacklist
  set_cidr-rules m h = ground arith

  set_exact-store :
      (m : M) (h : Handlers M C T) → cidr_store (set_active_blacklist m h) ≡ cidr_store h
  unfolding set_active_blacklist
  set_exact-store m h = ground arith

  replace_cidr-rules :
      (id : String) (old : Option StoredCidrRule) (s : StoredCidrRule) (h : Handlers M C T)
      → (replace_cidr_rule id old s h).rules ≡ h.rules
  unfolding replace_cidr_rule put_cidr_rule unindex_cidr_rule
  replace_cidr-rules id none s h = refl
  replace_cidr-rules id (some old) s h = refl

  replace_rule-store :
      (id : String) (old : Option StoredRule) (s : StoredRule) (h : Handlers M C T)
      → cidr_store (replace_rule id old s h) ≡ cidr_store h
  unfolding replace_rule
  replace_rule-store id none s h = refl
  replace_rule-store id (some old) s h = refl

module _ {M C T : Type 0} (bpf : Bpf M C T) where
  open bpf use {maps, tries}

  publish-store :
      (h : Handlers M C T) (d wl cidr : ℤ)
      → cidr_store (publish_config_update bpf h d wl cidr).0 ≡ cidr_store h
  unfolding publish_config_update switch_active set_shadow
  publish-store h d wl cidr = ground arith

  restore_cidr-rules :
      (id : String) (old : Option StoredCidrRule) (h : Handlers M C T)
      → (restore_cidr_rule bpf id old h).rules ≡ h.rules
  unfolding restore_cidr_rule put_cidr_rule
  restore_cidr-rules id none h = refl
  restore_cidr-rules id (some old) h = set_cidr-rules _ h

  release_old-rules :
      (old : Option StoredCidrRule) (h : Handlers M C T) → (release_old bpf old h).rules ≡ h.rules
  unfolding release_old release_rule
  release_old-rules none h = refl
  release_old-rules (some old) h = refl

  publish_cidr-rules :
      (id : String) (old : Option StoredCidrRule) (s : StoredCidrRule) (p : Handlers M C T × Bool)
      → (publish_cidr_rule bpf id old s p).0.rules ≡ p.0.rules
  unfolding publish_cidr_rule remove_cidr_rule release_rule
  publish_cidr-rules id old s (h, true) = release_old-rules old h
  publish_cidr-rules id old s (h, false) = restore_cidr-rules id old _ ∙ set_cidr-rules _ h

  commit_cidr-rules :
      (id : String) (old : Option StoredCidrRule) (value : RuleValue) (s : StoredCidrRule)
      (h : Handlers M C T)
      → (commit_cidr_rule bpf id old value s h).0.rules ≡ h.rules
  unfolding commit_cidr_rule release_rule
  commit_cidr-rules id old value s h =
      let written = write_cidr_entry bpf old s.key value (active_cidr_blacklist h) in
      let h' = set_active_cidr_blacklist written.0 h in
      let put = replace_cidr_rule id old s h' in
      elim (Bool-cases written.1) [
        | inl done ↦ rw done (
            publish_cidr-rules id old s
              (publish_config_update bpf put (pos 0) (pos 0) (cidr_count_delta old))
            ∙ (publish-same bpf put (pos 0) (pos 0) (cidr_count_delta old)).0
            ∙ replace_cidr-rules id old s h'
            ∙ set_cidr-rules written.0 h)
        | inr failed ↦ rw failed (set_cidr-rules written.0 h)
      ]

  store_cidr-rules :
      (h : Handlers M C T) (id : String) (value : RuleValue) (s : StoredCidrRule)
      → (store_cidr_rule bpf h id value s).0.rules ≡ h.rules
  unfolding store_cidr_rule release_rule
  store_cidr-rules h id value s =
      elim (Bool-cases (is_taken (lookup s.key h.cidr_rule_key_index) id)) [
        | inl taken ↦ rw taken refl
        | inr free ↦ rw free (commit_cidr-rules id (lookup id h.cidr_rules) value s h)
      ]

  store_plan-rules :
      (h : Handlers M C T) (new_id : String) (r : Rule) (checked : Option (CidrPlan × (ℕ × ℕ)))
      → (store_plan bpf h new_id r checked).0.rules ≡ h.rules
  unfolding store_plan store_reserved
  store_plan-rules h new_id r none = refl
  store_plan-rules h new_id r (some (plan, flags)) =
      elim (Option-cases (reserve_cidr tries plan r h.cidr_mgr).1) [
        | inl refused ↦ rw refused refl
        | inr (key, reserved) ↦ rw reserved (store_cidr-rules _ _ _ _)
      ]

  pub add_cidr_rules-rules :
      (rs : List (String × Rule)) (counts : ℕ × ℕ) (h : Handlers M C T)
      → (add_cidr_rules bpf rs counts h).0.rules ≡ h.rules
  unfolding add_cidr_rules
  add_cidr_rules-rules [] counts h = refl
  add_cidr_rules-rules ((new_id, r) ∷ rs) counts h =
      add_cidr_rules-rules rs _ (store_plan bpf h new_id r (check_cidr r h.cidr_mgr)).0
      ∙ store_plan-rules h new_id r (check_cidr r h.cidr_mgr)

  apply_rule-store :
      (p : Prepared) (old : Option StoredRule) (h : Handlers M C T)
      → cidr_store (apply_rule bpf p old h).0 ≡ cidr_store h
  unfolding apply_rule
  apply_rule-store p old h =
      let written = write_entry bpf old p.stored.key p.value (active_blacklist h) in
      elim (Bool-cases (is_taken (lookup p.stored.key h.rule_key_index) p.id)) [
        | inl taken ↦ rw taken refl
        | inr free ↦ elim (Bool-cases written.1) [
          | inl done ↦
              rw (free, done) (replace_rule-store p.id old p.stored _ ∙ set_exact-store written.0 h)
          | inr failed ↦ rw (free, failed) (set_exact-store written.0 h)
        ]
      ]

  apply_rules-store :
      (ps : List Prepared) (h : Handlers M C T) → cidr_store (apply_rules bpf ps h).0 ≡ cidr_store h
  unfolding apply_rules
  apply_rules-store [] h = refl
  apply_rules-store (p ∷ ps) h =
      let old = lookup p.id h.rules in
      apply_rules-store ps (apply_rule bpf p old h).0 ∙ apply_rule-store p old h

  restore_rule-store :
      (id : String) (old : Option StoredRule) (key : RuleKey) (h : Handlers M C T)
      → cidr_store (restore_rule bpf id old key h) ≡ cidr_store h
  unfolding restore_rule put_rule
  restore_rule-store id none key h = refl
  restore_rule-store id (some old) key h = set_exact-store _ _

  roll_back_all-store :
      (items : List Item) (h : Handlers M C T)
      → cidr_store (roll_back_all bpf items h) ≡ cidr_store h
  unfolding roll_back_all roll_back remove_rule
  roll_back_all-store [] h = refl
  roll_back_all-store (item ∷ items) h =
      roll_back_all-store items (roll_back bpf item h)
      ∙ restore_rule-store item.id item.old_stored item.stored.key _
      ∙ set_exact-store _ h

  settle_batch-store :
      (items : List Item) (added failed : ℕ) (p : Handlers M C T × Bool)
      → cidr_store (settle_batch bpf items added failed p).0 ≡ cidr_store p.0
  unfolding settle_batch
  settle_batch-store items added failed (h, true) = refl
  settle_batch-store items added failed (h, false) = roll_back_all-store items h

  pub exact_phase-store :
      (ps : List Prepared) (counts : ℕ × ℕ) (h : Handlers M C T)
      → cidr_store (publish_batch bpf (apply_rules bpf ps h) counts).0 ≡ cidr_store h
  unfolding publish_batch
  exact_phase-store ps counts h =
      let applied = apply_rules bpf ps h in
      let items = applied.1.succeeded in
      let added = counts.0 + length items in
      let failed = counts.1 + applied.1.failed in
      elim (Bool-cases (length items == 0)) [
        | inl nothing ↦
            rw nothing
              (settle_batch-store items added failed (applied.0, true) ∙ apply_rules-store ps h)
        | inr some_items ↦ rw some_items (
            settle_batch-store items added failed
              (publish_config_update bpf applied.0 (pos (net_new items)) (pos 0) (pos 0))
            ∙ publish-store applied.0 _ _ _
            ∙ apply_rules-store ps h)
      ]
