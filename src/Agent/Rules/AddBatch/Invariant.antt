-- ===== src/Agent/Rules/AddBatch/Invariant.antt =====
-- The invariant of the rule stores under AddRulesBatch of node/agent/api/rules_mutation.go, and what
-- its rollback leaves.
use mathlib.Core.List.{List, [], ◌∷◌}
use Prim.Native.Nat.{ℕ}
use Prim.Native.String.{String}
use xdrop.Prelude.{
  Bool, true, false, Option, ◌==◌, length, ◌≡◌, ◌≢◌, refl, ap, ◌∙◌, Bool-cases, inl, inr,
}
use xdrop.Prelude.GoMap.{lookup}
use xdrop.Prelude.Int.{pos}
use xdrop.Prelude.Text.{string_eq}
use xdrop.Agent.Types.{StoredRule, Rule, rule_key_eq}
use xdrop.Agent.State.{Handlers, Bpf}
use xdrop.Agent.Config.{active_blacklist, set_active_blacklist}
use xdrop.Agent.Rules.{is_taken, write_entry}
use xdrop.Agent.Rules.Frame.{
  IsRules, set_active_blacklist-IsRules, set_active_blacklist-same, publish-IsRules,
}
use xdrop.Agent.Rules.Invariant.{replace_rule-IsRules}
use xdrop.Agent.Handle.Invariant.{store_plan-IsRules}
use xdrop.Agent.Sync.AddRule.{store_plan, check_cidr}
use xdrop.Agent.Rules.AddBatch.{
  Prepared, Item, Applied, publish_failed, prepare_rules, net_new, add_cidr_rules, apply_rule,
  apply_rules, settle_batch, publish_batch, add_rules_batch, exact_rules, cidr_rules,
}

module _ {M C T : Type 0} (bpf : Bpf M C T) where
  pub apply_rule-IsRules :
      (p : Prepared) (old : Option StoredRule) (h : Handlers M C T)
      → IsRules h
      → lookup p.id h.rules ≡ old
      → IsRules (apply_rule bpf p old h).0
  unfolding apply_rule
  apply_rule-IsRules p old h r found =
      let written = write_entry bpf old p.stored.key p.value (active_blacklist h) in
      let h' = set_active_blacklist written.0 h in
      let r' = set_active_blacklist-IsRules written.0 h r in
      let same = set_active_blacklist-same written.0 h in
      elim (Bool-cases (is_taken (lookup p.stored.key h.rule_key_index) p.id)) [
        | inl taken ↦ rw taken r
        | inr free ↦ elim (Bool-cases written.1) [
          | inr failed ↦ rw (free, failed) r'
          | inl done ↦
              rw (free, done)
                (replace_rule-IsRules p.id old p.stored h' r' (ap (lookup p.id) same.0 ∙ found)
                  (rw same.1 free))
        ]
      ]

  pub apply_rules-IsRules :
      (ps : List Prepared) (h : Handlers M C T) → IsRules h → IsRules (apply_rules bpf ps h).0
  unfolding apply_rules
  apply_rules-IsRules [] h r = r
  apply_rules-IsRules (p ∷ ps) h r =
      let old = lookup p.id h.rules in
      apply_rules-IsRules ps (apply_rule bpf p old h).0 (apply_rule-IsRules p old h r refl)

  pub add_cidr_rules-IsRules :
      (rs : List (String × Rule)) (counts : ℕ × ℕ) (h : Handlers M C T)
      → IsRules h
      → IsRules (add_cidr_rules bpf rs counts h).0
  unfolding add_cidr_rules
  add_cidr_rules-IsRules [] counts h r = r
  add_cidr_rules-IsRules ((new_id, rule) ∷ rs) counts h r =
      add_cidr_rules-IsRules rs _ (store_plan bpf h new_id rule (check_cidr rule h.cidr_mgr)).0
        (store_plan-IsRules bpf h new_id rule (check_cidr rule h.cidr_mgr) r)

  pub settle_batch-IsRules :
      (items : List Item) (added failed : ℕ) (p : Handlers M C T × Bool)
      → (settle_batch bpf items added failed p).1 ≢ publish_failed
      → IsRules p.0
      → IsRules (settle_batch bpf items added failed p).0
  unfolding settle_batch
  settle_batch-IsRules items added failed (h, true) done r = r
  settle_batch-IsRules items added failed (h, false) done r = absurd (done refl)

  publish_batch-IsRules :
      (p : Handlers M C T × Applied) (counts : ℕ × ℕ)
      → (publish_batch bpf p counts).1 ≢ publish_failed
      → IsRules p.0
      → IsRules (publish_batch bpf p counts).0
  unfolding publish_batch
  publish_batch-IsRules (h, applied) (added, failed) done r =
      let items = applied.succeeded in
      settle_batch-IsRules items _ _ _ done (elim (Bool-cases (length items == 0)) [
        | inl nothing ↦ rw nothing r
        | inr some_items ↦ rw some_items (publish-IsRules bpf h (pos (net_new items)) _ _ r)
      ])

  -- If the two rule stores are consistent (each rule is indexed by its key, the index names nothing
  -- else, and each combo has the count of its rules), they are consistent after an AddRulesBatch that
  -- is not taken back, whatever rules of it are added, replace others, are refused or fail.
  pub add_rules_batch-IsRules :
      (rs : List (String × Rule)) (h : Handlers M C T)
      → IsRules h
      → (add_rules_batch bpf rs h).1 ≢ publish_failed
      → IsRules (add_rules_batch bpf rs h).0
  unfolding add_rules_batch
  add_rules_batch-IsRules rs h r done =
      let cidrs = add_cidr_rules bpf (cidr_rules rs) (0, 0) h in
      let prepared = prepare_rules (exact_rules rs) ([], cidrs.1.1) in
      publish_batch-IsRules (apply_rules bpf prepared.0 cidrs.0) (cidrs.1.0, prepared.1) done
        (apply_rules-IsRules prepared.0 cidrs.0 (add_cidr_rules-IsRules (cidr_rules rs) (0, 0) h r))
