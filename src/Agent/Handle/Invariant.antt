-- ===== src/Agent/Handle/Invariant.antt =====
-- The invariant of the rule stores under whole calls of the handlers of node/agent/api: AddRule and
-- AddRuleFromSync, and any sequence of calls.
use Prim.Native.Nat.{ℕ}
use Prim.Native.String.{String}
use xdrop.Prelude.{Option, some, none, Bool-cases, inl, inr}
use xdrop.Prelude.Text.{string_eq, text_eq}
use xdrop.Cidr.Manager.{Manager}
use xdrop.Agent.Types.{RuleKey, RuleValue, CidrRuleKey, Rule}
use xdrop.Agent.State.{Handlers, Bpf}
use xdrop.Agent.Rules.{Route, bad_request, cidr_rule, exact_rule, route_rule}
use xdrop.Agent.Rules.Frame.{IsRules}
use xdrop.Agent.Rules.Invariant.{store_rule-IsRules}
use xdrop.Agent.CidrRules.{CidrPlan, reserve_cidr}
use xdrop.Agent.CidrRules.Invariant.{store_cidr_rule-IsRules}
use xdrop.Agent.Handle.{store_reserved, add_cidr_rule, add_routed, add_rule}
use xdrop.Agent.Sync.Route.{has_cidr}
use xdrop.Agent.Sync.AddRule
use xdrop.Agent.Sync.AddRule.{
  store_plan, store_checked, check_exact, check_cidr, exact_request, add_rule_from_sync,
}

module _ {M C T : Type 0} (bpf : Bpf M C T) where
  open bpf use {tries}

  with_mgr-IsRules :
      (m : Manager T) (h : Handlers M C T) → IsRules h → IsRules (record h { cidr_mgr = m })
  with_mgr-IsRules m h r = record { exact = r.exact; cidr = r.cidr }

  store_reserved-IsRules :
      (h : Handlers M C T) (new_id : String) (req : Rule) (plan : CidrPlan) (flags : ℕ × ℕ)
      (key : Option CidrRuleKey)
      → IsRules h
      → IsRules (store_reserved bpf h new_id req plan flags key).0
  unfolding store_reserved
  store_reserved-IsRules h new_id req plan flags none r = r
  store_reserved-IsRules h new_id req plan flags (some key) r =
      store_cidr_rule-IsRules bpf h _ _ _ r

  add_cidr_rule-IsRules :
      (h : Handlers M C T) (new_id : String) (req : Rule) (flags : ℕ × ℕ) (plan : Option CidrPlan)
      → IsRules h
      → IsRules (add_cidr_rule bpf h new_id req flags plan).0
  unfolding add_cidr_rule
  add_cidr_rule-IsRules h new_id req flags none r = r
  add_cidr_rule-IsRules h new_id req flags (some plan) r =
      let reserved = reserve_cidr tries plan req h.cidr_mgr in
      store_reserved-IsRules (record h { cidr_mgr = reserved.0 }) new_id req plan flags reserved.1
        (with_mgr-IsRules reserved.0 h r)

  add_routed-IsRules :
      (h : Handlers M C T) (new_id : String) (route : Route)
      → IsRules h
      → IsRules (add_routed bpf h new_id route).0
  unfolding add_routed
  add_routed-IsRules h new_id bad_request r = r
  add_routed-IsRules h new_id (cidr_rule mask value req) r =
      add_cidr_rule-IsRules h new_id req (mask, value) _ r
  add_routed-IsRules h new_id (exact_rule key value req) r =
      store_rule-IsRules bpf h new_id key value req r

  pub add_rule-IsRules :
      (h : Handlers M C T) (new_id : String) (req : Rule)
      → IsRules h
      → IsRules (add_rule bpf h new_id req).0
  unfolding add_rule
  add_rule-IsRules h new_id req r = add_routed-IsRules h new_id (route_rule req) r

  sync_reserved-IsRules :
      (h : Handlers M C T) (new_id : String) (req : Rule) (plan : CidrPlan) (flags : ℕ × ℕ)
      (key : Option CidrRuleKey)
      → IsRules h
      → IsRules (AddRule.store_reserved bpf h new_id req plan flags key).0
  unfolding AddRule.store_reserved
  sync_reserved-IsRules h new_id req plan flags none r = r
  sync_reserved-IsRules h new_id req plan flags (some key) r = store_cidr_rule-IsRules bpf h _ _ _ r

  pub store_plan-IsRules :
      (h : Handlers M C T) (new_id : String) (req : Rule) (checked : Option (CidrPlan × (ℕ × ℕ)))
      → IsRules h
      → IsRules (store_plan bpf h new_id req checked).0
  unfolding store_plan
  store_plan-IsRules h new_id req none r = r
  store_plan-IsRules h new_id req (some (plan, flags)) r =
      let reserved = reserve_cidr tries plan req h.cidr_mgr in
      sync_reserved-IsRules (record h { cidr_mgr = reserved.0 }) new_id req plan flags reserved.1
        (with_mgr-IsRules reserved.0 h r)

  store_checked-IsRules :
      (h : Handlers M C T) (new_id : String) (req : Rule) (checked : Option (RuleKey × RuleValue))
      → IsRules h
      → IsRules (store_checked bpf h new_id req checked).0
  unfolding store_checked
  store_checked-IsRules h new_id req none r = r
  store_checked-IsRules h new_id req (some (key, value)) r =
      store_rule-IsRules bpf h new_id key value req r

  pub add_rule_from_sync-IsRules :
      (h : Handlers M C T) (new_id : String) (req : Rule)
      → IsRules h
      → IsRules (add_rule_from_sync bpf h new_id req).0
  unfolding add_rule_from_sync
  add_rule_from_sync-IsRules h new_id req r = elim (Bool-cases (has_cidr req)) [
    | inl cidr ↦ rw cidr (store_plan-IsRules h new_id req (check_cidr req h.cidr_mgr) r)
    | inr exact ↦
        rw exact
          (store_checked-IsRules h new_id (exact_request req) (check_exact (exact_request req)) r)
  ]
