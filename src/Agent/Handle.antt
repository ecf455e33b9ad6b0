-- ===== src/Agent/Handle.antt =====
-- AddRule of node/agent/api/rules_mutation.go as a whole, with addCIDRRule of cidr_rules.go: the checks
-- and then the part under the locks. Between the two a CIDR rule takes its numbers from the manager.
pub mod Invariant
pub mod Steps
mod Tests
use Prim.Native.Nat.{ℕ}
use Prim.Native.String.{String}
use xdrop.Prelude.{Option, some, none}
use xdrop.Agent.Types.{CidrRuleKey, Rule}
use xdrop.Agent.State.{Handlers, Bpf}
use xdrop.Agent.Rules.{
  Route, bad_request, cidr_rule, exact_rule, route_rule, Reply, store_rule, rule_id,
}
use xdrop.Agent.CidrRules.{
  CidrPlan, check_cidr_rule, reserve_cidr, cidr_rule_value, stored_cidr_rule, store_cidr_rule,
}

-- the answer: a refusal before the locks, or the reply of the part under them
pub data Answer : Type 0 where
  refused : Answer
  replied : Reply → Answer

module _ {M C T : Type 0} (bpf : Bpf M C T) where
  open bpf use {tries}

  unfoldable pub store_reserved :
      Handlers M C T
      → String
      → Rule
      → CidrPlan
      → ℕ × ℕ
      → Option CidrRuleKey
      → Handlers M C T × Answer
  unfolding store_cidr_rule cidr_rule_value stored_cidr_rule rule_id
  store_reserved h new_id req plan flags none = (h, refused)
  store_reserved h new_id req plan flags (some key) =
      let stored =
        store_cidr_rule bpf h (rule_id req new_id) (cidr_rule_value plan flags.0 flags.1 req)
          (stored_cidr_rule plan key req) in
      (stored.0, replied stored.1)

  unfoldable pub add_cidr_rule :
      Handlers M C T → String → Rule → ℕ × ℕ → Option CidrPlan → Handlers M C T × Answer
  unfolding store_reserved reserve_cidr
  add_cidr_rule h new_id req flags none = (h, refused)
  add_cidr_rule h new_id req flags (some plan) =
      let reserved = reserve_cidr tries plan req h.cidr_mgr in
      store_reserved (record h { cidr_mgr = reserved.0 }) new_id req plan flags reserved.1

  unfoldable pub add_routed : Handlers M C T → String → Route → Handlers M C T × Answer
  unfolding add_cidr_rule check_cidr_rule store_rule
  add_routed h new_id bad_request = (h, refused)
  add_routed h new_id (cidr_rule mask value req) =
      add_cidr_rule h new_id req (mask, value) (check_cidr_rule req h.cidr_mgr)
  add_routed h new_id (exact_rule key value req) =
      let stored = store_rule bpf h new_id key value req in (stored.0, replied stored.1)

  unfoldable pub add_rule : Handlers M C T → String → Rule → Handlers M C T × Answer
  unfolding add_routed route_rule
  add_rule h new_id req = add_routed h new_id (route_rule req)
