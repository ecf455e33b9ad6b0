-- ===== src/Agent/Sync/Route/Valued.antt =====
-- What a rule that passes the checks of DoAtomicSync of node/agent/api/sync.go is made of.
use xdrop.Agent.Types.{RuleKey, RuleValue, CidrRuleKey, Rule}
use xdrop.Agent.Convert.{
  rule_to_key, rule_value_from_stored, rule_value_from_stored_cidr, or_drop, or_no_flags,
}
use xdrop.Agent.Validate.{Result, ok, err, parse_action, parse_tcp_flags, ValidateError}
use xdrop.Agent.Cidrs.{normalize_side}
use xdrop.Agent.Rules.{stored_rule}
use xdrop.Agent.CidrRules.{CidrPlan, sync_flags, cidr_rule_value, stored_cidr_rule}
use xdrop.Agent.Sync.Route.{
  rejected, cidr_rule, exact_rule, exact_value, has_cidr, route_sync_cidr, route_sync_exact,
  route_sync,
}
use xdrop.Prelude.{
  true, false, some, ◌≡◌, arith, ℕ, refl, ◌⊎◌, Option-cases, inl, ◌∙◌, sym, inr, ap,
}

-- the value that is written is the one that is derived again from the stored rule
pub record IsExact (key : RuleKey) (value : RuleValue) (r : Rule) : Type 0 where
  pub exact : has_cidr r ≡ false
  pub addressed : rule_to_key r ≡ some key
  pub valued : value ≡ rule_value_from_stored (stored_rule key r)

pub record IsCidr (plan : CidrPlan) (flags : ℕ × ℕ) (r : Rule) : Type 0 where
  pub cidr : has_cidr r ≡ true
  pub normal_src : normalize_side r.src_cidr ≡ some plan.src_cidr
  pub normal_dst : normalize_side r.dst_cidr ≡ some plan.dst_cidr
  pub valued :
      (key : CidrRuleKey)
      → cidr_rule_value plan flags.0 flags.1 r
        ≡ rule_value_from_stored_cidr (stored_cidr_rule plan key r)

Result-cases :
    {A : Type 0} (o : Result A) → ((a : A) × (o ≡ ok a)) ⊎ ((e : ValidateError) × (o ≡ err e))
Result-cases (ok a) = inl (a, refl)
Result-cases (err e) = inr (e, refl)

sync_flags_lem :
    (r : Rule) (flags : ℕ × ℕ)
    → sync_flags r ≡ some flags
    → or_no_flags (parse_tcp_flags r.tcp_flags) ≡ flags
unfolding sync_flags or_no_flags
sync_flags_lem r flags h = ground arith

exact_value_lem :
    (action : ℕ) (flags : ℕ × ℕ) (key : RuleKey) (r : Rule)
    → parse_action r.action ≡ ok action
    → or_no_flags (parse_tcp_flags r.tcp_flags) ≡ flags
    → exact_value action flags r ≡ rule_value_from_stored (stored_rule key r)
unfolding exact_value rule_value_from_stored or_drop stored_rule
exact_value_lem action flags key r acted flagged = rw (acted, flagged) refl

cidr_value_lem :
    (plan : CidrPlan) (flags : ℕ × ℕ) (key : CidrRuleKey) (r : Rule)
    → parse_action r.action ≡ ok plan.action
    → or_no_flags (parse_tcp_flags r.tcp_flags) ≡ flags
    → cidr_rule_value plan flags.0 flags.1 r
      ≡ rule_value_from_stored_cidr (stored_cidr_rule plan key r)
unfolding cidr_rule_value rule_value_from_stored_cidr or_drop stored_cidr_rule
cidr_value_lem plan flags key r acted flagged = rw (acted, flagged) refl

route_sync_exact_lem :
    (action : ℕ) (r : Rule) (key : RuleKey) (value : RuleValue)
    → route_sync_exact action r ≡ exact_rule key value
    → (rule_to_key r ≡ some key)
      × ((flags : ℕ × ℕ) × (sync_flags r ≡ some flags) × (exact_value action flags r ≡ value))
unfolding route_sync_exact
route_sync_exact_lem action r key value h = elim (Option-cases (sync_flags r)) [
  | inl bad ↦ ground (arith, h, bad)
  | inr (flags, good) ↦ (ground arith, (flags, good, ground (arith, h, good)))
]

route_sync_cidr_lem :
    (action : ℕ) (r : Rule) (plan : CidrPlan) (flags : ℕ × ℕ)
    → route_sync_cidr action r ≡ cidr_rule plan flags
    → (plan.action ≡ action) × (sync_flags r ≡ some flags)
unfolding route_sync_cidr
route_sync_cidr_lem action r plan flags h = ground arith

exact_parts :
    (action : ℕ) (r : Rule) (key : RuleKey) (value : RuleValue)
    → parse_action r.action ≡ ok action
    → route_sync_exact action r ≡ exact_rule key value
    → (rule_to_key r ≡ some key) × (value ≡ rule_value_from_stored (stored_rule key r))
exact_parts action r key value acted h =
    let parts = route_sync_exact_lem action r key value h in
    let flagged = sync_flags_lem r parts.1.0 parts.1.1 in
    (parts.0, sym parts.1.2 ∙ exact_value_lem action parts.1.0 key r acted flagged)

route_sync_cidr-plan :
    (action : ℕ) (r : Rule) (plan : CidrPlan) (flags : ℕ × ℕ)
    → route_sync_cidr action r ≡ cidr_rule plan flags
    → (normalize_side r.src_cidr ≡ some plan.src_cidr)
      × (normalize_side r.dst_cidr ≡ some plan.dst_cidr)
unfolding route_sync_cidr
route_sync_cidr-plan action r plan flags h = ground arith

pub route_sync-IsExact :
    (r : Rule) (key : RuleKey) (value : RuleValue)
    → route_sync r ≡ exact_rule key value
    → IsExact key value r
unfolding route_sync
route_sync-IsExact r key value h = elim (Result-cases (parse_action r.action)) [
  | inl (action, acted) ↦
      let q : (has_cidr r ≡ false) × (route_sync_exact action r ≡ exact_rule key value) =
        ground (arith, h, acted) in
      let parts = exact_parts action r key value acted q.1 in
      record { exact = q.0; addressed = parts.0; valued = parts.1 }
  | inr (e, bad) ↦ (let never : rejected ≡ exact_rule key value = ground (arith, h, bad) in cc)
]

pub route_sync-IsCidr :
    (r : Rule) (plan : CidrPlan) (flags : ℕ × ℕ)
    → route_sync r ≡ cidr_rule plan flags
    → IsCidr plan flags r
unfolding route_sync
route_sync-IsCidr r plan flags h = elim (Result-cases (parse_action r.action)) [
  | inl (action, acted) ↦
      let q : (has_cidr r ≡ true) × (route_sync_cidr action r ≡ cidr_rule plan flags) =
        ground (arith, h, acted) in
      let parts = route_sync_cidr_lem action r plan flags q.1 in
      let normal = route_sync_cidr-plan action r plan flags q.1 in
      record {
        cidr = q.0;
        normal_src = normal.0;
        normal_dst = normal.1;
        valued = λ key.
            cidr_value_lem plan flags key r (acted ∙ ap ok (sym parts.0))
              (sync_flags_lem r flags parts.1);
      }
  | inr (e, bad) ↦ (let never : rejected ≡ cidr_rule plan flags = ground (arith, h, bad) in cc)
]
