-- ===== src/Agent/Sync/AddRule/Agree.antt =====
-- The incremental and the full synchronisation of node/agent/api/sync.go.
use mathlib.Core.List.{[]}
use xdrop.Agent.Cidrs.{is_empty}
use xdrop.Prelude.Text.{Text, text_eq}
use xdrop.Agent.Types.{RuleKey, RuleValue, Rule}
use xdrop.Agent.Sync.Route.{
  SyncRoute, rejected, cidr_rule, exact_rule, route_sync, route_sync_exact, has_cidr,
}
use xdrop.Agent.Sync.AddRule.{exact_request, check_exact, Option, none, true, some}
use xdrop.Prelude.{◌≡◌, false, arith, refl, ap, ◌∙◌, sym}

-- what a route says of an exact rule
abbrev pub as_exact : SyncRoute → Option (RuleKey × RuleValue)
as_exact rejected = none
as_exact (cidr_rule plan flags) = none
as_exact (exact_rule key value) = some (key, value)

same_text : (t : Text) → text_eq.beq t [] ≡ true → t ≡ []
same_text t h = (text_eq.beq_iff t []).0 h

no_cidr : (r : Rule) → has_cidr r ≡ false → (r.src_cidr ≡ []) × (r.dst_cidr ≡ [])
unfolding has_cidr is_empty
no_cidr r h = (same_text r.src_cidr (ground arith), same_text r.dst_cidr (ground arith))

request_same : (r : Rule) → has_cidr r ≡ false → exact_request r ≡ r
unfolding exact_request
request_same r h = (let e = no_cidr r h in rw (e.0, e.1) refl)

-- the checks agree, though their order is not the same
checks_agree : (r : Rule) → has_cidr r ≡ false → as_exact (route_sync r) ≡ check_exact r
unfolding route_sync route_sync_exact check_exact
checks_agree r h = ground (arith, h)

-- A rule without a CIDR passes the checks of AddRuleFromSync exactly where it passes those of
-- DoAtomicSync, and with the same key and the same value.
pub check_exact-route_sync :
    (r : Rule) → has_cidr r ≡ false → check_exact (exact_request r) ≡ as_exact (route_sync r)
check_exact-route_sync r h = ap check_exact (request_same r h) ∙ sym (checks_agree r h)
