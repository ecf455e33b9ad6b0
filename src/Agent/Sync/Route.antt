-- ===== src/Agent/Sync/Route.antt =====
-- The checks of a rule in DoAtomicSync of node/agent/api/sync.go.
pub mod Valued
use Prim.Native.Nat.{ℕ}
use xdrop.Prelude.{Bool, some, none, not, if◌then◌else◌, ◌&&◌, ◌||◌, ◌==◌, leb}
use xdrop.Prelude.Text.{string_eq}
use xdrop.Agent.Types
use xdrop.Agent.Types.{
  RuleKey, RuleValue, CidrRuleKey, StoredRule, StoredCidrRule, Rule, rule_key_eq, cidr_rule_key_eq,
}
use xdrop.Agent.Combo.{validate_combo_type, get_combo_type}
use xdrop.Agent.Validate.{ok, err, parse_action, validate_rule, validate_port_protocol_compat_node}
use xdrop.Agent.Convert.{rule_to_key, validate_node_anomaly_fields}
use xdrop.Agent.Cidrs.{is_empty, normalize_side}
use xdrop.Agent.CidrRules.{CidrPlan, sync_flags}

-- what the checks make of a rule
pub data SyncRoute : Type 0 where
  rejected : SyncRoute
  cidr_rule : CidrPlan → ℕ × ℕ → SyncRoute
  exact_rule : RuleKey → RuleValue → SyncRoute

unfoldable pub exact_value : ℕ → ℕ × ℕ → Rule → RuleValue
exact_value action flags r = record {
  action = action;
  tcp_flags_mask = flags.0;
  tcp_flags_value = flags.1;
  match_anomaly = r.match_anomaly;
  rate_limit = r.rate_limit;
  match_count = 0;
  drop_count = 0;
  pkt_len_min = r.pkt_len_min;
  pkt_len_max = r.pkt_len_max;
}

-- a CIDR rule; overlaps are not checked, since all rules are replaced
unfoldable pub route_sync_cidr : ℕ → Rule → SyncRoute
unfolding normalize_side sync_flags
route_sync_cidr action r = elim (normalize_side r.src_cidr) [
  | none ↦ rejected
  | some src ↦ elim (normalize_side r.dst_cidr) [
    | none ↦ rejected
    | some dst ↦ elim (sync_flags r) [
      | none ↦ rejected
      | some flags ↦
          elim (validate_node_anomaly_fields r.match_anomaly r.action r.src_ip r.dst_ip r.src_cidr
            r.dst_cidr) [
              | some e ↦ rejected
              | none ↦ elim (validate_port_protocol_compat_node r.protocol r.src_port r.dst_port) [
                | some e ↦ rejected
                | none ↦
                    cidr_rule (record { action = action; src_cidr = src; dst_cidr = dst }) flags
              ]
            ]
    ]
  ]
]

unfoldable pub route_sync_exact : ℕ → Rule → SyncRoute
unfolding sync_flags exact_value
route_sync_exact action r =
    elim (validate_rule r.src_ip r.dst_ip r.protocol r.src_port r.dst_port r.pkt_len_min
      r.pkt_len_max) [
        | some e ↦ rejected
        | none ↦
            elim (validate_node_anomaly_fields r.match_anomaly r.action r.src_ip r.dst_ip r.src_cidr
              r.dst_cidr) [
                | some e ↦ rejected
                | none ↦ elim (rule_to_key r) [
                  | none ↦ rejected
                  | some key ↦ elim (validate_combo_type (get_combo_type key)) [
                    | some e ↦ rejected
                    | none ↦ elim (sync_flags r) [
                      | none ↦ rejected
                      | some flags ↦ exact_rule key (exact_value action flags r)
                    ]
                  ]
                ]
              ]
      ]

unfoldable pub has_cidr : Rule → Bool
unfolding is_empty
has_cidr r = not (is_empty r.src_cidr) || not (is_empty r.dst_cidr)

unfoldable pub route_sync : Rule → SyncRoute
unfolding is_empty has_cidr route_sync_cidr route_sync_exact
route_sync r =
    let has_exact_ip = not (is_empty r.src_ip) || not (is_empty r.dst_ip) in
    if has_cidr r && has_exact_ip then rejected else elim (parse_action r.action) [
      | err e ↦ rejected
      | ok action ↦
          if action == Types.action_rate_limit && leb r.rate_limit 0
          then rejected
          else if has_cidr r
          then route_sync_cidr action r
          else route_sync_exact action r
    ]
