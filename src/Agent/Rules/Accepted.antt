-- ===== src/Agent/Rules/Accepted.antt =====
-- What AddRule of node/agent/api/rules_mutation.go lets through to the rule store.
use xdrop.Agent.Types
use xdrop.Agent.Types.{RuleKey, RuleValue, Rule}
use xdrop.Agent.Combo.{validate_combo_type, get_combo_type}
use xdrop.Agent.Validate.{validate_rule}
use xdrop.Agent.Convert.{rule_to_key, validate_node_anomaly_fields}
use xdrop.Agent.Rules.{exact_rule, route_exact, ℕ, none, some}
use xdrop.Prelude.{◌≡◌, arith, ◌<◌}

-- what an exact rule that passes the checks has
pub record IsAccepted (key : RuleKey) (value : RuleValue) (req : Rule) : Type 0 where
  pub combo : validate_combo_type (get_combo_type key) ≡ none
  pub rate : value.action ≡ Types.action_rate_limit → 0 < value.rate_limit
  pub fields :
      validate_rule req.src_ip req.dst_ip req.protocol req.src_port req.dst_port req.pkt_len_min
        req.pkt_len_max
      ≡ none
  pub addressed : rule_to_key req ≡ some key
  pub anomaly :
      validate_node_anomaly_fields req.match_anomaly req.action req.src_ip req.dst_ip req.src_cidr
        req.dst_cidr
      ≡ none

-- An exact rule that passes the checks has a key made of its addresses, ports and protocol, with a
-- combo that the bitmap can hold; it passes the checks of its fields and of its anomaly bits; and a
-- rule that limits a rate has a rate.
pub route_exact-IsAccepted :
    (m v : ℕ) (req r : Rule) (key : RuleKey) (value : RuleValue)
    → route_exact m v req ≡ exact_rule key value r
    → IsAccepted key value req
unfolding route_exact
route_exact-IsAccepted m v req r key value h = record {
  combo = ground arith;
  rate = λ e. ground arith;
  fields = ground arith;
  addressed = ground arith;
  anomaly = ground arith;
}
