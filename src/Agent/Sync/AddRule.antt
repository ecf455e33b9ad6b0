-- ===== src/Agent/Sync/AddRule.antt =====
-- AddRuleFromSync of node/agent/api/sync.go and addCIDRRuleFromSync of cidr_rules.go: the checks and
-- the calls of the parts under the locks. A `SyncRule` has the fields of a `Rule`.
pub mod Agree
use mathlib.Core.List.{[]}
use Prim.Native.Nat.{ℕ}
use Prim.Native.String.{String}
use xdrop.Prelude.{Bool, Option, some, none, true, if◌then◌else◌, ◌&&◌, ◌==◌, leb}
use xdrop.Cidr.Manager.{Manager}
use xdrop.Agent.Types
use xdrop.Agent.Types.{RuleKey, RuleValue, CidrRuleKey, Rule}
use xdrop.Agent.Combo.{validate_combo_type, get_combo_type}
use xdrop.Agent.Validate.{ok, err, parse_action, validate_rule}
use xdrop.Agent.Convert.{rule_to_key, validate_node_anomaly_fields}
use xdrop.Agent.State.{Handlers, Bpf}
use xdrop.Agent.Rules.{Reply, store_rule, rule_id}
use xdrop.Agent.CidrRules.{
  CidrPlan, check_cidr_rule, sync_flags, reserve_cidr, cidr_rule_value, stored_cidr_rule,
  store_cidr_rule,
}
use xdrop.Agent.Sync.Route.{exact_value, has_cidr}

-- the `Rule` that is made of an exact `SyncRule`
unfoldable pub exact_request : Rule → Rule
exact_request r = record r { src_cidr = []; dst_cidr = [] }

-- the checks of an exact rule, in the order of the code; `none` is a refusal
unfoldable pub check_exact : Rule → Option (RuleKey × RuleValue)
unfolding sync_flags exact_value
check_exact r =
    elim (validate_rule r.src_ip r.dst_ip r.protocol r.src_port r.dst_port r.pkt_len_min
      r.pkt_len_max) [
        | some e ↦ none
        | none ↦ elim (rule_to_key r) [
          | none ↦ none
          | some key ↦ elim (validate_combo_type (get_combo_type key)) [
            | some e ↦ none
            | none ↦ elim (parse_action r.action) [
              | err e ↦ none
              | ok action ↦
                  if action == Types.action_rate_limit && leb r.rate_limit 0
                  then none
                  else elim (validate_node_anomaly_fields r.match_anomaly r.action r.src_ip r.dst_ip
                      r.src_cidr r.dst_cidr) [
                        | some e ↦ none
                        | none ↦ elim (sync_flags r) [
                          | none ↦ none
                          | some flags ↦ some (key, exact_value action flags r)
                        ]
                      ]
            ]
          ]
        ]
      ]

-- the checks of addCIDRRuleFromSync
unfoldable pub check_cidr : {T : Type 0} → Rule → Manager T → Option (CidrPlan × (ℕ × ℕ))
unfolding check_cidr_rule sync_flags
check_cidr r m = elim (check_cidr_rule r m) [
  | none ↦ none
  | some plan ↦ elim (sync_flags r) [ none ↦ none | some flags ↦ some (plan, flags) ]
]

-- what AddRuleFromSync returns: an error of the checks, or what the part under the locks returns
pub data SyncReply : Type 0 where
  refused : SyncReply
  replied : Reply → SyncReply

module _ {M C T : Type 0} (bpf : Bpf M C T) where
  open bpf use {tries}

  unfoldable pub store_checked :
      Handlers M C T → String → Rule → Option (RuleKey × RuleValue) → Handlers M C T × SyncReply
  unfolding store_rule
  store_checked h new_id r none = (h, refused)
  store_checked h new_id r (some (key, value)) =
      let stored = store_rule bpf h new_id key value r in (stored.0, replied stored.1)

  -- without a key, the numbers are already back
  unfoldable pub store_reserved :
      Handlers M C T
      → String
      → Rule
      → CidrPlan
      → ℕ × ℕ
      → Option CidrRuleKey
      → Handlers M C T × SyncReply
  unfolding store_cidr_rule cidr_rule_value stored_cidr_rule rule_id
  store_reserved h new_id r plan flags none = (h, refused)
  store_reserved h new_id r plan flags (some key) =
      let stored =
        store_cidr_rule bpf h (rule_id r new_id) (cidr_rule_value plan flags.0 flags.1 r)
          (stored_cidr_rule plan key r) in
      (stored.0, replied stored.1)

  unfoldable pub store_plan :
      Handlers M C T → String → Rule → Option (CidrPlan × (ℕ × ℕ)) → Handlers M C T × SyncReply
  unfolding store_reserved reserve_cidr
  store_plan h new_id r none = (h, refused)
  store_plan h new_id r (some (plan, flags)) =
      let reserved = reserve_cidr tries plan r h.cidr_mgr in
      store_reserved (record h { cidr_mgr = reserved.0 }) new_id r plan flags reserved.1

  unfoldable pub add_rule_from_sync : Handlers M C T → String → Rule → Handlers M C T × SyncReply
  unfolding has_cidr store_plan check_cidr store_checked check_exact exact_request
  add_rule_from_sync h new_id r =
      if has_cidr r
      then store_plan h new_id r (check_cidr r h.cidr_mgr)
      else store_checked h new_id (exact_request r) (check_exact (exact_request r))
