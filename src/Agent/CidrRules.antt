-- ===== src/Agent/CidrRules.antt =====
-- node/agent/api/cidr_rules.go: addCIDRRule and addCIDRRuleFromSync. Both work in two steps:
-- `reserve_cidr` takes the numbers of the CIDRs from the manager, before the locks of the handlers;
-- `store_cidr_rule` is the part under them, where both functions do the same.
pub mod Invariant
use xdrop.Prelude.GoMap.{GoMap, lookup, insert, delete}
use xdrop.Prelude.Int.{ℤ, pos, negsuc}
use xdrop.Prelude.Text.{Text, string_eq}
use xdrop.Ebpf.{MapOps, update_no_exist}
use xdrop.Cidr.Manager.{LpmKey, Manager, list_src_cidrs, list_dst_cidrs}
use xdrop.Agent.Types
use xdrop.Agent.Types.{CidrRuleKey, RuleValue, StoredRule, StoredCidrRule, Rule, cidr_rule_key_eq}
use xdrop.Agent.Combo.{validate_combo_type, get_cidr_combo_type}
use xdrop.Agent.Wire.{cidr_rule_key_to_bytes, rule_value_to_bytes}
use xdrop.Agent.Validate.{
  Result, ok, err, htons, parse_protocol, parse_action, parse_tcp_flags,
  validate_port_protocol_compat_node,
}
use xdrop.Agent.Cidrs.{is_empty, normalize_side, overlaps, alloc_ids, release_cidrs}
use xdrop.Agent.Convert.{validate_node_anomaly_fields, rule_value_from_stored_cidr}
use xdrop.Agent.Store.{count_combo}
use xdrop.Agent.State.{Handlers, Bpf}
use xdrop.Agent.Config.{active_cidr_blacklist, set_active_cidr_blacklist, publish_config_update}
use xdrop.Agent.Rules.{Reply, success, conflict, internal_error, is_taken, rule_id}
use Prim.Native.Nat.{ℕ}
use Prim.Native.String.{String}
use xdrop.Prelude.{Option, if◌then◌else◌, none, some, Bool, ◌||◌, ◌==◌, not, true, ◌&&◌, false, leb}

-- a request that passed the checks: its action and its CIDRs in normal form
pub record CidrPlan : Type 0 where
  pub action : ℕ
  pub src_cidr : Text
  pub dst_cidr : Text

-- the CIDRs in normal form, if neither conflicts with one in use
unfoldable pub plan_cidrs : {T : Type 0} → ℕ → Rule → Manager T → Option CidrPlan
unfolding normalize_side overlaps
plan_cidrs action req m = elim (normalize_side req.src_cidr) [
  | none ↦ none
  | some src ↦ elim (normalize_side req.dst_cidr) [
    | none ↦ none
    | some dst ↦
        if overlaps src (list_src_cidrs m) || overlaps dst (list_dst_cidrs m)
        then none
        else some (record { action = action; src_cidr = src; dst_cidr = dst })
  ]
]

-- the checks before an allocation; `none` is a refusal
unfoldable pub check_cidr_rule : {T : Type 0} → Rule → Manager T → Option CidrPlan
unfolding plan_cidrs
check_cidr_rule req m = elim (parse_action req.action) [
  | err e ↦ none
  | ok action ↦
      if action == Types.action_rate_limit && leb req.rate_limit 0
      then none
      else elim (validate_node_anomaly_fields req.match_anomaly req.action req.src_ip req.dst_ip
          req.src_cidr req.dst_cidr) [
            | some e ↦ none
            | none ↦
                elim (validate_port_protocol_compat_node req.protocol req.src_port req.dst_port) [
                  | some e ↦ none
                  | none ↦ plan_cidrs action req m
                ]
          ]
]

-- what addCIDRRuleFromSync checks besides: the flags, which it parses itself
unfoldable pub sync_flags : Rule → Option (ℕ × ℕ)
sync_flags req = elim (parse_tcp_flags req.tcp_flags) [
  | err e ↦ none
  | ok (mask, value) ↦
      if not (mask == 0) && not (parse_protocol req.protocol == Types.proto_tcp)
      then none
      else some (mask, value)
]

unfoldable pub cidr_rule_key : Rule → ℕ × ℕ → CidrRuleKey
cidr_rule_key req ids = record {
  src_id = ids.0;
  dst_id = ids.1;
  src_port = htons req.src_port;
  dst_port = htons req.dst_port;
  protocol = parse_protocol req.protocol;
}

module _ {T : Type 0} (ops : MapOps T LpmKey ℕ) where
  -- the key, if it has a combo; without one the numbers go
  unfoldable pub reserve_key :
      CidrPlan → Rule → Manager T × Option (ℕ × ℕ) → Manager T × Option CidrRuleKey
  unfolding cidr_rule_key
  reserve_key plan req (m, none) = (m, none)
  reserve_key plan req (m, some ids) =
      elim (validate_combo_type (get_cidr_combo_type (cidr_rule_key req ids))) [
        | some e ↦ (release_cidrs ops plan.src_cidr plan.dst_cidr m, none)
        | none ↦ (m, some (cidr_rule_key req ids))
      ]

  unfoldable pub reserve_cidr : CidrPlan → Rule → Manager T → Manager T × Option CidrRuleKey
  unfolding reserve_key
  reserve_cidr plan req m = reserve_key plan req (alloc_ids ops plan.src_cidr plan.dst_cidr m)

unfoldable pub cidr_rule_value : CidrPlan → ℕ → ℕ → Rule → RuleValue
cidr_rule_value plan flags_mask flags_value req = record {
  action = plan.action;
  tcp_flags_mask = flags_mask;
  tcp_flags_value = flags_value;
  match_anomaly = req.match_anomaly;
  rate_limit = req.rate_limit;
  match_count = 0;
  drop_count = 0;
  pkt_len_min = req.pkt_len_min;
  pkt_len_max = req.pkt_len_max;
}

unfoldable pub stored_cidr_rule : CidrPlan → CidrRuleKey → Rule → StoredCidrRule
stored_cidr_rule plan key req = record {
  key = key;
  src_cidr = plan.src_cidr;
  dst_cidr = plan.dst_cidr;
  action = req.action;
  rate_limit = req.rate_limit;
  pkt_len_min = req.pkt_len_min;
  pkt_len_max = req.pkt_len_max;
  tcp_flags = req.tcp_flags;
  match_anomaly = req.match_anomaly;
}

-- the count of the rules does not change where one is replaced
unfoldable pub cidr_count_delta : Option StoredCidrRule → ℤ
cidr_count_delta none = pos 1
cidr_count_delta (some old) = pos 0

module _ {M C T : Type 0} where
  unfoldable pub put_cidr_rule : String → StoredCidrRule → Handlers M C T → Handlers M C T
  unfolding count_combo insert
  put_cidr_rule id s h = record h {
    cidr_combo_ref_count = count_combo (get_cidr_combo_type s.key) (pos 1) h.cidr_combo_ref_count;
    cidr_rules = insert id s h.cidr_rules;
    cidr_rule_key_index = insert s.key id h.cidr_rule_key_index;
  }

  unfoldable pub unindex_cidr_rule : StoredCidrRule → Handlers M C T → Handlers M C T
  unfolding count_combo delete
  unindex_cidr_rule s h = record h {
    cidr_combo_ref_count =
        count_combo (get_cidr_combo_type s.key) (negsuc 0) h.cidr_combo_ref_count;
    cidr_rule_key_index = delete s.key h.cidr_rule_key_index;
  }

  unfoldable pub remove_cidr_rule : String → StoredCidrRule → Handlers M C T → Handlers M C T
  unfolding count_combo delete
  remove_cidr_rule id s h = record h {
    cidr_combo_ref_count =
        count_combo (get_cidr_combo_type s.key) (negsuc 0) h.cidr_combo_ref_count;
    cidr_rules = delete id h.cidr_rules;
    cidr_rule_key_index = delete s.key h.cidr_rule_key_index;
  }

  unfoldable pub replace_cidr_rule :
      String → Option StoredCidrRule → StoredCidrRule → Handlers M C T → Handlers M C T
  unfolding unindex_cidr_rule put_cidr_rule
  replace_cidr_rule id none s h = put_cidr_rule id s h
  replace_cidr_rule id (some old) s h = put_cidr_rule id s (unindex_cidr_rule old h)

module _ {M C T : Type 0} (bpf : Bpf M C T) where
  open bpf use {maps, tries}

  -- the references of a rule on its CIDRs go
  unfoldable pub release_rule : StoredCidrRule → Handlers M C T → Handlers M C T
  unfolding release_cidrs
  release_rule s h = record h { cidr_mgr = release_cidrs tries s.src_cidr s.dst_cidr h.cidr_mgr }

  unfoldable pub release_old : Option StoredCidrRule → Handlers M C T → Handlers M C T
  unfolding release_rule
  release_old none h = h
  release_old (some old) h = release_rule old h

  -- step 2
  unfoldable pub drop_old_cidr_entry : Option StoredCidrRule → CidrRuleKey → M → M × Bool
  drop_old_cidr_entry none key bl = (bl, true)
  drop_old_cidr_entry (some old) key bl =
      let deleted = maps.delete bl (cidr_rule_key_to_bytes old.key) in
      if cidr_rule_key_eq.beq old.key key
      then (bl, true)
      else if deleted.1
      then (deleted.0, true)
      else ((maps.delete deleted.0 (cidr_rule_key_to_bytes key)).0, false)

  -- steps 1 and 2
  unfoldable pub write_cidr_entry : Option StoredCidrRule → CidrRuleKey → RuleValue → M → M × Bool
  unfolding drop_old_cidr_entry
  write_cidr_entry old key value bl =
      let inserted =
        maps.update bl update_no_exist (cidr_rule_key_to_bytes key) (rule_value_to_bytes value) in
      if inserted.1 then drop_old_cidr_entry old key inserted.0 else inserted

  -- the old rule, whose numbers were never released, as it was
  unfoldable pub restore_cidr_rule :
      String → Option StoredCidrRule → Handlers M C T → Handlers M C T
  unfolding put_cidr_rule
  restore_cidr_rule id none h = h
  restore_cidr_rule id (some old) h =
      let written =
        maps.update (active_cidr_blacklist h) update_no_exist (cidr_rule_key_to_bytes old.key)
          (rule_value_to_bytes (rule_value_from_stored_cidr old)) in
      put_cidr_rule id old (set_active_cidr_blacklist written.0 h)

  -- step 4, and the way back where it fails
  unfoldable pub publish_cidr_rule :
      String
      → Option StoredCidrRule
      → StoredCidrRule
      → Handlers M C T × Bool
      → Handlers M C T × Reply
  unfolding restore_cidr_rule remove_cidr_rule release_rule release_old
  publish_cidr_rule id old s (h, true) = (release_old old h, success id)
  publish_cidr_rule id old s (h, false) =
      let bl = (maps.delete (active_cidr_blacklist h) (cidr_rule_key_to_bytes s.key)).0 in
      let removed = remove_cidr_rule id s (set_active_cidr_blacklist bl h) in
      (restore_cidr_rule id old (release_rule s removed), internal_error)

  -- steps 1 to 4
  unfoldable pub commit_cidr_rule :
      String
      → Option StoredCidrRule
      → RuleValue
      → StoredCidrRule
      → Handlers M C T
      → Handlers M C T × Reply
  unfolding write_cidr_entry replace_cidr_rule publish_cidr_rule release_rule cidr_count_delta
  commit_cidr_rule id old value s h =
      let written = write_cidr_entry old s.key value (active_cidr_blacklist h) in
      let h' = set_active_cidr_blacklist written.0 h in
      if written.1
      then publish_cidr_rule id old s (
          publish_config_update bpf (replace_cidr_rule id old s h') (pos 0) (pos 0)
            (cidr_count_delta old))
      else (release_rule s h', internal_error)

  unfoldable pub store_cidr_rule :
      Handlers M C T → String → RuleValue → StoredCidrRule → Handlers M C T × Reply
  unfolding is_taken release_rule commit_cidr_rule
  store_cidr_rule h id value s =
      if is_taken (lookup s.key h.cidr_rule_key_index) id
      then (release_rule s h, conflict)
      else commit_cidr_rule id (lookup id h.cidr_rules) value s h
