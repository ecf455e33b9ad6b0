-- ===== src/Agent/Rules.antt =====
-- node/agent/api/rules_mutation.go: the handlers that add and delete one rule. `route_rule` is the
-- part of AddRule before the locks, `store_rule` the part under them; a request with a CIDR leaves
-- `route_rule` for addCIDRRule of cidr_rules.go.
pub mod Delete
pub mod Batch
pub mod AddBatch
pub mod Frame
pub mod Invariant
pub mod Accepted
pub mod Visible
mod Tests
use mathlib.Core.List.{[]}
use xdrop.Prelude.GoMap.{GoMap, lookup, insert, delete}
use xdrop.Prelude.Int.{ℤ, pos, negsuc}
use xdrop.Prelude.Text.{Text, codes, string_eq, text_eq}
use xdrop.Prelude.Bytes.{Bytes}
use xdrop.Ebpf.{MapOps, update_no_exist}
use xdrop.Cidr.Manager.{Manager, release_src_id, release_dst_id}
use xdrop.Agent.Types
use xdrop.Agent.Types.{
  RuleKey, RuleValue, CidrRuleKey, StoredRule, StoredCidrRule, Rule, rule_key_eq, cidr_rule_key_eq,
}
use xdrop.Agent.Combo.{validate_combo_type, get_combo_type, get_cidr_combo_type}
use xdrop.Agent.Wire.{rule_key_to_bytes, cidr_rule_key_to_bytes, rule_value_to_bytes}
use xdrop.Agent.Validate.{
  Result, ok, err, parse_tcp_flags, tcp_flags_to_string, parse_action, validate_rule,
}
use xdrop.Agent.Cidrs.{is_empty}
use xdrop.Agent.Convert.{rule_to_key, validate_node_anomaly_fields, rule_value_from_stored}
use xdrop.Agent.Store.{count_combo}
use xdrop.Agent.State.{Handlers, Bpf}
use xdrop.Agent.Config.{
  active_blacklist, set_active_blacklist, active_cidr_blacklist, set_active_cidr_blacklist,
  publish_config_update,
}
use Prim.Native.Nat.{ℕ}
use Prim.Native.String.{String, []}
use xdrop.Prelude.{Bool, Option, if◌then◌else◌, not, ◌||◌, true, some, false, ◌&&◌, none, ◌==◌, leb}

-- where a request goes: it is refused, it is one of addCIDRRule with the parsed flags, or it is
-- an exact rule with its key and its value
pub data Route : Type 0 where
  bad_request : Route
  cidr_rule : ℕ → ℕ → Rule → Route
  exact_rule : RuleKey → RuleValue → Rule → Route

-- the checks of an exact rule, in the order of the code
unfoldable pub route_exact : ℕ → ℕ → Rule → Route
route_exact flags_mask flags_value req =
    elim (validate_rule req.src_ip req.dst_ip req.protocol req.src_port req.dst_port req.pkt_len_min
      req.pkt_len_max) [
        | some e ↦ bad_request
        | none ↦ elim (rule_to_key req) [
          | none ↦ bad_request
          | some key ↦ elim (validate_combo_type (get_combo_type key)) [
            | some e ↦ bad_request
            | none ↦ elim (parse_action req.action) [
              | err e ↦ bad_request
              | ok action ↦
                  if action == Types.action_rate_limit && leb req.rate_limit 0
                  then bad_request
                  else elim (validate_node_anomaly_fields req.match_anomaly req.action req.src_ip
                      req.dst_ip req.src_cidr req.dst_cidr) [
                        | some e ↦ bad_request
                        | none ↦
                            exact_rule key
                              (record {
                                action = action;
                                tcp_flags_mask = flags_mask;
                                tcp_flags_value = flags_value;
                                match_anomaly = req.match_anomaly;
                                rate_limit = req.rate_limit;
                                match_count = 0;
                                drop_count = 0;
                                pkt_len_min = req.pkt_len_min;
                                pkt_len_max = req.pkt_len_max;
                              })
                              req
                      ]
            ]
          ]
        ]
      ]

unfoldable pub route_rule : Rule → Route
unfolding is_empty route_exact
route_rule req =
    let has_cidr = not (is_empty req.src_cidr) || not (is_empty req.dst_cidr) in
    let has_exact_ip = not (is_empty req.src_ip) || not (is_empty req.dst_ip) in
    if has_cidr && has_exact_ip then bad_request else elim (parse_tcp_flags req.tcp_flags) [
      | err e ↦ bad_request
      | ok (flags_mask, flags_value) ↦
          let req' = record req { tcp_flags = tcp_flags_to_string flags_mask flags_value } in
          if not (flags_mask == 0) && not (string_eq.beq req.protocol "tcp")
          then bad_request
          else if has_cidr
          then cidr_rule flags_mask flags_value req'
          else route_exact flags_mask flags_value req'
    ]

-- the status that a handler answers with
pub data Reply : Type 0 where
  success : String → Reply
  conflict internal_error not_found : Reply

-- `uuid.New().String()` is `new_id`
unfoldable pub rule_id : Rule → String → String
rule_id req new_id = if string_eq.beq req.id "" then new_id else req.id

unfoldable pub stored_rule : RuleKey → Rule → StoredRule
stored_rule key req = record {
  key = key;
  action = req.action;
  rate_limit = req.rate_limit;
  pkt_len_min = req.pkt_len_min;
  pkt_len_max = req.pkt_len_max;
  tcp_flags = req.tcp_flags;
  match_anomaly = req.match_anomaly;
}

-- the count of the rules does not change where one is replaced
unfoldable pub count_delta : Option StoredRule → ℤ
count_delta none = pos 1
count_delta (some old) = pos 0

-- `existingID, ok := h.ruleKeyIndex[key]; ok && existingID != id`
unfoldable pub is_taken : Option String → String → Bool
is_taken none id = false
is_taken (some existing_id) id = not (string_eq.beq existing_id id)

module _ {M C T : Type 0} where
  -- the assignments of step 3, and those that take a rule back
  unfoldable pub unindex_rule : StoredRule → Handlers M C T → Handlers M C T
  unfolding count_combo delete
  unindex_rule s h = record h {
    combo_ref_count = count_combo (get_combo_type s.key) (negsuc 0) h.combo_ref_count;
    rule_key_index = delete s.key h.rule_key_index;
  }

  unfoldable pub put_rule : String → StoredRule → Handlers M C T → Handlers M C T
  unfolding count_combo insert
  put_rule id s h = record h {
    combo_ref_count = count_combo (get_combo_type s.key) (pos 1) h.combo_ref_count;
    rules = insert id s h.rules;
    rule_key_index = insert s.key id h.rule_key_index;
  }

  unfoldable pub remove_rule : String → StoredRule → Handlers M C T → Handlers M C T
  unfolding count_combo delete
  remove_rule id s h = record h {
    combo_ref_count = count_combo (get_combo_type s.key) (negsuc 0) h.combo_ref_count;
    rules = delete id h.rules;
    rule_key_index = delete s.key h.rule_key_index;
  }

  -- step 3: the old rule of the id, if there is one, makes place for the new one
  unfoldable pub replace_rule :
      String → Option StoredRule → StoredRule → Handlers M C T → Handlers M C T
  unfolding unindex_rule put_rule
  replace_rule id none s h = put_rule id s h
  replace_rule id (some old) s h = put_rule id s (unindex_rule old h)

module _ {M C T : Type 0} (bpf : Bpf M C T) where
  open bpf use {maps}

  -- step 2: the entry of an old rule under another key goes; if it stays, the new entry goes
  unfoldable pub drop_old_entry : Option StoredRule → RuleKey → M → M × Bool
  drop_old_entry none key bl = (bl, true)
  drop_old_entry (some old) key bl =
      let deleted = maps.delete bl (rule_key_to_bytes old.key) in
      if rule_key_eq.beq old.key key
      then (bl, true)
      else if deleted.1
      then (deleted.0, true)
      else ((maps.delete deleted.0 (rule_key_to_bytes key)).0, false)

  -- steps 1 and 2
  unfoldable pub write_entry : Option StoredRule → RuleKey → RuleValue → M → M × Bool
  unfolding drop_old_entry
  write_entry old key value bl =
      let inserted =
        maps.update bl update_no_exist (rule_key_to_bytes key) (rule_value_to_bytes value) in
      if inserted.1 then drop_old_entry old key inserted.0 else inserted

  -- the entry of the old rule, written again if it was under another key
  unfoldable pub restore_entry : StoredRule → RuleKey → M → M
  restore_entry old key bl =
      if rule_key_eq.beq old.key key
      then bl
      else (maps.update bl update_no_exist (rule_key_to_bytes old.key)
          (rule_value_to_bytes (rule_value_from_stored old))).0

  unfoldable pub restore_rule :
      String → Option StoredRule → RuleKey → Handlers M C T → Handlers M C T
  unfolding put_rule restore_entry
  restore_rule id none key h = h
  restore_rule id (some old) key h =
      set_active_blacklist (restore_entry old key (active_blacklist h)) (put_rule id old h)

  -- step 4, and the way back where it fails
  unfoldable pub publish_rule :
      String → Option StoredRule → StoredRule → Handlers M C T × Bool → Handlers M C T × Reply
  unfolding restore_rule remove_rule
  publish_rule id old s (h, true) = (h, success id)
  publish_rule id old s (h, false) =
      let bl = (maps.delete (active_blacklist h) (rule_key_to_bytes s.key)).0 in
      (restore_rule id old s.key (remove_rule id s (set_active_blacklist bl h)), internal_error)

  -- steps 1 to 4
  unfoldable pub commit_rule :
      String → Option StoredRule → RuleValue → StoredRule → Handlers M C T → Handlers M C T × Reply
  unfolding write_entry replace_rule publish_rule count_delta
  commit_rule id old value s h =
      let written = write_entry old s.key value (active_blacklist h) in
      let h' = set_active_blacklist written.0 h in
      if written.1
      then publish_rule id old s
          (publish_config_update bpf (replace_rule id old s h') (count_delta old) (pos 0) (pos 0))
      else (h', internal_error)

  unfoldable pub store_rule :
      Handlers M C T → String → RuleKey → RuleValue → Rule → Handlers M C T × Reply
  unfolding is_taken commit_rule
  store_rule h new_id key value req =
      let id = rule_id req new_id in
      if is_taken (lookup key h.rule_key_index) id
      then (h, conflict)
      else commit_rule id (lookup id h.rules) value (stored_rule key req) h
