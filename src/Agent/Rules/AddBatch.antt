-- ===== src/Agent/Rules/AddBatch.antt =====
-- AddRulesBatch of node/agent/api/rules_mutation.go: CIDR rules one by one, then the exact rules under
-- one publication, which takes all of them back where it fails.
pub mod Invariant
pub mod Items
pub mod Phases
pub mod RolledBack
mod Tests
use mathlib.Core.List.{List, [], ◌∷◌}
use Prim.Native.Nat.{ℕ, zero, suc}
use Prim.Native.String.{String}
use xdrop.Prelude.{
  Bool, true, false, not, Option, some, none, if◌then◌else◌, ◌==◌, ◌+◌, ◌&&◌, leb, length,
}
use xdrop.Prelude.GoMap.{lookup}
use xdrop.Prelude.Int.{pos}
use xdrop.Prelude.Text.{string_eq}
use xdrop.Agent.Types
use xdrop.Agent.Types.{RuleKey, RuleValue, StoredRule, Rule, rule_key_eq}
use xdrop.Agent.Combo.{validate_combo_type, get_combo_type}
use xdrop.Agent.Wire.{rule_key_to_bytes}
use xdrop.Agent.Validate.{
  ok, err, parse_action, parse_tcp_flags, tcp_flags_to_string, validate_rule,
}
use xdrop.Agent.Convert.{rule_to_key, validate_node_anomaly_fields}
use xdrop.Agent.State.{Handlers, Bpf}
use xdrop.Agent.Config.{active_blacklist, set_active_blacklist, publish_config_update}
use xdrop.Agent.Rules.{
  success, conflict, internal_error, not_found, rule_id, stored_rule, is_taken, write_entry,
  replace_rule, remove_rule, restore_rule,
}
use xdrop.Agent.Sync.Route.{exact_value, has_cidr}
use xdrop.Agent.Sync.AddRule.{SyncReply, refused, replied, check_cidr, store_plan}

-- `preparedRule`: the rule is kept as it will be stored
pub record Prepared : Type 0 where
  pub id : String
  pub stored : StoredRule
  pub value : RuleValue

-- the checks of an exact rule from its action on
prepare_value : String → RuleKey → ℕ × ℕ → Rule → Option Prepared
unfolding rule_id stored_rule exact_value
prepare_value new_id key flags r = elim (parse_action r.action) [
  | err e ↦ none
  | ok action ↦
      if action == Types.action_rate_limit && leb r.rate_limit 0
      then none
      else some (record {
        id = rule_id r new_id;
        stored = stored_rule key (record r { tcp_flags = tcp_flags_to_string flags.0 flags.1 });
        value = exact_value action flags r;
      })
]

prepare_key : String → ℕ × ℕ → Rule → Option Prepared
unfolding prepare_value
prepare_key new_id flags r = elim (rule_to_key r) [
  | none ↦ none
  | some key ↦ elim (validate_combo_type (get_combo_type key)) [
    | some e ↦ none
    | none ↦ prepare_value new_id key flags r
  ]
]

-- the checks of an exact rule, in the order of the code; `none` is counted as failed
unfoldable pub prepare_rule : String → Rule → Option Prepared
unfolding prepare_key
prepare_rule new_id r =
    elim (validate_rule r.src_ip r.dst_ip r.protocol r.src_port r.dst_port r.pkt_len_min
      r.pkt_len_max) [
        | some e ↦ none
        | none ↦
            elim (validate_node_anomaly_fields r.match_anomaly r.action r.src_ip r.dst_ip r.src_cidr
              r.dst_cidr) [
                | some e ↦ none
                | none ↦ elim (parse_tcp_flags r.tcp_flags) [
                  | err e ↦ none
                  | ok flags ↦
                      if not (flags.0 == 0) && not (string_eq.beq r.protocol "tcp")
                      then none
                      else prepare_key new_id flags r
                ]
              ]
      ]

-- a rule whose id was seen takes the place of the earlier one
unfoldable pub put_prepared : Prepared → List Prepared → List Prepared
put_prepared p [] = p ∷ []
put_prepared p (q ∷ ps) = if string_eq.beq q.id p.id then p ∷ ps else q ∷ put_prepared p ps

keep_prepared : Option Prepared → List Prepared × ℕ → List Prepared × ℕ
unfolding put_prepared
keep_prepared none (ps, failed) = (ps, suc failed)
keep_prepared (some p) (ps, failed) = (put_prepared p ps, failed)

-- the loop over the exact rules, with the failures so far
unfoldable pub prepare_rules : List (String × Rule) → List Prepared × ℕ → List Prepared × ℕ
unfolding keep_prepared prepare_rule
prepare_rules [] acc = acc
prepare_rules ((new_id, r) ∷ rs) acc = prepare_rules rs (keep_prepared (prepare_rule new_id r) acc)

-- the rules without CIDRs, and those with
unfoldable pub exact_rules : List (String × Rule) → List (String × Rule)
unfolding has_cidr
exact_rules [] = []
exact_rules ((new_id, r) ∷ rs) =
    let rest = exact_rules rs in if has_cidr r then rest else (new_id, r) ∷ rest

unfoldable pub cidr_rules : List (String × Rule) → List (String × Rule)
unfolding has_cidr
cidr_rules [] = []
cidr_rules ((new_id, r) ∷ rs) =
    let rest = cidr_rules rs in if has_cidr r then (new_id, r) ∷ rest else rest

-- `succeededItem`
pub record Item : Type 0 where
  pub id : String
  pub stored : StoredRule
  pub old_stored : Option StoredRule

-- the items that succeeded, in their order, and the number of the failures
pub record Applied : Type 0 where
  pub succeeded : List Item
  pub failed : ℕ

unfoldable pub record_applied : Item → Bool → Applied → Applied
record_applied item true applied = record applied { succeeded = item ∷ applied.succeeded }
record_applied item false applied = record applied { failed = suc applied.failed }

is_new : Option StoredRule → ℕ
is_new none = 1
is_new (some old) = 0

unfoldable pub net_new : List Item → ℕ
unfolding is_new
net_new [] = 0
net_new (item ∷ items) = is_new item.old_stored + net_new items

pub data AddReply : Type 0 where
  batch_done : ℕ → ℕ → AddReply  -- added and failed
  publish_failed : AddReply

is_added : SyncReply → Bool
is_added refused = false
is_added (replied (success id)) = true
is_added (replied conflict) = false
is_added (replied internal_error) = false
is_added (replied not_found) = false

module _ {M C T : Type 0} (bpf : Bpf M C T) where
  open bpf use {maps}

  -- the loop over the CIDR rules, with the numbers of the added and of the failed ones
  unfoldable pub add_cidr_rules :
      List (String × Rule) → ℕ × ℕ → Handlers M C T → Handlers M C T × (ℕ × ℕ)
  unfolding store_plan check_cidr is_added
  add_cidr_rules [] counts h = (h, counts)
  add_cidr_rules ((new_id, r) ∷ rs) counts h =
      let result = store_plan bpf h new_id r (check_cidr r h.cidr_mgr) in
      add_cidr_rules rs
        (if is_added result.1 then (suc counts.0, counts.1) else (counts.0, suc counts.1)) result.0

  -- one round of the loop under the locks
  unfoldable pub apply_rule : Prepared → Option StoredRule → Handlers M C T → Handlers M C T × Bool
  unfolding is_taken write_entry replace_rule
  apply_rule p old h =
      let written = write_entry bpf old p.stored.key p.value (active_blacklist h) in
      let h' = set_active_blacklist written.0 h in
      if is_taken (lookup p.stored.key h.rule_key_index) p.id
      then (h, false)
      else if written.1
      then (replace_rule p.id old p.stored h', true)
      else (h', false)

  unfoldable pub apply_rules : List Prepared → Handlers M C T → Handlers M C T × Applied
  unfolding apply_rule record_applied
  apply_rules [] h = (h, record { succeeded = []; failed = 0 })
  apply_rules (p ∷ ps) h =
      let old = lookup p.id h.rules in
      let applied = apply_rule p old h in
      let rest = apply_rules ps applied.0 in
      (
        rest.0,
        record_applied (record { id = p.id; stored = p.stored; old_stored = old }) applied.1 rest.1,
      )

  -- one round of the rollback
  unfoldable pub roll_back : Item → Handlers M C T → Handlers M C T
  unfolding remove_rule restore_rule
  roll_back item h =
      let bl = (maps.delete (active_blacklist h) (rule_key_to_bytes item.stored.key)).0 in
      restore_rule bpf item.id item.old_stored item.stored.key
        (remove_rule item.id item.stored (set_active_blacklist bl h))

  -- the items are taken back in the order in which they were added
  unfoldable pub roll_back_all : List Item → Handlers M C T → Handlers M C T
  unfolding roll_back
  roll_back_all [] h = h
  roll_back_all (item ∷ items) h = roll_back_all items (roll_back item h)

  unfoldable pub settle_batch :
      List Item → ℕ → ℕ → Handlers M C T × Bool → Handlers M C T × AddReply
  unfolding roll_back_all
  settle_batch items added failed (h, true) = (h, batch_done added failed)
  settle_batch items added failed (h, false) = (roll_back_all items h, publish_failed)

  -- one publication, if something succeeded
  unfoldable pub publish_batch : Handlers M C T × Applied → ℕ × ℕ → Handlers M C T × AddReply
  unfolding settle_batch net_new
  publish_batch (h, applied) (added, failed) =
      let items = applied.succeeded in
      settle_batch items (added + length items) (failed + applied.failed) (
        if length items == 0
        then (h, true)
        else publish_config_update bpf h (pos (net_new items)) (pos 0) (pos 0))

  unfoldable pub add_rules_batch : List (String × Rule) → Handlers M C T → Handlers M C T × AddReply
  unfolding add_cidr_rules cidr_rules exact_rules prepare_rules apply_rules publish_batch
  add_rules_batch rs h =
      let cidrs = add_cidr_rules (cidr_rules rs) (0, 0) h in
      let prepared = prepare_rules (exact_rules rs) ([], cidrs.1.1) in
      publish_batch (apply_rules prepared.0 cidrs.0) (cidrs.1.0, prepared.1)
