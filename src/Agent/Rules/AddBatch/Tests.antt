-- ===== src/Agent/Rules/AddBatch/Tests.antt =====
-- AddRulesBatch on maps that are association lists.
use Prim.Native.String.{String}
use mathlib.Core.List.{List, [], ◌∷◌}
use xdrop.Prelude.{nat_eq, refl, ◌≡◌, ◌≢◌, false, none, some, sym, ◌∙◌, Option, ℕ_discrete}
use xdrop.Prelude.Text.{text_eq, string_eq, text_beq}
use xdrop.Prelude.GoMap.{lookup}
use xdrop.Net.{parse_ip}
use xdrop.Ebpf.Lists.{list_ops, list_update, list_lookup, list_delete}
use xdrop.Agent.Types.{RuleKey, RuleKey-discrete, StoredRule, Rule, rule_key_eq}
use xdrop.Agent.Combo.{validate_combo_type, get_combo_type}
use xdrop.Agent.Wire.{rule_key_to_bytes}
use xdrop.Agent.Validate.{
  validate_rule, is_portless, htons, parse_protocol, parse_action, parse_tcp_flags,
}
use xdrop.Agent.Convert.{rule_to_key, validate_node_anomaly_fields}
use xdrop.Agent.State.{Handlers, Bpf}
use xdrop.Agent.Config.{
  active_map, shadow_map, active_blacklist, set_active_blacklist, publish_config_update,
}
use xdrop.Agent.Fixture.{M, C, T, bpf, key, request, fresh, fresh-IsRules}
use xdrop.Agent.Rules.Frame.{IsRules}
use xdrop.Agent.Rules.AddBatch.{
  AddReply, batch_done, publish_failed, add_rules_batch, add_cidr_rules, cidr_rules,
}
use xdrop.Agent.Rules.AddBatch.Phases.{cidr_store}
use xdrop.Agent.Rules.AddBatch.RolledBack.{rolled_back-IsRules}

abbrev batch : List (String × Rule)
batch = ("new", request) ∷ []

batch_added : (add_rules_batch bpf batch fresh).1 ≡ batch_done 1 0
unfolding add_rules_batch text_beq parse_action validate_rule is_portless
    validate_node_anomaly_fields rule_to_key parse_ip validate_combo_type get_combo_type htons
    parse_protocol parse_tcp_flags list_update list_lookup active_map shadow_map active_blacklist
    set_active_blacklist publish_config_update lookup
batch_added = refl

not_taken_back : (add_rules_batch bpf batch fresh).1 ≢ publish_failed
not_taken_back h = (let never : batch_done 1 0 ≡ publish_failed = sym batch_added ∙ h in cc)

-- BPF maps whose config entries cannot be written
abbrev stuck : Bpf M C T
stuck = record bpf { configs = record list_ops { update = λ m flags k v. (m, false) } }

abbrev taken_back : List (String × Rule) → Handlers M C T → Handlers M C T × AddReply
taken_back rs h = add_rules_batch stuck rs h

batch-taken_back : (taken_back batch fresh).1 ≡ publish_failed
unfolding add_rules_batch text_beq parse_action validate_rule is_portless
    validate_node_anomaly_fields rule_to_key parse_ip validate_combo_type get_combo_type htons
    parse_protocol parse_tcp_flags list_update list_lookup list_delete active_map shadow_map
    active_blacklist set_active_blacklist publish_config_update lookup
batch-taken_back = refl

rolled_back-IsRules_example :
    IsRules (taken_back batch fresh).0
    × ((j : String) → lookup j (taken_back batch fresh).0.rules ≡ lookup j fresh.rules)
    × (cidr_store (taken_back batch fresh).0
        ≡ cidr_store (add_cidr_rules stuck (cidr_rules batch) (0, 0) fresh).0)
rolled_back-IsRules_example =
    rolled_back-IsRules stuck batch fresh fresh-IsRules (λ j here. unfold lookup in refl)
      batch-taken_back

-- a batch that moves the rule "web" to another port and gives its key to a new rule
abbrev swapping : List (String × Rule)
swapping = ("", record request { dst_port = 443 }) ∷ ("", record request { id = "other" }) ∷ []

abbrev with_web : Handlers M C T
with_web = (add_rules_batch bpf batch fresh).0

-- Where that batch is taken back, "web" is remembered with its key, but the index does not name it.
web_unindexed : lookup key (taken_back swapping with_web).0.rule_key_index ≡ none
unfolding add_rules_batch text_beq parse_action validate_rule is_portless
    validate_node_anomaly_fields rule_to_key parse_ip validate_combo_type get_combo_type htons
    parse_protocol parse_tcp_flags list_update list_lookup list_delete active_map shadow_map
    active_blacklist set_active_blacklist publish_config_update lookup rule_key_to_bytes
    RuleKey-discrete ℕ_discrete
web_unindexed = refl

key_of : Option StoredRule → Option RuleKey
key_of none = none
key_of (some s) = some s.key

web_remembered : key_of (lookup "web" (taken_back swapping with_web).0.rules) ≡ some key
unfolding add_rules_batch text_beq parse_action validate_rule is_portless
    validate_node_anomaly_fields rule_to_key parse_ip validate_combo_type get_combo_type htons
    parse_protocol parse_tcp_flags list_update list_lookup list_delete active_map shadow_map
    active_blacklist set_active_blacklist publish_config_update lookup rule_key_to_bytes key_of
    RuleKey-discrete ℕ_discrete
web_remembered = refl
