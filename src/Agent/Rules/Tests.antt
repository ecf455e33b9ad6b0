-- ===== src/Agent/Rules/Tests.antt =====
-- The properties of the handlers and of the publication, on maps that are association lists.
use xdrop.Net.{parse_ip}
use xdrop.Agent.Combo.{validate_combo_type, get_combo_type}
use xdrop.Agent.Validate.{validate_rule, is_portless, htons, parse_protocol, parse_action}
use xdrop.Agent.Convert.{rule_to_key, validate_node_anomaly_fields}
use xdrop.Agent.Rules.{route_exact, exact_rule}
use xdrop.Prelude.{nat_eq, [], ℕ, arith, ◌≡◌, refl, ◌+◌, ◌<◌, ◌≢◌}
use xdrop.Prelude.GoMap.{lookup}
use xdrop.Prelude.Int.{pos}
use xdrop.Prelude.Text.{text_eq, string_eq}
use xdrop.Prelude.Range.{all_below, all_below_sound}
use xdrop.Prelude.{Bool, Option, some, none, true, false, ◌∷◌}
use xdrop.Agent.Config.{set_active_blacklist}
use xdrop.Ebpf.Lists.{list_update, list_lookup, list_ops-MapLaws}
use xdrop.Cidr.Manager.Entries.{lpm_key_eq}
use xdrop.Agent.Types.{StoredRule}
use xdrop.Agent.Wire.{rule_key_to_bytes, rule_value_to_bytes}
use xdrop.Agent.Wire.Layout.{IsRuleKey}
use xdrop.Agent.State.{Handlers}
use xdrop.Agent.Config.{active_map, shadow_map, active_blacklist, publish_config_update}
use xdrop.Agent.Config.Publish.{published, publish_config_update_done, publish_config_update_failed}
use xdrop.Agent.Rules.{
  success, internal_error, rule_id, stored_rule, store_rule, none, true, String, some, false,
}
use xdrop.Agent.Rules.Frame.{IsRules}
use xdrop.Agent.Rules.Invariant.{store_rule-IsRules}
use xdrop.Agent.Rules.Visible.{Entered, store_rule_done, store_rule_same_key}
use mathlib.Core.List.{List}
use xdrop.Prelude.GoMap.{is_in}
use xdrop.Agent.Rules.Batch.{delete_rules_batch}
use xdrop.Ebpf.Lists.{list_delete}
use xdrop.Prelude.Text.{text_beq}
use xdrop.Agent.Fixture.{M, C, T, bpf, key, request, value, fresh, fresh-IsRules}

abbrev batch : List String
batch = "web" ∷ []

store_rule-IsRules_example : IsRules (store_rule bpf fresh "new" key value request).0
store_rule-IsRules_example = store_rule-IsRules bpf fresh "new" key value request fresh-IsRules

abbrev with_rule : Handlers M C T
with_rule = (store_rule bpf fresh "new" key value request).0

stored : (store_rule bpf fresh "new" key value request).1 ≡ success "web"
unfolding store_rule lookup list_update active_blacklist publish_config_update list_lookup
    active_map set_active_blacklist shadow_map rule_id
stored = refl

key-IsRuleKey : IsRuleKey key
key-IsRuleKey = record {
  src_ip = refl;
  dst_ip = refl;
  src_port = omega arith;
  dst_port = omega arith;
  protocol = omega arith;
}

none_stored : (j : String) (s : StoredRule) → lookup j fresh.rules ≡ some s → IsRuleKey s.key
unfolding lookup
none_stored j s h = ground arith

store_rule_done_example :
    (rule_id request "new" ≡ "web")
    × (lookup (rule_id request "new") with_rule.rules ≡ some (stored_rule key request))
    × Entered bpf list_ops-MapLaws
        (lookup (rule_id request "new") fresh.rules)
        key
        (rule_value_to_bytes value)
        (active_blacklist with_rule)
store_rule_done_example =
    store_rule_done bpf list_ops-MapLaws fresh "new" key value request "web" key-IsRuleKey
      none_stored stored

present : bpf.maps.lookup (active_blacklist with_rule) (rule_key_to_bytes key) ≢ none
present h = let there = store_rule_done_example.2.0 in cc

store_rule_same_key_example : (store_rule bpf with_rule "new" key value request).1 ≡ internal_error
unfolding stored_rule
store_rule_same_key_example =
    store_rule_same_key bpf list_ops-MapLaws with_rule "new" value request (stored_rule key request)
      store_rule-IsRules_example store_rule_done_example.1 present

abbrev is_some : Option ℕ → Bool
is_some none = false
is_some (some v) = true

each_read : all_below 12 (λ j. is_some (bpf.configs.lookup (active_map fresh) j)) ≡ true
unfolding all_below list_lookup active_map
each_read = refl

all_read : (j : ℕ) → j < 12 → bpf.configs.lookup (active_map fresh) j ≢ none
all_read j small h =
    let there =
      all_below_sound 12 (λ k. is_some (bpf.configs.lookup (active_map fresh) k)) j each_read
        small in
    cc (rw h at there)

published_ok : (publish_config_update bpf fresh (pos 1) (pos 0) (pos 0)).1 ≡ true
unfolding publish_config_update list_lookup active_map list_update shadow_map
published_ok = refl

publish_config_update_done_example :
    ((publish_config_update bpf fresh (pos 1) (pos 0) (pos 0)).0.active_slot + 0 ≡ 1)
    × (bpf.configs.lookup
          (publish_config_update bpf fresh (pos 1) (pos 0) (pos 0)).0.active_config
          0
        ≡ some (publish_config_update bpf fresh (pos 1) (pos 0) (pos 0)).0.active_slot)
    × ((j : ℕ)
        → j < 12
        → bpf.configs.lookup
            (active_map (publish_config_update bpf fresh (pos 1) (pos 0) (pos 0)).0)
            j
          ≡ published fresh (pos 1) (pos 0) (pos 0) (bpf.configs.lookup (active_map fresh)) j)
    × (shadow_map (publish_config_update bpf fresh (pos 1) (pos 0) (pos 0)).0 ≡ active_map fresh)
publish_config_update_done_example =
    publish_config_update_done bpf list_ops-MapLaws fresh (pos 1) (pos 0) (pos 0) (omega arith)
      all_read published_ok

-- the selector's map has no entry, so that the last write fails
abbrev unloaded : Handlers M C T
unloaded = record fresh { active_config = [] }

published_not : (publish_config_update bpf unloaded (pos 1) (pos 0) (pos 0)).1 ≡ false
unfolding publish_config_update list_lookup active_map list_update shadow_map
published_not = refl

publish_config_update_failed_example :
    ((publish_config_update bpf unloaded (pos 1) (pos 0) (pos 0)).0.active_slot ≡ 0)
    × (active_map (publish_config_update bpf unloaded (pos 1) (pos 0) (pos 0)).0
        ≡ active_map unloaded)
    × ((j : ℕ)
        → bpf.configs.lookup
            (publish_config_update bpf unloaded (pos 1) (pos 0) (pos 0)).0.active_config
            j
          ≡ bpf.configs.lookup unloaded.active_config j)
publish_config_update_failed_example =
    publish_config_update_failed bpf list_ops-MapLaws unloaded (pos 1) (pos 0) (pos 0) published_not

routed : route_exact 0 0 request ≡ exact_rule key value request
unfolding route_exact validate_rule is_portless rule_to_key parse_ip validate_combo_type
    get_combo_type htons parse_protocol parse_action validate_node_anomaly_fields
routed = refl

batch_deleted : (delete_rules_batch bpf batch with_rule).1.failed ≡ 0
unfolding delete_rules_batch lookup store_rule list_update active_blacklist publish_config_update
    list_lookup active_map set_active_blacklist shadow_map rule_id list_delete text_beq
    rule_key_to_bytes stored_rule
batch_deleted = refl

web_listed : is_in "web" batch ≡ true
unfolding is_in
web_listed = refl
