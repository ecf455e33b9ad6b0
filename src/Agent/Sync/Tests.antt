-- ===== src/Agent/Sync/Tests.antt =====
-- The properties of the synchronisation, on maps that are association lists.
use Prim.Native.String.{String}
use mathlib.Core.List.{List, [], ◌∷◌}
use xdrop.Prelude.{nat_eq, Option, none, some, refl, ◌≡◌, ◌≢◌, arith, true, false, sym, ◌∙◌}
use xdrop.Prelude.Text.{codes, text_eq, string_eq}
use xdrop.Prelude.GoMap.{is_in}
use xdrop.Ebpf.Lists.{list_ops-MapLaws, list_iterate}
use xdrop.Agent.Fixture.{bpf, request, fresh}
use xdrop.Agent.Types.{WhitelistEntry, Rule, StoredCidrRule}
use xdrop.Prelude.Text.{Text, text_beq}
use xdrop.Net.{parse_ip, parse_cidr}
use xdrop.Net.Print.{net_to_string}
use xdrop.Ebpf.Lists.{list_update, list_lookup, list_iterate}
use xdrop.Agent.Combo.{validate_combo_type, get_combo_type}
use xdrop.Agent.Validate.{
  htons, parse_protocol, parse_protocol_strict, parse_tcp_flags, parse_action, validate_rule,
  is_portless, validate_port_protocol_compat_node,
}
use xdrop.Agent.Convert.{rule_to_key, whitelist_to_key, validate_node_anomaly_fields}
use xdrop.Agent.Config.{
  active_map, shadow_map, shadow_whitelist, set_shadow_whitelist, shadow_blacklist,
  shadow_cidr_blacklist, set_shadow_blacklist, set_shadow_cidr_blacklist,
}
use xdrop.Agent.Rules.{rule_id}
use xdrop.Agent.Cidrs.{normalize_side}
use xdrop.Cidr.Manager.{normalize_cidr}
use xdrop.Agent.Sync.Whitelist.{do_whitelist_atomic_sync, synced, invalid}
use xdrop.Agent.Sync.Whitelist.Atomic
use xdrop.Agent.Sync.Whitelist.Atomic.{sync_failed-seen}
use xdrop.Agent.Sync.Whitelist.Synced.{IsSynced, synced-IsSynced}
use xdrop.Agent.Sync.Rules.{do_atomic_sync}
use xdrop.Agent.Sync.Rules.Abort
use xdrop.Agent.Sync.Rules.Abort.{aborted-seen}
use xdrop.Agent.Sync.Rules.WantedCidr.{wanted_cidr}
use xdrop.Agent.Sync.Rules.Built.{IsDistinct}
use xdrop.Agent.Sync.Rules.Install.{IsInstalled, do_atomic_sync-IsInstalled}
use xdrop.Agent.Sync.Rules.Configured.{IsConfigured, do_atomic_sync-IsConfigured}
use xdrop.Agent.Sync.Route.{has_cidr, route_sync}
use xdrop.Agent.Sync.AddRule.{check_exact, exact_request}
use xdrop.Agent.Sync.AddRule.Agree.{as_exact, check_exact-route_sync}

abbrev entry : WhitelistEntry
entry = record {
  id = "dns";
  src_ip = [];
  dst_ip = codes "10.0.0.1";
  src_port = 0;
  dst_port = 53;
  protocol = "udp";
}

abbrev entries : List WhitelistEntry
entries = entry ∷ []

whitelist_synced : (do_whitelist_atomic_sync bpf entries fresh).1 ≡ synced
unfolding do_whitelist_atomic_sync whitelist_to_key parse_ip parse_protocol_strict
    validate_combo_type get_combo_type htons validate_port_protocol_compat_node is_portless
    list_iterate shadow_whitelist list_update list_lookup active_map set_shadow_whitelist shadow_map
whitelist_synced = refl

shadow_listed : (bpf.maps.iterate (shadow_whitelist fresh)).1 ≡ true
unfolding list_iterate
shadow_listed = refl

synced-IsSynced_example : IsSynced bpf entries (do_whitelist_atomic_sync bpf entries fresh).0
synced-IsSynced_example =
    synced-IsSynced bpf list_ops-MapLaws entries fresh shadow_listed whitelist_synced

-- a request that has an id twice
abbrev twice : List WhitelistEntry
twice = entry ∷ entry ∷ []

whitelist_invalid : (do_whitelist_atomic_sync bpf twice fresh).1 ≡ invalid
unfolding do_whitelist_atomic_sync whitelist_to_key parse_ip parse_protocol_strict
    validate_combo_type get_combo_type htons validate_port_protocol_compat_node is_portless
whitelist_invalid = refl

whitelist_not_synced : (do_whitelist_atomic_sync bpf twice fresh).1 ≢ synced
whitelist_not_synced h = (let never : invalid ≡ synced = sym whitelist_invalid ∙ h in cc)

sync_failed-seen_example :
    Atomic.seen (do_whitelist_atomic_sync bpf twice fresh).0 ≡ Atomic.seen fresh
sync_failed-seen_example = sync_failed-seen bpf twice fresh whitelist_not_synced

abbrev rules : List (String × Rule)
rules = ("new", request) ∷ []

rules-IsDistinct : IsDistinct [] rules
unfolding is_in
rules-IsDistinct = (refl, tt)

rules_synced : (do_atomic_sync bpf rules fresh).1.ok ≡ true
unfolding do_atomic_sync text_beq parse_action validate_rule is_portless
    validate_node_anomaly_fields rule_to_key parse_ip validate_combo_type get_combo_type htons
    parse_protocol parse_tcp_flags list_update list_lookup list_iterate active_map shadow_map
    shadow_blacklist shadow_cidr_blacklist set_shadow_blacklist set_shadow_cidr_blacklist
rules_synced = refl

do_atomic_sync-IsInstalled_example : IsInstalled bpf rules (do_atomic_sync bpf rules fresh).0
do_atomic_sync-IsInstalled_example =
    do_atomic_sync-IsInstalled bpf list_ops-MapLaws rules fresh rules-IsDistinct rules_synced

-- a rule for a CIDR that is not written in normal form
abbrev net_rule : Rule
net_rule = record request { id = "net"; dst_ip = []; dst_cidr = codes "10.1.2.3/16" }

cidr_of : Option StoredCidrRule → Text
cidr_of none = []
cidr_of (some s) = s.dst_cidr

net_wanted : cidr_of (wanted_cidr "net" (("", net_rule) ∷ rules)) ≡ codes "10.1.0.0/16"
unfolding cidr_of wanted_cidr text_beq parse_cidr net_to_string rule_id has_cidr normalize_side
    normalize_cidr
net_wanted = refl

do_atomic_sync-IsConfigured_example :
    IsConfigured bpf (do_atomic_sync bpf rules fresh).1 (do_atomic_sync bpf rules fresh).0
do_atomic_sync-IsConfigured_example =
    do_atomic_sync-IsConfigured bpf list_ops-MapLaws rules fresh (omega arith) rules_synced

-- a request with a rule that has no such action
abbrev bad_rules : List (String × Rule)
bad_rules = ("new", request) ∷ ("other", record request { id = "bad"; action = "log" }) ∷ []

rules_aborted : (do_atomic_sync bpf bad_rules fresh).1.ok ≡ false
unfolding do_atomic_sync text_beq parse_action validate_rule is_portless
    validate_node_anomaly_fields rule_to_key parse_ip validate_combo_type get_combo_type htons
    parse_protocol parse_tcp_flags list_update list_lookup list_iterate active_map shadow_map
    shadow_blacklist shadow_cidr_blacklist set_shadow_blacklist set_shadow_cidr_blacklist
rules_aborted = refl

aborted-seen_example : Abort.seen (do_atomic_sync bpf bad_rules fresh).0 ≡ Abort.seen fresh
aborted-seen_example = aborted-seen bpf bad_rules fresh rules_aborted

exact_request_only : has_cidr request ≡ false
unfolding has_cidr text_beq
exact_request_only = refl

check_exact-route_sync_example : check_exact (exact_request request) ≡ as_exact (route_sync request)
check_exact-route_sync_example = check_exact-route_sync request exact_request_only
