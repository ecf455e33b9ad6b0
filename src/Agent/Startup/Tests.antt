-- ===== src/Agent/Startup/Tests.antt =====
-- The properties of the start, on maps that are association lists.
use Prim.Native.Nat.{ℕ, zero, suc, ◌≤◌}
use mathlib.Core.List.{[], ◌∷◌}
use xdrop.Prelude.{nat_eq, refl, ◌≡◌, ◌↔◌, subst, true, false, none, some}
use xdrop.Prelude.Int.{pos}
use xdrop.Prelude.Text.{codes, text_eq, string_eq, text_beq}
use xdrop.Prelude.GoMap.{is_in}
use xdrop.Ebpf.Lists.{list_ops-MapLaws, list_iterate, list_update, list_lookup}
use xdrop.Agent.Fixture.{bpf, fresh, M}
use xdrop.Agent.Types.{WhitelistEntry}
use xdrop.Net.{parse_ip}
use xdrop.Agent.Combo.{validate_combo_type, get_combo_type}
use xdrop.Agent.Validate.{
  htons, parse_protocol, parse_protocol_strict, parse_tcp_flags, parse_action, validate_rule,
  is_portless, validate_port_protocol_compat_node,
}
use xdrop.Agent.Convert.{rule_to_key, whitelist_to_key, validate_node_anomaly_fields}
use xdrop.Agent.Config.{
  active_map, shadow_map, shadow_whitelist, set_shadow_whitelist, shadow_blacklist,
  shadow_cidr_blacklist, set_shadow_blacklist, set_shadow_cidr_blacklist,
}
use xdrop.Agent.Sync.Rules.{do_atomic_sync}
use xdrop.Agent.Sync.Rules.Built.{IsDistinct}
use xdrop.Agent.Sync.Rules.Install.{shown}
use xdrop.Agent.Sync.Whitelist.{do_whitelist_atomic_sync}
use xdrop.Agent.Startup.{Rule, Fetched, api_rules, sync_on_startup}
use xdrop.Agent.Startup.Rounds.{round_ok, sync_on_startup_iff, not_started-shown}
use xdrop.Agent.Startup.Started.{IsStarted, SendsDistinct, sync_on_startup-IsStarted}

abbrev rule : Rule
rule = record {
  id = "web";
  src_ip = [];
  dst_ip = codes "10.0.0.1";
  src_cidr = [];
  dst_cidr = [];
  src_port = 0;
  dst_port = 80;
  protocol = "tcp";
  action = "drop";
  rate_limit = 0;
  pkt_len_min = 0;
  pkt_len_max = 0;
  tcp_flags = [];
  match_anomaly = 0;
}

abbrev entry : WhitelistEntry
entry = record {
  id = "dns";
  src_ip = [];
  dst_ip = codes "10.0.0.1";
  src_port = 0;
  dst_port = 53;
  protocol = "udp";
}

-- a controller that fails once and then answers
abbrev recovering : ℕ → Fetched
recovering zero = record { rules = none; whitelist = none }
recovering (suc k) = record { rules = some (("new", rule) ∷ []); whitelist = some (entry ∷ []) }

-- a controller that never sends its whitelist
abbrev silent : ℕ → Fetched
silent k = record { rules = some (("new", rule) ∷ []); whitelist = none }

recovering-SendsDistinct : (k : ℕ) → SendsDistinct (recovering k)
unfolding api_rules is_in
recovering-SendsDistinct zero rules sent = cc
recovering-SendsDistinct (suc k) rules sent =
    let same : ("new", rule) ∷ [] ≡ rules = cc in
    subst (λ rs. IsDistinct [] (api_rules rs)) same (refl, tt)

listing : (m : M) → (bpf.maps.iterate m).1 ≡ true
unfolding list_iterate
listing m = refl

recovered : (sync_on_startup bpf (pos 3) recovering fresh).1 ≡ true
unfolding sync_on_startup api_rules do_atomic_sync do_whitelist_atomic_sync whitelist_to_key
    text_beq parse_action validate_rule is_portless validate_port_protocol_compat_node
    validate_node_anomaly_fields rule_to_key parse_ip validate_combo_type get_combo_type htons
    parse_protocol parse_protocol_strict parse_tcp_flags list_update list_lookup list_iterate
    active_map shadow_map shadow_blacklist shadow_cidr_blacklist set_shadow_blacklist
    set_shadow_cidr_blacklist shadow_whitelist set_shadow_whitelist
recovered = refl

sync_on_startup-IsStarted_example :
    (k : ℕ) × IsStarted bpf (recovering k) (sync_on_startup bpf (pos 3) recovering fresh).0
sync_on_startup-IsStarted_example =
    sync_on_startup-IsStarted bpf list_ops-MapLaws listing (pos 3) recovering fresh
      recovering-SendsDistinct recovered

sync_on_startup_iff_example :
    ((sync_on_startup bpf (pos 3) recovering fresh).1 ≡ true)
    ↔ ((k : ℕ) × (k ≤ 3) × (round_ok bpf k 0 recovering fresh ≡ true))
sync_on_startup_iff_example = sync_on_startup_iff bpf 3 recovering fresh

gave_up : (sync_on_startup bpf (pos 3) silent fresh).1 ≡ false
unfolding sync_on_startup
gave_up = refl

not_started-shown_example : shown (sync_on_startup bpf (pos 3) silent fresh).0 ≡ shown fresh
not_started-shown_example = not_started-shown bpf (pos 3) silent fresh gave_up
