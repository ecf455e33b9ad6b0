-- ===== src/Agent/Whitelist/AddBatch/Tests.antt =====
-- AddWhitelistBatch on maps that are association lists.
use Prim.Native.Nat.{ℕ}
use Prim.Native.String.{String}
use mathlib.Core.List.{List, [], ◌∷◌}
use xdrop.Prelude.{nat_eq, ℕ_discrete, refl, ◌≡◌, ◌≢◌, arith, false, sym, ◌∙◌}
use xdrop.Prelude.Text.{codes, text_beq, string_eq}
use xdrop.Prelude.GoMap.{lookup}
use xdrop.Net.{parse_ip}
use xdrop.Ebpf.Lists.{list_ops, list_update, list_lookup, list_delete}
use xdrop.Agent.Types.{WhitelistEntry, RuleKey-discrete}
use xdrop.Agent.Wire.{rule_key_to_bytes}
use xdrop.Agent.Combo.{validate_combo_type, get_combo_type}
use xdrop.Agent.Validate.{
  htons, parse_protocol_strict, validate_port_protocol_compat_node, is_portless,
}
use xdrop.Agent.Convert.{whitelist_to_key}
use xdrop.Agent.State.{Bpf}
use xdrop.Agent.Config.{
  active_map, shadow_map, active_whitelist, set_active_whitelist, publish_config_update,
}
use xdrop.Agent.Fixture.{M, C, T, bpf, fresh}
use xdrop.Agent.Whitelist.{route_whitelist}
use xdrop.Agent.Whitelist.Invariant.{IsWhitelist, wl_view}
use xdrop.Agent.Whitelist.AddBatch.{added_entries, bpf_failed, add_whitelist_batch}
use xdrop.Agent.Whitelist.AddBatch.Added.{or_else, wanted_key, add_whitelist_batch-lookup}
use xdrop.Agent.Whitelist.AddBatch.Invariant.{
  add_whitelist_batch-IsWhitelist, add_whitelist_batch-unchanged,
}

abbrev entry : WhitelistEntry
entry = record {
  id = "dns";
  src_ip = codes "10.0.0.1";
  dst_ip = [];
  src_port = 0;
  dst_port = 53;
  protocol = "udp";
}

abbrev entries : List (String × WhitelistEntry)
entries = ("", entry) ∷ ("new", record entry { id = ""; dst_port = 123 }) ∷ []

empty-IsWhitelist : IsWhitelist fresh
unfolding lookup
empty-IsWhitelist = record {
  unique = tt;
  indexed = λ id s h. ground arith;
  named = λ k id h. ground arith;
  counted = λ c small. refl;
}

both_added : (add_whitelist_batch bpf entries fresh).1 ≡ added_entries 2
unfolding add_whitelist_batch route_whitelist whitelist_to_key parse_ip parse_protocol_strict
    validate_combo_type get_combo_type htons validate_port_protocol_compat_node is_portless
    list_update list_lookup list_delete active_map shadow_map active_whitelist set_active_whitelist
    publish_config_update text_beq lookup RuleKey-discrete ℕ_discrete rule_key_to_bytes
both_added = refl

add_whitelist_batch-IsWhitelist_example : IsWhitelist (add_whitelist_batch bpf entries fresh).0
add_whitelist_batch-IsWhitelist_example =
    add_whitelist_batch-IsWhitelist bpf entries fresh empty-IsWhitelist

add_whitelist_batch-lookup_example :
    lookup "dns" (add_whitelist_batch bpf entries fresh).0.wl_entries
    ≡ or_else (wanted_key "dns" entries) (lookup "dns" fresh.wl_entries)
add_whitelist_batch-lookup_example = add_whitelist_batch-lookup bpf entries fresh 2 "dns" both_added

-- BPF maps whose config entries cannot be written
abbrev stuck_config : Bpf M C T
stuck_config = record bpf { configs = record list_ops { update = λ m flags k v. (m, false) } }

none_added : (add_whitelist_batch stuck_config entries fresh).1 ≡ bpf_failed
unfolding add_whitelist_batch route_whitelist whitelist_to_key parse_ip parse_protocol_strict
    validate_combo_type get_combo_type htons validate_port_protocol_compat_node is_portless
    list_update list_lookup list_delete active_map shadow_map active_whitelist set_active_whitelist
    publish_config_update text_beq lookup RuleKey-discrete ℕ_discrete rule_key_to_bytes
none_added = refl

not_added : (n : ℕ) → (add_whitelist_batch stuck_config entries fresh).1 ≢ added_entries n
not_added n h = (let never : bpf_failed ≡ added_entries n = sym none_added ∙ h in cc)

add_whitelist_batch-unchanged_example :
    wl_view (add_whitelist_batch stuck_config entries fresh).0 ≡ wl_view fresh
add_whitelist_batch-unchanged_example =
    add_whitelist_batch-unchanged stuck_config entries fresh not_added
