-- ===== src/Controller/Update/Tests.antt =====
-- Update at concrete rules.
use Prim.Native.Nat.{ℕ, ◌≤◌}
use mathlib.Core.List.{[]}
use xdrop.Prelude.{true, false, some, none, ◌≡◌, ◌≢◌, refl, inl}
use xdrop.Prelude.Int.{pos}
use xdrop.Prelude.GoMap.{lookup}
use xdrop.Prelude.Text.{codes, text_beq, string_eq, text_eq}
use xdrop.Net.{parse_ip, parse_cidr}
use xdrop.Net.Print.{net_to_string}
use xdrop.Agent.Convert.{validate_node_anomaly_fields}
use xdrop.Controller.Types.{RuleRequest, Rule}
use xdrop.Controller.Validate.{refuse_if, ◌>>=◌}
use xdrop.Controller.Create.{RuleRepository, create_rule}
use xdrop.Controller.Create.Sound.{IsSound}
use xdrop.Controller.Create.Stored.{rule_of}
use xdrop.Controller.Fixture.{request, stored, one_rule}
use xdrop.Controller.Update.{update_rule, updated, push_of, push_delete}
use xdrop.Controller.Update.Sound.{IsRated, SameKey, update_rule-IsSound}
use xdrop.Controller.Update.Lengths.{update_rule-refused}

-- a request that disables a rule
abbrev disable : RuleRequest
disable = record request { dst_ip = []; decoder = ""; action = ""; enabled = some false }

abbrev disabled : Rule
disabled = record stored { enabled = false }

stored_disabled : (update_rule one_rule "rule_1" disable tt).1 ≡ updated disabled push_delete
unfolding update_rule refuse_if ◌>>=◌ text_beq parse_ip parse_cidr
stored_disabled = refl

update_rule-IsSound_example :
    IsSound disabled
    × IsRated disabled
    × SameKey stored disabled
    × ((bits : ℕ) × (disabled.match_anomaly ≡ pos bits)
        × (bits ≤ 3)
        × (validate_node_anomaly_fields bits disabled.action disabled.src_ip disabled.dst_ip
              disabled.src_cidr disabled.dst_cidr
            ≡ none))
    × (push_delete ≡ push_of stored.enabled disabled.enabled)
update_rule-IsSound_example =
    update_rule-IsSound one_rule "rule_1" disable tt stored disabled push_delete refl
      (inl (refl, refl)) stored_disabled

-- a request for a CIDR with a packet length, the rule that Create makes of it, and its repository
abbrev long_packets : RuleRequest
long_packets = record request {
  dst_ip = [];
  dst_cidr = codes "10.1.0.0/16";
  decoder = "";
  pkt_len_min = some (pos 1000);
}

abbrev long_rule : Rule
long_rule = record stored {
  dst_ip = [];
  dst_cidr = codes "10.1.0.0/16";
  pkt_len_min = pos 1000;
  match_anomaly = pos 0;
}

abbrev one_cidr : RuleRepository (Unit {0})
one_cidr = record one_rule { get = λ r id. some (some long_rule) }

long_created : rule_of (create_rule one_rule "rule_1" true long_packets tt).1 ≡ some long_rule
unfolding create_rule refuse_if ◌>>=◌ lookup text_beq parse_ip parse_cidr net_to_string
long_created = refl

update_rule-refused_example :
    (update_rule one_cidr "rule_1" disable tt).1
    ≢ updated (record long_rule { enabled = false }) push_delete
update_rule-refused_example =
    update_rule-refused one_cidr "rule_1" disable tt long_rule
      (record long_rule { enabled = false }) push_delete refl (refl, refl, refl, refl, refl, refl)
      refl
