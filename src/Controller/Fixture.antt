-- ===== src/Controller/Fixture.antt =====
-- A request, a rule and a repository for the tests of the controller.
use mathlib.Core.List.{[]}
use xdrop.Prelude.{Bool, true, false, Option, some, none, ◌&&◌}
use xdrop.Prelude.Int.{pos}
use xdrop.Prelude.Text.{codes, text_beq}
use xdrop.Controller.Types.{RuleRequest, Rule}
use xdrop.Controller.Create.{RuleRepository}

-- a request for an anomaly rule by its decoder
abbrev pub request : RuleRequest
request = record {
  src_ip = [];
  dst_ip = codes "10.0.0.1";
  src_cidr = [];
  dst_cidr = [];
  src_port = pos 0;
  dst_port = pos 0;
  protocol = "";
  action = "drop";
  rate_limit = pos 0;
  pkt_len_min = none;
  pkt_len_max = none;
  tcp_flags = none;
  decoder = "bad_fragment";
  match_anomaly = pos 0;
  enabled = none;
}

-- the rule with the other anomaly bit for the same target
abbrev pub stored : Rule
stored = record {
  id = "rule_1";
  src_ip = [];
  dst_ip = codes "10.0.0.1";
  src_cidr = [];
  dst_cidr = [];
  src_port = pos 0;
  dst_port = pos 0;
  protocol = "all";
  action = "drop";
  rate_limit = pos 0;
  pkt_len_min = pos 0;
  pkt_len_max = pos 0;
  tcp_flags = [];
  match_anomaly = pos 2;
  enabled = true;
}

-- the rule of a repository with one rule, if it has these addresses
abbrev pub found_if : Bool → Option Rule
found_if true = some stored
found_if false = none

-- a repository that holds `stored` and nothing else, and keeps no writes
abbrev pub one_rule : RuleRepository (Unit {0})
one_rule = record {
  list_src_cidrs = λ r. some [];
  list_dst_cidrs = λ r. some [];
  get_by_tuple =
      λ r s d sp dp protocol. some (found_if (text_beq [] s && text_beq (codes "10.0.0.1") d));
  get_by_cidr_tuple = λ r s d sp dp protocol. some none;
  create = λ r rule. (r, true);
  update = λ r rule. (r, true);
  get = λ r id. some (some stored);
  delete = λ r id. (r, some true);
  exists = λ r s d sp dp protocol. some false;
  cidr_exists = λ r s d sp dp protocol. some false;
  batch_create = λ r rules. (r, true);
  batch_delete = λ r ids. (r, true);
  delete_expired = λ r. (r, some (pos 0));
}
