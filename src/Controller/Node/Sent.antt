-- ===== src/Controller/Node/Sent.antt =====
-- The rules of the controller that controller/internal/model/rule.go sends, at the checks of the agents.
use Prim.Native.Nat.{◌^◌}
use xdrop.Prelude.{none, ◌≡◌, refl, sym, arith}
use xdrop.Agent.Types
use xdrop.Agent.Convert.{validate_node_anomaly_fields}
use xdrop.Controller.Types.{Rule}
use xdrop.Controller.Decoder.Accepted.{effective-node}
use xdrop.Controller.Create.Sound.{IsSound}
use xdrop.Controller.Node.{to_node_rule, unless_all}
use xdrop.Controller.Node.Received.{
  Reads, InRange, Says, Fits, string_field, empty_kept, positive_kept, zero_kept, protocol_kept,
}

module _ (rule : Rule) (range : InRange rule) (anomaly : Fits (2 ^ 8) rule.match_anomaly) where
  -- the rule as an agent reads it
  abbrev read_rule : Types.Rule
  read_rule = record {
    id = rule.id;
    src_ip = rule.src_ip;
    dst_ip = rule.dst_ip;
    src_cidr = rule.src_cidr;
    dst_cidr = rule.dst_cidr;
    src_port = range.src_port.0;
    dst_port = range.dst_port.0;
    protocol = string_field (unless_all rule.protocol);
    action = rule.action;
    rate_limit = range.rate_limit.0;
    pkt_len_min = range.pkt_len_min.0;
    pkt_len_max = range.pkt_len_max.0;
    tcp_flags = rule.tcp_flags;
    match_anomaly = anomaly.0;
  }

  read_rule-Reads : Reads (to_node_rule rule) read_rule
  unfolding to_node_rule
  read_rule-Reads = record {
    id = refl;
    action = refl;
    src_ip = sym (empty_kept rule.src_ip);
    dst_ip = sym (empty_kept rule.dst_ip);
    src_cidr = sym (empty_kept rule.src_cidr);
    dst_cidr = sym (empty_kept rule.dst_cidr);
    protocol = refl;
    tcp_flags = sym (empty_kept rule.tcp_flags);
    src_port = positive_kept _ rule.src_port range.src_port;
    dst_port = positive_kept _ rule.dst_port range.dst_port;
    rate_limit = positive_kept _ rule.rate_limit range.rate_limit;
    pkt_len_min = positive_kept _ rule.pkt_len_min range.pkt_len_min;
    pkt_len_max = positive_kept _ rule.pkt_len_max range.pkt_len_max;
    match_anomaly = zero_kept _ rule.match_anomaly anomaly;
  }

  read_rule-Says : Says rule read_rule
  read_rule-Says = record {
    id = refl;
    action = refl;
    src_ip = refl;
    dst_ip = refl;
    src_cidr = refl;
    dst_cidr = refl;
    tcp_flags = refl;
    protocol = protocol_kept rule.protocol;
    src_port = sym range.src_port.1;
    dst_port = sym range.dst_port.1;
    rate_limit = sym range.rate_limit.1;
    pkt_len_min = sym range.pkt_len_min.1;
    pkt_len_max = sym range.pkt_len_max.1;
    match_anomaly = sym anomaly.1;
  }

-- A rule of the controller that is sound, with ports and packet lengths of 16 bits and a rate of 32, is
-- sent as a map that an agent can read, by the rules of encoding/json, as a rule of its own: it has the
-- same id, action, addresses, CIDRs, flags and numbers, a protocol of the same number, and it passes the
-- agent's anomaly checks.
pub to_node_rule-Reads :
    (rule : Rule)
    → IsSound rule
    → InRange rule
    → (req : Types.Rule) × Reads (to_node_rule rule) req
      × Says rule req
      × (validate_node_anomaly_fields req.match_anomaly req.action req.src_ip req.dst_ip
            req.src_cidr req.dst_cidr
          ≡ none)
to_node_rule-Reads rule sound range =
    let (bits, same, small, valid) =
      effective-node _ _ _ _ rule.match_anomaly rule.action sound.anomaly in
    let anomaly : Fits (2 ^ 8) rule.match_anomaly = (bits, same, omega (arith, small)) in
    (
      read_rule rule range anomaly,
      read_rule-Reads rule range anomaly,
      read_rule-Says rule range anomaly,
      valid,
    )
