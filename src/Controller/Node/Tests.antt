-- ===== src/Controller/Node/Tests.antt =====
-- A concrete rule that is sent to the nodes.
use xdrop.Prelude.{none, ◌≡◌, refl, inl, arith}
use xdrop.Prelude.Text.{text_beq}
use xdrop.Net.{parse_ip, parse_cidr}
use xdrop.Agent.Types
use xdrop.Agent.Convert.{validate_node_anomaly_fields}
use xdrop.Controller.Decoder.{validate_anomaly_effective, is_zero}
use xdrop.Controller.Create.Sound.{IsSound}
use xdrop.Controller.Fixture.{stored}
use xdrop.Controller.Node.{to_node_rule}
use xdrop.Controller.Node.Received.{Reads, Says, InRange}
use xdrop.Controller.Node.Sent.{to_node_rule-Reads}

stored-IsSound : IsSound stored
unfolding validate_anomaly_effective parse_ip parse_cidr text_beq is_zero
stored-IsSound = record { anomaly = refl; exclusive = refl; aimed = inl (refl, refl) }

stored-InRange : InRange stored
stored-InRange = record {
  src_port = (0, refl, omega arith);
  dst_port = (0, refl, omega arith);
  rate_limit = (0, refl, omega arith);
  pkt_len_min = (0, refl, omega arith);
  pkt_len_max = (0, refl, omega arith);
}

to_node_rule-Reads_example :
    (req : Types.Rule) × Reads (to_node_rule stored) req
    × Says stored req
    × (validate_node_anomaly_fields req.match_anomaly req.action req.src_ip req.dst_ip req.src_cidr
          req.dst_cidr
        ≡ none)
to_node_rule-Reads_example = to_node_rule-Reads stored stored-IsSound stored-InRange
