-- ===== src/Controller/Node.antt =====
-- ToNodeRule of controller/internal/model/rule.go: a rule as the nodes get it. Go builds a map from the names of
-- the fields; a field that it leaves out is `none`.
pub mod Received
pub mod Sent
mod Tests
use text.Mathlib.Text.{◌==◌ as str_eq}
use mathlib.Core.List.{[]}
use xdrop.Prelude.{Option, none, some, not, ◌||◌, String, if◌then◌else◌}
use xdrop.Prelude.Int.{ℤ, pos, ltb_ℤ}
use xdrop.Prelude.Text.{Text, text_beq}
use xdrop.Controller.Types.{Rule}
use xdrop.Controller.Decoder.{is_zero}

pub record NodeRule : Type 0 where
  pub id : String
  pub action : String
  pub src_ip : Option Text
  pub dst_ip : Option Text
  pub src_port : Option ℤ
  pub dst_port : Option ℤ
  pub protocol : Option String
  pub rate_limit : Option ℤ
  pub pkt_len_min : Option ℤ
  pub pkt_len_max : Option ℤ
  pub tcp_flags : Option Text
  pub src_cidr : Option Text
  pub dst_cidr : Option Text
  pub match_anomaly : Option ℤ

unfoldable pub unless_empty : Text → Option Text
unfolding text_beq
unless_empty s = if text_beq s [] then none else some s

unfoldable pub if_positive : ℤ → Option ℤ
if_positive n = if ltb_ℤ (pos 0) n then some n else none

unfoldable pub unless_zero : ℤ → Option ℤ
unfolding is_zero
unless_zero n = if is_zero n then none else some n

unfoldable pub unless_all : String → Option String
unless_all protocol = if str_eq protocol "" || str_eq protocol "all" then none else some protocol

unfoldable pub to_node_rule : Rule → NodeRule
unfolding unless_empty if_positive unless_zero unless_all
to_node_rule r = record {
  id = r.id;
  action = r.action;
  src_ip = unless_empty r.src_ip;
  dst_ip = unless_empty r.dst_ip;
  src_port = if_positive r.src_port;
  dst_port = if_positive r.dst_port;
  protocol = unless_all r.protocol;
  rate_limit = if_positive r.rate_limit;
  pkt_len_min = if_positive r.pkt_len_min;
  pkt_len_max = if_positive r.pkt_len_max;
  tcp_flags = unless_empty r.tcp_flags;
  src_cidr = unless_empty r.src_cidr;
  dst_cidr = unless_empty r.dst_cidr;
  match_anomaly = unless_zero r.match_anomaly;
}
