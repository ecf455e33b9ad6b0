-- ===== src/Controller/Types.antt =====
-- controller/internal/model/rule.go. Names, comments, sources and times, which no check reads, are left
-- out; an `int` is an integer, and a pointer that may be nil an option.
use xdrop.Prelude.{Bool, Option, String}
use xdrop.Prelude.Int.{ℤ}
use xdrop.Prelude.Text.{Text}

pub record RuleRequest : Type 0 where
  pub src_ip : Text
  pub dst_ip : Text
  pub src_cidr : Text
  pub dst_cidr : Text
  pub src_port : ℤ
  pub dst_port : ℤ
  pub protocol : String
  pub action : String
  pub rate_limit : ℤ
  pub pkt_len_min : Option ℤ
  pub pkt_len_max : Option ℤ
  pub tcp_flags : Option Text
  pub decoder : String
  pub match_anomaly : ℤ
  pub enabled : Option Bool

pub record Rule : Type 0 where
  pub id : String
  pub src_ip : Text
  pub dst_ip : Text
  pub src_cidr : Text
  pub dst_cidr : Text
  pub src_port : ℤ
  pub dst_port : ℤ
  pub protocol : String
  pub action : String
  pub rate_limit : ℤ
  pub pkt_len_min : ℤ
  pub pkt_len_max : ℤ
  pub tcp_flags : Text
  pub match_anomaly : ℤ
  pub enabled : Bool
