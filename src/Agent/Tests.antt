-- ===== src/Agent/Tests.antt =====
-- The properties of the agent's pure functions at concrete inputs.
use xdrop.Prelude.{[], ◌∷◌}
use xdrop.Prelude.Text.{codes}
use xdrop.Agent.Types.{RuleKey, CidrRuleKey}
use xdrop.Agent.Wire.Layout.{IsRuleKey}
use xdrop.Agent.Validate.{ok, parse_tcp_flags, tcp_flags_to_string, parse_protocol_strict}
use xdrop.Agent.Validate.Flags.{parse_tcp_flags-IsWithin, canonical_flags}
use xdrop.Agent.Validate.FlagTables.{IsWithin}
use Prim.Native.String.{[]}
use xdrop.Prelude.{arith, replicate, ◌≡◌, refl, ◌∷◌}

abbrev pub web_key : RuleKey
web_key = record {
  src_ip = replicate 16 0;
  dst_ip = 0 ∷ 0 ∷ 0 ∷ 0 ∷ 0 ∷ 0 ∷ 0 ∷ 0 ∷ 0 ∷ 0 ∷ 0xff ∷ 0xff ∷ 10 ∷ 0 ∷ 0 ∷ 1 ∷ [];
  src_port = 0;
  dst_port = 0x5000;
  protocol = 6;
}

abbrev web_cidr_key : CidrRuleKey
web_cidr_key = record { src_id = 0; dst_id = 7; src_port = 0; dst_port = 0x5000; protocol = 6 }

pub web_key-IsRuleKey : IsRuleKey web_key
web_key-IsRuleKey = record {
  src_ip = refl;
  dst_ip = refl;
  src_port = omega arith;
  dst_port = omega arith;
  protocol = omega arith;
}

syn_not_ack : parse_tcp_flags (codes "!ack, SYN") ≡ ok (0x12, 0x02)
unfolding parse_tcp_flags
syn_not_ack = refl

parse_tcp_flags-IsWithin_example : IsWithin 0x12 0x02
parse_tcp_flags-IsWithin_example =
    parse_tcp_flags-IsWithin (codes "!ack, SYN") 0x12 0x02 syn_not_ack

canonical_flags_example : parse_tcp_flags (tcp_flags_to_string 0x12 0x02) ≡ ok (0x12, 0x02)
canonical_flags_example = canonical_flags (codes "!ack, SYN") 0x12 0x02 syn_not_ack

parsed_gre : parse_protocol_strict "gre" ≡ ok 47
unfolding parse_protocol_strict
parsed_gre = refl
