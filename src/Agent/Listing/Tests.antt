-- ===== src/Agent/Listing/Tests.antt =====
-- Rules and entries at concrete addresses, listed and sent back.
use mathlib.Core.List.{[], replicate}
use xdrop.Prelude.{some, ◌≡◌, inl, inr, refl, arith}
use xdrop.Prelude.Text.{codes, text_beq}
use xdrop.Net.{parse_ip}
use xdrop.Net.Print.{ip_to_string}
use xdrop.Agent.Types.{RuleKey, Rule, WhitelistEntry}
use xdrop.Agent.Validate.{htons, parse_protocol, parse_protocol_strict}
use xdrop.Agent.Convert.{rule_to_key, side_addr, whitelist_to_key, rule_value_from_stored}
use xdrop.Agent.Rules.{stored_rule}
use xdrop.Agent.Listing.{stored_rule_to_rule, key_to_whitelist, ip_addr_to_string}
use xdrop.Agent.Listing.Sides.{IsDotted, mapped}
use xdrop.Agent.Listing.Sent.{rule_to_key-stored_rule_to_rule}
use xdrop.Agent.Listing.Entries.{whitelist_to_key-key_to_whitelist}

abbrev request : Rule
request = record {
  id = "";
  src_ip = [];
  dst_ip = codes "192.168.10.7";
  src_cidr = [];
  dst_cidr = [];
  src_port = 0;
  dst_port = 443;
  protocol = "tcp";
  action = "";
  rate_limit = 0;
  pkt_len_min = 0;
  pkt_len_max = 0;
  tcp_flags = [];
  match_anomaly = 0;
}

abbrev key : RuleKey
key = record {
  src_ip = replicate 16 0;
  dst_ip = mapped 192 168 10 7;
  src_port = 0;
  dst_port = 47873;
  protocol = 6;
}

made : rule_to_key request ≡ some key
unfolding rule_to_key parse_ip htons parse_protocol text_beq
made = refl

dotted : IsDotted (mapped 192 168 10 7)
dotted = record {
  a = 192;
  b = 168;
  c = 10;
  d = 7;
  bytes = (omega arith, omega arith, omega arith, omega arith);
  set = λ same. cc;
  is_mapped = refl;
}

rule_to_key-stored_rule_to_rule_example :
    ((stored_rule_to_rule "web" (stored_rule key request)).id ≡ "web")
    × (rule_to_key (stored_rule_to_rule "web" (stored_rule key request)) ≡ some key)
    × (rule_value_from_stored
          (stored_rule key (stored_rule_to_rule "web" (stored_rule key request)))
        ≡ rule_value_from_stored (stored_rule key request))
rule_to_key-stored_rule_to_rule_example =
    rule_to_key-stored_rule_to_rule "web" request key made (omega arith) (omega arith) (inl refl)
      (inr dotted)

abbrev entry : WhitelistEntry
entry = record {
  id = "";
  src_ip = codes "192.168.10.7";
  dst_ip = [];
  src_port = 0;
  dst_port = 443;
  protocol = "tcp";
}

abbrev entry_key : RuleKey
entry_key = record key { src_ip = mapped 192 168 10 7; dst_ip = replicate 16 0 }

entry_made : whitelist_to_key entry ≡ some entry_key
unfolding whitelist_to_key parse_ip htons parse_protocol_strict text_beq
entry_made = refl

whitelist_to_key-key_to_whitelist_example :
    ((key_to_whitelist "dns" entry_key).id ≡ "dns")
    × (whitelist_to_key (key_to_whitelist "dns" entry_key) ≡ some entry_key)
whitelist_to_key-key_to_whitelist_example =
    whitelist_to_key-key_to_whitelist "dns" entry entry_key entry_made (omega arith) (omega arith)
      (inr dotted) (inl refl)

-- 0.0.0.0, written as a mapped address, has a key of its own, which is listed as the text for any address
zero_key : side_addr (codes "::ffff:0:0") ≡ some (mapped 0 0 0 0)
unfolding side_addr parse_ip text_beq
zero_key = refl

zero_listed : ip_addr_to_string (mapped 0 0 0 0) ≡ codes "0.0.0.0"
unfolding ip_addr_to_string ip_to_string
zero_listed = refl

zero_sent : side_addr (ip_addr_to_string (mapped 0 0 0 0)) ≡ some (replicate 16 0)
unfolding side_addr ip_addr_to_string ip_to_string text_beq parse_ip
zero_sent = refl
