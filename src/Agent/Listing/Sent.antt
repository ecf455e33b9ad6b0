-- ===== src/Agent/Listing/Sent.antt =====
-- Rules and entries of node/agent/api/convert.go that are listed and sent back to the agent.
use Prim.Native.Nat.{ℕ, ◌<◌}
use Prim.Native.String.{String}
use text.Mathlib.Text.{◌==◌ as str_eq}
use xdrop.Prelude.{
  true, false, some, none, ◌≡◌, inl, inr, refl, sym, ap, ◌∙◌, Bool-cases, Option-cases,
}
use xdrop.Prelude.Text.{string_eq}
use xdrop.Agent.Types.{RuleKey, Rule}
use xdrop.Agent.Validate.{
  Result, ok, err, ValidateError, parse_protocol, parse_protocol_strict, protocol_to_string, htons,
  ntohs, parse_action,
}
use xdrop.Agent.Validate.Fields.{ntohs-htons, protocol_to_string-parse}
use xdrop.Agent.Convert.{rule_to_key, side_addr, rule_value_from_stored}
use xdrop.Agent.Rules.{stored_rule}
use xdrop.Agent.Listing.{stored_rule_to_rule, listed_action}
use xdrop.Agent.Listing.Sides.{IsV4, side_addr-ip_addr_to_string}

no_name : parse_protocol_strict "" ≡ ok 0
unfolding parse_protocol_strict
no_name = refl

all_name : parse_protocol_strict "all" ≡ ok 0
unfolding parse_protocol_strict
all_name = refl

-- the name of a protocol's number is read as the number
pub named_protocol :
    (s : String) (p : ℕ)
    → parse_protocol_strict s ≡ ok p
    → parse_protocol_strict (protocol_to_string p) ≡ ok p
named_protocol s p h =
    let printed = protocol_to_string-parse s p h in
    elim (Bool-cases (str_eq s "")) [
      | inl empty ↦
          (let same = (string_eq.beq_iff s "").0 empty in
            let name : protocol_to_string p ≡ "all" = rw empty at printed in
            let zero : ok 0 ≡ ok p = sym no_name ∙ sym (ap parse_protocol_strict same) ∙ h in
            ap parse_protocol_strict name ∙ all_name ∙ zero)
      | inr filled ↦
          (let name : protocol_to_string p ≡ s = rw filled at printed in
            ap parse_protocol_strict name ∙ h)
    ]

number_lem : (s : String) (p : ℕ) → parse_protocol_strict s ≡ ok p → parse_protocol s ≡ p
unfolding parse_protocol
number_lem s p h = rw (h, parse_protocol) refl

unknown_lem :
    (s : String) (e : ValidateError) → parse_protocol_strict s ≡ err e → parse_protocol s ≡ 0
unfolding parse_protocol
unknown_lem s e h = rw (h, parse_protocol) refl

unnamed : parse_protocol (protocol_to_string 0) ≡ 0
unfolding parse_protocol protocol_to_string
unnamed = refl

-- the number of any name is that of its own name
known :
    (s : String) (r : Result ℕ)
    → parse_protocol_strict s ≡ r
    → parse_protocol (protocol_to_string (parse_protocol s)) ≡ parse_protocol s
known s (ok p) h =
    let number = number_lem s p h in
    ap (λ q. parse_protocol (protocol_to_string q)) number
    ∙ number_lem (protocol_to_string p) p (named_protocol s p h)
    ∙ sym number
known s (err e) h =
    let number = unknown_lem s e h in
    ap (λ q. parse_protocol (protocol_to_string q)) number ∙ unnamed ∙ sym number

emptied : (action : String) → str_eq action "" ≡ true → listed_action action ≡ "drop"
unfolding listed_action
emptied action empty = rw empty refl

kept : (action : String) → str_eq action "" ≡ false → listed_action action ≡ action
unfolding listed_action
kept action filled = rw filled refl

drop_action : parse_action "drop" ≡ parse_action ""
unfolding parse_action
drop_action = refl

listed_action_lem : (action : String) → parse_action (listed_action action) ≡ parse_action action
listed_action_lem action = elim (Bool-cases (str_eq action "")) [
  | inl empty ↦
      ap parse_action (emptied action empty)
      ∙ drop_action
      ∙ ap parse_action (sym ((string_eq.beq_iff action "").0 empty))
  | inr filled ↦ ap parse_action (kept action filled)
]

pub key_equal : (x y : RuleKey) → some x ≡ some y → x ≡ y
key_equal x y same = cc

-- what the key has of the request
key_parts :
    (req : Rule) (key : RuleKey)
    → rule_to_key req ≡ some key
    → (key.src_port ≡ htons req.src_port)
      × (key.dst_port ≡ htons req.dst_port)
      × (key.protocol ≡ parse_protocol req.protocol)
unfolding rule_to_key
key_parts req key made = elim (Option-cases (side_addr req.src_ip)) [
  | inl no_src ↦ (let never : none ≡ some key = rw (no_src, rule_to_key) at made in cc)
  | inr (src, src_found) ↦ elim (Option-cases (side_addr req.dst_ip)) [
    | inl no_dst ↦ (let never : none ≡ some key = rw (src_found, no_dst, rule_to_key) at made in cc)
    | inr (dst, dst_found) ↦
        let same = key_equal _ key (rw (src_found, dst_found, rule_to_key) at made) in
        (
          ap (λ k. k.src_port) (sym same),
          ap (λ k. k.dst_port) (sym same),
          ap (λ k. k.protocol) (sym same),
        )
  ]
]

pub port_back : (n p : ℕ) → n < 65536 → p ≡ htons n → htons (ntohs p) ≡ p
port_back n p small same =
    let back : ntohs p ≡ n = ap ntohs same ∙ (ntohs-htons n small).0 in ap htons back ∙ sym same

protocol_back :
    (s : String) (p : ℕ) → p ≡ parse_protocol s → parse_protocol (protocol_to_string p) ≡ p
protocol_back s p same =
    ap (λ q. parse_protocol (protocol_to_string q)) same
    ∙ known s (parse_protocol_strict s) refl
    ∙ sym same

-- A rule that was stored from a request, with ports of 16 bits and with addresses that are absent or of
-- IPv4 and not 0.0.0.0, is listed as a rule of the same id that the agent, if it is sent back, takes for
-- the same key, and whose entry in the blacklist has the same value.
pub rule_to_key-stored_rule_to_rule :
    (id : String) (req : Rule) (key : RuleKey)
    → rule_to_key req ≡ some key
    → req.src_port < 65536
    → req.dst_port < 65536
    → IsV4 key.src_ip
    → IsV4 key.dst_ip
    → ((stored_rule_to_rule id (stored_rule key req)).id ≡ id)
      × (rule_to_key (stored_rule_to_rule id (stored_rule key req)) ≡ some key)
      × (rule_value_from_stored (stored_rule key (stored_rule_to_rule id (stored_rule key req)))
          ≡ rule_value_from_stored (stored_rule key req))
unfolding rule_to_key stored_rule_to_rule stored_rule rule_value_from_stored
rule_to_key-stored_rule_to_rule id req key made src dst src_v4 dst_v4 =
    let parts = key_parts req key made in
    let src_port : htons (ntohs key.src_port) ≡ key.src_port =
      port_back req.src_port _ src parts.0 in
    let dst_port : htons (ntohs key.dst_port) ≡ key.dst_port =
      port_back req.dst_port _ dst parts.1 in
    let protocol : parse_protocol (protocol_to_string key.protocol) ≡ key.protocol =
      protocol_back req.protocol _ parts.2 in
    let src_side = side_addr-ip_addr_to_string key.src_ip src_v4 in
    let dst_side = side_addr-ip_addr_to_string key.dst_ip dst_v4 in
    (
      refl,
      rw (src_side, dst_side, src_port, dst_port, protocol, rule_to_key) refl,
      rw (listed_action_lem req.action) refl,
    )
