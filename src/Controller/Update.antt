-- ===== src/Controller/Update.antt =====
-- Update of controller/internal/service/rule_service.go: a request changes the fields of a
-- stored rule that are no key fields, and the nodes learn of it.
use Prim.Native.Nat.{ℕ}
use mathlib.Core.List.{[]}
use text.Mathlib.Text.{◌==◌ as str_eq}
use xdrop.Prelude.{Bool, true, false, not, ◌&&◌, ◌||◌, Option, some, none, String, if◌then◌else◌}
use xdrop.Prelude.Int.{ℤ, pos, ltb_ℤ}
use xdrop.Prelude.Text.{Text, text_beq}
use xdrop.Controller.Types.{RuleRequest, Rule}
use xdrop.Controller.Decoder.{
  AnomalyError, normalize_decoder_for_update, validate_anomaly_fields_for_update, is_zero,
}
use xdrop.Controller.Validate.{
  Error, Result, ok, err, ◌>>=◌, refuse_if, validate_rule_scalar_bounds, validate_ip_fields,
  validate_pkt_len_rule, validate_and_normalize_tcp_flags, invalid_action, rate_limit_required,
  anomaly_error, flags_and_anomaly, flags_without_tcp, store_failed, lookup_failed, rule_not_found,
  cidr_fixed, ip_fixed, protocol_fixed, port_fixed, rate_conflict,
}
use xdrop.Controller.Create.{RuleRepository, decoded, same_bits}
pub mod Lengths
pub mod Sound
mod Tests

-- a port of the request that is set and not that of the rule
changes_port : ℤ → ℤ → Bool
unfolding is_zero same_bits
changes_port requested current = not (is_zero requested) && not (same_bits requested current)

-- the key fields cannot be modified
unfoldable pub check_key_fields : RuleRequest → Rule → Result RuleRequest
unfolding validate_ip_fields changes_port text_beq
check_key_fields req rule =
    refuse_if (not (text_beq req.src_cidr []) || not (text_beq req.dst_cidr [])) cidr_fixed (do
      req' ← validate_ip_fields req
      refuse_if (not (text_beq req'.src_ip []) || not (text_beq req'.dst_ip [])) ip_fixed (
          refuse_if (not (str_eq req'.protocol "") && not (str_eq req'.protocol rule.protocol))
            protocol_fixed
            (refuse_if (changes_port req'.src_port rule.src_port) port_fixed
              (refuse_if (changes_port req'.dst_port rule.dst_port) port_fixed (ok req')))))

check_update_anomaly : RuleRequest → Option AnomalyError → Result RuleRequest
check_update_anomaly req none = ok req
check_update_anomaly req (some e) = err anomaly_error

-- a length that the request leaves open is that of the rule
keep_length : Option ℤ → ℤ → Option ℤ
keep_length none current = some current
keep_length (some n) current = some n

-- `tempReq`
temp_request : RuleRequest → Rule → RuleRequest
unfolding keep_length
temp_request req rule = record {
  src_ip = rule.src_ip;
  dst_ip = rule.dst_ip;
  src_cidr = [];
  dst_cidr = [];
  src_port = rule.src_port;
  dst_port = rule.dst_port;
  protocol = rule.protocol;
  action = "";
  rate_limit = pos 0;
  pkt_len_min = keep_length req.pkt_len_min rule.pkt_len_min;
  pkt_len_max = keep_length req.pkt_len_max rule.pkt_len_max;
  tcp_flags = none;
  decoder = "";
  match_anomaly = pos 0;
  enabled = none;
}

unfoldable pub effective_action : RuleRequest → Rule → String
effective_action req rule = if str_eq req.action "" then rule.action else req.action

unfoldable pub effective_rate_limit : RuleRequest → Rule → ℤ
effective_rate_limit req rule =
    if ltb_ℤ (pos 0) req.rate_limit then req.rate_limit else rule.rate_limit

-- the action and the rate as they will be
unfoldable pub check_rate : RuleRequest → Rule → Result RuleRequest
unfolding effective_action effective_rate_limit
check_rate req rule =
    let action = effective_action req rule in
    refuse_if
      (not (str_eq req.action "")
        && not (str_eq req.action "drop")
        && not (str_eq req.action "rate_limit"))
      invalid_action
      (refuse_if (str_eq action "rate_limit" && not (ltb_ℤ (pos 0) (effective_rate_limit req rule)))
        rate_limit_required
        (refuse_if (ltb_ℤ (pos 0) req.rate_limit && str_eq action "drop") rate_conflict (ok req)))

-- the checks on the request, up to the action
unfoldable pub check_update : RuleRequest → Rule → Result RuleRequest
unfolding decoded normalize_decoder_for_update check_key_fields validate_rule_scalar_bounds
    check_update_anomaly validate_anomaly_fields_for_update temp_request validate_pkt_len_rule
    check_rate
check_update req rule = do
  decoded_req ← decoded (normalize_decoder_for_update req rule)
  keyed ← check_key_fields decoded_req rule
  bounded ← validate_rule_scalar_bounds keyed
  special ← check_update_anomaly bounded (validate_anomaly_fields_for_update bounded rule)
  measured ← validate_pkt_len_rule (temp_request special rule)
  check_rate special rule

or_current : Option ℤ → ℤ → ℤ
or_current none current = current
or_current (some n) current = n

unfoldable pub or_enabled : Option Bool → Bool → Bool
or_enabled none current = current
or_enabled (some b) current = b

-- the fields but the TCP flags
unfoldable pub apply_fields : RuleRequest → Rule → Rule
unfolding effective_action effective_rate_limit or_current or_enabled is_zero
apply_fields req rule =
    let action = effective_action req rule in
    record rule {
      action = action;
      rate_limit = if str_eq action "drop" then pos 0 else effective_rate_limit req rule;
      pkt_len_min = or_current req.pkt_len_min rule.pkt_len_min;
      pkt_len_max = or_current req.pkt_len_max rule.pkt_len_max;
      match_anomaly = if is_zero req.match_anomaly then rule.match_anomaly else req.match_anomaly;
      enabled = or_enabled req.enabled rule.enabled;
    }

-- the flags: kept, cleared or set, by the protocol of the stored rule
unfoldable pub apply_flags : Option Text → Rule → Result Rule
unfolding validate_and_normalize_tcp_flags text_beq
apply_flags none rule = ok rule
apply_flags (some flags) rule =
    if text_beq flags []
    then ok (record rule { tcp_flags = [] })
    else refuse_if (not (str_eq rule.protocol "tcp")) flags_without_tcp
        (do text ← validate_and_normalize_tcp_flags flags; ok (record rule { tcp_flags = text }))

unfoldable pub check_exclusive : Rule → Result Rule
unfolding is_zero text_beq
check_exclusive rule =
    refuse_if (not (text_beq rule.tcp_flags []) && not (is_zero rule.match_anomaly))
      flags_and_anomaly (ok rule)

-- the rule as it will be stored; UpdatedAt, names and comments are left out
unfoldable pub updated_rule : RuleRequest → Rule → Result Rule
unfolding check_update apply_fields apply_flags check_exclusive
updated_rule req rule = do
  checked ← check_update req rule
  flagged ← apply_flags checked.tcp_flags (apply_fields checked rule)
  check_exclusive flagged

-- what the nodes are told
pub data Push : Type 0 where
  push_update push_add push_delete push_nothing : Push

unfoldable pub push_of : Bool → Bool → Push
push_of true true = push_update
push_of false true = push_add
push_of true false = push_delete
push_of false false = push_nothing

pub data UpdateReply : Type 0 where
  not_updated : Error → UpdateReply
  updated : Rule → Push → UpdateReply

module _ {R : Type 0} (repo : RuleRepository R) where
  unfoldable pub save_updated : Bool → R → Result Rule → R × UpdateReply
  unfolding push_of
  save_updated prev_enabled r (err e) = (r, not_updated e)
  save_updated prev_enabled r (ok rule) =
      let saved = repo.update r rule in
      if saved.1
      then (saved.0, updated rule (push_of prev_enabled rule.enabled))
      else (saved.0, not_updated store_failed)

  unfoldable pub update_found : RuleRequest → R → Option (Option Rule) → R × UpdateReply
  unfolding save_updated updated_rule
  update_found req r none = (r, not_updated lookup_failed)
  update_found req r (some none) = (r, not_updated rule_not_found)
  update_found req r (some (some rule)) = save_updated rule.enabled r (updated_rule req rule)

  unfoldable pub update_rule : String → RuleRequest → R → R × UpdateReply
  unfolding update_found
  update_rule id req r = update_found req r (repo.get r id)
