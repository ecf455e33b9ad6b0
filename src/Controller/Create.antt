-- ===== src/Controller/Create.antt =====
-- Create of controller/internal/service/rule_service.go: a request is checked, then merged into the
-- rule that has its tuple or stored, and the rule is sent to the nodes.
use Prim.Native.Nat.{ℕ, bit_and, bit_or, ◌-◌}
use mathlib.Core.List.{List, [], ◌∷◌}
use text.Mathlib.Text.{◌==◌ as str_eq}
use xdrop.Prelude.{
  Bool, true, false, not, ◌&&◌, ◌||◌, Option, some, none, String, if◌then◌else◌, ◌==◌,
}
use xdrop.Prelude.Int.{ℤ, pos, negsuc, ltb_ℤ}
use xdrop.Prelude.Text.{Text, text_beq}
use xdrop.Controller.Types.{RuleRequest, Rule}
use xdrop.Controller.Decoder.{
  DecoderError, AnomalyError, normalize_decoder, validate_anomaly_fields, is_zero, has_tcp_flags,
}
use xdrop.Controller.Overlap.{check_cidr_overlap}
use xdrop.Controller.Validate.{
  Error, Result, ok, err, ◌>>=◌, refuse_if, validate_rule_scalar_bounds, validate_ip_fields,
  validate_cidr_rule, validate_pkt_len_rule, is_valid_protocol, ports_without_carrier, deref_int,
  decoder_error, action_required, invalid_action, rate_limit_required, invalid_protocol,
  portless_with_ports, overlap, anomaly_error, flags_and_anomaly, lookup_failed, merge_refused,
  already_exists, invalid_expiry, store_failed,
}
pub mod Checked
pub mod Sound
pub mod Stored

-- `repository.RuleRepository`, as far as the service uses it; a read that fails is `none`, a write tells
-- whether it succeeded, and `delete` also whether it found the rule
pub record RuleRepository (R : Type 0) : Type 0 where
  pub list_src_cidrs : R → Option (List Text)
  pub list_dst_cidrs : R → Option (List Text)
  pub get_by_tuple : R → Text → Text → ℤ → ℤ → String → Option (Option Rule)
  pub get_by_cidr_tuple : R → Text → Text → ℤ → ℤ → String → Option (Option Rule)
  pub create : R → Rule → R × Bool
  pub update : R → Rule → R × Bool
  pub get : R → String → Option (Option Rule)
  pub delete : R → String → R × Option Bool
  pub exists : R → Text → Text → ℤ → ℤ → String → Option Bool
  pub cidr_exists : R → Text → Text → ℤ → ℤ → String → Option Bool
  pub batch_create : R → List Rule → R × Bool
  pub batch_delete : R → List String → R × Bool
  pub delete_expired : R → R × Option ℤ

unfoldable pub decoded : RuleRequest × Option DecoderError → Result RuleRequest
decoded (req, none) = ok req
decoded (req, some e) = err decoder_error

check_action : RuleRequest → Result RuleRequest
check_action req = refuse_if (str_eq req.action "") action_required (
    refuse_if (not (str_eq req.action "drop") && not (str_eq req.action "rate_limit"))
      invalid_action
      (refuse_if (str_eq req.action "rate_limit" && not (ltb_ℤ (pos 0) req.rate_limit))
        rate_limit_required (ok req)))

check_protocol : RuleRequest → Result RuleRequest
check_protocol req = refuse_if (not (is_valid_protocol req.protocol)) invalid_protocol (
    refuse_if (ports_without_carrier req.protocol req.src_port req.dst_port) portless_with_ports
      (ok req))

-- the checks before the CIDRs
unfoldable pub check_fields : RuleRequest → Result RuleRequest
unfolding decoded check_action check_protocol normalize_decoder validate_ip_fields
    validate_rule_scalar_bounds is_valid_protocol ports_without_carrier validate_pkt_len_rule
check_fields req = do
  decoded_req ← decoded (normalize_decoder req)
  acting ← check_action decoded_req
  addressed ← validate_ip_fields acting
  bounded ← validate_rule_scalar_bounds addressed
  protocolled ← check_protocol bounded
  validate_pkt_len_rule protocolled

-- the checks behind the CIDRs
unfoldable pub check_anomaly : RuleRequest × Bool → Result (RuleRequest × Bool)
unfolding has_tcp_flags is_zero validate_anomaly_fields
check_anomaly (req, is_cidr) = elim (validate_anomaly_fields req) [
  | some e ↦ err anomaly_error
  | none ↦
      refuse_if (has_tcp_flags req.tcp_flags && not (is_zero req.match_anomaly)) flags_and_anomaly
        (ok (req, is_cidr))
]

unfoldable pub deref_string : Option Text → Text
deref_string none = []
deref_string (some s) = s

-- a `bool` pointer that is nil means true
or_true : Option Bool → Bool
or_true none = true
or_true (some b) = b

unfoldable pub new_rule : String → RuleRequest → String → Rule
unfolding deref_string deref_int or_true
new_rule id req protocol = record {
  id = id;
  src_ip = req.src_ip;
  dst_ip = req.dst_ip;
  src_cidr = req.src_cidr;
  dst_cidr = req.dst_cidr;
  src_port = req.src_port;
  dst_port = req.dst_port;
  protocol = protocol;
  action = req.action;
  rate_limit = req.rate_limit;
  pkt_len_min = deref_int req.pkt_len_min;
  pkt_len_max = deref_int req.pkt_len_max;
  tcp_flags = deref_string req.tcp_flags;
  match_anomaly = req.match_anomaly;
  enabled = or_true req.enabled;
}

-- `a | b` on an `int`, where negative numbers are complements
unfoldable pub or_bits : ℤ → ℤ → ℤ
or_bits (pos a) (pos b) = pos (bit_or a b)
or_bits (pos a) (negsuc b) = negsuc (b - bit_and b a)
or_bits (negsuc a) (pos b) = negsuc (a - bit_and a b)
or_bits (negsuc a) (negsuc b) = negsuc (bit_and a b)

-- what Create answers; the flag of a rule tells whether it is sent to the nodes
pub data Reply : Type 0 where
  refused : Error → Reply
  created merged : Rule → Bool → Reply

unfoldable pub same_bits : ℤ → ℤ → Bool
same_bits (pos a) (pos b) = a == b
same_bits (negsuc a) (negsuc b) = a == b
same_bits (pos a) (negsuc b) = false
same_bits (negsuc a) (pos b) = false

-- UpdatedAt is left out; a rule that is not enabled is not sent
module _ {R : Type 0} (repo : RuleRepository R) where
  unfoldable pub save_merged : Rule → R → R × Reply
  save_merged rule r =
      let updated = repo.update r rule in
      if updated.1 then (updated.0, merged rule rule.enabled) else (updated.0, refused store_failed)

  -- `none` where the request is no candidate, so that the caller answers
  unfoldable pub try_anomaly_merge : Rule → RuleRequest → R → R × Reply
  unfolding or_bits save_merged is_zero same_bits
  try_anomaly_merge existing req r =
      let both = or_bits existing.match_anomaly req.match_anomaly in
      let rule = record existing { match_anomaly = both } in
      if is_zero req.match_anomaly
      then (r, refused already_exists)
      else if is_zero existing.match_anomaly
      then (r, refused merge_refused)
      else if not (str_eq existing.action req.action)
      then (r, refused merge_refused)
      else if same_bits both existing.match_anomaly
      then (r, merged rule false)
      else save_merged rule r

  unfoldable pub store_new : Rule → R → R × Reply
  store_new rule r =
      let stored = repo.create r rule in
      if stored.1 then (stored.0, created rule rule.enabled) else (stored.0, refused store_failed)

  -- the lookup by the tuple that fits
  unfoldable pub find_existing : RuleRequest × Bool → String → R → Option (Option Rule)
  find_existing (req, true) protocol r =
      repo.get_by_cidr_tuple r req.src_cidr req.dst_cidr req.src_port req.dst_port protocol
  find_existing (req, false) protocol r =
      repo.get_by_tuple r req.src_ip req.dst_ip req.src_port req.dst_port protocol

  -- the CIDR block, which returns whether the rule is one with CIDRs
  unfoldable pub check_cidrs : R → RuleRequest → Result (RuleRequest × Bool)
  unfolding validate_cidr_rule check_cidr_overlap text_beq
  check_cidrs r req =
      if not (text_beq req.src_cidr []) || not (text_beq req.dst_cidr [])
      then (do
        req' ← validate_cidr_rule req
        refuse_if
            (check_cidr_overlap req'.src_cidr req'.dst_cidr (repo.list_src_cidrs r)
              (repo.list_dst_cidrs r))
            overlap (ok (req', true)))
      else ok (req, false)

  unfoldable pub check_create : R → RuleRequest → Result (RuleRequest × Bool)
  unfolding check_fields check_cidrs check_anomaly
  check_create r req = do
    fields ← check_fields req
    cidrs ← check_cidrs r fields
    check_anomaly cidrs

  -- after the lookup; `expiry` is whether `expires_in` is empty or parses
  unfoldable pub settle :
      String → Bool → RuleRequest → String → R → Option (Option Rule) → R × Reply
  unfolding try_anomaly_merge store_new new_rule
  settle new_id expiry req protocol r none = (r, refused lookup_failed)
  settle new_id expiry req protocol r (some (some existing)) = try_anomaly_merge existing req r
  settle new_id expiry req protocol r (some none) =
      if expiry then store_new (new_rule new_id req protocol) r else (r, refused invalid_expiry)

  unfoldable pub finish_create : String → Bool → R → Result (RuleRequest × Bool) → R × Reply
  unfolding settle find_existing
  finish_create new_id expiry r (err e) = (r, refused e)
  finish_create new_id expiry r (ok checked) =
      let protocol = if str_eq checked.0.protocol "" then "all" else checked.0.protocol in
      settle new_id expiry checked.0 protocol r (find_existing checked protocol r)

  unfoldable pub create_rule : String → Bool → RuleRequest → R → R × Reply
  unfolding finish_create check_create
  create_rule new_id expiry req r = finish_create new_id expiry r (check_create r req)
