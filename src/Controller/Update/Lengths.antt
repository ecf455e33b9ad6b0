-- ===== src/Controller/Update/Lengths.antt =====
-- The packet lengths in Update of controller/internal/service/rule_service.go, which checks them on a
-- request without the CIDRs of the rule.
use Prim.Native.Nat.{ℕ}
use mathlib.Core.List.{[]}
use text.Mathlib.Text.{◌==◌ as str_eq}
use xdrop.Prelude.{
  Bool, true, false, not, Option, some, none, String, ◌==◌, ◌≡◌, ◌≢◌, refl, sym, ◌∙◌, inl, inr,
  subst, Bool-cases,
}
use xdrop.Prelude.GoMap.{lookup}
use xdrop.Prelude.Int.{pos, ltb_ℤ}
use xdrop.Prelude.Text.{text_beq, string_eq}
use xdrop.Controller.Types.{RuleRequest, Rule}
use xdrop.Controller.Decoder.{
  DecoderSpec, DecoderError, AnomalyError, expand_anomaly, expand_tcp, expand, expand_known,
  check_anomaly_decoder, known_decoders, normalize_decoder_internal, normalize_decoder_for_update,
  has_explicit_target, is_zero, has_tcp_flags,
}
use xdrop.Controller.Validate.{
  Result, ok, err, refuse_if, deref_int, validate_ip_fields, validate_and_normalize_ip_field,
  validate_rule_scalar_bounds, validate_pkt_len_rule, pure_length,
}
use xdrop.Controller.Create.{RuleRepository, decoded}
use xdrop.Controller.Create.Checked.{Always, Always-ok, Always-bind, Always-refuse, of_Always}
use xdrop.Controller.Update.{
  check_key_fields, check_update_anomaly, check_update, temp_request, updated_rule, save_updated,
  update_found, update_rule, UpdateReply, not_updated, updated, Push,
}

-- a request whose packet lengths are those of another
abbrev SameLengths : RuleRequest → RuleRequest → Type 0
SameLengths req req' = (req'.pkt_len_min ≡ req.pkt_len_min) × (req'.pkt_len_max ≡ req.pkt_len_max)

expand_anomaly-SameLengths :
    (bits : ℕ) (req : RuleRequest) (e : Option DecoderError)
    → SameLengths req (expand_anomaly bits req e).0
unfolding expand_anomaly
expand_anomaly-SameLengths bits req none = (refl, refl)
expand_anomaly-SameLengths bits req (some e) = (refl, refl)

expand-SameLengths :
    (need : Bool) (req : RuleRequest) (spec : DecoderSpec)
    → SameLengths req (expand need req spec).0
unfolding expand expand_tcp
expand-SameLengths need req spec =
    let req' = expand_tcp spec req in
    elim (Bool-cases (spec.anomaly_bits == 0)) [
      | inl plain ↦ rw plain (refl, refl)
      | inr special ↦ rw special (
          expand_anomaly-SameLengths spec.anomaly_bits req'
            (check_anomaly_decoder spec.anomaly_bits need req'))
    ]

expand_known-SameLengths :
    (need : Bool) (req : RuleRequest) (spec : Option DecoderSpec)
    → SameLengths req (expand_known need req spec).0
unfolding expand_known
expand_known-SameLengths need req none = (refl, refl)
expand_known-SameLengths need req (some spec) = elim (Bool-cases (not (str_eq req.protocol ""))) [
  | inl protocol ↦ rw protocol (refl, refl)
  | inr free ↦ elim (Bool-cases (has_tcp_flags req.tcp_flags)) [
    | inl flags ↦ rw (free, flags) (refl, refl)
    | inr no_flags ↦ elim (Bool-cases (not (is_zero req.match_anomaly))) [
      | inl special ↦ rw (free, no_flags, special) (refl, refl)
      | inr plain ↦ rw (free, no_flags, plain) (expand-SameLengths need req spec)
    ]
  ]
]

normalize-SameLengths :
    (need : Bool) (req : RuleRequest) → SameLengths req (normalize_decoder_internal need req).0
unfolding normalize_decoder_internal
normalize-SameLengths need req = elim (Bool-cases (str_eq req.decoder "")) [
  | inl unset ↦ rw unset (refl, refl)
  | inr set ↦ rw set (expand_known-SameLengths need req (lookup req.decoder known_decoders))
]

normalize_decoder_for_update-SameLengths :
    (req : RuleRequest) (rule : Rule) → SameLengths req (normalize_decoder_for_update req rule).0
unfolding normalize_decoder_for_update
normalize_decoder_for_update-SameLengths req rule =
    elim (Bool-cases (not (has_explicit_target req))) [
      | inl borrowed ↦ rw borrowed (
          normalize-SameLengths false (record req {
            dst_ip = rule.dst_ip;
            src_ip = rule.src_ip;
            dst_cidr = rule.dst_cidr;
            src_cidr = rule.src_cidr;
          }))
      | inr own ↦ rw own (normalize-SameLengths true req)
    ]

decoded-SameLengths :
    (req : RuleRequest) (p : RuleRequest × Option DecoderError)
    → SameLengths req p.0
    → Always (SameLengths req) (decoded p)
unfolding decoded Always
decoded-SameLengths req (req', none) same = same
decoded-SameLengths req (req', some e) same = tt

check_key_fields-SameLengths :
    (req : RuleRequest) (rule : Rule) → Always (SameLengths req) (check_key_fields req rule)
unfolding check_key_fields validate_ip_fields
check_key_fields-SameLengths req rule = Always-refuse _ _ _ _ λ no_cidr.
    Always-bind _ _ _ λ req' normal.
      let same =
        of_Always (SameLengths req) _ req'
          (Always-bind _ (validate_and_normalize_ip_field req.src_ip) _ λ src_ip a.
            Always-bind _ (validate_and_normalize_ip_field req.dst_ip) _
              λ dst_ip b. Always-ok _ _ (refl, refl))
          normal in
      Always-refuse _ _ _ _ λ no_ip. Always-refuse _ _ _ _ λ protocol.
        Always-refuse _ _ _ _ λ src_port. Always-refuse _ _ _ _ λ dst_port. Always-ok _ _ same

bounds-SameLengths :
    (req : RuleRequest) → Always (SameLengths req) (validate_rule_scalar_bounds req)
unfolding validate_rule_scalar_bounds
bounds-SameLengths req = Always-refuse _ _ _ _ λ a. Always-refuse _ _ _ _ λ b.
    Always-refuse _ _ _ _ λ c.
      Always-refuse _ _ _ _
        λ d. Always-refuse _ _ _ _ λ e. Always-refuse _ _ _ _ λ f. Always-ok _ _ (refl, refl)

check_update_anomaly-SameLengths :
    (req : RuleRequest) (e : Option AnomalyError)
    → Always (SameLengths req) (check_update_anomaly req e)
unfolding check_update_anomaly Always
check_update_anomaly-SameLengths req none = (refl, refl)
check_update_anomaly-SameLengths req (some e) = tt

-- a rule for a CIDR and nothing else, with a packet length
abbrev pub OnlyCidr : Rule → Type 0
OnlyCidr rule =
    (rule.src_ip ≡ [])
    × (rule.dst_ip ≡ [])
    × (rule.src_port ≡ pos 0)
    × (rule.dst_port ≡ pos 0)
    × (rule.protocol ≡ "all")
    × (ltb_ℤ (pos 0) rule.pkt_len_min ≡ true)

length-refused :
    (req : RuleRequest) (rule : Rule)
    → OnlyCidr rule
    → req.pkt_len_min ≡ none
    → validate_pkt_len_rule (temp_request req rule) ≡ err pure_length
unfolding validate_pkt_len_rule temp_request deref_int refuse_if text_beq is_zero
length-refused req rule only open_min =
    rw (open_min, only.0, only.1, only.2, only.3, only.4, only.5) refl

check_update-refused :
    (req : RuleRequest) (rule : Rule)
    → OnlyCidr rule
    → req.pkt_len_min ≡ none
    → Always (λ r. true ≡ false) (check_update req rule)
unfolding check_update
check_update-refused req rule only open_min = Always-bind _ _ _ λ decoded_req a.
    let first =
      of_Always _ _ decoded_req
        (decoded-SameLengths req (normalize_decoder_for_update req rule)
          (normalize_decoder_for_update-SameLengths req rule))
        a in
    Always-bind _ _ _ λ keyed b.
      let second = of_Always _ _ keyed (check_key_fields-SameLengths decoded_req rule) b in
      Always-bind _ _ _ λ bounded c.
        let third = of_Always _ _ bounded (bounds-SameLengths keyed) c in
        Always-bind _ _ _ λ special d.
          let fourth = of_Always _ _ special (check_update_anomaly-SameLengths bounded _) d in
          Always-bind _ _ _ λ measured accepted.
            let still_open = fourth.0 ∙ third.0 ∙ second.0 ∙ first.0 ∙ open_min in
            (let never : err pure_length ≡ ok measured =
                sym (length-refused special rule only still_open) ∙ accepted in
              cc)

updated_rule-refused :
    (req : RuleRequest) (old : Rule)
    → OnlyCidr old
    → req.pkt_len_min ≡ none
    → Always (λ r. true ≡ false) (updated_rule req old)
unfolding updated_rule
updated_rule-refused req old only open_min = Always-bind _ _ _ λ checked valid.
    (let never : true ≡ false =
        of_Always _ _ checked (check_update-refused req old only open_min) valid in
      cc)

abbrev IsRefused : UpdateReply → Type 0
IsRefused (not_updated e) = Unit
IsRefused (updated rule push) = true ≡ false

module _ {R : Type 0} (repo : RuleRepository R) where
  save_updated-IsRefused :
      (prev : Bool) (r : R) (result : Result Rule)
      → Always (λ x. true ≡ false) result
      → IsRefused (save_updated repo prev r result).1
  unfolding save_updated Always
  save_updated-IsRefused prev r (err e) never = tt
  save_updated-IsRefused prev r (ok rule) never = cc

  update_found-IsRefused :
      (req : RuleRequest) (r : R) (old : Rule) (found : Option (Option Rule))
      → found ≡ some (some old)
      → OnlyCidr old
      → req.pkt_len_min ≡ none
      → IsRefused (update_found repo req r found).1
  unfolding update_found
  update_found-IsRefused req r old none same only open_min = tt
  update_found-IsRefused req r old (some none) same only open_min = tt
  update_found-IsRefused req r old (some (some rule)) same only open_min =
      let here : old ≡ rule = cc in
      save_updated-IsRefused rule.enabled r (updated_rule req rule)
        (updated_rule-refused req rule (subst OnlyCidr here only) open_min)

  -- Update never succeeds on a stored rule for a CIDR that has a minimal packet length but no address,
  -- port or protocol of its own, whatever the request changes, as long as it leaves that length open.
  pub update_rule-refused :
      (id : String) (req : RuleRequest) (r : R) (old rule : Rule) (push : Push)
      → repo.get r id ≡ some (some old)
      → OnlyCidr old
      → req.pkt_len_min ≡ none
      → (update_rule repo id req r).1 ≢ updated rule push
  unfolding update_rule
  update_rule-refused id req r old rule push there only open_min done =
      (let never : true ≡ false =
          subst IsRefused done
            (update_found-IsRefused req r old (repo.get r id) there only open_min) in
        cc)
