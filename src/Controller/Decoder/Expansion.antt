-- ===== src/Controller/Decoder/Expansion.antt =====
-- What the decoders of controller/internal/service/decoder.go expand to.
use Prim.Native.Nat.{ℕ, ◌≤◌}
use text.Mathlib.Text.{◌==◌ as str_eq}
use xdrop.Prelude.{
  Bool, true, false, not, ◌&&◌, ◌||◌, Option, some, none, String, ◌==◌, arith, refl, ◌≡◌, ◌⊎◌, inl,
  inr, Bool-cases, zero, suc,
}
use xdrop.Prelude.GoMap.{lookup}
use xdrop.Prelude.Int.{ℤ, pos, negsuc}
use xdrop.Prelude.Text.{Text, string_eq}
use xdrop.Controller.Types.{RuleRequest, Rule}
use xdrop.Controller.Decoder.{
  DecoderSpec, DecoderError, AnomalyError, known_decoders, expand_known, expand, expand_tcp,
  expand_anomaly, check_anomaly_decoder, normalize_decoder, normalize_decoder_internal,
  normalize_decoder_for_update, is_zero, has_explicit_target, reject_ipv6_anomaly_target,
  validate_anomaly_fields, validate_anomaly_effective, unbounded, has_bounded_anomaly_target,
  protocol_conflict, tcp_flags_conflict, anomaly_conflict, anomaly_bad_fragment, has_tcp_flags,
  anomaly_rate_limit, ipv6_target, is_ipv6_string, is_ipv6_cidr,
}

-- the four fields that a rule is aimed with
abbrev pub target : RuleRequest → Text × Text × Text × Text
target req = (req.src_ip, req.dst_ip, req.src_cidr, req.dst_cidr)

-- only the lack of a bounded target can still be wrong
abbrev pub OnlyUnbounded : Option AnomalyError → Type 0
OnlyUnbounded e = (e ≡ none) ⊎ (e ≡ some unbounded)

known_bits :
    (name : String) (spec : DecoderSpec)
    → lookup name known_decoders ≡ some spec
    → spec.anomaly_bits ≤ 2
unfolding lookup
known_bits name spec found = ground arith

is_zero_iff : (n : ℤ) → is_zero n ≡ true → n ≡ pos 0
unfolding is_zero
is_zero_iff (pos n) h = ground arith
is_zero_iff (negsuc n) h = cc

-- whether one of the texts names an IPv6 target
abbrev has_v6 : RuleRequest → Bool
has_v6 req =
    is_ipv6_string req.src_ip
    || is_ipv6_string req.dst_ip
    || is_ipv6_cidr req.src_cidr
    || is_ipv6_cidr req.dst_cidr

or_swapped : (a b c d : Bool) → (b || a || d || c) ≡ false → (a || b || c || d) ≡ false
or_swapped true true c d h = cc
or_swapped true false c d h = cc
or_swapped false true c d h = cc
or_swapped false false c true h = cc
or_swapped false false true false h = cc
or_swapped false false false false h = refl

not_v6 : (req : RuleRequest) → reject_ipv6_anomaly_target req ≡ false → has_v6 req ≡ false
unfolding reject_ipv6_anomaly_target
not_v6 req h =
    or_swapped (is_ipv6_string req.src_ip) (is_ipv6_string req.dst_ip) (is_ipv6_cidr req.src_cidr)
      (is_ipv6_cidr req.dst_cidr) h

passed_guards :
    (bits : ℕ) (req : RuleRequest)
    → check_anomaly_decoder bits true req ≡ none
    → (str_eq req.action "rate_limit" ≡ false)
      × ((bits == anomaly_bad_fragment && reject_ipv6_anomaly_target req) ≡ false)
unfolding check_anomaly_decoder
passed_guards bits req ok = elim (Bool-cases (str_eq req.action "rate_limit")) [
  | inl rate ↦ let never : some anomaly_rate_limit ≡ none = rw rate at ok in cc
  | inr no_rate ↦
      elim (Bool-cases (bits == anomaly_bad_fragment && reject_ipv6_anomaly_target req)) [
        | inl v6 ↦ (let never : some ipv6_target ≡ none = rw (no_rate, v6) at ok in cc)
        | inr v4 ↦ (no_rate, v4)
      ]
]

no_anomaly :
    (n : ℤ) (req : RuleRequest)
    → n ≡ pos 0
    → validate_anomaly_effective n req.action req.src_ip req.dst_ip req.src_cidr req.dst_cidr ≡ none
unfolding validate_anomaly_effective
no_anomaly n req h = rw h refl

-- the guards of a decoder are those of the bits that it stands for
checked-OnlyUnbounded :
    (bits : ℕ) (req : RuleRequest)
    → bits ≤ 2
    → check_anomaly_decoder bits true req ≡ none
    → OnlyUnbounded (
        validate_anomaly_effective
          (pos bits)
          req.action
          req.src_ip
          req.dst_ip
          req.src_cidr
          req.dst_cidr)
unfolding validate_anomaly_effective
checked-OnlyUnbounded zero req small ok = inl refl
checked-OnlyUnbounded (suc zero) req small ok =
    let passed = passed_guards 1 req ok in
    let bounded = has_bounded_anomaly_target req.src_ip req.dst_ip req.src_cidr req.dst_cidr in
    rw (passed.0, not_v6 req passed.1)
      (elim (Bool-cases bounded) [ inl b ↦ rw b (inl refl) | inr b ↦ rw b (inr refl) ])
checked-OnlyUnbounded (suc (suc zero)) req small ok =
    let passed = passed_guards 2 req ok in
    let bounded = has_bounded_anomaly_target req.src_ip req.dst_ip req.src_cidr req.dst_cidr in
    rw passed.0 (elim (Bool-cases bounded) [ inl b ↦ rw b (inl refl) | inr b ↦ rw b (inr refl) ])
checked-OnlyUnbounded (suc (suc (suc n))) req small ok = absurd (omega arith)

expand_anomaly_done :
    (bits : ℕ) (req : RuleRequest) (e : Option DecoderError)
    → (expand_anomaly bits req e).1 ≡ none
    → (e ≡ none)
      × ((expand_anomaly bits req e).0 ≡ record req { match_anomaly = pos bits; decoder = "" })
unfolding expand_anomaly
expand_anomaly_done bits req none ok = (refl, refl)
expand_anomaly_done bits req (some e) ok = cc

expand-OnlyUnbounded :
    (req : RuleRequest) (spec : DecoderSpec)
    → spec.anomaly_bits ≤ 2
    → is_zero req.match_anomaly ≡ true
    → (expand true req spec).1 ≡ none
    → OnlyUnbounded (validate_anomaly_fields (expand true req spec).0)
unfolding expand expand_tcp validate_anomaly_fields
expand-OnlyUnbounded req spec small unset ok =
    let req' = expand_tcp spec req in
    let bits = spec.anomaly_bits in
    elim (Bool-cases (bits == 0)) [
      | inl tcp ↦
          rw tcp (inl (no_anomaly req.match_anomaly req' (is_zero_iff req.match_anomaly unset)))
      | inr anomaly ↦
          let done =
            expand_anomaly_done bits req' (check_anomaly_decoder bits true req')
              (rw anomaly at ok) in
          rw anomaly (rw done.1 (checked-OnlyUnbounded bits req' small done.0))
    ]

known-OnlyUnbounded :
    (req : RuleRequest) (spec : Option DecoderSpec)
    → ((found : DecoderSpec) → spec ≡ some found → found.anomaly_bits ≤ 2)
    → (expand_known true req spec).1 ≡ none
    → OnlyUnbounded (validate_anomaly_fields (expand_known true req spec).0)
unfolding expand_known
known-OnlyUnbounded req none small ok = cc
known-OnlyUnbounded req (some spec) small ok = elim (Bool-cases (not (str_eq req.protocol ""))) [
  | inl p ↦ (let never : some protocol_conflict ≡ none = rw p at ok in cc)
  | inr p ↦ elim (Bool-cases (has_tcp_flags req.tcp_flags)) [
    | inl f ↦ (let never : some tcp_flags_conflict ≡ none = rw (p, f) at ok in cc)
    | inr f ↦ elim (Bool-cases (is_zero req.match_anomaly)) [
      | inr a ↦ (let never : some anomaly_conflict ≡ none = rw (p, f, a) at ok in cc)
      | inl a ↦
          rw (p, f, a) (expand-OnlyUnbounded req spec (small spec refl) a (rw (p, f, a) at ok))
    ]
  ]
]

-- Where normalizeDecoder expands the decoder of a new rule, validateAnomalyFields has nothing against
-- the expanded request but that its target is not bounded.
pub normalize_decoder-OnlyUnbounded :
    (req : RuleRequest)
    → str_eq req.decoder "" ≡ false
    → (normalize_decoder req).1 ≡ none
    → OnlyUnbounded (validate_anomaly_fields (normalize_decoder req).0)
unfolding normalize_decoder normalize_decoder_internal
normalize_decoder-OnlyUnbounded req named ok =
    let spec = lookup req.decoder known_decoders in
    rw named (known-OnlyUnbounded req spec (λ found. known_bits req.decoder found) (rw named at ok))

expand_anomaly-target :
    (bits : ℕ) (req : RuleRequest) (e : Option DecoderError)
    → target (expand_anomaly bits req e).0 ≡ target req
unfolding expand_anomaly
expand_anomaly-target bits req none = refl
expand_anomaly-target bits req (some e) = refl

expand-target :
    (explicit : Bool) (req : RuleRequest) (spec : DecoderSpec)
    → target (expand explicit req spec).0 ≡ target req
unfolding expand expand_tcp
expand-target explicit req spec =
    let req' = expand_tcp spec req in
    let bits = spec.anomaly_bits in
    elim (Bool-cases (bits == 0)) [
      | inl tcp ↦ rw tcp refl
      | inr anomaly ↦
          rw anomaly (expand_anomaly-target bits req' (check_anomaly_decoder bits explicit req'))
    ]

known-target :
    (explicit : Bool) (req : RuleRequest) (spec : Option DecoderSpec)
    → target (expand_known explicit req spec).0 ≡ target req
unfolding expand_known
known-target explicit req none = refl
known-target explicit req (some spec) = ground (arith, expand-target explicit req spec)

normalize_decoder-target :
    (explicit : Bool) (req : RuleRequest)
    → target (normalize_decoder_internal explicit req).0 ≡ target req
unfolding normalize_decoder_internal
normalize_decoder-target explicit req =
    ground (arith, known-target explicit req (lookup req.decoder known_decoders))

-- Whatever normalizeDecoderForUpdate answers, also where it borrows the target of the existing rule,
-- the request keeps its own source and destination, addresses and CIDRs.
pub normalize_decoder_for_update-target :
    (req : RuleRequest) (existing : Rule)
    → target (normalize_decoder_for_update req existing).0 ≡ target req
unfolding normalize_decoder_for_update
normalize_decoder_for_update-target req existing =
    elim (Bool-cases (not (has_explicit_target req))) [
      | inl bare ↦ rw bare refl
      | inr aimed ↦ rw aimed (normalize_decoder-target true req)
    ]
