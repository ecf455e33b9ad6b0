-- ===== src/Controller/Create/Sound.antt =====
-- The rules that Create of controller/internal/service/rule_service.go stores.
use Prim.Native.Nat.{ℕ, bit_and, bit_or, ◌≤◌}
use mathlib.Core.List.{[]}
use text.Mathlib.Text.{◌==◌ as str_eq}
use xdrop.Prelude.{
  Bool, true, false, not, ◌&&◌, ◌||◌, Option, some, none, String, ◌==◌, ◌≡◌, ◌⊎◌, inl, inr, refl,
  arith, Bool-cases, ltb, leb,
}
use xdrop.Prelude.Int.{ℤ, pos}
use xdrop.Prelude.Text.{Text, text_beq}
use xdrop.Net.{parse_ip, parse_cidr}
use xdrop.Prelude.Range.{all_below, all_below_sound}
use xdrop.Controller.Types.{RuleRequest, Rule}
use xdrop.Controller.Decoder.{
  validate_anomaly_fields, validate_anomaly_effective, is_zero, has_tcp_flags, is_ipv6_string,
  is_ipv6_cidr, has_bounded_anomaly_target, invalid_bits, not_drop, unbounded, ipv6_bad_fragment,
}
use xdrop.Controller.Create.{RuleRepository, new_rule, deref_string}
use xdrop.Controller.Create.Checked.{IsChecked}

-- exact addresses and CIDRs do not stand together
abbrev pub NotMixed : Rule → Type 0
NotMixed rule =
    ((rule.src_cidr ≡ []) × (rule.dst_cidr ≡ [])) ⊎ ((rule.src_ip ≡ []) × (rule.dst_ip ≡ []))

-- a rule that the anomaly checks let pass, with flags or anomaly bits but not with both
pub record IsSound (rule : Rule) : Type 0 where
  pub anomaly :
      validate_anomaly_effective rule.match_anomaly rule.action rule.src_ip rule.dst_ip
        rule.src_cidr rule.dst_cidr
      ≡ none
  pub exclusive : (is_zero rule.match_anomaly || text_beq rule.tcp_flags []) ≡ true
  pub aimed : NotMixed rule

abbrev pub has_v6 : Text → Text → Text → Text → Bool
has_v6 src_ip dst_ip src_cidr dst_cidr =
    is_ipv6_string src_ip || is_ipv6_string dst_ip || is_ipv6_cidr src_cidr || is_ipv6_cidr dst_cidr

-- what the anomaly checks ask of bits that are not 0
pub record Effective (n : ℕ) (action : String) (bounded v6 : Bool) : Type 0 where
  pub small : n ≤ 3
  pub drop : str_eq action "rate_limit" ≡ false
  pub is_bounded : bounded ≡ true
  pub v4 : (not (bit_and n 1 == 0) && v6) ≡ false

module _ (action : String) (src_ip dst_ip src_cidr dst_cidr : Text) where
  pub passed_parts :
      (n : ℕ)
      → (n == 0) ≡ false
      → validate_anomaly_effective (pos n) action src_ip dst_ip src_cidr dst_cidr ≡ none
      → Effective n action
          (has_bounded_anomaly_target src_ip dst_ip src_cidr dst_cidr)
          (has_v6 src_ip dst_ip src_cidr dst_cidr)
  unfolding validate_anomaly_effective
  passed_parts n set valid =
      let bounded = has_bounded_anomaly_target src_ip dst_ip src_cidr dst_cidr in
      let fragment = not (bit_and n 1 == 0) && has_v6 src_ip dst_ip src_cidr dst_cidr in
      elim (Bool-cases (ltb 3 n)) [
        | inl big ↦ (let never : some invalid_bits ≡ none = rw (set, big) at valid in cc)
        | inr small ↦ elim (Bool-cases (str_eq action "rate_limit")) [
          | inl rate ↦ (let never : some not_drop ≡ none = rw (set, small, rate) at valid in cc)
          | inr drop ↦ elim (Bool-cases bounded) [
            | inr wide ↦
                (let never : some unbounded ≡ none = rw (set, small, drop, wide) at valid in cc)
            | inl tight ↦ elim (Bool-cases fragment) [
              | inl v6 ↦
                  (let never : some ipv6_bad_fragment ≡ none =
                      rw (set, small, drop, tight, v6) at valid in
                    cc)
              | inr v4 ↦ record { small = ground arith; drop = drop; is_bounded = tight; v4 = v4 }
            ]
          ]
        ]
      ]

  pub passed_of_parts :
      (n : ℕ)
      → Effective n action
          (has_bounded_anomaly_target src_ip dst_ip src_cidr dst_cidr)
          (has_v6 src_ip dst_ip src_cidr dst_cidr)
      → validate_anomaly_effective (pos n) action src_ip dst_ip src_cidr dst_cidr ≡ none
  unfolding validate_anomaly_effective
  passed_of_parts n parts =
      let small : ltb 3 n ≡ false = ground (arith, parts.small) in
      elim (Bool-cases (n == 0)) [
        | inl unset ↦ rw unset refl
        | inr set ↦ rw (set, small, parts.drop, parts.is_bounded, parts.v4) refl
      ]

or_test : ℕ → ℕ → Bool
or_test a b =
    leb (bit_or a b) 3
    && (not (bit_and a 1 == 0) || not (bit_and b 1 == 0) || bit_and (bit_or a b) 1 == 0)

or_table : all_below 4 (λ a. all_below 4 (λ b. or_test a b)) ≡ true
unfolding all_below or_test
or_table = refl

-- the bits of two numbers below 4
or_small :
    (a b : ℕ)
    → a ≤ 3
    → b ≤ 3
    → (bit_or a b ≤ 3)
      × ((bit_and a 1 == 0) ≡ true
          → (bit_and b 1 == 0) ≡ true
          → (bit_and (bit_or a b) 1 == 0) ≡ true)
unfolding or_test
or_small a b small small' =
    let row = all_below_sound 4 (λ x. all_below 4 (λ y. or_test x y)) a or_table (omega arith) in
    let cell = all_below_sound 4 (λ y. or_test a y) b row (omega arith) in
    (ground arith, λ even even'. ground arith)

bits_clear :
    (n : ℕ) (v6 : Bool)
    → (not (bit_and n 1 == 0) && v6) ≡ false
    → v6 ≡ true
    → (bit_and n 1 == 0) ≡ true
bits_clear n v6 v4 six = ground arith

-- two sets of bits for one target
pub or_bits-Effective :
    (a b : ℕ) (action action' : String) (bounded v6 : Bool)
    → Effective a action bounded v6
    → Effective b action' bounded v6
    → Effective (bit_or a b) action bounded v6
or_bits-Effective a b action action' bounded v6 e e' =
    let both = or_small a b e.small e'.small in
    record {
      small = both.0;
      drop = e.drop;
      is_bounded = e.is_bounded;
      v4 = elim (Bool-cases v6) [
        | inl six ↦ rw (both.1 (bits_clear a v6 e.v4 six) (bits_clear b v6 e'.v4 six)) refl
        | inr four ↦ ground arith
      ];
    }

pub exclusive_flags :
    (flags : Option Text) (unset : Bool)
    → (has_tcp_flags flags && not unset) ≡ false
    → (unset || text_beq (deref_string flags) []) ≡ true
unfolding has_tcp_flags deref_string
exclusive_flags none unset h = ground arith
exclusive_flags (some s) unset h = ground arith

pub new_rule-IsSound :
    (id protocol : String) (req : RuleRequest) (flag : Bool)
    → IsChecked (req, flag)
    → IsSound (new_rule id req protocol)
unfolding new_rule validate_anomaly_fields
new_rule-IsSound id protocol req true checked = record {
  anomaly = checked.anomaly;
  exclusive = exclusive_flags req.tcp_flags (is_zero req.match_anomaly) checked.exclusive;
  aimed = inr checked.aimed;
}
new_rule-IsSound id protocol req false checked = record {
  anomaly = checked.anomaly;
  exclusive = exclusive_flags req.tcp_flags (is_zero req.match_anomaly) checked.exclusive;
  aimed = inl checked.aimed;
}

-- a rule that a lookup finds has the tuple that was asked for
pub record FindsTuple {R : Type 0} (repo : RuleRepository R) (r : R) : Type 0 where
  pub exact :
      (s d : Text) (sp dp : ℤ) (protocol : String) (rule : Rule)
      → repo.get_by_tuple r s d sp dp protocol ≡ some (some rule)
      → (rule.src_ip ≡ s) × (rule.dst_ip ≡ d) × (rule.src_cidr ≡ []) × (rule.dst_cidr ≡ [])
  pub cidr :
      (s d : Text) (sp dp : ℤ) (protocol : String) (rule : Rule)
      → repo.get_by_cidr_tuple r s d sp dp protocol ≡ some (some rule)
      → (rule.src_cidr ≡ s) × (rule.dst_cidr ≡ d)

-- the stored rules are sound
pub record HasSound {R : Type 0} (repo : RuleRepository R) (r : R) : Type 0 where
  pub exact :
      (s d : Text) (sp dp : ℤ) (protocol : String) (rule : Rule)
      → repo.get_by_tuple r s d sp dp protocol ≡ some (some rule)
      → IsSound rule
  pub cidr :
      (s d : Text) (sp dp : ℤ) (protocol : String) (rule : Rule)
      → repo.get_by_cidr_tuple r s d sp dp protocol ≡ some (some rule)
      → IsSound rule

-- the existing rule and the request aim at the same
abbrev pub SameTarget : Rule → RuleRequest → Type 0
SameTarget rule req =
    (rule.src_ip ≡ req.src_ip)
    × (rule.dst_ip ≡ req.dst_ip)
    × (rule.src_cidr ≡ req.src_cidr)
    × (rule.dst_cidr ≡ req.dst_cidr)

pub no_target_unbounded : has_bounded_anomaly_target [] [] [] [] ≡ false
unfolding has_bounded_anomaly_target parse_ip parse_cidr
no_target_unbounded = refl
