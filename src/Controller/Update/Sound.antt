-- ===== src/Controller/Update/Sound.antt =====
-- The rules that Update of controller/internal/service/rule_service.go stores.
use Prim.Native.Nat.{ℕ, ◌≤◌}
use mathlib.Core.List.{[]}
use text.Mathlib.Text.{◌==◌ as str_eq}
use xdrop.Prelude.{
  Bool, true, false, not, ◌&&◌, ◌||◌, Option, some, none, String, if◌then◌else◌, ◌≡◌, inl, inr,
  refl, sym, ◌∙◌, subst, arith, Bool-cases,
}
use xdrop.Prelude.Int.{ℤ, pos, ltb_ℤ}
use xdrop.Prelude.Text.{Text, text_beq, string_eq}
use xdrop.Agent.Convert.{validate_node_anomaly_fields}
use xdrop.Controller.Types.{RuleRequest, Rule}
use xdrop.Controller.Decoder.{
  AnomalyError, validate_anomaly_effective, validate_anomaly_fields_for_update, is_zero,
}
use xdrop.Controller.Decoder.Accepted.{effective-node}
use xdrop.Controller.Validate.{Result, ok, err}
use xdrop.Controller.Create.{RuleRepository}
use xdrop.Controller.Create.Sound.{IsSound, NotMixed}
use xdrop.Controller.Create.Checked.{Always, Always-ok, Always-bind, Always-refuse, of_Always}
use xdrop.Controller.Update.{
  effective_action, effective_rate_limit, check_update_anomaly, check_rate, check_update,
  apply_fields, apply_flags, check_exclusive, updated_rule, UpdateReply, not_updated, updated, Push,
  save_updated, update_found, update_rule, push_of,
}

-- the fields that make the key of a rule, and its id
abbrev pub SameKey : Rule → Rule → Type 0
SameKey old new =
    (new.id ≡ old.id)
    × (new.src_ip ≡ old.src_ip)
    × (new.dst_ip ≡ old.dst_ip)
    × (new.src_cidr ≡ old.src_cidr)
    × (new.dst_cidr ≡ old.dst_cidr)
    × (new.src_port ≡ old.src_port)
    × (new.dst_port ≡ old.dst_port)
    × (new.protocol ≡ old.protocol)

SameKey-NotMixed : (old new : Rule) → SameKey old new → NotMixed old → NotMixed new
SameKey-NotMixed old new same aimed = elim aimed [
  | inl no_cidr ↦ inl (same.3 ∙ no_cidr.0, same.4 ∙ no_cidr.1)
  | inr no_ip ↦ inr (same.1 ∙ no_ip.0, same.2 ∙ no_ip.1)
]

-- a rule that drops has no rate, and one that limits the rate has one
abbrev pub IsRated : Rule → Type 0
IsRated rule =
    (str_eq rule.action "drop" ≡ true → rule.rate_limit ≡ pos 0)
    × (str_eq rule.action "rate_limit" ≡ true → ltb_ℤ (pos 0) rule.rate_limit ≡ true)

-- what the checks know of a request that changes a rule
record MayChange (rule : Rule) (req : RuleRequest) : Type 0 where
  anomaly : validate_anomaly_fields_for_update req rule ≡ none
  rated :
      (str_eq (effective_action req rule) "rate_limit"
        && not (ltb_ℤ (pos 0) (effective_rate_limit req rule)))
      ≡ false

check_update_anomaly-Always :
    (req : RuleRequest) (rule : Rule) (e : Option AnomalyError)
    → validate_anomaly_fields_for_update req rule ≡ e
    → Always (λ r. validate_anomaly_fields_for_update r rule ≡ none) (check_update_anomaly req e)
unfolding check_update_anomaly Always
check_update_anomaly-Always req rule none found = found
check_update_anomaly-Always req rule (some e) found = tt

check_rate-MayChange :
    (req : RuleRequest) (rule : Rule)
    → validate_anomaly_fields_for_update req rule ≡ none
    → Always (MayChange rule) (check_rate req rule)
unfolding check_rate
check_rate-MayChange req rule anomaly = Always-refuse _ _ _ _ λ known.
    Always-refuse _ _ _ _ λ rated.
      Always-refuse _ _ _ _
        λ consistent. Always-ok _ _ (record { anomaly = anomaly; rated = rated })

check_update-MayChange :
    (req : RuleRequest) (rule : Rule) → Always (MayChange rule) (check_update req rule)
unfolding check_update
check_update-MayChange req rule = Always-bind _ _ _ λ decoded_req a. Always-bind _ _ _ λ keyed b.
    Always-bind _ _ _ λ bounded c. Always-bind _ _ _ λ special valid.
      Always-bind _ _ _ λ measured d. check_rate-MayChange special rule (
        of_Always _ _ special
          (check_update_anomaly-Always bounded rule
            (validate_anomaly_fields_for_update bounded rule) refl)
          valid)

-- the changed rule, but for its flags
abbrev pub Applied : Rule → Rule → Type 0
Applied old rule =
    (validate_anomaly_effective rule.match_anomaly rule.action rule.src_ip rule.dst_ip rule.src_cidr
        rule.dst_cidr
      ≡ none)
    × IsRated rule
    × SameKey old rule

not_both : (action : String) → str_eq action "drop" ≡ true → str_eq action "rate_limit" ≡ false
not_both action drop = (let same = (string_eq.beq_iff action "drop").0 drop in rw same refl)

rate_set : (limits : Bool) → (true && not limits) ≡ false → limits ≡ true
rate_set true valid = refl
rate_set false valid = cc

one_only : (empty unset : Bool) → (not empty && not unset) ≡ false → (unset || empty) ≡ true
one_only true unset h = ground arith
one_only false true h = refl
one_only false false h = cc

set_rate :
    (action : String) (rate : ℤ)
    → (str_eq action "rate_limit" && not (ltb_ℤ (pos 0) rate)) ≡ false
    → (str_eq action "drop" ≡ true → (if str_eq action "drop" then pos 0 else rate) ≡ pos 0)
      × (str_eq action "rate_limit" ≡ true
          → ltb_ℤ (pos 0) (if str_eq action "drop" then pos 0 else rate) ≡ true)
set_rate action rate valid = elim (Bool-cases (str_eq action "drop")) [
  | inl drop ↦ (
    λ d. rw drop refl,
    λ limited. (let never : true ≡ false = sym limited ∙ not_both action drop in cc),
  )
  | inr other ↦ (λ d. cc, λ limited. rw other (rate_set _ (rw limited at valid)))
]

apply_fields-Applied :
    (req : RuleRequest) (rule : Rule) → MayChange rule req → Applied rule (apply_fields req rule)
unfolding apply_fields validate_anomaly_fields_for_update effective_action
apply_fields-Applied req rule may = (
  may.anomaly,
  set_rate (effective_action req rule) (effective_rate_limit req rule) may.rated,
  (refl, refl, refl, refl, refl, refl, refl, refl),
)

apply_flags-Applied :
    (old : Rule) (flags : Option Text) (rule : Rule)
    → Applied old rule
    → Always (Applied old) (apply_flags flags rule)
unfolding apply_flags
apply_flags-Applied old none rule a = Always-ok _ _ a
apply_flags-Applied old (some flags) rule a = elim (Bool-cases (text_beq flags [])) [
  | inl cleared ↦ rw cleared (Always-ok _ _ a)
  | inr filled ↦
      rw filled (Always-refuse _ _ _ _ λ tcp. Always-bind _ _ _ λ text normal. Always-ok _ _ a)
]

-- the rule that is stored in the place of an old one
pub record IsUpdate (old rule : Rule) : Type 0 where
  pub applied : Applied old rule
  pub exclusive : (is_zero rule.match_anomaly || text_beq rule.tcp_flags []) ≡ true

pub IsUpdate-IsSound : (old rule : Rule) → IsUpdate old rule → NotMixed old → IsSound rule
IsUpdate-IsSound old rule new aimed = record {
  anomaly = new.applied.0;
  exclusive = new.exclusive;
  aimed = SameKey-NotMixed old rule new.applied.2 aimed;
}

pub updated_rule-IsUpdate :
    (req : RuleRequest) (old : Rule) → Always (IsUpdate old) (updated_rule req old)
unfolding updated_rule check_exclusive
updated_rule-IsUpdate req old = Always-bind _ _ _ λ checked valid.
    let may = of_Always _ _ checked (check_update-MayChange req old) valid in
    Always-bind _ _ _ λ flagged flags.
      let applied =
        of_Always _ _ flagged
          (apply_flags-Applied old checked.tcp_flags (apply_fields checked old)
            (apply_fields-Applied checked old may))
          flags in
      Always-refuse _ _ _ _ λ exclusive.
        Always-ok _ _ (record { applied = applied; exclusive = one_only _ _ exclusive })

-- what an answer says of the rule, where it replaces an old one
abbrev Answered : Rule → UpdateReply → Type 0
Answered old (not_updated e) = Unit
Answered old (updated rule push) = IsUpdate old rule × (push ≡ push_of old.enabled rule.enabled)

reply_facts :
    (old : Rule) (reply : UpdateReply) (rule : Rule) (push : Push)
    → reply ≡ updated rule push
    → Answered old reply
    → Answered old (updated rule push)
reply_facts old reply rule push same a = subst (Answered old) same a

module _ {R : Type 0} (repo : RuleRepository R) where
  save_updated-Answered :
      (old : Rule) (r : R) (result : Result Rule)
      → Always (IsUpdate old) result
      → Answered old (save_updated repo old.enabled r result).1
  unfolding save_updated Always
  save_updated-Answered old r (err e) good = tt
  save_updated-Answered old r (ok rule) good = elim (Bool-cases (repo.update r rule).1) [
    | inl saved ↦ rw saved (good, refl)
    | inr failed ↦ rw failed tt
  ]

  update_found-Answered :
      (old : Rule) (req : RuleRequest) (r : R) (found : Option (Option Rule))
      → found ≡ some (some old)
      → Answered old (update_found repo req r found).1
  unfolding update_found
  update_found-Answered old req r none same = cc
  update_found-Answered old req r (some none) same = cc
  update_found-Answered old req r (some (some rule)) same =
      let here : rule ≡ old = cc in
      subst (λ x. Answered x (save_updated repo rule.enabled r (updated_rule req rule)).1) here
        (save_updated-Answered rule r (updated_rule req rule) (updated_rule-IsUpdate req rule))

  -- Where Update answers with a rule, for a stored rule whose addresses do not stand together with
  -- CIDRs: the new rule is sound (it passes the anomaly checks, also the agents', and has TCP flags or
  -- anomaly bits but not both), it has no rate limit if it drops and a positive one if it limits the
  -- rate, its id and its key fields are those of the stored rule, and the nodes are told to update,
  -- add or delete it or nothing, by whether it was and is enabled.
  pub update_rule-IsSound :
      (id : String) (req : RuleRequest) (r : R) (old rule : Rule) (push : Push)
      → repo.get r id ≡ some (some old)
      → NotMixed old
      → (update_rule repo id req r).1 ≡ updated rule push
      → IsSound rule
        × IsRated rule
        × SameKey old rule
        × ((bits : ℕ) × (rule.match_anomaly ≡ pos bits)
            × (bits ≤ 3)
            × (validate_node_anomaly_fields bits rule.action rule.src_ip rule.dst_ip rule.src_cidr
                  rule.dst_cidr
                ≡ none))
        × (push ≡ push_of old.enabled rule.enabled)
  unfolding update_rule
  update_rule-IsSound id req r old rule push there aimed done =
      let a = update_found-Answered old req r (repo.get r id) there in
      let good = reply_facts old (update_found repo req r (repo.get r id)).1 rule push done a in
      let applied = good.0.applied in
      (
        IsUpdate-IsSound old rule good.0 aimed,
        applied.1,
        applied.2,
        effective-node _ _ _ _ rule.match_anomaly rule.action applied.0,
        good.1,
      )
