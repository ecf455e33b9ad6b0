-- ===== src/Controller/Create/Checked.antt =====
-- What Create of controller/internal/service/rule_service.go knows of a request that it has checked.
use mathlib.Core.List.{[]}
use xdrop.Prelude.{
  Bool, true, false, not, ◌&&◌, ◌||◌, Option, some, none, ◌≡◌, inl, inr, refl, subst, Bool-cases,
}
use xdrop.Prelude.Text.{Text, text_beq, text_beq_iff}
use xdrop.Controller.Types.{RuleRequest}
use xdrop.Controller.Decoder.{validate_anomaly_fields, is_zero, has_tcp_flags, AnomalyError}
use xdrop.Controller.Validate.{Error, Result, ok, err, ◌>>=◌, refuse_if, validate_cidr_rule}
use xdrop.Controller.Create.{RuleRepository, check_cidrs, check_anomaly, check_create}

-- what holds of a result that is not an error
unfoldable pub Always {ℓ κ} : {A : Type ℓ} → (A → Type κ) → Result A → Type κ
Always P (ok x) = P x
Always P (err e) = Unit

pub Always-ok {ℓ κ} : {A : Type ℓ} (P : A → Type κ) (x : A) → P x → Always P (ok x)
unfolding Always
Always-ok P x px = px

pub Always-bind {ℓ κ μ} :
    {A : Type ℓ} {B : Type κ} (P : B → Type μ) (first : Result A) (next : A → Result B)
    → ((x : A) → first ≡ ok x → Always P (next x))
    → Always P (first >>= next)
unfolding Always ◌>>=◌
Always-bind P (ok x) next then_holds = then_holds x refl
Always-bind P (err e) next then_holds = tt

pub Always-refuse {ℓ κ} :
    {A : Type ℓ} (P : A → Type κ) (test : Bool) (e : Error) (rest : Result A)
    → (test ≡ false → Always P rest)
    → Always P (refuse_if test e rest)
unfolding Always refuse_if
Always-refuse P true e rest then_holds = tt
Always-refuse P false e rest then_holds = then_holds refl

pub of_Always {ℓ κ} :
    {A : Type ℓ} (P : A → Type κ) (r : Result A) (x : A) → Always P r → r ≡ ok x → P x
unfolding Always
of_Always P r x holds same = subst (Always P) same holds

both_empty :
    (s t : Text) → (not (text_beq s []) || not (text_beq t [])) ≡ false → (s ≡ []) × (t ≡ [])
both_empty s t h = elim (Bool-cases (text_beq s [])) [
  | inr filled ↦ (let never : true ≡ false = rw filled at h in cc)
  | inl empty ↦ elim (Bool-cases (text_beq t [])) [
    | inr filled ↦ (let never : true ≡ false = rw (empty, filled) at h in cc)
    | inl empty' ↦ ((text_beq_iff s []).0 empty, (text_beq_iff t []).0 empty')
  ]
]

abbrev NoIps : RuleRequest → Type 0
NoIps req = (req.src_ip ≡ []) × (req.dst_ip ≡ [])

-- the check of a CIDR rule leaves no address
validate_cidr_rule-NoIps : (req : RuleRequest) → Always NoIps (validate_cidr_rule req)
unfolding validate_cidr_rule
validate_cidr_rule-NoIps req = Always-refuse _ _ _ _ λ some_cidr. Always-refuse _ _ _ _ λ no_ip.
    Always-bind _ _ _ λ src_cidr normal.
      Always-bind _ _ _ λ dst_cidr normal'. Always-ok _ _ (both_empty req.src_ip req.dst_ip no_ip)

-- the addresses of a request with CIDRs, and the CIDRs of one without
abbrev pub Aimed : RuleRequest × Bool → Type 0
Aimed (req, false) = (req.src_cidr ≡ []) × (req.dst_cidr ≡ [])
Aimed (req, true) = (req.src_ip ≡ []) × (req.dst_ip ≡ [])

module _ {R : Type 0} (repo : RuleRepository R) where
  pub check_cidrs-Aimed : (r : R) (req : RuleRequest) → Always Aimed (check_cidrs repo r req)
  unfolding check_cidrs
  check_cidrs-Aimed r req =
      elim (Bool-cases (not (text_beq req.src_cidr []) || not (text_beq req.dst_cidr []))) [
        | inl cidr ↦ rw cidr (
            Always-bind _ _ _ λ req' valid.
              Always-refuse _ _ _ _
                λ clear. Always-ok _ _ (of_Always _ _ req' (validate_cidr_rule-NoIps req) valid))
        | inr exact ↦ rw exact (Always-ok _ _ (both_empty req.src_cidr req.dst_cidr exact))
      ]

-- what the last checks know of a request
pub record IsChecked (checked : RuleRequest × Bool) : Type 0 where
  pub anomaly : validate_anomaly_fields checked.0 ≡ none
  pub exclusive :
      (has_tcp_flags checked.0.tcp_flags && not (is_zero checked.0.match_anomaly)) ≡ false
  pub aimed : Aimed checked

pub check_anomaly-IsChecked :
    (req : RuleRequest) (flag : Bool) (e : Option AnomalyError)
    → validate_anomaly_fields req ≡ e
    → Aimed (req, flag)
    → Always IsChecked (check_anomaly (req, flag))
unfolding check_anomaly
check_anomaly-IsChecked req flag (some e) found aim =
    rw (found, check_anomaly) (unfold Always in tt)
check_anomaly-IsChecked req flag none found aim =
    rw (found, check_anomaly)
      (Always-refuse _ _ _ _
        λ exclusive. Always-ok _ _ (record { anomaly = found; exclusive = exclusive; aimed = aim }))

module _ {R : Type 0} (repo : RuleRepository R) where
  pub check_create-IsChecked :
      (r : R) (req : RuleRequest) → Always IsChecked (check_create repo r req)
  unfolding check_create
  check_create-IsChecked r req = Always-bind _ _ _ λ fields valid. Always-bind _ _ _ λ cidrs aimed.
      check_anomaly-IsChecked cidrs.0 cidrs.1 (validate_anomaly_fields cidrs.0) refl
        (of_Always _ _ cidrs (check_cidrs-Aimed repo r fields) aimed)
