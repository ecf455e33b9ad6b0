-- ===== src/Controller/Batch/Items.antt =====
-- The rules that BatchCreate of controller/internal/service/rule_service.go stores.
use Prim.Native.Nat.{suc}
use mathlib.Core.List.{List, [], ◌∷◌}
use xdrop.Prelude.{
  Bool, false, ◌&&◌, Option, some, none, String, ◌≡◌, refl, sym, ◌∙◌, subst, Bool-cases, inl, inr,
}
use xdrop.Prelude.GoMap.{is_in}
use xdrop.Prelude.Text.{text_eq}
use xdrop.Controller.Types.{RuleRequest, Rule}
use xdrop.Controller.Overlap.{check_cidr_overlap}
use xdrop.Controller.Decoder.{AnomalyError, validate_anomaly_fields}
use xdrop.Controller.Validate.{Result, ok, err}
use xdrop.Controller.Create.{RuleRepository, check_anomaly, new_rule}
use xdrop.Controller.Create.Checked.{
  Always, Always-ok, Always-bind, Always-refuse, of_Always, IsChecked, Aimed, check_cidrs-Aimed,
  check_anomaly-IsChecked,
}
use xdrop.Controller.Batch.{
  Pending, batch_key, effective_protocol, check_pending, check_exists, check_seen, add_pending,
  check_item, create_items, store_items, BatchReply, batch_failed, batch_created, find_duplicate,
  Items,
}

-- the CIDRs of the request overlap none of those that came before
abbrev pub Clear : Pending → RuleRequest × Bool → Type 0
Clear pending checked =
    (checked.1
      && check_cidr_overlap checked.0.src_cidr checked.0.dst_cidr (some pending.src_cidrs)
          (some pending.dst_cidrs))
    ≡ false

-- what the checks know of a request of the batch
pub record MayJoin (pending : Pending) (checked : RuleRequest × Bool) : Type 0 where
  pub is_checked : IsChecked checked
  pub clear : Clear pending checked
  pub fresh :
      is_in (batch_key checked.0 (effective_protocol checked.0.protocol)) pending.seen_keys ≡ false

check_pending-same :
    (pending : Pending) (req : RuleRequest) (flag : Bool)
    → Always
        (λ out. (out ≡ (req, flag)) × Clear pending (req, flag))
        (check_pending pending (req, flag))
unfolding check_pending
check_pending-same pending req flag = Always-refuse _ _ _ _ λ clear. Always-ok _ _ (refl, clear)

check_anomaly-same :
    (req : RuleRequest) (flag : Bool) (e : Option AnomalyError)
    → validate_anomaly_fields req ≡ e
    → Always (λ out. out ≡ (req, flag)) (check_anomaly (req, flag))
unfolding check_anomaly
check_anomaly-same req flag (some e) found = rw (found, check_anomaly) (unfold Always in tt)
check_anomaly-same req flag none found =
    rw (found, check_anomaly) (Always-refuse _ _ _ _ λ exclusive. Always-ok _ _ refl)

check_exists-same :
    (found : Option Bool) (checked : RuleRequest × Bool)
    → Always (λ out. out ≡ checked) (check_exists found checked)
unfolding check_exists Always
check_exists-same none checked = tt
check_exists-same (some found) checked =
    Always-refuse (λ out. out ≡ checked) _ _ _ λ new. Always-ok (λ out. out ≡ checked) _ refl

check_seen-MayJoin :
    (pending : Pending) (checked : RuleRequest × Bool)
    → IsChecked checked
    → Clear pending checked
    → Always (MayJoin pending) (check_seen pending checked)
unfolding check_seen
check_seen-MayJoin pending checked good clear =
    Always-refuse _ _ _ _
      λ fresh. Always-ok _ _ (record { is_checked = good; clear = clear; fresh = fresh })

module _ {R : Type 0} (repo : RuleRepository R) where
  pub check_item-MayJoin :
      (r : R) (pending : Pending) (req : RuleRequest)
      → Always (MayJoin pending) (check_item repo r pending req)
  unfolding check_item
  check_item-MayJoin r pending req = Always-bind _ _ _ λ fields a. Always-bind _ _ _ λ cidrs b.
      let aimed = of_Always Aimed _ cidrs (check_cidrs-Aimed repo r fields) b in
      Always-bind _ _ _ λ passed c.
        let first = of_Always _ _ passed (check_pending-same pending cidrs.0 cidrs.1) c in
        let aimed' = subst Aimed (sym first.0) aimed in
        let clear = subst (Clear pending) (sym first.0) first.1 in
        Always-bind _ _ _ λ special d.
          let second = of_Always _ _ special (check_anomaly-same passed.0 passed.1 _ refl) d in
          let good =
            of_Always _ _ special (check_anomaly-IsChecked passed.0 passed.1 _ refl aimed') d in
          Always-bind _ _ _ λ new e.
            let third =
              of_Always _ _ new (check_exists-same (find_duplicate repo r special.0) special) e in
            check_seen-MayJoin pending new (subst IsChecked (sym third) good)
              (subst (Clear pending) (sym (third ∙ second)) clear)

abbrev pub All {ℓ} : {A : Type ℓ} → (A → Type 0) → List A → Type 0
All P [] = Unit
All P (x ∷ xs) = P x × All P xs

-- the stored rules of an answer
abbrev pub stored_rules : BatchReply → List Rule
stored_rules batch_failed = []
stored_rules (batch_created rules failed pushed) = rules

module _ {R : Type 0} (repo : RuleRepository R) where
  -- a stored list is that of the loop
  pub store_items-All :
      (P : List Rule → Type 0) (r : R) (items : Items)
      → P []
      → P items.0
      → P (stored_rules (store_items repo r items).1)
  unfolding store_items
  store_items-All P r ([], failed) empty holds = holds
  store_items-All P r (rule ∷ rules, failed) empty holds =
      elim (Bool-cases (repo.batch_create r (rule ∷ rules)).1) [
        | inl stored ↦ rw stored holds
        | inr lost ↦ rw lost empty
      ]

  -- The cases of one round.
  pub create_items-cons :
      (Q : Items → Type 0) (r : R) (pending : Pending) (id : String) (req : RuleRequest)
      (reqs : List (String × RuleRequest)) (result : Result (RuleRequest × Bool))
      → check_item repo r pending req ≡ result
      → ((rest : Items) → rest ≡ create_items repo r pending reqs → Q (rest.0, suc rest.1))
      → ((checked : RuleRequest × Bool) (rest : Items)
          → check_item repo r pending req ≡ ok checked
          → rest ≡ create_items repo r (add_pending checked.0 pending) reqs
          → Q (new_rule id checked.0 (effective_protocol checked.0.protocol) ∷ rest.0, rest.1))
      → Q (create_items repo r pending ((id, req) ∷ reqs))
  unfolding create_items
  create_items-cons Q r pending id req reqs (err e) found fails joins =
      rw (create_items, found) (fails _ refl)
  create_items-cons Q r pending id req reqs (ok checked) found fails joins =
      rw (create_items, found) (joins checked _ found refl)
