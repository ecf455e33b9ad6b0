-- ===== src/Controller/Batch/Stored.antt =====
-- The rules that BatchCreate of controller/internal/service/rule_service.go stores are sound and do not
-- stand in one another's way.
use mathlib.Core.List.{List, [], ◌∷◌}
use xdrop.Prelude.{Bool, String, ◌≡◌, refl, sym, subst}
use xdrop.Prelude.Text.{text_eq}
use xdrop.Controller.Types.{RuleRequest, Rule}
use xdrop.Controller.Validate.{ok}
use xdrop.Controller.Create.{RuleRepository, new_rule}
use xdrop.Controller.Create.Sound.{IsSound, new_rule-IsSound}
use xdrop.Controller.Create.Checked.{of_Always}
use xdrop.Controller.Batch.{
  Pending, effective_protocol, add_pending, check_item, create_items, batch_create,
}
use xdrop.Controller.Batch.Apart.{
  Covers, Covers-IsApart, add_pending-Covers, new_rule-Covers, IsApart, AreApart,
}
use xdrop.Controller.Batch.Items.{
  MayJoin, check_item-MayJoin, All, stored_rules, store_items-All, create_items-cons,
}

module _ {R : Type 0} (repo : RuleRepository R) where
  may_join :
      (r : R) (pending : Pending) (req : RuleRequest) (checked : RuleRequest × Bool)
      → check_item repo r pending req ≡ ok checked
      → MayJoin pending checked
  may_join r pending req checked passed =
      of_Always _ _ checked (check_item-MayJoin repo r pending req) passed

  -- a rule that came before is apart from all that come
  create_items-IsApart :
      (r : R) (pending : Pending) (reqs : List (String × RuleRequest)) (a : Rule)
      → Covers pending a
      → All (IsApart a) (create_items repo r pending reqs).0
  unfolding create_items
  create_items-IsApart r pending [] a covers = tt
  create_items-IsApart r pending ((id, req) ∷ reqs) a covers =
      create_items-cons repo (λ items. All (IsApart a) items.0) r pending id req reqs
        (check_item repo r pending req) refl
        (λ rest same.
          subst (λ items. All (IsApart a) items.0) (sym same)
            (create_items-IsApart r pending reqs a covers))
        (λ checked rest passed same. (
          Covers-IsApart pending a id checked covers (may_join r pending req checked passed),
          subst (λ items. All (IsApart a) items.0) (sym same)
              (create_items-IsApart r (add_pending checked.0 pending) reqs a
                (add_pending-Covers pending checked.0 a covers)),
        ))

  create_items-AreApart :
      (r : R) (pending : Pending) (reqs : List (String × RuleRequest))
      → AreApart (create_items repo r pending reqs).0
  unfolding create_items
  create_items-AreApart r pending [] = tt
  create_items-AreApart r pending ((id, req) ∷ reqs) =
      create_items-cons repo (λ items. AreApart items.0) r pending id req reqs
        (check_item repo r pending req) refl
        (λ rest same.
          subst (λ items. AreApart items.0) (sym same) (create_items-AreApart r pending reqs))
        (λ checked rest passed same. (
          subst
              (λ items.
                All (IsApart (new_rule id checked.0 (effective_protocol checked.0.protocol)))
                  items.0)
              (sym same)
              (create_items-IsApart r (add_pending checked.0 pending) reqs _
                (new_rule-Covers pending id checked.0)),
          subst (λ items. AreApart items.0) (sym same)
              (create_items-AreApart r (add_pending checked.0 pending) reqs),
        ))

  pub create_items-IsSound :
      (r : R) (pending : Pending) (reqs : List (String × RuleRequest))
      → All IsSound (create_items repo r pending reqs).0
  unfolding create_items
  create_items-IsSound r pending [] = tt
  create_items-IsSound r pending ((id, req) ∷ reqs) =
      create_items-cons repo (λ items. All IsSound items.0) r pending id req reqs
        (check_item repo r pending req) refl
        (λ rest same.
          subst (λ items. All IsSound items.0) (sym same) (create_items-IsSound r pending reqs))
        (λ checked rest passed same. (
          new_rule-IsSound id _ checked.0 checked.1
              (may_join r pending req checked passed).is_checked,
          subst (λ items. All IsSound items.0) (sym same)
              (create_items-IsSound r (add_pending checked.0 pending) reqs),
        ))

  -- Every rule that BatchCreate stores is sound: its anomaly bits, its action and its target pass the
  -- anomaly checks, it has no TCP flags together with anomaly bits, and no addresses together with
  -- CIDRs. The rules are apart from one another: no two have the same addresses, CIDRs, ports and
  -- protocol, and no address lies in two source CIDRs, or in two destination CIDRs, of one address
  -- family that are written differently.
  pub batch_create-AreApart :
      (r : R) (reqs : List (String × RuleRequest))
      → All IsSound (stored_rules (batch_create repo r reqs).1)
        × AreApart (stored_rules (batch_create repo r reqs).1)
  unfolding batch_create
  batch_create-AreApart r reqs =
      let items =
        create_items repo r (record { src_cidrs = []; dst_cidrs = []; seen_keys = [] }) reqs in
      (
        store_items-All repo (All IsSound) r items tt (create_items-IsSound r _ reqs),
        store_items-All repo AreApart r items tt (create_items-AreApart r _ reqs),
      )
