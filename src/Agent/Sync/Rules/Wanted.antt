-- ===== src/Agent/Sync/Rules/Wanted.antt =====
-- The rules that a full synchronisation of node/agent/api/sync.go is to install, from the request
-- alone, and what the loop counts.
use mathlib.Core.List.{List, [], ◌∷◌}
use mathlib.Core.Option.{or_else}
use xdrop.Prelude.GoMap.{lookup, is_in, lookup-insert}
use xdrop.Prelude.Text.{string_eq}
use xdrop.Agent.Types.{StoredRule, Rule}
use xdrop.Agent.Convert.{rule_to_key}
use xdrop.Agent.State.{Bpf}
use xdrop.Agent.Rules.{rule_id, stored_rule}
use xdrop.Agent.CidrRules.{reserve_cidr}
use xdrop.Agent.Sync.Route.{SyncRoute, rejected, cidr_rule, exact_rule, route_sync, has_cidr}
use xdrop.Agent.Sync.Route.Valued.{route_sync-IsExact, route_sync-IsCidr}
use xdrop.Agent.Sync.Rules.{
  Build, fail, add_exact, add_cidr, write_exact, write_cidr, build_route, build_rules, Option, List,
  String, ℕ, if◌then◌else◌, none, suc, some, true, false, Bool,
}
use xdrop.Agent.Sync.Rules.Built.{IsDistinct}
use xdrop.Prelude.{
  ◌+◌, ◌≡◌, ◌≤◌, arith, length, Option-cases, inl, inr, refl, Bool-cases, sym, ◌∙◌, ap,
}

-- the stored rule that a request is to leave behind under its id
unfoldable pub wanted_rule : Rule → Option StoredRule
wanted_rule r =
    if has_cidr r
    then none
    else elim (rule_to_key r) [ none ↦ none | some key ↦ some (stored_rule key r) ]

-- the last rule with the id; ids are distinct
unfoldable pub wanted : String → List (String × Rule) → Option StoredRule
unfolding wanted_rule
wanted j [] = none
wanted j ((new_id, r) ∷ rs) =
    if string_eq.beq (rule_id r new_id) j then wanted_rule r else wanted j rs

-- how a rule is counted: as added or as failed
unfoldable pub tally : {M T : Type 0} → Build M T → ℕ
tally b = b.added + b.failed

unfoldable pub counts : {M T : Type 0} → Build M T → ℕ
counts b = b.rule_count + b.cidr_count

pub first_seen :
    (id j : String) (ids : List String) → string_eq.beq id j ≡ true → is_in j (id ∷ ids) ≡ true
unfolding is_in
first_seen id j ids same = rw same refl

pub one_of_two {ℓ} :
    {A : Type ℓ} (here : Bool) (new later old : Option A)
    → (here ≡ true → later ≡ none)
    → or_else later (if here then or_else new old else old)
      ≡ or_else (if here then new else later) old
unfolding or_else
one_of_two true new later old last = rw (last refl) refl
one_of_two false new later old last = refl

-- an id that was seen before does not come again
wanted-fresh :
    (ids : List String) (rs : List (String × Rule)) (j : String)
    → IsDistinct ids rs
    → is_in j ids ≡ true
    → wanted j rs ≡ none
unfolding wanted is_in
wanted-fresh ids [] j distinct seen = refl
wanted-fresh ids ((new_id, r) ∷ rs) j distinct seen =
    elim (Bool-cases (string_eq.beq (rule_id r new_id) j)) [
      | inl same ↦
          let q : rule_id r new_id ≡ j = (string_eq.beq_iff (rule_id r new_id) j).0 same in
          let never : true ≡ false = sym seen ∙ ap (λ i. is_in i ids) (sym q) ∙ distinct.0 in cc
      | inr other ↦ rw other (wanted-fresh (rule_id r new_id ∷ ids) rs j distinct.1 (rw other seen))
    ]

module _ {M C T : Type 0} (bpf : Bpf M C T) where
  open bpf use {maps, tries}

  build_route-tally :
      (id : String) (r : Rule) (b : Build M T) (route : SyncRoute)
      → tally (build_route bpf id r b route) ≡ suc (tally b)
  unfolding build_route tally fail write_exact write_cidr add_exact add_cidr
  build_route-tally id r b rejected = omega arith
  build_route-tally id r b (exact_rule key value) = ground arith
  build_route-tally id r b (cidr_rule plan flags) =
      elim (Option-cases (reserve_cidr tries plan r b.cidr_mgr).1) [
        | inl refused ↦ rw refused (omega arith)
        | inr (key, reserved) ↦ rw reserved (ground arith)
      ]

  build_route-counts :
      (id : String) (r : Rule) (b : Build M T) (route : SyncRoute)
      → counts b ≡ b.added
      → counts (build_route bpf id r b route) ≡ (build_route bpf id r b route).added
  unfolding build_route counts fail write_exact write_cidr add_exact add_cidr
  build_route-counts id r b rejected same = same
  build_route-counts id r b (exact_rule key value) same = ground (arith, same)
  build_route-counts id r b (cidr_rule plan flags) same =
      elim (Option-cases (reserve_cidr tries plan r b.cidr_mgr).1) [
        | inl refused ↦ rw refused same
        | inr (key, reserved) ↦ rw reserved (ground (arith, same))
      ]

  pub build_route-failed :
      (id : String) (r : Rule) (b : Build M T) (route : SyncRoute)
      → b.failed ≤ (build_route bpf id r b route).failed
  unfolding build_route fail write_exact write_cidr add_exact add_cidr
  build_route-failed id r b rejected = omega arith
  build_route-failed id r b (exact_rule key value) = ground arith
  build_route-failed id r b (cidr_rule plan flags) =
      elim (Option-cases (reserve_cidr tries plan r b.cidr_mgr).1) [
        | inl refused ↦ rw refused (omega arith)
        | inr (key, reserved) ↦ rw reserved (ground arith)
      ]

  pub build_rules-failed :
      (rs : List (String × Rule)) (b : Build M T) → b.failed ≤ (build_rules bpf rs b).failed
  unfolding build_rules
  build_rules-failed [] b = omega arith
  build_rules-failed ((new_id, r) ∷ rs) b =
      let step = build_route-failed (rule_id r new_id) r b (route_sync r) in
      let rest = build_rules-failed rs (build_route bpf (rule_id r new_id) r b (route_sync r)) in
      omega (arith, step, rest)

  pub build_rules-tally :
      (rs : List (String × Rule)) (b : Build M T)
      → tally (build_rules bpf rs b) ≡ length rs + tally b
  unfolding build_rules
  build_rules-tally [] b = omega arith
  build_rules-tally ((new_id, r) ∷ rs) b =
      let step = build_route-tally (rule_id r new_id) r b (route_sync r) in
      let rest = build_rules-tally rs (build_route bpf (rule_id r new_id) r b (route_sync r)) in
      omega (arith, step, rest)

  pub build_rules-counts :
      (rs : List (String × Rule)) (b : Build M T)
      → counts b ≡ b.added
      → counts (build_rules bpf rs b) ≡ (build_rules bpf rs b).added
  unfolding build_rules
  build_rules-counts [] b same = same
  build_rules-counts ((new_id, r) ∷ rs) b same =
      build_rules-counts rs _ (build_route-counts (rule_id r new_id) r b (route_sync r) same)

  build_route-rules :
      (id : String) (r : Rule) (b : Build M T) (route : SyncRoute) (j : String)
      → route_sync r ≡ route
      → (build_route bpf id r b route).failed ≡ b.failed
      → lookup j (build_route bpf id r b route).rules ≡ (
          if string_eq.beq id j
          then or_else (wanted_rule r) (lookup j b.rules)
          else lookup j b.rules)
  unfolding build_route fail write_exact write_cidr add_exact add_cidr wanted_rule or_else
  build_route-rules id r b rejected j checked same = ground (arith, same)
  build_route-rules id r b (exact_rule key value) j checked same =
      let e = route_sync-IsExact r key value checked in
      ground (arith, same, e.exact, e.addressed, lookup-insert id j (stored_rule key r) b.rules)
  build_route-rules id r b (cidr_rule plan flags) j checked same =
      let e = route_sync-IsCidr r plan flags checked in
      elim (Option-cases (reserve_cidr tries plan r b.cidr_mgr).1) [
        | inl refused ↦ rw refused (ground (arith, rw refused at same))
        | inr (key, reserved) ↦ rw reserved (ground (arith, rw reserved at same, e.cidr))
      ]

  pub build_rules-rules :
      (ids : List String) (rs : List (String × Rule)) (b : Build M T) (j : String)
      → IsDistinct ids rs
      → (build_rules bpf rs b).failed ≡ 0
      → lookup j (build_rules bpf rs b).rules ≡ or_else (wanted j rs) (lookup j b.rules)
  unfolding build_rules wanted or_else
  build_rules-rules ids [] b j distinct all = refl
  build_rules-rules ids ((new_id, r) ∷ rs) b j distinct all =
      let id = rule_id r new_id in
      let b' = build_route bpf id r b (route_sync r) in
      let none_failed : b'.failed ≡ b.failed =
        omega (arith, all, build_rules-failed rs b', build_route-failed id r b (route_sync r)) in
      let rest = build_rules-rules (id ∷ ids) rs b' j distinct.1 all in
      let step = build_route-rules id r b (route_sync r) j refl none_failed in
      rest
      ∙ ap (or_else (wanted j rs)) step
      ∙ one_of_two (string_eq.beq id j) (wanted_rule r) (wanted j rs) (lookup j b.rules)
          (λ same. wanted-fresh (id ∷ ids) rs j distinct.1 (first_seen id j ids same))
