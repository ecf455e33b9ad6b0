-- ===== src/Agent/Sync/Rules/WantedCidr.antt =====
-- The CIDR rules that a full synchronisation of node/agent/api/sync.go is to install, from the request
-- alone. The numbers of their CIDRs are left out, since the CIDR manager finds them.
use mathlib.Core.List.{List, [], ◌∷◌}
use mathlib.Core.Option.{or_else}
use mathlib.Core.Option
use Prim.Native.Nat.{ℕ}
use Prim.Native.String.{String}
use xdrop.Prelude.GoMap.{lookup, is_in, lookup-insert}
use xdrop.Prelude.Text.{Text, string_eq}
use xdrop.Cidr.Manager.{Manager}
use xdrop.Agent.Types.{RuleKey, RuleValue, CidrRuleKey, StoredCidrRule, Rule}
use xdrop.Agent.Wire.{cidr_rule_key_to_bytes, rule_value_to_bytes}
use xdrop.Ebpf.{update_no_exist}
use xdrop.Agent.Cidrs.{normalize_side, alloc_ids}
use xdrop.Agent.State.{Bpf}
use xdrop.Agent.Rules.{rule_id}
use xdrop.Agent.CidrRules.{
  CidrPlan, cidr_rule_key, cidr_rule_value, stored_cidr_rule, reserve_key, reserve_cidr,
}
use xdrop.Agent.Sync.Route.{SyncRoute, rejected, cidr_rule, exact_rule, route_sync, has_cidr}
use xdrop.Agent.Sync.Route.Valued.{route_sync-IsExact, route_sync-IsCidr}
use xdrop.Agent.Sync.Rules.{
  Build, fail, add_exact, add_cidr, write_exact, write_cidr, build_route, build_rules,
}
use xdrop.Agent.Sync.Rules.Built.{IsDistinct}
use xdrop.Agent.Sync.Rules.Wanted.{first_seen, one_of_two, build_route-failed, build_rules-failed}
use xdrop.Prelude.{
  Bool, true, false, Option, some, none, if◌then◌else◌, ◌≡◌, arith, refl, sym, ap, ◌∙◌,
  Option-cases, Bool-cases, inl, inr,
}

abbrev pub without_ids : StoredCidrRule → StoredCidrRule
without_ids s = record s { key = record s.key { src_id = 0; dst_id = 0 } }

wanted_plan : Rule → Option Text → Option Text → Option StoredCidrRule
unfolding stored_cidr_rule cidr_rule_key
wanted_plan r none dst = none
wanted_plan r (some src) none = none
wanted_plan r (some src) (some dst) = some (
    stored_cidr_rule (record { action = 0; src_cidr = src; dst_cidr = dst })
      (cidr_rule_key r (0, 0)) r)

-- the CIDR rule that a request is to leave behind under its id
unfoldable pub wanted_cidr_rule : Rule → Option StoredCidrRule
unfolding wanted_plan
wanted_cidr_rule r =
    if has_cidr r
    then wanted_plan r (normalize_side r.src_cidr) (normalize_side r.dst_cidr)
    else none

-- the CIDR rule that the request with this id is to leave behind; ids are distinct
unfoldable pub wanted_cidr : String → List (String × Rule) → Option StoredCidrRule
unfolding wanted_cidr_rule
wanted_cidr j [] = none
wanted_cidr j ((new_id, r) ∷ rs) =
    if string_eq.beq (rule_id r new_id) j then wanted_cidr_rule r else wanted_cidr j rs

wanted_cidr-fresh :
    (ids : List String) (rs : List (String × Rule)) (j : String)
    → IsDistinct ids rs
    → is_in j ids ≡ true
    → wanted_cidr j rs ≡ none
unfolding wanted_cidr is_in
wanted_cidr-fresh ids [] j distinct seen = refl
wanted_cidr-fresh ids ((new_id, r) ∷ rs) j distinct seen =
    elim (Bool-cases (string_eq.beq (rule_id r new_id) j)) [
      | inl same ↦
          let q : rule_id r new_id ≡ j = (string_eq.beq_iff (rule_id r new_id) j).0 same in
          let never : true ≡ false = sym seen ∙ ap (λ i. is_in i ids) (sym q) ∙ distinct.0 in cc
      | inr other ↦
          rw other (wanted_cidr-fresh (rule_id r new_id ∷ ids) rs j distinct.1 (rw other seen))
    ]

planned :
    (r : Rule) (plan : CidrPlan)
    → has_cidr r ≡ true
    → normalize_side r.src_cidr ≡ some plan.src_cidr
    → normalize_side r.dst_cidr ≡ some plan.dst_cidr
    → (ids : ℕ × ℕ)
    → wanted_cidr_rule r ≡ some (without_ids (stored_cidr_rule plan (cidr_rule_key r ids) r))
unfolding wanted_cidr_rule stored_cidr_rule cidr_rule_key
planned r plan cidr src dst ids = rw (cidr, src, dst) refl

exact_only : (r : Rule) → has_cidr r ≡ false → wanted_cidr_rule r ≡ none
unfolding wanted_cidr_rule
exact_only r exact = rw exact refl

either_way : (here : Bool) (x : Option StoredCidrRule) → x ≡ (if here then or_else none x else x)
unfolding or_else
either_way true x = refl
either_way false x = refl

map_if :
    (here : Bool) (s : StoredCidrRule) (old : Option StoredCidrRule)
    → Option.map without_ids (if here then some s else old)
      ≡ (if here then some (without_ids s) else Option.map without_ids old)
map_if true s old = refl
map_if false s old = refl

module _ {M T : Type 0} where
  -- the rule of an id, less its numbers
  abbrev pub known : String → Build M T → Option StoredCidrRule
  known j b = Option.map without_ids (lookup j b.cidr_rules)

module _ {M C T : Type 0} (bpf : Bpf M C T) where
  open bpf use {maps, tries}

  -- the key that is reserved is that of the request, with two numbers
  reserve_key-parts :
      (plan : CidrPlan) (r : Rule) (p : Manager T × Option (ℕ × ℕ)) (key : CidrRuleKey)
      → (reserve_key tries plan r p).1 ≡ some key
      → (ids : ℕ × ℕ) × (key ≡ cidr_rule_key r ids)
  unfolding reserve_key
  reserve_key-parts plan r (m, none) key found = cc
  reserve_key-parts plan r (m, some ids) key found = (ids, ground arith)

  reserve_cidr-parts :
      (plan : CidrPlan) (r : Rule) (m : Manager T) (key : CidrRuleKey)
      → (reserve_cidr tries plan r m).1 ≡ some key
      → (ids : ℕ × ℕ) × (key ≡ cidr_rule_key r ids)
  unfolding reserve_cidr
  reserve_cidr-parts plan r m key found =
      reserve_key-parts plan r (alloc_ids tries plan.src_cidr plan.dst_cidr m) key found

  write_exact-kept :
      (id : String) (key : RuleKey) (value : RuleValue) (r : Rule) (b : Build M T)
      → (write_exact bpf id key value r b).cidr_rules ≡ b.cidr_rules
  unfolding write_exact fail add_exact
  write_exact-kept id key value r b = ground arith

  write_cidr-known :
      (id : String) (plan : CidrPlan) (value : RuleValue) (r : Rule) (b : Build M T)
      (key : CidrRuleKey) (j : String)
      → (write_cidr bpf id plan value r b (some key)).failed ≡ b.failed
      → known j (write_cidr bpf id plan value r b (some key)) ≡ (
          if string_eq.beq id j
          then some (without_ids (stored_cidr_rule plan key r))
          else known j b)
  unfolding write_cidr fail add_cidr
  write_cidr-known id plan value r b key j same =
      let entry =
        maps.update b.cidr_shadow update_no_exist (cidr_rule_key_to_bytes key)
          (rule_value_to_bytes value) in
      let s = stored_cidr_rule plan key r in
      elim (Bool-cases entry.1) [
        | inl done ↦ rw done (
            ap (Option.map without_ids) (lookup-insert id j s b.cidr_rules)
            ∙ map_if (string_eq.beq id j) s (lookup j b.cidr_rules))
        | inr failed ↦ ground (arith, rw failed at same)
      ]

  build_route-cidr_rules :
      (id : String) (r : Rule) (b : Build M T) (route : SyncRoute) (j : String)
      → route_sync r ≡ route
      → (build_route bpf id r b route).failed ≡ b.failed
      → known j (build_route bpf id r b route)
        ≡ (if string_eq.beq id j then or_else (wanted_cidr_rule r) (known j b) else known j b)
  unfolding build_route fail write_exact write_cidr add_exact add_cidr or_else
  build_route-cidr_rules id r b rejected j checked same = ground (arith, same)
  build_route-cidr_rules id r b (exact_rule key value) j checked same =
      let none_wanted = exact_only r (route_sync-IsExact r key value checked).exact in
      ap (λ rules. Option.map without_ids (lookup j rules)) (write_exact-kept id key value r b)
      ∙ either_way (string_eq.beq id j) (known j b)
      ∙ ap (λ w. if string_eq.beq id j then or_else w (known j b) else known j b) (sym none_wanted)
  build_route-cidr_rules id r b (cidr_rule plan flags) j checked same =
      let e = route_sync-IsCidr r plan flags checked in
      elim (Option-cases (reserve_cidr tries plan r b.cidr_mgr).1) [
        | inl refused ↦ rw refused (ground (arith, rw refused at same))
        | inr (key, reserved) ↦
            let (ids, made) = reserve_cidr-parts plan r b.cidr_mgr key reserved in
            let want = planned r plan e.cidr e.normal_src e.normal_dst ids in
            rw (reserved, want, made)
              (write_cidr-known id plan (cidr_rule_value plan flags.0 flags.1 r) r _
                (cidr_rule_key r ids) j (rw (reserved, made) at same))
      ]

  pub build_rules-cidr_rules :
      (ids : List String) (rs : List (String × Rule)) (b : Build M T) (j : String)
      → IsDistinct ids rs
      → (build_rules bpf rs b).failed ≡ 0
      → known j (build_rules bpf rs b) ≡ or_else (wanted_cidr j rs) (known j b)
  unfolding build_rules wanted_cidr or_else
  build_rules-cidr_rules ids [] b j distinct all = refl
  build_rules-cidr_rules ids ((new_id, r) ∷ rs) b j distinct all =
      let id = rule_id r new_id in
      let b' = build_route bpf id r b (route_sync r) in
      let none_failed : b'.failed ≡ b.failed =
        omega (
          arith,
          all,
          build_rules-failed bpf rs b',
          build_route-failed bpf id r b (route_sync r),
        ) in
      let rest = build_rules-cidr_rules (id ∷ ids) rs b' j distinct.1 all in
      let step = build_route-cidr_rules id r b (route_sync r) j refl none_failed in
      rest
      ∙ ap (or_else (wanted_cidr j rs)) step
      ∙ one_of_two (string_eq.beq id j) (wanted_cidr_rule r) (wanted_cidr j rs) (known j b)
          (λ same. wanted_cidr-fresh (id ∷ ids) rs j distinct.1 (first_seen id j ids same))
