-- ===== src/Agent/Rules/Batch.antt =====
-- DeleteRulesBatch of node/agent/api/rules_mutation.go: each rule that can be deleted goes, and then
-- one configuration is published for all.
pub mod Invariant
use mathlib.Core.List.{List, [], ◌∷◌}
use Prim.Native.Nat.{ℕ, zero, suc}
use Prim.Native.String.{String}
use xdrop.Prelude.{Bool, Option, some, none, if◌then◌else◌, ◌==◌, ◌+◌, length}
use xdrop.Prelude.GoMap.{lookup}
use xdrop.Prelude.Int.{ℤ, pos, ◌-ℤ◌}
use xdrop.Prelude.Text.{string_eq}
use xdrop.Agent.Types.{StoredRule, StoredCidrRule}
use xdrop.Agent.Wire.{rule_key_to_bytes, cidr_rule_key_to_bytes}
use xdrop.Agent.Cidrs.{release_cidrs}
use xdrop.Agent.CidrRules.{remove_cidr_rule}
use xdrop.Agent.State.{Handlers, Bpf}
use xdrop.Agent.Config.{
  active_blacklist, set_active_blacklist, active_cidr_blacklist, set_active_cidr_blacklist,
  publish_config_update,
}
use xdrop.Agent.Rules.{remove_rule}
use xdrop.Agent.Rules.Delete.{drop_state, forget_pps}

-- what became of one id
pub data Dropped : Type 0 where
  exact_dropped cidr_dropped kept : Dropped

-- the ids of the deleted rules, in their order, and the number of the failures
pub record Batch : Type 0 where
  pub exact_succeeded : List String
  pub cidr_succeeded : List String
  pub failed : ℕ

unfoldable pub record_dropped : String → Dropped → Batch → Batch
record_dropped id exact_dropped b = record b { exact_succeeded = id ∷ b.exact_succeeded }
record_dropped id cidr_dropped b = record b { cidr_succeeded = id ∷ b.cidr_succeeded }
record_dropped id kept b = record b { failed = suc b.failed }

-- the answer
pub record BatchReply : Type 0 where
  pub deleted : ℕ
  pub failed : ℕ

module _ {M C T : Type 0} where
  unfoldable pub forget_all : List String → Handlers M C T → Handlers M C T
  unfolding forget_pps
  forget_all [] h = h
  forget_all (id ∷ ids) h = forget_all ids (forget_pps id h)

module _ {M C T : Type 0} (bpf : Bpf M C T) where
  open bpf use {maps, tries}

  unfoldable pub drop_exact : String → StoredRule → Handlers M C T → Handlers M C T × Dropped
  unfolding drop_state remove_rule
  drop_exact id s h =
      let key = rule_key_to_bytes s.key in
      let deleted = maps.delete (active_blacklist h) key in
      let h' = set_active_blacklist deleted.0 h in
      let h'' = record h' { rl_states = drop_state bpf s.action key h'.rl_states } in
      if deleted.1 then (remove_rule id s h'', exact_dropped) else (h', kept)

  unfoldable pub drop_cidr : String → StoredCidrRule → Handlers M C T → Handlers M C T × Dropped
  unfolding drop_state remove_cidr_rule release_cidrs
  drop_cidr id s h =
      let key = cidr_rule_key_to_bytes s.key in
      let deleted = maps.delete (active_cidr_blacklist h) key in
      let h' = set_active_cidr_blacklist deleted.0 h in
      let h'' = record h' { cidr_rl_states = drop_state bpf s.action key h'.cidr_rl_states } in
      let removed = remove_cidr_rule id s h'' in
      let released = record removed {
        cidr_mgr = release_cidrs tries s.src_cidr s.dst_cidr removed.cidr_mgr;
      } in
      if deleted.1 then (released, cidr_dropped) else (h', kept)

  unfoldable pub drop_cidr_or_miss :
      String → Option StoredCidrRule → Handlers M C T → Handlers M C T × Dropped
  unfolding drop_cidr
  drop_cidr_or_miss id none h = (h, kept)
  drop_cidr_or_miss id (some s) h = drop_cidr id s h

  -- exact rules first, then CIDR rules
  unfoldable pub drop_stored :
      String → Option StoredRule → Handlers M C T → Handlers M C T × Dropped
  unfolding drop_exact drop_cidr_or_miss
  drop_stored id none h = drop_cidr_or_miss id (lookup id h.cidr_rules) h
  drop_stored id (some s) h = drop_exact id s h

  unfoldable pub drop_rules : List String → Handlers M C T → Handlers M C T × Batch
  unfolding drop_stored record_dropped
  drop_rules [] h = (h, record { exact_succeeded = []; cidr_succeeded = []; failed = 0 })
  drop_rules (id ∷ ids) h =
      let dropped = drop_stored id (lookup id h.rules) h in
      let rest = drop_rules ids dropped.0 in (rest.0, record_dropped id dropped.1 rest.1)

  -- one publication, if a rule was deleted; that it fails is only logged
  unfoldable pub publish_dropped : Batch → Handlers M C T → Handlers M C T
  publish_dropped b h =
      let deleted = length b.exact_succeeded + length b.cidr_succeeded in
      if deleted == 0
      then h
      else (publish_config_update bpf h (pos 0 -ℤ pos (length b.exact_succeeded)) (pos 0)
          (pos 0 -ℤ pos (length b.cidr_succeeded))).0

  unfoldable pub delete_rules_batch : List String → Handlers M C T → Handlers M C T × BatchReply
  unfolding drop_rules publish_dropped forget_all
  delete_rules_batch ids h =
      let dropped = drop_rules ids h in
      let b = dropped.1 in
      let published = publish_dropped b dropped.0 in
      (
        forget_all b.cidr_succeeded (forget_all b.exact_succeeded published),
        record { deleted = length b.exact_succeeded + length b.cidr_succeeded; failed = b.failed },
      )
