-- ===== src/Agent/Rules/Delete.antt =====
-- DeleteRule of node/agent/api/rules_mutation.go.
use xdrop.Prelude.GoMap.{lookup, delete}
use xdrop.Prelude.Int.{pos, negsuc}
use xdrop.Prelude.Text.{string_eq, text_eq}
use xdrop.Prelude.Bytes.{Bytes}
use xdrop.Agent.Types.{StoredRule, StoredCidrRule, cidr_rule_key_eq}
use xdrop.Agent.Wire.{rule_key_to_bytes, cidr_rule_key_to_bytes}
use xdrop.Agent.Cidrs.{release_cidrs}
use xdrop.Agent.CidrRules.{remove_cidr_rule}
use xdrop.Agent.State.{Handlers, Bpf}
use xdrop.Agent.Config.{
  active_blacklist, set_active_blacklist, active_cidr_blacklist, set_active_cidr_blacklist,
  publish_config_update,
}
use xdrop.Agent.Rules.{
  Reply, success, internal_error, not_found, remove_rule, String, if◌then◌else◌, Option, some,
}
use xdrop.Prelude.{none}

module _ {M C T : Type 0} where
  -- the last step, under its own lock
  unfoldable pub forget_pps : String → Handlers M C T → Handlers M C T
  unfolding delete
  forget_pps id h = record h {
    last_rule_drop_count = delete id h.last_rule_drop_count;
    last_rule_stats_time = delete id h.last_rule_stats_time;
  }

module _ {M C T : Type 0} (bpf : Bpf M C T) where
  open bpf use {maps, tries}

  -- the token bucket of a rule with a rate limit; that it cannot be deleted is only logged
  unfoldable pub drop_state : String → Bytes → Option M → Option M
  drop_state action key none = none
  drop_state action key (some states) =
      if string_eq.beq action "rate_limit" then some (maps.delete states key).0 else some states

  unfoldable pub delete_exact : String → StoredRule → Handlers M C T → Handlers M C T × Reply
  unfolding drop_state remove_rule forget_pps
  delete_exact id s h =
      let key = rule_key_to_bytes s.key in
      let deleted = maps.delete (active_blacklist h) key in
      let h' = set_active_blacklist deleted.0 h in
      let h'' = record h' { rl_states = drop_state s.action key h'.rl_states } in
      let published = publish_config_update bpf (remove_rule id s h'') (negsuc 0) (pos 0) (pos 0) in
      if deleted.1 then (forget_pps id published.0, success id) else (h', internal_error)

  unfoldable pub delete_cidr : String → StoredCidrRule → Handlers M C T → Handlers M C T × Reply
  unfolding drop_state remove_cidr_rule forget_pps release_cidrs
  delete_cidr id s h =
      let key = cidr_rule_key_to_bytes s.key in
      let deleted = maps.delete (active_cidr_blacklist h) key in
      let h' = set_active_cidr_blacklist deleted.0 h in
      let h'' = record h' { cidr_rl_states = drop_state s.action key h'.cidr_rl_states } in
      let removed = remove_cidr_rule id s h'' in
      let released = record removed {
        cidr_mgr = release_cidrs tries s.src_cidr s.dst_cidr removed.cidr_mgr;
      } in
      let published = publish_config_update bpf released (pos 0) (pos 0) (negsuc 0) in
      if deleted.1 then (forget_pps id published.0, success id) else (h', internal_error)

  unfoldable pub delete_cidr_or_miss :
      String → Option StoredCidrRule → Handlers M C T → Handlers M C T × Reply
  unfolding delete_cidr
  delete_cidr_or_miss id none h = (h, not_found)
  delete_cidr_or_miss id (some s) h = delete_cidr id s h

  unfoldable pub delete_stored :
      String → Option StoredRule → Handlers M C T → Handlers M C T × Reply
  unfolding delete_exact delete_cidr_or_miss
  delete_stored id none h = delete_cidr_or_miss id (lookup id h.cidr_rules) h
  delete_stored id (some s) h = delete_exact id s h

  -- exact rules first, then CIDR rules
  unfoldable pub delete_rule : String → Handlers M C T → Handlers M C T × Reply
  unfolding delete_stored
  delete_rule id h = delete_stored id (lookup id h.rules) h
