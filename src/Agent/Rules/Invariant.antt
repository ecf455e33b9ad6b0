-- ===== src/Agent/Rules/Invariant.antt =====
-- The invariant of the rule stores under AddRule and DeleteRule of node/agent/api/rules_mutation.go.
use xdrop.Prelude.GoMap.{GoMap, lookup, insert, delete, lookup-insert, lookup-delete}
use xdrop.Prelude.Int.{pos, negsuc}
use xdrop.Prelude.Text.{string_eq}
use xdrop.Agent.Types.{
  RuleKey, RuleValue, StoredRule, StoredCidrRule, Rule, rule_key_eq, cidr_rule_key_eq,
}
use xdrop.Agent.CidrRules.{remove_cidr_rule}
use xdrop.Agent.Cidrs.{release_cidrs}
use xdrop.Agent.Store.Invariant.{put_new, put_old, remove}
use xdrop.Agent.State.{Handlers, Bpf}
use xdrop.Agent.Config.{
  set_active_blacklist, set_active_cidr_blacklist, publish_config_update, active_blacklist,
  active_cidr_blacklist,
}
use xdrop.Agent.Rules.{
  is_taken, rule_id, stored_rule, unindex_rule, put_rule, remove_rule, replace_rule, restore_rule,
  publish_rule, commit_rule, store_rule, Bool, String, some, Option, none, rule_key_to_bytes,
  write_entry, count_delta, cidr_rule_key_to_bytes,
}
use xdrop.Agent.Rules.Delete.{
  forget_pps, delete_exact, delete_cidr, delete_cidr_or_miss, delete_stored, delete_rule,
  drop_state,
}
use xdrop.Prelude.{Bool-cases, inl, inr, false, true, ◌≡◌, arith, ◌⊎◌, refl, ap, ◌∙◌}
use xdrop.Agent.Rules.Frame.{
  IsRules, set_active_blacklist-IsRules, set_active_cidr_blacklist-IsRules, publish-IsRules,
  publish-same, set_active_blacklist-same, set_active_cidr_blacklist-same,
}

pub not_taken-cases :
    (o : Option String) (id : String) → is_taken o id ≡ false → (o ≡ none) ⊎ (o ≡ some id)
unfolding is_taken
not_taken-cases none id free = inl refl
not_taken-cases (some j) id free = inr (ground (arith, string_eq.beq_iff j id))

pub lookup-delete_same :
    (id : String) (m : GoMap String StoredRule) → lookup id (delete id m) ≡ none
lookup-delete_same id m = ground (arith, lookup-delete id id m, string_eq.beq_iff id id)

module _ {M C T : Type 0} where
  put_rule-IsRules :
      (id : String) (s : StoredRule) (h : Handlers M C T)
      → IsRules h
      → lookup id h.rules ≡ none
      → lookup s.key h.rule_key_index ≡ none
      → IsRules (put_rule id s h)
  unfolding put_rule
  put_rule-IsRules id s h r fresh free = record {
    exact = put_new _ _ h.rules h.rule_key_index h.combo_ref_count r.exact id s fresh free;
    cidr = r.cidr;
  }

  pub remove_rule-IsRules :
      (id : String) (s : StoredRule) (h : Handlers M C T)
      → IsRules h
      → lookup id h.rules ≡ some s
      → IsRules (remove_rule id s h)
  unfolding remove_rule
  remove_rule-IsRules id s h r present = record {
    exact = remove _ _ h.rules h.rule_key_index h.combo_ref_count r.exact id s present;
    cidr = r.cidr;
  }

  -- a key that no other id has, where the id has no rule
  not_taken :
      (id : String) (s : StoredRule) (h : Handlers M C T)
      → IsRules h
      → is_taken (lookup s.key h.rule_key_index) id ≡ false
      → lookup id h.rules ≡ none
      → lookup s.key h.rule_key_index ≡ none
  not_taken id s h r free fresh = elim (not_taken-cases (lookup s.key h.rule_key_index) id free) [
    | inl unused ↦ unused
    | inr mine ↦ (let found = r.exact.named s.key id mine in cc)
  ]

  pub replace_rule-IsRules :
      (id : String) (old : Option StoredRule) (s : StoredRule) (h : Handlers M C T)
      → IsRules h
      → lookup id h.rules ≡ old
      → is_taken (lookup s.key h.rule_key_index) id ≡ false
      → IsRules (replace_rule id old s h)
  unfolding replace_rule
  replace_rule-IsRules id none s h r fresh free =
      put_rule-IsRules id s h r fresh (not_taken id s h r free fresh)
  replace_rule-IsRules id (some old) s h r present free = record {
    exact =
        put_old _ _ h.rules h.rule_key_index h.combo_ref_count r.exact id s old present
          (not_taken-cases (lookup s.key h.rule_key_index) id free);
    cidr = r.cidr;
  }

  pub replace_rule-reads :
      (id : String) (old : Option StoredRule) (s : StoredRule) (h : Handlers M C T)
      → lookup id (replace_rule id old s h).rules ≡ some s
  unfolding replace_rule put_rule unindex_rule
  replace_rule-reads id none s h =
      ground (arith, lookup-insert id id s h.rules, string_eq.beq_iff id id)
  replace_rule-reads id (some old) s h =
      ground (arith, lookup-insert id id s h.rules, string_eq.beq_iff id id)

  -- the key of an old rule is free again, unless the new rule has it
  replace_rule-frees :
      (id : String) (old s : StoredRule) (h : Handlers M C T)
      → lookup old.key (delete s.key (replace_rule id (some old) s h).rule_key_index) ≡ none
  unfolding replace_rule put_rule unindex_rule
  replace_rule-frees id old s h = ground (
    arith,
    lookup-delete s.key old.key (insert s.key id (delete old.key h.rule_key_index)),
    lookup-insert s.key old.key id (delete old.key h.rule_key_index),
    lookup-delete old.key old.key h.rule_key_index,
    rule_key_eq.beq_iff old.key old.key,
    rule_key_eq.beq_iff s.key old.key,
  )

  replace_rule-frees_any :
      (id : String) (old : Option StoredRule) (s : StoredRule) (h : Handlers M C T) (o : StoredRule)
      → old ≡ some o
      → lookup o.key (delete s.key (replace_rule id old s h).rule_key_index) ≡ none
  replace_rule-frees_any id old s h o e = rw e (replace_rule-frees id o s h)

module _ {M C T : Type 0} (bpf : Bpf M C T) where
  restore_rule-IsRules :
      (id : String) (old : Option StoredRule) (key : RuleKey) (h : Handlers M C T)
      → IsRules h
      → lookup id h.rules ≡ none
      → ((o : StoredRule) → old ≡ some o → lookup o.key h.rule_key_index ≡ none)
      → IsRules (restore_rule bpf id old key h)
  unfolding restore_rule
  restore_rule-IsRules id none key h r fresh free = r
  restore_rule-IsRules id (some o) key h r fresh free =
      set_active_blacklist-IsRules _ _ (put_rule-IsRules id o h r fresh (free o refl))

  publish_rule-IsRules :
      (id : String) (old : Option StoredRule) (s : StoredRule) (p : Handlers M C T × Bool)
      → IsRules p.0
      → lookup id p.0.rules ≡ some s
      → ((o : StoredRule) → old ≡ some o → lookup o.key (delete s.key p.0.rule_key_index) ≡ none)
      → IsRules (publish_rule bpf id old s p).0
  unfolding publish_rule remove_rule
  publish_rule-IsRules id old s (h, true) r present free = r
  publish_rule-IsRules id old s (h, false) r present free =
      let bl = (bpf.maps.delete (active_blacklist h) (rule_key_to_bytes s.key)).0 in
      let same = set_active_blacklist-same bl h in
      restore_rule-IsRules id old s.key _
        (remove_rule-IsRules id s (set_active_blacklist bl h) (set_active_blacklist-IsRules bl h r)
          (rw same.0 present))
        (rw same.0 (lookup-delete_same id h.rules)) (λ o e. rw same.1 (free o e))

  commit_rule-IsRules :
      (id : String) (old : Option StoredRule) (value : RuleValue) (s : StoredRule)
      (h : Handlers M C T)
      → IsRules h
      → lookup id h.rules ≡ old
      → is_taken (lookup s.key h.rule_key_index) id ≡ false
      → IsRules (commit_rule bpf id old value s h).0
  unfolding commit_rule
  commit_rule-IsRules id old value s h r found free =
      let written = write_entry bpf old s.key value (active_blacklist h) in
      let h' = set_active_blacklist written.0 h in
      let r' = set_active_blacklist-IsRules written.0 h r in
      let same = set_active_blacklist-same written.0 h in
      let h'' = replace_rule id old s h' in
      let r'' : IsRules h'' =
        replace_rule-IsRules id old s h' r' (ap (lookup id) same.0 ∙ found) (rw same.1 free) in
      let kept = publish-same bpf h'' (count_delta old) (pos 0) (pos 0) in
      elim (Bool-cases written.1) [
        | inr failed ↦ rw failed r'
        | inl done ↦ rw done (
            publish_rule-IsRules id old s
              (publish_config_update bpf h'' (count_delta old) (pos 0) (pos 0))
              (publish-IsRules bpf h'' _ _ _ r'') (rw kept.0 (replace_rule-reads id old s h'))
              (λ o e. rw kept.1 (replace_rule-frees_any id old s h' o e)))
      ]

  -- If the two rule stores are consistent (each rule is indexed by its key, the index names nothing
  -- else, and each combo has the count of its rules), they are consistent after the locked part of
  -- AddRule for an exact rule, whether the rule is added, replaces another, is refused or is rolled
  -- back.
  pub store_rule-IsRules :
      (h : Handlers M C T) (new_id : String) (key : RuleKey) (value : RuleValue) (req : Rule)
      → IsRules h
      → IsRules (store_rule bpf h new_id key value req).0
  unfolding store_rule stored_rule
  store_rule-IsRules h new_id key value req r =
      elim (Bool-cases (is_taken (lookup key h.rule_key_index) (rule_id req new_id))) [
        | inl taken ↦ rw taken r
        | inr free ↦ rw free (
            commit_rule-IsRules (rule_id req new_id) (lookup (rule_id req new_id) h.rules) value
              (stored_rule key req) h r refl free)
      ]

  delete_exact-IsRules :
      (id : String) (s : StoredRule) (h : Handlers M C T)
      → IsRules h
      → lookup id h.rules ≡ some s
      → IsRules (delete_exact bpf id s h).0
  unfolding delete_exact forget_pps
  delete_exact-IsRules id s h r present =
      let deleted = bpf.maps.delete (active_blacklist h) (rule_key_to_bytes s.key) in
      let h' = set_active_blacklist deleted.0 h in
      let r' = set_active_blacklist-IsRules deleted.0 h r in
      let same = set_active_blacklist-same deleted.0 h in
      let h'' = record h' {
        rl_states = drop_state bpf s.action (rule_key_to_bytes s.key) h'.rl_states;
      } in
      let gone =
        remove_rule-IsRules id s h'' (record { exact = r'.exact; cidr = r'.cidr })
          (rw same.0 present) in
      let p = publish-IsRules bpf (remove_rule id s h'') (negsuc 0) (pos 0) (pos 0) gone in
      elim (Bool-cases deleted.1) [
        | inl done ↦ rw done (record { exact = p.exact; cidr = p.cidr })
        | inr failed ↦ rw failed r'
      ]

  delete_cidr-IsRules :
      (id : String) (s : StoredCidrRule) (h : Handlers M C T)
      → IsRules h
      → lookup id h.cidr_rules ≡ some s
      → IsRules (delete_cidr bpf id s h).0
  unfolding delete_cidr forget_pps remove_cidr_rule
  delete_cidr-IsRules id s h r present =
      let deleted = bpf.maps.delete (active_cidr_blacklist h) (cidr_rule_key_to_bytes s.key) in
      let h' = set_active_cidr_blacklist deleted.0 h in
      let r' = set_active_cidr_blacklist-IsRules deleted.0 h r in
      let same = set_active_cidr_blacklist-same deleted.0 h in
      let h'' = record h' {
        cidr_rl_states = drop_state bpf s.action (cidr_rule_key_to_bytes s.key) h'.cidr_rl_states;
      } in
      let g = remove_cidr_rule id s h'' in
      let gone = record g { cidr_mgr = release_cidrs bpf.tries s.src_cidr s.dst_cidr g.cidr_mgr } in
      let gone-IsRules : IsRules gone = record {
        exact = r'.exact;
        cidr =
            remove _ _ h'.cidr_rules h'.cidr_rule_key_index h'.cidr_combo_ref_count r'.cidr id s
              (rw same present);
      } in
      let p = publish-IsRules bpf gone (pos 0) (pos 0) (negsuc 0) gone-IsRules in
      elim (Bool-cases deleted.1) [
        | inl done ↦ rw done (record { exact = p.exact; cidr = p.cidr })
        | inr failed ↦ rw failed r'
      ]

  delete_cidr_or_miss-IsRules :
      (id : String) (found : Option StoredCidrRule) (h : Handlers M C T)
      → IsRules h
      → lookup id h.cidr_rules ≡ found
      → IsRules (delete_cidr_or_miss bpf id found h).0
  unfolding delete_cidr_or_miss
  delete_cidr_or_miss-IsRules id none h r found = r
  delete_cidr_or_miss-IsRules id (some s) h r found = delete_cidr-IsRules id s h r found

  delete_stored-IsRules :
      (id : String) (found : Option StoredRule) (h : Handlers M C T)
      → IsRules h
      → lookup id h.rules ≡ found
      → IsRules (delete_stored bpf id found h).0
  unfolding delete_stored
  delete_stored-IsRules id none h r found = delete_cidr_or_miss-IsRules id _ h r refl
  delete_stored-IsRules id (some s) h r found = delete_exact-IsRules id s h r found

  -- If the two rule stores are consistent (each rule is indexed by its key, the index names nothing
  -- else, and each combo has the count of its rules), they are consistent after DeleteRule, whether
  -- it deletes an exact rule, a CIDR rule or none, and whether or not the BPF calls and the
  -- publication succeed.
  pub delete_rule-IsRules :
      (id : String) (h : Handlers M C T) → IsRules h → IsRules (delete_rule bpf id h).0
  unfolding delete_rule
  delete_rule-IsRules id h r = delete_stored-IsRules id _ h r refl
