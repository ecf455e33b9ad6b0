-- ===== src/Agent/CidrRules/Invariant.antt =====
-- The invariant of the rule stores under the handlers of node/agent/api/cidr_rules.go.
use xdrop.Prelude.GoMap.{GoMap, lookup, insert, delete, lookup-insert, lookup-delete}
use xdrop.Prelude.Int.{ℤ, pos}
use xdrop.Prelude.Text.{string_eq}
use xdrop.Agent.Types.{CidrRuleKey, RuleValue, StoredCidrRule, cidr_rule_key_eq}
use xdrop.Agent.Store.Invariant.{put_new, put_old, remove}
use xdrop.Agent.State.{Handlers, Bpf}
use xdrop.Agent.Config.{
  active_cidr_blacklist, set_active_cidr_blacklist, set_shadow, switch_active,
  publish_config_update,
}
use xdrop.Agent.Rules.{is_taken}
use xdrop.Agent.Rules.Invariant.{not_taken-cases}
use xdrop.Agent.Rules.Frame.{IsRules, set_active_cidr_blacklist-IsRules, publish-IsRules}
use xdrop.Agent.CidrRules.{
  put_cidr_rule, unindex_cidr_rule, remove_cidr_rule, replace_cidr_rule, release_rule, release_old,
  write_cidr_entry, restore_cidr_rule, publish_cidr_rule, commit_cidr_rule, store_cidr_rule,
  cidr_count_delta, Option, String, Bool, false, some, none, cidr_rule_key_to_bytes,
}
use xdrop.Prelude.{◌≡◌, Bool-cases, arith, ap, inl, ◌∙◌, inr, refl, true}

abbrev Index : Type 0
Index = GoMap String StoredCidrRule × GoMap CidrRuleKey String

module _ {M C T : Type 0} where
  abbrev index : Handlers M C T → Index
  index h = (h.cidr_rules, h.cidr_rule_key_index)

  set_active-index : (m : M) (h : Handlers M C T) → index (set_active_cidr_blacklist m h) ≡ index h
  unfolding set_active_cidr_blacklist
  set_active-index m h = ground arith

  put_cidr_rule-IsRules :
      (id : String) (s : StoredCidrRule) (h : Handlers M C T)
      → IsRules h
      → lookup id h.cidr_rules ≡ none
      → lookup s.key h.cidr_rule_key_index ≡ none
      → IsRules (put_cidr_rule id s h)
  unfolding put_cidr_rule
  put_cidr_rule-IsRules id s h r fresh free = record {
    exact = r.exact;
    cidr =
        put_new _ _ h.cidr_rules h.cidr_rule_key_index h.cidr_combo_ref_count r.cidr id s fresh
          free;
  }

  pub remove_cidr_rule-IsRules :
      (id : String) (s : StoredCidrRule) (h : Handlers M C T)
      → IsRules h
      → lookup id h.cidr_rules ≡ some s
      → IsRules (remove_cidr_rule id s h)
  unfolding remove_cidr_rule
  remove_cidr_rule-IsRules id s h r present = record {
    exact = r.exact;
    cidr = remove _ _ h.cidr_rules h.cidr_rule_key_index h.cidr_combo_ref_count r.cidr id s present;
  }

  -- a key that no other id has, where the id has no rule
  not_taken :
      (id : String) (s : StoredCidrRule) (h : Handlers M C T)
      → IsRules h
      → is_taken (lookup s.key h.cidr_rule_key_index) id ≡ false
      → lookup id h.cidr_rules ≡ none
      → lookup s.key h.cidr_rule_key_index ≡ none
  not_taken id s h r free fresh =
      elim (not_taken-cases (lookup s.key h.cidr_rule_key_index) id free) [
        | inl unused ↦ unused
        | inr mine ↦ (let found = r.cidr.named s.key id mine in cc)
      ]

  replace_cidr_rule-IsRules :
      (id : String) (old : Option StoredCidrRule) (s : StoredCidrRule) (h : Handlers M C T)
      → IsRules h
      → lookup id h.cidr_rules ≡ old
      → is_taken (lookup s.key h.cidr_rule_key_index) id ≡ false
      → IsRules (replace_cidr_rule id old s h)
  unfolding replace_cidr_rule
  replace_cidr_rule-IsRules id none s h r fresh free =
      put_cidr_rule-IsRules id s h r fresh (not_taken id s h r free fresh)
  replace_cidr_rule-IsRules id (some old) s h r present free = record {
    exact = r.exact;
    cidr =
        put_old _ _ h.cidr_rules h.cidr_rule_key_index h.cidr_combo_ref_count r.cidr id s old
          present (not_taken-cases (lookup s.key h.cidr_rule_key_index) id free);
  }

  replace_cidr_rule-reads :
      (id : String) (old : Option StoredCidrRule) (s : StoredCidrRule) (h : Handlers M C T)
      → lookup id (replace_cidr_rule id old s h).cidr_rules ≡ some s
  unfolding replace_cidr_rule put_cidr_rule unindex_cidr_rule
  replace_cidr_rule-reads id none s h =
      ground (arith, lookup-insert id id s h.cidr_rules, string_eq.beq_iff id id)
  replace_cidr_rule-reads id (some old) s h =
      ground (arith, lookup-insert id id s h.cidr_rules, string_eq.beq_iff id id)

  -- the key of an old rule is free again, unless the new rule has it
  replace_cidr_rule-frees :
      (id : String) (old s : StoredCidrRule) (h : Handlers M C T)
      → lookup old.key (delete s.key (replace_cidr_rule id (some old) s h).cidr_rule_key_index)
        ≡ none
  unfolding replace_cidr_rule put_cidr_rule unindex_cidr_rule
  replace_cidr_rule-frees id old s h = ground (
    arith,
    lookup-delete s.key old.key (insert s.key id (delete old.key h.cidr_rule_key_index)),
    lookup-insert s.key old.key id (delete old.key h.cidr_rule_key_index),
    lookup-delete old.key old.key h.cidr_rule_key_index,
    cidr_rule_key_eq.beq_iff old.key old.key,
    cidr_rule_key_eq.beq_iff s.key old.key,
  )

  -- what the way back needs to know of an old rule
  frees_old :
      (id : String) (old : Option StoredCidrRule) (s o : StoredCidrRule) (h : Handlers M C T)
      → old ≡ some o
      → lookup o.key (delete s.key (replace_cidr_rule id old s h).cidr_rule_key_index) ≡ none
  frees_old id old s o h e = rw e (replace_cidr_rule-frees id o s h)

  deleted_id : (id : String) (h : Handlers M C T) → lookup id (delete id h.cidr_rules) ≡ none
  deleted_id id h = ground (arith, lookup-delete id id h.cidr_rules, string_eq.beq_iff id id)

module _ {M C T : Type 0} (bpf : Bpf M C T) where
  switch_active-index :
      (h : Handlers M C T) (filled : C × Bool) → index (switch_active bpf h filled).0 ≡ index h
  unfolding switch_active set_shadow
  switch_active-index h filled = ground arith

  publish-index :
      (h : Handlers M C T) (d wl cidr : ℤ)
      → index (publish_config_update bpf h d wl cidr).0 ≡ index h
  unfolding publish_config_update
  publish-index h d wl cidr = switch_active-index h _

  release_rule-IsRules :
      (s : StoredCidrRule) (h : Handlers M C T) → IsRules h → IsRules (release_rule bpf s h)
  unfolding release_rule
  release_rule-IsRules s h r = record { exact = r.exact; cidr = r.cidr }

  release_old-IsRules :
      (old : Option StoredCidrRule) (h : Handlers M C T)
      → IsRules h
      → IsRules (release_old bpf old h)
  unfolding release_old
  release_old-IsRules none h r = r
  release_old-IsRules (some old) h r = release_rule-IsRules old h r

  restore_cidr_rule-IsRules :
      (id : String) (old : Option StoredCidrRule) (h : Handlers M C T)
      → IsRules h
      → lookup id h.cidr_rules ≡ none
      → ((o : StoredCidrRule) → old ≡ some o → lookup o.key h.cidr_rule_key_index ≡ none)
      → IsRules (restore_cidr_rule bpf id old h)
  unfolding restore_cidr_rule
  restore_cidr_rule-IsRules id none h r fresh free = r
  restore_cidr_rule-IsRules id (some o) h r fresh free =
      let h' = set_active_cidr_blacklist _ h in
      let same = set_active-index _ h in
      put_cidr_rule-IsRules id o h' (set_active_cidr_blacklist-IsRules _ h r)
        (ap (λ v. lookup id v.0) same ∙ fresh) (ap (λ v. lookup o.key v.1) same ∙ free o refl)

  publish_cidr_rule-IsRules :
      (id : String) (old : Option StoredCidrRule) (s : StoredCidrRule) (p : Handlers M C T × Bool)
      → IsRules p.0
      → lookup id p.0.cidr_rules ≡ some s
      → ((o : StoredCidrRule)
          → old ≡ some o
          → lookup o.key (delete s.key p.0.cidr_rule_key_index) ≡ none)
      → IsRules (publish_cidr_rule bpf id old s p).0
  unfolding publish_cidr_rule remove_cidr_rule release_rule
  publish_cidr_rule-IsRules id old s (h, true) r present free = release_old-IsRules old h r
  publish_cidr_rule-IsRules id old s (h, false) r present free =
      let bl = (bpf.maps.delete (active_cidr_blacklist h) (cidr_rule_key_to_bytes s.key)).0 in
      let h' = set_active_cidr_blacklist bl h in
      let same = set_active-index bl h in
      restore_cidr_rule-IsRules id old _
        (release_rule-IsRules s _ (
          remove_cidr_rule-IsRules id s h' (set_active_cidr_blacklist-IsRules bl h r)
            (ap (λ v. lookup id v.0) same ∙ present)))
        (deleted_id id h') (λ o e. ap (λ v. lookup o.key (delete s.key v.1)) same ∙ free o e)

  commit_cidr_rule-IsRules :
      (id : String) (old : Option StoredCidrRule) (value : RuleValue) (s : StoredCidrRule)
      (h : Handlers M C T)
      → IsRules h
      → lookup id h.cidr_rules ≡ old
      → is_taken (lookup s.key h.cidr_rule_key_index) id ≡ false
      → IsRules (commit_cidr_rule bpf id old value s h).0
  unfolding commit_cidr_rule
  commit_cidr_rule-IsRules id old value s h r found free =
      let written = write_cidr_entry bpf old s.key value (active_cidr_blacklist h) in
      let h' = set_active_cidr_blacklist written.0 h in
      let r' = set_active_cidr_blacklist-IsRules written.0 h r in
      let same = set_active-index written.0 h in
      let h'' = replace_cidr_rule id old s h' in
      let r'' : IsRules h'' =
        replace_cidr_rule-IsRules id old s h' r' (ap (λ v. lookup id v.0) same ∙ found)
          (ap (λ v. is_taken (lookup s.key v.1) id) same ∙ free) in
      let kept = publish-index h'' (pos 0) (pos 0) (cidr_count_delta old) in
      elim (Bool-cases written.1) [
        | inr failed ↦ rw failed (release_rule-IsRules s h' r')
        | inl done ↦ rw done (
            publish_cidr_rule-IsRules id old s
              (publish_config_update bpf h'' (pos 0) (pos 0) (cidr_count_delta old))
              (publish-IsRules bpf h'' _ _ _ r'')
              (ap (λ v. lookup id v.0) kept ∙ replace_cidr_rule-reads id old s h')
              (λ o e. ap (λ v. lookup o.key (delete s.key v.1)) kept ∙ frees_old id old s o h' e))
      ]

  -- If the two rule stores are consistent (each rule is indexed by its key, the index names nothing
  -- else, and each combo has the count of its rules), they are consistent after the locked part of
  -- addCIDRRule and of addCIDRRuleFromSync, whether the rule is added, replaces another, is refused
  -- or is rolled back.
  pub store_cidr_rule-IsRules :
      (h : Handlers M C T) (id : String) (value : RuleValue) (s : StoredCidrRule)
      → IsRules h
      → IsRules (store_cidr_rule bpf h id value s).0
  unfolding store_cidr_rule
  store_cidr_rule-IsRules h id value s r =
      elim (Bool-cases (is_taken (lookup s.key h.cidr_rule_key_index) id)) [
        | inl taken ↦ rw taken (release_rule-IsRules s h r)
        | inr free ↦
            rw free (commit_cidr_rule-IsRules id (lookup id h.cidr_rules) value s h r refl free)
      ]
