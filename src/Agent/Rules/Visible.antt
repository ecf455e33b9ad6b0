-- ===== src/Agent/Rules/Visible.antt =====
-- What AddRule of node/agent/api/rules_mutation.go leaves in the active blacklist.
use xdrop.Prelude.GoMap.{lookup}
use xdrop.Prelude.Text.{string_eq, text_eq}
use xdrop.Prelude.Bytes.{Bytes}
use xdrop.Ebpf.{MapLaws, update_no_exist}
use xdrop.Agent.Types.{RuleKey, RuleValue, StoredRule, Rule, rule_key_eq}
use xdrop.Agent.Wire.{rule_key_to_bytes, rule_value_to_bytes}
use xdrop.Agent.Wire.Layout.{IsRuleKey, key_bytes_injective}
use xdrop.Agent.State.{Handlers, Bpf}
use xdrop.Agent.Config.{
  active_blacklist, set_active_blacklist, set_shadow, switch_active, publish_config_update,
}
use xdrop.Agent.Rules.{
  success, internal_error, conflict, is_taken, rule_id, stored_rule, replace_rule, put_rule,
  unindex_rule, drop_old_entry, write_entry, publish_rule, commit_rule, store_rule, count_delta,
  String, Option, some, true, none, false, pos, Bool, ℤ,
}
use xdrop.Agent.Rules.Frame.{IsRules, publish-same}
use xdrop.Agent.Rules.Invariant.{replace_rule-reads}
use xdrop.Prelude.{◌≡◌, ◌≢◌, arith, refl, Bool-cases, inr, inl, sym, ◌∙◌}

module _ {M C T : Type 0} where
  active-set_active_blacklist :
      (m : M) (h : Handlers M C T) → active_blacklist (set_active_blacklist m h) ≡ m
  unfolding active_blacklist set_active_blacklist
  active-set_active_blacklist m h = ground arith

  active-replace_rule :
      (id : String) (old : Option StoredRule) (s : StoredRule) (h : Handlers M C T)
      → active_blacklist (replace_rule id old s h) ≡ active_blacklist h
  unfolding replace_rule put_rule unindex_rule active_blacklist
  active-replace_rule id none s h = refl
  active-replace_rule id (some o) s h = refl

  active-switch_active :
      (bpf : Bpf M C T) (h : Handlers M C T) (filled : C × Bool)
      → active_blacklist (switch_active bpf h filled).0 ≡ active_blacklist h
  unfolding switch_active set_shadow active_blacklist
  active-switch_active bpf h filled = ground arith

  active-publish :
      (bpf : Bpf M C T) (h : Handlers M C T) (d wl cidr : ℤ)
      → active_blacklist (publish_config_update bpf h d wl cidr).0 ≡ active_blacklist h
  unfolding publish_config_update
  active-publish bpf h d wl cidr = active-switch_active bpf h _

module _ {M C T : Type 0} (bpf : Bpf M C T) (laws : MapLaws bpf.maps) where
  open bpf use {maps}

  -- If the stores are consistent, the id of the request has a rule under the key of the request
  -- already, and its entry is in the active blacklist, then AddRule answers with an internal error:
  -- it writes the entry with UpdateNoExist.
  pub store_rule_same_key :
      (h : Handlers M C T) (new_id : String) (value : RuleValue) (req : Rule) (old : StoredRule)
      → IsRules h
      → lookup (rule_id req new_id) h.rules ≡ some old
      → maps.lookup (active_blacklist h) (rule_key_to_bytes old.key) ≢ none
      → (store_rule bpf h new_id old.key value req).1 ≡ internal_error
  unfolding store_rule commit_rule write_entry is_taken stored_rule
  store_rule_same_key h new_id value req old r found present =
      let id = rule_id req new_id in
      let mine : lookup old.key h.rule_key_index ≡ some id = r.exact.indexed id old found in
      let free : is_taken (lookup old.key h.rule_key_index) id ≡ false =
        rw mine (ground (arith, string_eq.beq_iff id id)) in
      let refused : (maps.update (active_blacklist h) update_no_exist (rule_key_to_bytes old.key)
            (rule_value_to_bytes value)).1
          ≡ false =
        ground (
          arith,
          laws.update-no_exist (active_blacklist h) (rule_key_to_bytes old.key)
              (rule_value_to_bytes value),
        ) in
      rw (free, refused)

  other_bytes :
      (k j : RuleKey)
      → IsRuleKey k
      → IsRuleKey j
      → rule_key_eq.beq k j ≡ false
      → text_eq.beq (rule_key_to_bytes k) (rule_key_to_bytes j) ≡ false
  other_bytes k j v w other =
      elim (Bool-cases (text_eq.beq (rule_key_to_bytes k) (rule_key_to_bytes j))) [
        | inr differ ↦ differ
        | inl same ↦
            let e : k ≡ j =
              key_bytes_injective.0 k j v w
                ((text_eq.beq_iff (rule_key_to_bytes k) (rule_key_to_bytes j)).0 same) in
            let b : rule_key_eq.beq k j ≡ true = (rule_key_eq.beq_iff k j).1 e in cc
      ]

  -- the entry of the key is there, and that of an old rule under another key is not
  abbrev pub Entered : Option StoredRule → RuleKey → Bytes → M → Type 0
  Entered old key v bl =
      (maps.lookup bl (rule_key_to_bytes key) ≡ some v)
      × ((o : StoredRule)
          → old ≡ some o
          → rule_key_eq.beq o.key key ≡ false
          → maps.lookup bl (rule_key_to_bytes o.key) ≡ none)

  drop_old_entry_done :
      (old : Option StoredRule) (key : RuleKey) (v : Bytes) (bl : M)
      → IsRuleKey key
      → ((o : StoredRule) → old ≡ some o → IsRuleKey o.key)
      → maps.lookup bl (rule_key_to_bytes key) ≡ some v
      → (drop_old_entry bpf old key bl).1 ≡ true
      → Entered old key v (drop_old_entry bpf old key bl).0
  unfolding drop_old_entry
  drop_old_entry_done none key v bl good olds here done = (here, λ o e. cc)
  drop_old_entry_done (some o) key v bl good olds here done =
      let kept = laws.delete_done bl (rule_key_to_bytes o.key) (rule_key_to_bytes key) in
      let gone = laws.delete_done bl (rule_key_to_bytes o.key) (rule_key_to_bytes o.key) in
      let apart = other_bytes o.key key (olds o refl) good in
      (
        ground (arith, kept, apart),
        λ o' e other.
            let same : o ≡ o' = ground arith in
            let apart' : rule_key_eq.beq o.key key ≡ false = rw same other in
            rw (← same) (
              ground (
                arith,
                gone,
                apart',
                text_eq.beq_iff (rule_key_to_bytes o.key) (rule_key_to_bytes o.key),
              )),
      )

  write_entry_done :
      (old : Option StoredRule) (key : RuleKey) (value : RuleValue) (bl : M)
      → IsRuleKey key
      → ((o : StoredRule) → old ≡ some o → IsRuleKey o.key)
      → (write_entry bpf old key value bl).1 ≡ true
      → Entered old key (rule_value_to_bytes value) (write_entry bpf old key value bl).0
  unfolding write_entry
  write_entry_done old key value bl good olds done =
      let inserted =
        maps.update bl update_no_exist (rule_key_to_bytes key) (rule_value_to_bytes value) in
      elim (Bool-cases inserted.1) [
        | inr refused ↦ (let stop : true ≡ false = sym done ∙ rw refused in cc)
        | inl ok ↦
            let here : maps.lookup inserted.0 (rule_key_to_bytes key)
                ≡ some (rule_value_to_bytes value) =
              ground (
                arith,
                laws.update_done bl update_no_exist (rule_key_to_bytes key)
                    (rule_value_to_bytes value) (rule_key_to_bytes key) ok,
                text_eq.beq_iff (rule_key_to_bytes key) (rule_key_to_bytes key),
              ) in
            rw ok (
              drop_old_entry_done old key (rule_value_to_bytes value) inserted.0 good olds here
                (rw ok at done))
      ]

  -- a publication that succeeds is answered with the id
  publish_rule_done :
      (id j : String) (old : Option StoredRule) (s : StoredRule) (p : Handlers M C T × Bool)
      → (publish_rule bpf id old s p).1 ≡ success j
      → (id ≡ j) × ((publish_rule bpf id old s p).0 ≡ p.0)
  unfolding publish_rule
  publish_rule_done id j old s (h, true) done = (ground arith, refl)
  publish_rule_done id j old s (h, false) done = ground arith

  commit_rule_done :
      (id j : String) (old : Option StoredRule) (value : RuleValue) (s : StoredRule)
      (h : Handlers M C T)
      → IsRuleKey s.key
      → ((o : StoredRule) → old ≡ some o → IsRuleKey o.key)
      → (commit_rule bpf id old value s h).1 ≡ success j
      → (id ≡ j)
        × (lookup id (commit_rule bpf id old value s h).0.rules ≡ some s)
        × Entered old s.key
            (rule_value_to_bytes value)
            (active_blacklist (commit_rule bpf id old value s h).0)
  unfolding commit_rule
  commit_rule_done id j old value s h good olds done =
      let written = write_entry bpf old s.key value (active_blacklist h) in
      let h' = set_active_blacklist written.0 h in
      let p =
        publish_config_update bpf (replace_rule id old s h') (count_delta old) (pos 0) (pos 0) in
      elim (Bool-cases written.1) [
        | inr failed ↦ (let stop : internal_error ≡ success j = rw failed at done in ground arith)
        | inl ok ↦
            let end = publish_rule_done id j old s p (rw ok at done) in
            let same =
              publish-same bpf (replace_rule id old s h') (count_delta old) (pos 0) (pos 0) in
            let bl : active_blacklist p.0 ≡ written.0 =
              active-publish bpf (replace_rule id old s h') (count_delta old) (pos 0) (pos 0)
              ∙ active-replace_rule id old s h'
              ∙ active-set_active_blacklist written.0 h in
            rw ok (
              end.0,
              rw (end.1, same.0) (replace_rule-reads id old s h'),
              rw (end.1, bl) (write_entry_done old s.key value (active_blacklist h) good olds ok),
            )
      ]

  -- If the locked part of AddRule succeeds, the rule is stored under its id, the active blacklist has its value under
  -- its key, and has no entry any more under another key that the id had before. This needs keys
  -- with fields in range, of the request and of the stored rules.
  pub store_rule_done :
      (h : Handlers M C T) (new_id : String) (key : RuleKey) (value : RuleValue) (req : Rule)
      (id : String)
      → IsRuleKey key
      → ((j : String) (s : StoredRule) → lookup j h.rules ≡ some s → IsRuleKey s.key)
      → (store_rule bpf h new_id key value req).1 ≡ success id
      → (rule_id req new_id ≡ id)
        × (lookup (rule_id req new_id) (store_rule bpf h new_id key value req).0.rules
            ≡ some (stored_rule key req))
        × Entered
            (lookup (rule_id req new_id) h.rules)
            key
            (rule_value_to_bytes value)
            (active_blacklist (store_rule bpf h new_id key value req).0)
  unfolding store_rule stored_rule
  store_rule_done h new_id key value req id good goods done =
      let j = rule_id req new_id in
      elim (Bool-cases (is_taken (lookup key h.rule_key_index) j)) [
        | inl taken ↦ (let stop : conflict ≡ success id = rw taken at done in ground arith)
        | inr free ↦ rw free (
            commit_rule_done j id (lookup j h.rules) value (stored_rule key req) h good (goods j)
              (rw free at done))
      ]
