-- ===== src/Agent/Sync/Rules/Built.antt =====
-- The shadow maps that DoAtomicSync of node/agent/api/sync.go fills, and what it will remember.
use xdrop.Prelude.GoMap.{lookup, is_in, lookup-insert}
use xdrop.Prelude.Text.{string_eq, text_eq}
use xdrop.Ebpf.{MapLaws, update_no_exist}
use xdrop.Cidr.Manager.{Manager}
use xdrop.Agent.Types.{
  RuleKey, RuleValue, CidrRuleKey, StoredRule, StoredCidrRule, Rule, rule_key_eq, cidr_rule_key_eq,
}
use xdrop.Agent.Combo.{get_combo_type, get_cidr_combo_type}
use xdrop.Agent.Wire.{rule_key_to_bytes, cidr_rule_key_to_bytes, rule_value_to_bytes}
use xdrop.Agent.Convert.{rule_value_from_stored, rule_value_from_stored_cidr}
use xdrop.Agent.State.{Bpf}
use xdrop.Agent.Store.Invariant.{IsStore, put_new}
use xdrop.Agent.Rules.{rule_id, stored_rule}
use xdrop.Agent.CidrRules.{CidrPlan, stored_cidr_rule, reserve_cidr}
use xdrop.Agent.Cidrs.{release_cidrs}
use xdrop.Agent.Sync.Rules.Entries.{AllWritten, written-insert, unwritten_free}
use xdrop.Agent.Sync.Route.{SyncRoute, rejected, cidr_rule, exact_rule, route_sync}
use xdrop.Agent.Sync.Route.Valued.{route_sync-IsExact, route_sync-IsCidr}
use xdrop.Agent.Sync.Rules.{
  Build, build_empty, fail, add_exact, add_cidr, write_exact, write_cidr, build_route, build_rules,
  [], List, String, ◌∷◌, false, none, some, true, Option, Bool,
}
use xdrop.Prelude.{◌≡◌, arith, ap, refl, ◌∙◌, Bool-cases, inl, inr, sym}
use xdrop.Prelude.Bytes.{Bytes}

-- the ids of a request, given or made, none of them twice
abbrev pub IsDistinct : List String → List (String × Rule) → Type 0
IsDistinct ids [] = Unit
IsDistinct ids ((new_id, r) ∷ rs) =
    (is_in (rule_id r new_id) ids ≡ false) × IsDistinct (rule_id r new_id ∷ ids) rs

-- the ids that a request leaves behind those already seen
abbrev pub ids_after : List String → List (String × Rule) → List String
ids_after ids [] = ids
ids_after ids ((new_id, r) ∷ rs) = ids_after (rule_id r new_id ∷ ids) rs

-- the entry of a stored rule: its key, and the value derived from what is stored
abbrev pub exact_key : StoredRule → Bytes
exact_key s = rule_key_to_bytes s.key

abbrev pub exact_bytes : StoredRule → Bytes
exact_bytes s = rule_value_to_bytes (rule_value_from_stored s)

abbrev pub cidr_key : StoredCidrRule → Bytes
cidr_key s = cidr_rule_key_to_bytes s.key

abbrev pub cidr_bytes : StoredCidrRule → Bytes
cidr_bytes s = rule_value_to_bytes (rule_value_from_stored_cidr s)

module _ {M C T : Type 0} (bpf : Bpf M C T) where
  open bpf use {maps, tries}

  -- the stores are consistent, no id that is still to come has a rule, and each rule has its entry
  pub record IsBuilt (ids : List String) (b : Build M T) : Type 0 where
    pub exact : IsStore (λ (s : StoredRule). s.key) get_combo_type b.rules b.rule_key_index b.combo
    pub cidr :
        IsStore
          (λ (s : StoredCidrRule). s.key)
          get_cidr_combo_type
          b.cidr_rules
          b.cidr_rule_key_index
          b.cidr_combo
    pub fresh : (j : String) → is_in j ids ≡ false → lookup j b.rules ≡ none
    pub fresh_cidr : (j : String) → is_in j ids ≡ false → lookup j b.cidr_rules ≡ none
    pub written : AllWritten maps exact_key exact_bytes b.shadow b.rules
    pub written_cidr : AllWritten maps cidr_key cidr_bytes b.cidr_shadow b.cidr_rules

  pub build_empty-IsBuilt :
      (shadow cidr_shadow : M) (m : Manager T) → IsBuilt [] (build_empty shadow cidr_shadow m)
  unfolding build_empty lookup
  build_empty-IsBuilt shadow cidr_shadow m = record {
    exact = record {
      unique = tt;
      indexed = λ id s h. cc;
      named = λ k id h. cc;
      counted = λ c small. refl;
    };
    cidr = record {
      unique = tt;
      indexed = λ id s h. cc;
      named = λ k id h. cc;
      counted = λ c small. refl;
    };
    fresh = λ j h. refl;
    fresh_cidr = λ j h. refl;
    written = λ id s h. cc;
    written_cidr = λ id s h. cc;
  }

module _ {M C T : Type 0} (bpf : Bpf M C T) (laws : MapLaws bpf.maps) where
  open bpf use {maps, tries}

  later : (ids : List String) (id j : String) → is_in j (id ∷ ids) ≡ false → is_in j ids ≡ false
  unfolding is_in
  later ids id j h = ground arith

  -- a rule that adds nothing to what is remembered, with maps that read as before
  fail-IsBuilt :
      (ids : List String) (id : String) (b b' : Build M T)
      → (b'.rules ≡ b.rules) × (b'.rule_key_index ≡ b.rule_key_index) × (b'.combo ≡ b.combo)
      → (b'.cidr_rules ≡ b.cidr_rules)
        × (b'.cidr_rule_key_index ≡ b.cidr_rule_key_index)
        × (b'.cidr_combo ≡ b.cidr_combo)
      → ((x : Bytes) → maps.lookup b'.shadow x ≡ maps.lookup b.shadow x)
      → ((x : Bytes) → maps.lookup b'.cidr_shadow x ≡ maps.lookup b.cidr_shadow x)
      → IsBuilt bpf ids b
      → IsBuilt bpf (id ∷ ids) b'
  fail-IsBuilt ids id b b' same same_cidr reads reads_cidr st = record {
    exact = rw (same.0, same.1, same.2) st.exact;
    cidr = rw (same_cidr.0, same_cidr.1, same_cidr.2) st.cidr;
    fresh = λ j h. ap (lookup j) same.0 ∙ st.fresh j (later ids id j h);
    fresh_cidr = λ j h. ap (lookup j) same_cidr.0 ∙ st.fresh_cidr j (later ids id j h);
    written =
        λ j s h. reads (rule_key_to_bytes s.key) ∙ st.written j s (ap (lookup j) (sym same.0) ∙ h);
    written_cidr = λ j s h.
        reads_cidr (cidr_rule_key_to_bytes s.key)
        ∙ st.written_cidr j s (ap (lookup j) (sym same_cidr.0) ∙ h);
  }

  abbrev put_entry : M → Bytes → RuleValue → M × Bool
  put_entry m k value = maps.update m update_no_exist k (rule_value_to_bytes value)

  add_exact-IsBuilt :
      (ids : List String) (id : String) (key : RuleKey) (value : RuleValue) (r : Rule)
      (b : Build M T)
      → is_in id ids ≡ false
      → value ≡ rule_value_from_stored (stored_rule key r)
      → IsBuilt bpf ids b
      → (put_entry b.shadow (rule_key_to_bytes key) value).1 ≡ true
      → IsBuilt bpf (id ∷ ids) (
          add_exact id
            (stored_rule key r)
            (record b { shadow = (put_entry b.shadow (rule_key_to_bytes key) value).0 }))
  unfolding add_exact is_in stored_rule
  add_exact-IsBuilt ids id key value r b new valued st done =
      let s = stored_rule key r in
      let unwritten =
        laws.update-no_exist b.shadow (rule_key_to_bytes key) (rule_value_to_bytes value) done in
      let free =
        unwritten_free maps _ get_combo_type rule_key_to_bytes exact_bytes b.shadow b.rules
          b.rule_key_index b.combo key st.exact st.written unwritten in
      record {
        exact = put_new _ _ b.rules b.rule_key_index b.combo st.exact id s (st.fresh id new) free;
        cidr = st.cidr;
        fresh = λ j h. ground (arith, lookup-insert id j s b.rules, st.fresh j);
        fresh_cidr = λ j h. st.fresh_cidr j (later ids id j h);
        written =
            written-insert maps laws exact_key exact_bytes b.shadow b.rules id s
              (rule_value_to_bytes value) (ap rule_value_to_bytes valued) done st.written;
        written_cidr = st.written_cidr;
      }

  add_cidr-IsBuilt :
      (ids : List String) (id : String) (value : RuleValue) (s : StoredCidrRule) (b : Build M T)
      → is_in id ids ≡ false
      → value ≡ rule_value_from_stored_cidr s
      → IsBuilt bpf ids b
      → (put_entry b.cidr_shadow (cidr_rule_key_to_bytes s.key) value).1 ≡ true
      → IsBuilt bpf (id ∷ ids) (
          add_cidr id s (record b {
            cidr_shadow = (put_entry b.cidr_shadow (cidr_rule_key_to_bytes s.key) value).0;
          }))
  unfolding add_cidr is_in
  add_cidr-IsBuilt ids id value s b new valued st done =
      let unwritten =
        laws.update-no_exist b.cidr_shadow (cidr_rule_key_to_bytes s.key)
          (rule_value_to_bytes value) done in
      let free =
        unwritten_free maps _ get_cidr_combo_type cidr_rule_key_to_bytes cidr_bytes b.cidr_shadow
          b.cidr_rules b.cidr_rule_key_index b.cidr_combo s.key st.cidr st.written_cidr unwritten in
      record {
        exact = st.exact;
        cidr =
            put_new _ _ b.cidr_rules b.cidr_rule_key_index b.cidr_combo st.cidr id s
              (st.fresh_cidr id new) free;
        fresh = λ j h. st.fresh j (later ids id j h);
        fresh_cidr = λ j h. ground (arith, lookup-insert id j s b.cidr_rules, st.fresh_cidr j);
        written = st.written;
        written_cidr =
            written-insert maps laws cidr_key cidr_bytes b.cidr_shadow b.cidr_rules id s
              (rule_value_to_bytes value) (ap rule_value_to_bytes valued) done st.written_cidr;
      }

  write_exact-IsBuilt :
      (ids : List String) (id : String) (key : RuleKey) (value : RuleValue) (r : Rule)
      (b : Build M T)
      → is_in id ids ≡ false
      → value ≡ rule_value_from_stored (stored_rule key r)
      → IsBuilt bpf ids b
      → IsBuilt bpf (id ∷ ids) (write_exact bpf id key value r b)
  unfolding write_exact fail
  write_exact-IsBuilt ids id key value r b new valued st =
      let written = put_entry b.shadow (rule_key_to_bytes key) value in
      elim (Bool-cases written.1) [
        | inl done ↦ rw done (add_exact-IsBuilt ids id key value r b new valued st done)
        | inr refused ↦ rw refused (
            fail-IsBuilt ids id b (fail (record b { shadow = written.0 })) (refl, refl, refl)
              (refl, refl, refl) (λ x. laws.update_failed b.shadow update_no_exist _ _ x refused)
              (λ x. refl) st)
      ]

  write_cidr-IsBuilt :
      (ids : List String) (id : String) (plan : CidrPlan) (value : RuleValue) (r : Rule)
      (b : Build M T) (key : Option CidrRuleKey)
      → is_in id ids ≡ false
      → ((k : CidrRuleKey) → value ≡ rule_value_from_stored_cidr (stored_cidr_rule plan k r))
      → IsBuilt bpf ids b
      → IsBuilt bpf (id ∷ ids) (write_cidr bpf id plan value r b key)
  unfolding write_cidr fail stored_cidr_rule
  write_cidr-IsBuilt ids id plan value r b none new valued st =
      fail-IsBuilt ids id b (fail b) (refl, refl, refl) (refl, refl, refl) (λ x. refl) (λ x. refl)
        st
  write_cidr-IsBuilt ids id plan value r b (some key) new valued st =
      let written = put_entry b.cidr_shadow (cidr_rule_key_to_bytes key) value in
      let b' = record b { cidr_shadow = written.0 } in
      elim (Bool-cases written.1) [
        | inl done ↦
            rw done (
              add_cidr-IsBuilt ids id value (stored_cidr_rule plan key r) b new (valued key) st
                done)
        | inr refused ↦ rw refused (
            fail-IsBuilt ids id b
              (fail (record b' {
                cidr_mgr = release_cidrs tries plan.src_cidr plan.dst_cidr b'.cidr_mgr;
              }))
              (refl, refl, refl) (refl, refl, refl) (λ x. refl)
              (λ x. laws.update_failed b.cidr_shadow update_no_exist _ _ x refused) st)
      ]

  with_mgr-IsBuilt :
      (ids : List String) (b : Build M T) (m : Manager T)
      → IsBuilt bpf ids b
      → IsBuilt bpf ids (record b { cidr_mgr = m })
  with_mgr-IsBuilt ids b m st = record {
    exact = st.exact;
    cidr = st.cidr;
    fresh = st.fresh;
    fresh_cidr = st.fresh_cidr;
    written = st.written;
    written_cidr = st.written_cidr;
  }

  build_route-IsBuilt :
      (ids : List String) (id : String) (r : Rule) (b : Build M T) (route : SyncRoute)
      → is_in id ids ≡ false
      → route_sync r ≡ route
      → IsBuilt bpf ids b
      → IsBuilt bpf (id ∷ ids) (build_route bpf id r b route)
  unfolding build_route fail
  build_route-IsBuilt ids id r b rejected new checked st =
      fail-IsBuilt ids id b (fail b) (refl, refl, refl) (refl, refl, refl) (λ x. refl) (λ x. refl)
        st
  build_route-IsBuilt ids id r b (exact_rule key value) new checked st =
      write_exact-IsBuilt ids id key value r b new (route_sync-IsExact r key value checked).valued
        st
  build_route-IsBuilt ids id r b (cidr_rule plan flags) new checked st =
      let reserved = reserve_cidr tries plan r b.cidr_mgr in
      write_cidr-IsBuilt ids id plan _ r (record b { cidr_mgr = reserved.0 }) reserved.1 new
        (route_sync-IsCidr r plan flags checked).valued (with_mgr-IsBuilt ids b reserved.0 st)

  pub build_rules-IsBuilt :
      (ids : List String) (rs : List (String × Rule)) (b : Build M T)
      → IsDistinct ids rs
      → IsBuilt bpf ids b
      → IsBuilt bpf (ids_after ids rs) (build_rules bpf rs b)
  unfolding build_rules
  build_rules-IsBuilt ids [] b d st = st
  build_rules-IsBuilt ids ((new_id, r) ∷ rs) b d st =
      build_rules-IsBuilt (rule_id r new_id ∷ ids) rs _ d.1
        (build_route-IsBuilt ids (rule_id r new_id) r b (route_sync r) d.0 refl st)
