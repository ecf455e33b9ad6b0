-- ===== src/Agent/Rules/Batch/Invariant.antt =====
-- What DeleteRulesBatch of node/agent/api/rules_mutation.go leaves behind.
use mathlib.Core.List.{List, [], ◌∷◌}
use Prim.Native.String.{String}
use xdrop.Prelude.{length, ◌+◌, ◌==◌}
use Prim.Native.Nat.{ℕ, suc}
use xdrop.Prelude.GoMap.{lookup, is_in, lookup-delete}
use xdrop.Prelude.Text.{string_eq}
use xdrop.Agent.Types.{StoredRule, StoredCidrRule, rule_key_eq, cidr_rule_key_eq}
use xdrop.Agent.Wire.{rule_key_to_bytes, cidr_rule_key_to_bytes}
use xdrop.Agent.CidrRules.{remove_cidr_rule}
use xdrop.Agent.CidrRules.Invariant.{remove_cidr_rule-IsRules}
use xdrop.Agent.State.{Handlers, Bpf}
use xdrop.Agent.Config.{
  active_blacklist, set_active_blacklist, active_cidr_blacklist, set_active_cidr_blacklist,
}
use xdrop.Agent.Rules.{remove_rule, Option, some, true}
use xdrop.Agent.Rules.Delete.{drop_state, forget_pps}
use xdrop.Agent.Rules.Frame.{
  IsRules, set_active_blacklist-IsRules, set_active_cidr_blacklist-IsRules, publish-IsRules,
  publish-same, set_active_blacklist-same, set_active_cidr_blacklist-same,
}
use xdrop.Agent.Rules.Invariant.{remove_rule-IsRules}
use xdrop.Agent.Rules.Batch.{
  Batch, Dropped, exact_dropped, cidr_dropped, kept, record_dropped, forget_all, drop_exact,
  drop_cidr, drop_cidr_or_miss, drop_stored, drop_rules, publish_dropped, delete_rules_batch,
}
use xdrop.Prelude.{Bool-cases, ◌≡◌, ◌+◌, refl, none, ◌==◌, inl, inr, arith, ◌≢◌, ap, ◌∙◌, sym}

-- the ids that a batch accounts for
abbrev answered : Batch → ℕ
answered b = length b.exact_succeeded + length b.cidr_succeeded + b.failed

record_dropped-answered :
    (id : String) (d : Dropped) (b : Batch) (n : ℕ)
    → answered b ≡ n
    → answered (record_dropped id d b) ≡ suc n
unfolding record_dropped
record_dropped-answered id exact_dropped b n same = omega (arith, same)
record_dropped-answered id cidr_dropped b n same = omega (arith, same)
record_dropped-answered id kept b n same = omega (arith, same)

record_dropped-failed :
    (id : String) (d : Dropped) (b : Batch)
    → (record_dropped id d b).failed ≡ 0
    → (d ≢ kept) × (b.failed ≡ 0)
unfolding record_dropped
record_dropped-failed id exact_dropped b none_failed = (λ h. cc, none_failed)
record_dropped-failed id cidr_dropped b none_failed = (λ h. cc, none_failed)
record_dropped-failed id kept b none_failed =
    (λ h. omega (arith, none_failed), omega (arith, none_failed))

module _ {M C T : Type 0} where
  set_active_cidr_blacklist-exact :
      (m : M) (h : Handlers M C T) → (set_active_cidr_blacklist m h).rules ≡ h.rules
  unfolding set_active_cidr_blacklist
  set_active_cidr_blacklist-exact m h = ground arith

  forget_all-IsRules :
      (ids : List String) (h : Handlers M C T) → IsRules h → IsRules (forget_all ids h)
  unfolding forget_all forget_pps
  forget_all-IsRules [] h r = r
  forget_all-IsRules (id ∷ ids) h r =
      forget_all-IsRules ids (forget_pps id h) (record { exact = r.exact; cidr = r.cidr })

  forget_all-rules : (ids : List String) (h : Handlers M C T) → (forget_all ids h).rules ≡ h.rules
  unfolding forget_all forget_pps
  forget_all-rules [] h = refl
  forget_all-rules (id ∷ ids) h = forget_all-rules ids (forget_pps id h)

module _ {M C T : Type 0} (bpf : Bpf M C T) where
  open bpf use {maps, tries}

  drop_exact-IsRules :
      (id : String) (s : StoredRule) (h : Handlers M C T)
      → IsRules h
      → lookup id h.rules ≡ some s
      → IsRules (drop_exact bpf id s h).0
  unfolding drop_exact
  drop_exact-IsRules id s h r present =
      let deleted = maps.delete (active_blacklist h) (rule_key_to_bytes s.key) in
      let h' = set_active_blacklist deleted.0 h in
      let r' = set_active_blacklist-IsRules deleted.0 h r in
      let h'' = record h' {
        rl_states = drop_state bpf s.action (rule_key_to_bytes s.key) h'.rl_states;
      } in
      let same = (set_active_blacklist-same deleted.0 h).0 in
      elim (Bool-cases deleted.1) [
        | inl done ↦ rw done (
            remove_rule-IsRules id s h'' (record { exact = r'.exact; cidr = r'.cidr })
              (rw same present))
        | inr failed ↦ rw failed r'
      ]

  drop_cidr-IsRules :
      (id : String) (s : StoredCidrRule) (h : Handlers M C T)
      → IsRules h
      → lookup id h.cidr_rules ≡ some s
      → IsRules (drop_cidr bpf id s h).0
  unfolding drop_cidr
  drop_cidr-IsRules id s h r present =
      let deleted = maps.delete (active_cidr_blacklist h) (cidr_rule_key_to_bytes s.key) in
      let h' = set_active_cidr_blacklist deleted.0 h in
      let r' = set_active_cidr_blacklist-IsRules deleted.0 h r in
      let h'' = record h' {
        cidr_rl_states = drop_state bpf s.action (cidr_rule_key_to_bytes s.key) h'.cidr_rl_states;
      } in
      let same = set_active_cidr_blacklist-same deleted.0 h in
      let gone =
        remove_cidr_rule-IsRules id s h'' (record { exact = r'.exact; cidr = r'.cidr })
          (rw same present) in
      elim (Bool-cases deleted.1) [
        | inl done ↦ rw done (record { exact = gone.exact; cidr = gone.cidr })
        | inr failed ↦ rw failed r'
      ]

  drop_cidr_or_miss-IsRules :
      (id : String) (found : Option StoredCidrRule) (h : Handlers M C T)
      → IsRules h
      → lookup id h.cidr_rules ≡ found
      → IsRules (drop_cidr_or_miss bpf id found h).0
  unfolding drop_cidr_or_miss
  drop_cidr_or_miss-IsRules id none h r found = r
  drop_cidr_or_miss-IsRules id (some s) h r found = drop_cidr-IsRules id s h r found

  drop_stored-IsRules :
      (id : String) (found : Option StoredRule) (h : Handlers M C T)
      → IsRules h
      → lookup id h.rules ≡ found
      → IsRules (drop_stored bpf id found h).0
  unfolding drop_stored
  drop_stored-IsRules id none h r found = drop_cidr_or_miss-IsRules id _ h r refl
  drop_stored-IsRules id (some s) h r found = drop_exact-IsRules id s h r found

  drop_rules-IsRules :
      (ids : List String) (h : Handlers M C T) → IsRules h → IsRules (drop_rules bpf ids h).0
  unfolding drop_rules
  drop_rules-IsRules [] h r = r
  drop_rules-IsRules (id ∷ ids) h r =
      drop_rules-IsRules ids _ (drop_stored-IsRules id (lookup id h.rules) h r refl)

  publish_dropped-IsRules :
      (b : Batch) (h : Handlers M C T) → IsRules h → IsRules (publish_dropped bpf b h)
  unfolding publish_dropped
  publish_dropped-IsRules b h r =
      elim (Bool-cases (length b.exact_succeeded + length b.cidr_succeeded == 0)) [
        | inl nothing ↦ rw nothing r
        | inr some_deleted ↦ rw some_deleted (publish-IsRules bpf h _ _ _ r)
      ]

  -- If the two rule stores are consistent (each rule is indexed by its key, the index names nothing
  -- else, and each combo has the count of its rules), they are consistent after DeleteRulesBatch,
  -- whichever of the deletes and whether or not the publication fails.
  pub delete_rules_batch-IsRules :
      (ids : List String) (h : Handlers M C T)
      → IsRules h
      → IsRules (delete_rules_batch bpf ids h).0
  unfolding delete_rules_batch
  delete_rules_batch-IsRules ids h r =
      let b = (drop_rules bpf ids h).1 in
      let published =
        publish_dropped-IsRules b (drop_rules bpf ids h).0 (drop_rules-IsRules ids h r) in
      forget_all-IsRules b.cidr_succeeded _ (forget_all-IsRules b.exact_succeeded _ published)

  drop_rules-answered :
      (ids : List String) (h : Handlers M C T) → answered (drop_rules bpf ids h).1 ≡ length ids
  unfolding drop_rules
  drop_rules-answered [] h = refl
  drop_rules-answered (id ∷ ids) h =
      let dropped = drop_stored bpf id (lookup id h.rules) h in
      record_dropped-answered id dropped.1 (drop_rules bpf ids dropped.0).1 (length ids)
        (drop_rules-answered ids dropped.0)

  drop_exact-rules :
      (id j : String) (s : StoredRule) (h : Handlers M C T)
      → ((drop_exact bpf id s h).1 ≢ kept → lookup id (drop_exact bpf id s h).0.rules ≡ none)
        × (lookup j h.rules ≡ none → lookup j (drop_exact bpf id s h).0.rules ≡ none)
  unfolding drop_exact remove_rule
  drop_exact-rules id j s h =
      let deleted = maps.delete (active_blacklist h) (rule_key_to_bytes s.key) in
      let h' = set_active_blacklist deleted.0 h in
      let same = (set_active_blacklist-same deleted.0 h).0 in
      elim (Bool-cases deleted.1) [
        | inl done ↦ rw done (
          λ d. ground (arith, lookup-delete id id h'.rules, string_eq.beq_iff id id),
          λ absent. ground (arith, absent, same, lookup-delete id j h'.rules),
        )
        | inr failed ↦ rw failed (λ d. absurd (d refl), λ absent. ap (lookup j) same ∙ absent)
      ]

  drop_cidr-rules :
      (id : String) (found : Option StoredCidrRule) (h : Handlers M C T)
      → (drop_cidr_or_miss bpf id found h).0.rules ≡ h.rules
  unfolding drop_cidr_or_miss drop_cidr remove_cidr_rule
  drop_cidr-rules id none h = refl
  drop_cidr-rules id (some s) h =
      let deleted = maps.delete (active_cidr_blacklist h) (cidr_rule_key_to_bytes s.key) in
      let same = set_active_cidr_blacklist-exact deleted.0 h in
      elim (Bool-cases deleted.1) [ inl done ↦ rw done same | inr failed ↦ rw failed same ]

  drop_stored-rules :
      (id j : String) (found : Option StoredRule) (h : Handlers M C T)
      → lookup id h.rules ≡ found
      → ((drop_stored bpf id found h).1 ≢ kept
          → lookup id (drop_stored bpf id found h).0.rules ≡ none)
        × (lookup j h.rules ≡ none → lookup j (drop_stored bpf id found h).0.rules ≡ none)
  unfolding drop_stored
  drop_stored-rules id j (some s) h found = drop_exact-rules id j s h
  drop_stored-rules id j none h found =
      let same = drop_cidr-rules id (lookup id h.cidr_rules) h in
      (λ d. ap (lookup id) same ∙ found, λ absent. ap (lookup j) same ∙ absent)

  drop_rules-absent :
      (ids : List String) (h : Handlers M C T) (j : String)
      → lookup j h.rules ≡ none
      → lookup j (drop_rules bpf ids h).0.rules ≡ none
  unfolding drop_rules
  drop_rules-absent [] h j absent = absent
  drop_rules-absent (id ∷ ids) h j absent =
      drop_rules-absent ids _ j ((drop_stored-rules id j (lookup id h.rules) h refl).1 absent)

  drop_rules-gone :
      (ids : List String) (h : Handlers M C T) (j : String)
      → (drop_rules bpf ids h).1.failed ≡ 0
      → is_in j ids ≡ true
      → lookup j (drop_rules bpf ids h).0.rules ≡ none
  unfolding drop_rules is_in
  drop_rules-gone [] h j all listed = cc
  drop_rules-gone (id ∷ ids) h j all listed =
      let dropped = drop_stored bpf id (lookup id h.rules) h in
      let parts = record_dropped-failed id dropped.1 (drop_rules bpf ids dropped.0).1 all in
      elim (Bool-cases (string_eq.beq id j)) [
        | inl same ↦
            let q : id ≡ j = (string_eq.beq_iff id j).0 same in
            let gone = (drop_stored-rules id j (lookup id h.rules) h refl).0 parts.0 in
            drop_rules-absent ids dropped.0 j (ap (λ i. lookup i dropped.0.rules) (sym q) ∙ gone)
        | inr other ↦ drop_rules-gone ids dropped.0 j parts.1 (rw other at listed)
      ]

  publish_dropped-rules :
      (b : Batch) (h : Handlers M C T) → (publish_dropped bpf b h).rules ≡ h.rules
  unfolding publish_dropped
  publish_dropped-rules b h =
      elim (Bool-cases (length b.exact_succeeded + length b.cidr_succeeded == 0)) [
        | inl nothing ↦ rw nothing refl
        | inr some_deleted ↦ rw some_deleted (publish-same bpf h _ _ _).0
      ]

  -- DeleteRulesBatch counts each id of the request once, as deleted or as failed.
  pub delete_rules_batch-counts :
      (ids : List String) (h : Handlers M C T)
      → (delete_rules_batch bpf ids h).1.deleted + (delete_rules_batch bpf ids h).1.failed
        ≡ length ids
  unfolding delete_rules_batch
  delete_rules_batch-counts ids h = drop_rules-answered ids h

  -- Where DeleteRulesBatch counts no failure, no exact rule is left under an id of the request.
  pub delete_rules_batch-gone :
      (ids : List String) (h : Handlers M C T) (j : String)
      → (delete_rules_batch bpf ids h).1.failed ≡ 0
      → is_in j ids ≡ true
      → lookup j (delete_rules_batch bpf ids h).0.rules ≡ none
  unfolding delete_rules_batch
  delete_rules_batch-gone ids h j all listed =
      let dropped = drop_rules bpf ids h in
      let b = dropped.1 in
      ap (lookup j) (
        forget_all-rules b.cidr_succeeded _
        ∙ forget_all-rules b.exact_succeeded _
        ∙ publish_dropped-rules b dropped.0)
      ∙ drop_rules-gone ids h j all listed
