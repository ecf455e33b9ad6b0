-- ===== src/Agent/Rules/Frame.antt =====
-- The invariant of the rule stores of node/agent/api/bpf_types.go, and the writes to the blacklists
-- and the publications of config.go.
use xdrop.Prelude.Int.{ℤ}
use xdrop.Prelude.Text.{string_eq}
use xdrop.Ebpf.{update_exist}
use xdrop.Agent.Types.{StoredRule, StoredCidrRule, rule_key_eq, cidr_rule_key_eq}
use xdrop.Agent.Combo.{get_combo_type, get_cidr_combo_type}
use xdrop.Agent.Store.Invariant.{IsStore}
use xdrop.Agent.State.{Handlers, Bpf}
use xdrop.Agent.Config.{
  set_active_blacklist, set_active_cidr_blacklist, set_shadow, switch_active, publish_config_update,
  set_entry,
}
use xdrop.Agent.Rules.{Bool}
use xdrop.Prelude.{Bool-cases, ◌==◌, inl, ◌-◌, inr, false, true, ◌≡◌, arith}

-- the two stores of the agent are consistent
pub record IsRules {M C T : Type 0} (h : Handlers M C T) : Type 0 where
  pub exact :
      IsStore (λ (s : StoredRule). s.key) get_combo_type h.rules h.rule_key_index h.combo_ref_count
  pub cidr :
      IsStore
        (λ (s : StoredCidrRule). s.key)
        get_cidr_combo_type
        h.cidr_rules
        h.cidr_rule_key_index
        h.cidr_combo_ref_count

module _ {M C T : Type 0} where
  pub set_active_blacklist-IsRules :
      (m : M) (h : Handlers M C T) → IsRules h → IsRules (set_active_blacklist m h)
  unfolding set_active_blacklist
  set_active_blacklist-IsRules m h r = elim (Bool-cases (h.active_rule_slot == 0)) [
    | inl zero ↦ rw zero (record { exact = r.exact; cidr = r.cidr })
    | inr other ↦ rw other (record { exact = r.exact; cidr = r.cidr })
  ]

  pub set_active_cidr_blacklist-IsRules :
      (m : M) (h : Handlers M C T) → IsRules h → IsRules (set_active_cidr_blacklist m h)
  unfolding set_active_cidr_blacklist
  set_active_cidr_blacklist-IsRules m h r = elim (Bool-cases (h.active_rule_slot == 0)) [
    | inl zero ↦ rw zero (record { exact = r.exact; cidr = r.cidr })
    | inr other ↦ rw other (record { exact = r.exact; cidr = r.cidr })
  ]

  set_shadow-IsRules : (c : C) (h : Handlers M C T) → IsRules h → IsRules (set_shadow c h)
  unfolding set_shadow
  set_shadow-IsRules c h r = elim (Bool-cases (h.active_slot == 0)) [
    | inl zero ↦ rw zero (record { exact = r.exact; cidr = r.cidr })
    | inr other ↦ rw other (record { exact = r.exact; cidr = r.cidr })
  ]

module _ {M C T : Type 0} (bpf : Bpf M C T) where
  switch_active-IsRules :
      (h : Handlers M C T) (filled : C × Bool) → IsRules h → IsRules (switch_active bpf h filled).0
  unfolding switch_active set_entry
  switch_active-IsRules h (c, false) r = set_shadow-IsRules c h r
  switch_active-IsRules h (c, true) r =
      let s = set_shadow-IsRules c h r in
      elim (Bool-cases (bpf.configs.update h.active_config update_exist 0 (1 - h.active_slot)).1) [
        | inl done ↦ rw done (record { exact = s.exact; cidr = s.cidr })
        | inr failed ↦ rw failed (record { exact = s.exact; cidr = s.cidr })
      ]

  pub publish-IsRules :
      (h : Handlers M C T) (d wl cidr : ℤ)
      → IsRules h
      → IsRules (publish_config_update bpf h d wl cidr).0
  unfolding publish_config_update
  publish-IsRules h d wl cidr r = switch_active-IsRules h _ r

  switch_active-same :
      (h : Handlers M C T) (filled : C × Bool)
      → ((switch_active bpf h filled).0.rules ≡ h.rules)
        × ((switch_active bpf h filled).0.rule_key_index ≡ h.rule_key_index)
  unfolding switch_active set_shadow
  switch_active-same h filled = ground arith

  pub publish-same :
      (h : Handlers M C T) (d wl cidr : ℤ)
      → ((publish_config_update bpf h d wl cidr).0.rules ≡ h.rules)
        × ((publish_config_update bpf h d wl cidr).0.rule_key_index ≡ h.rule_key_index)
  unfolding publish_config_update
  publish-same h d wl cidr = switch_active-same h _

module _ {M C T : Type 0} where
  pub set_active_blacklist-same :
      (m : M) (h : Handlers M C T)
      → ((set_active_blacklist m h).rules ≡ h.rules)
        × ((set_active_blacklist m h).rule_key_index ≡ h.rule_key_index)
  unfolding set_active_blacklist
  set_active_blacklist-same m h = ground arith

  pub set_active_cidr_blacklist-same :
      (m : M) (h : Handlers M C T) → (set_active_cidr_blacklist m h).cidr_rules ≡ h.cidr_rules
  unfolding set_active_cidr_blacklist
  set_active_cidr_blacklist-same m h = ground arith
