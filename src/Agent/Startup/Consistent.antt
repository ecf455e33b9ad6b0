-- ===== src/Agent/Startup/Consistent.antt =====
-- What the synchronisations of node/agent/sync/controller_sync.go leave of the agent's rule stores.
use mathlib.Core.List.{List, []}
use Prim.Native.Nat.{ℕ, zero, suc}
use Prim.Native.String.{String}
use xdrop.Prelude.{
  Bool, true, false, Option, some, none, ◌≡◌, refl, Bool-cases, inl, inr, subst, sym, ap,
}
use xdrop.Prelude.Int.{ℤ}
use xdrop.Prelude.Text.{string_eq, text_eq}
use xdrop.Ebpf.{MapLaws}
use xdrop.Agent.Types.{StoredRule, StoredCidrRule, WhitelistEntry, rule_key_eq, cidr_rule_key_eq}
use xdrop.Agent.Types
use xdrop.Agent.Combo.{get_combo_type, get_cidr_combo_type}
use xdrop.Agent.Store.Invariant.{IsStore}
use xdrop.Agent.State.{Handlers, Bpf}
use xdrop.Agent.Rules.Frame.{IsRules}
use xdrop.Agent.Sync.Rules.{do_atomic_sync}
use xdrop.Agent.Sync.Rules.Abort.{aborted-seen}
use xdrop.Agent.Sync.Rules.Built.{IsDistinct}
use xdrop.Agent.Sync.Rules.Install.{shown, do_atomic_sync-IsInstalled}
use xdrop.Agent.Sync.Whitelist.{Outcome, synced, invalid, failed, do_whitelist_atomic_sync}
use xdrop.Agent.Startup.{
  Rule, Fetched, api_rules, push_rules, push_fetched, sync_rounds, finish_startup, round_count,
  sync_round, sync_on_startup,
}
use xdrop.Agent.Startup.Started.{SendsDistinct}
use xdrop.Agent.Startup.Frame.{do_whitelist_atomic_sync-shown, clear_all-shown}

module _ {M C T : Type 0} where
  -- the stores are consistent wherever they are the same
  shown-IsRules : (g h : Handlers M C T) → shown g ≡ shown h → IsRules h → IsRules g
  shown-IsRules g h same r = record {
    exact =
        subst (λ s. IsStore (λ (s : StoredRule). s.key) get_combo_type s.0 s.1 s.2)
          (sym (ap (λ v. v.1) same)) r.exact;
    cidr =
        subst (λ s. IsStore (λ (s : StoredCidrRule). s.key) get_cidr_combo_type s.0 s.1 s.2)
          (sym (ap (λ v. v.2) same)) r.cidr;
  }

module _ {M C T : Type 0} (bpf : Bpf M C T) where
  pub whitelist_sync-IsRules :
      (es : List WhitelistEntry) (h : Handlers M C T)
      → IsRules h
      → IsRules (do_whitelist_atomic_sync bpf es h).0
  whitelist_sync-IsRules es h r = shown-IsRules _ h (do_whitelist_atomic_sync-shown bpf es h) r

  finish_startup-IsRules :
      (p : Handlers M C T × Bool) → IsRules p.0 → IsRules (finish_startup bpf p).0
  unfolding finish_startup
  finish_startup-IsRules (h, true) r = r
  finish_startup-IsRules (h, false) r = shown-IsRules _ h (clear_all-shown bpf h) r

module _ {M C T : Type 0} (bpf : Bpf M C T) (laws : MapLaws bpf.maps) where
  pub atomic_sync-IsRules :
      (h : Handlers M C T) (rs : List (String × Types.Rule))
      → IsDistinct [] rs
      → IsRules h
      → IsRules (do_atomic_sync bpf rs h).0
  atomic_sync-IsRules h rs distinct r = elim (Bool-cases (do_atomic_sync bpf rs h).1.ok) [
    | inl done ↦ (do_atomic_sync-IsInstalled bpf laws rs h distinct done).consistent
    | inr aborted ↦
        shown-IsRules _ h (ap (λ v. ((v.0.0, v.0.1), v.2, v.3)) (aborted-seen bpf rs h aborted)) r
  ]

  push_rules-IsRules :
      (rules : List (String × Rule)) (p : Handlers M C T × Outcome)
      → IsDistinct [] (api_rules rules)
      → IsRules p.0
      → IsRules (push_rules bpf rules p).0
  unfolding push_rules
  push_rules-IsRules rules (h, synced) distinct r =
      atomic_sync-IsRules h (api_rules rules) distinct r
  push_rules-IsRules rules (h, invalid) distinct r = r
  push_rules-IsRules rules (h, failed) distinct r = r

  push_fetched-IsRules :
      (rules : Option (List (String × Rule))) (entries : Option (List WhitelistEntry))
      (h : Handlers M C T)
      → ((rs : List (String × Rule)) → rules ≡ some rs → IsDistinct [] (api_rules rs))
      → IsRules h
      → IsRules (push_fetched bpf rules entries h).0
  unfolding push_fetched
  push_fetched-IsRules none entries h distinct r = r
  push_fetched-IsRules (some rules) none h distinct r = r
  push_fetched-IsRules (some rules) (some entries) h distinct r =
      push_rules-IsRules rules (do_whitelist_atomic_sync bpf entries h) (distinct rules refl)
        (whitelist_sync-IsRules bpf entries h r)

  sync_rounds-IsRules :
      (rounds attempt : ℕ) (fetch : ℕ → Fetched) (h : Handlers M C T)
      → ((k : ℕ) → SendsDistinct (fetch k))
      → IsRules h
      → IsRules (sync_rounds bpf rounds attempt fetch h).0
  unfolding sync_rounds sync_round
  sync_rounds-IsRules zero attempt fetch h distinct r = r
  sync_rounds-IsRules (suc rounds) attempt fetch h distinct r =
      let fetched = fetch attempt in
      let this_round = push_fetched bpf fetched.rules fetched.whitelist h in
      let good = push_fetched-IsRules fetched.rules fetched.whitelist h (distinct attempt) r in
      elim (Bool-cases this_round.1) [
        | inl done ↦ rw done good
        | inr more ↦
            rw more (sync_rounds-IsRules rounds (suc attempt) fetch this_round.0 distinct good)
      ]

  pub sync_on_startup-IsRules :
      (retry_count : ℤ) (fetch : ℕ → Fetched) (h : Handlers M C T)
      → ((k : ℕ) → SendsDistinct (fetch k))
      → IsRules h
      → IsRules (sync_on_startup bpf retry_count fetch h).0
  unfolding sync_on_startup
  sync_on_startup-IsRules retry_count fetch h distinct r =
      finish_startup-IsRules bpf (sync_rounds bpf (round_count retry_count) 0 fetch h)
        (sync_rounds-IsRules (round_count retry_count) 0 fetch h distinct r)
