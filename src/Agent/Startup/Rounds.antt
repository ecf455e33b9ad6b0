-- ===== src/Agent/Startup/Rounds.antt =====
-- How the start of node/agent/sync/controller_sync.go ends: by which round, and what is left where none succeeds.
use mathlib.Core.List.{List}
use Prim.Native.Nat.{ℕ, zero, suc, ◌+◌, ◌≤◌}
use Prim.Native.String.{String}
use xdrop.Prelude.{
  Bool, true, false, Option, some, none, ◌≡◌, refl, ap, ◌∙◌, sym, Bool-cases, inl, inr, arith, ◌↔◌,
}
use xdrop.Prelude.Int.{ℤ, pos}
use xdrop.Prelude.Text.{text_eq, string_eq}
use xdrop.Agent.Types.{WhitelistEntry}
use xdrop.Agent.State.{Handlers, Bpf}
use xdrop.Agent.Sync.Rules.Abort.{aborted-seen}
use xdrop.Agent.Sync.Rules.Install.{shown}
use xdrop.Agent.Sync.Whitelist.{Outcome, synced, invalid, failed, do_whitelist_atomic_sync}
use xdrop.Agent.Startup.{
  Rule, Fetched, api_rules, push_rules, push_fetched, sync_round, sync_rounds, finish_startup,
  round_count, sync_on_startup,
}
use xdrop.Agent.Startup.Frame.{do_whitelist_atomic_sync-shown, clear_all-shown}

module _ {M C T : Type 0} (bpf : Bpf M C T) where
  -- whether the round of this number succeeds, in the state that the rounds before it leave
  unfoldable pub round_ok : ℕ → ℕ → (ℕ → Fetched) → Handlers M C T → Bool
  unfolding sync_round
  round_ok zero attempt fetch h = (sync_round bpf (fetch attempt) h).1
  round_ok (suc k) attempt fetch h =
      round_ok k (suc attempt) fetch (sync_round bpf (fetch attempt) h).0

  finish_startup-flag : (p : Handlers M C T × Bool) → (finish_startup bpf p).1 ≡ p.1
  unfolding finish_startup
  finish_startup-flag (h, true) = refl
  finish_startup-flag (h, false) = refl

  round_ok-sync_rounds :
      (k rounds attempt : ℕ) (fetch : ℕ → Fetched) (h : Handlers M C T)
      → k + 1 ≤ rounds
      → round_ok k attempt fetch h ≡ true
      → (sync_rounds bpf rounds attempt fetch h).1 ≡ true
  unfolding round_ok sync_rounds
  round_ok-sync_rounds k zero attempt fetch h small ok = absurd (omega arith)
  round_ok-sync_rounds zero (suc rounds) attempt fetch h small ok = rw ok ok
  round_ok-sync_rounds (suc k) (suc rounds) attempt fetch h small ok =
      elim (Bool-cases (sync_round bpf (fetch attempt) h).1) [
        | inl done ↦ rw done done
        | inr more ↦ rw more (
            round_ok-sync_rounds k rounds (suc attempt) fetch (sync_round bpf (fetch attempt) h).0
              (omega arith) ok)
      ]

  sync_rounds-round_ok :
      (rounds attempt : ℕ) (fetch : ℕ → Fetched) (h : Handlers M C T)
      → (sync_rounds bpf rounds attempt fetch h).1 ≡ true
      → (k : ℕ) × (k + 1 ≤ rounds) × (round_ok k attempt fetch h ≡ true)
  unfolding round_ok sync_rounds
  sync_rounds-round_ok zero attempt fetch h ok = cc
  sync_rounds-round_ok (suc rounds) attempt fetch h ok =
      let this_round = sync_round bpf (fetch attempt) h in
      elim (Bool-cases this_round.1) [
        | inl done ↦ (0, omega arith, done)
        | inr more ↦
            let later =
              sync_rounds-round_ok rounds (suc attempt) fetch this_round.0 (rw more at ok) in
            (suc later.0, omega (arith, later.1), later.2)
      ]

  -- SyncOnStartup returns no error exactly where one of its RetryCount + 1 rounds succeeds in the
  -- state that the rounds before it leave.
  pub sync_on_startup_iff :
      (retries : ℕ) (fetch : ℕ → Fetched) (h : Handlers M C T)
      → ((sync_on_startup bpf (pos retries) fetch h).1 ≡ true)
        ↔ ((k : ℕ) × (k ≤ retries) × (round_ok k 0 fetch h ≡ true))
  unfolding sync_on_startup round_count
  sync_on_startup_iff retries fetch h =
      let flag = finish_startup-flag (sync_rounds bpf (suc retries) 0 fetch h) in
      (
        λ ok.
            let found = sync_rounds-round_ok (suc retries) 0 fetch h (sym flag ∙ ok) in
            (found.0, omega (arith, found.1), found.2),
        λ found.
            flag
            ∙ round_ok-sync_rounds found.0 (suc retries) 0 fetch h (omega (arith, found.1)) found.2,
      )

  push_rules-shown :
      (rules : List (String × Rule)) (p : Handlers M C T × Outcome)
      → (push_rules bpf rules p).1 ≡ false
      → shown (push_rules bpf rules p).0 ≡ shown p.0
  unfolding push_rules
  push_rules-shown rules (h, synced) stop =
      ap (λ v. ((v.0.0, v.0.1), v.2, v.3)) (aborted-seen bpf (api_rules rules) h stop)
  push_rules-shown rules (h, invalid) stop = refl
  push_rules-shown rules (h, failed) stop = refl

  push_fetched-shown :
      (rules : Option (List (String × Rule))) (entries : Option (List WhitelistEntry))
      (h : Handlers M C T)
      → (push_fetched bpf rules entries h).1 ≡ false
      → shown (push_fetched bpf rules entries h).0 ≡ shown h
  unfolding push_fetched
  push_fetched-shown none entries h stop = refl
  push_fetched-shown (some rules) none h stop = refl
  push_fetched-shown (some rules) (some entries) h stop =
      push_rules-shown rules (do_whitelist_atomic_sync bpf entries h) stop
      ∙ do_whitelist_atomic_sync-shown bpf entries h

  sync_rounds-shown :
      (rounds attempt : ℕ) (fetch : ℕ → Fetched) (h : Handlers M C T)
      → (sync_rounds bpf rounds attempt fetch h).1 ≡ false
      → shown (sync_rounds bpf rounds attempt fetch h).0 ≡ shown h
  unfolding sync_rounds sync_round
  sync_rounds-shown zero attempt fetch h stop = refl
  sync_rounds-shown (suc rounds) attempt fetch h stop =
      let fetched = fetch attempt in
      let this_round = push_fetched bpf fetched.rules fetched.whitelist h in
      elim (Bool-cases this_round.1) [
        | inl done ↦ (let never : true ≡ false = sym done ∙ (rw done at stop) in cc)
        | inr more ↦ rw more (
            sync_rounds-shown rounds (suc attempt) fetch this_round.0 (rw more at stop)
            ∙ push_fetched-shown fetched.rules fetched.whitelist h more)
      ]

  finish_startup-shown :
      (p : Handlers M C T × Bool)
      → (finish_startup bpf p).1 ≡ false
      → shown (finish_startup bpf p).0 ≡ shown p.0
  unfolding finish_startup
  finish_startup-shown (h, true) stop = cc
  finish_startup-shown (h, false) stop = clear_all-shown bpf h

  -- Where SyncOnStartup returns an error, the active blacklists and the agent's two rule stores are
  -- those of before, in whatever step its rounds failed.
  pub not_started-shown :
      (retry_count : ℤ) (fetch : ℕ → Fetched) (h : Handlers M C T)
      → (sync_on_startup bpf retry_count fetch h).1 ≡ false
      → shown (sync_on_startup bpf retry_count fetch h).0 ≡ shown h
  unfolding sync_on_startup
  not_started-shown retry_count fetch h stop =
      let p = sync_rounds bpf (round_count retry_count) 0 fetch h in
      finish_startup-shown p stop
      ∙ sync_rounds-shown (round_count retry_count) 0 fetch h (sym (finish_startup-flag p) ∙ stop)
