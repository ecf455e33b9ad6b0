-- ===== src/Agent/Startup/Started.antt =====
-- What a start of node/agent/sync/controller_sync.go that succeeds leaves behind.
use mathlib.Core.List.{List, []}
use Prim.Native.Nat.{ℕ, zero, suc}
use Prim.Native.String.{String}
use xdrop.Prelude.{
  Bool, true, false, Option, some, none, ◌≡◌, refl, ap, ◌∙◌, sym, subst, Bool-cases, inl, inr,
  if◌then◌else◌, ◌==◌,
}
use xdrop.Prelude.Int.{ℤ}
use xdrop.Ebpf.{MapLaws}
use xdrop.Prelude.Text.{text_eq, string_eq}
use xdrop.Prelude.GoMap.{lookup}
use xdrop.Agent.Types.{WhitelistEntry}
use xdrop.Agent.State.{Handlers, Bpf}
use xdrop.Agent.Config.{shadow_whitelist, active_whitelist}
use xdrop.Agent.Whitelist.Invariant.{of_view}
use xdrop.Agent.Sync.Rules.Built.{IsDistinct}
use xdrop.Agent.Sync.Rules.Install.{IsInstalled, do_atomic_sync-IsInstalled}
use xdrop.Agent.Sync.Whitelist.{Outcome, synced, invalid, failed, do_whitelist_atomic_sync}
use xdrop.Agent.Sync.Whitelist.Synced.{IsSynced, synced-IsSynced}
use xdrop.Agent.Startup.{
  Rule, Fetched, api_rules, push_rules, push_fetched, sync_round, sync_rounds, finish_startup,
  round_count, sync_on_startup,
}
use xdrop.Agent.Startup.Frame.{wl_shown, do_atomic_sync-wl}

-- what the agent has where it took over an answer of the controller
pub record IsStarted {M C T : Type 0} (bpf : Bpf M C T) (fetched : Fetched) (h : Handlers M C T)
    : Type 0 where
  pub rules : List (String × Rule)
  pub entries : List WhitelistEntry
  pub fetched_rules : fetched.rules ≡ some rules
  pub fetched_entries : fetched.whitelist ≡ some entries
  pub installed : IsInstalled bpf (api_rules rules) h
  pub listed : IsSynced bpf entries h

-- no id comes twice in the rules that the controller sends
abbrev pub SendsDistinct : Fetched → Type 0
SendsDistinct fetched =
    (rules : List (String × Rule)) → fetched.rules ≡ some rules → IsDistinct [] (api_rules rules)

module _ {M C T : Type 0} (bpf : Bpf M C T) (laws : MapLaws bpf.maps)
    (listing : (m : M) → (bpf.maps.iterate m).1 ≡ true) where
  wl_shown-IsSynced :
      (es : List WhitelistEntry) (h g : Handlers M C T)
      → wl_shown g ≡ wl_shown h
      → IsSynced bpf es h
      → IsSynced bpf es g
  unfolding active_whitelist
  wl_shown-IsSynced es h g same st = record {
    consistent = of_view g _ (ap (λ v. v.3) same) st.consistent;
    remembered = λ id. ap (λ v. lookup id v.3.0) same ∙ st.remembered id;
    published =
        λ x. ap (λ v. bpf.maps.lookup (if v.2 == 0 then v.0 else v.1) x) same ∙ st.published x;
  }

  push_rules-IsStarted :
      (fetched : Fetched) (rules : List (String × Rule)) (entries : List WhitelistEntry)
      (p : Handlers M C T × Outcome)
      → fetched.rules ≡ some rules
      → fetched.whitelist ≡ some entries
      → SendsDistinct fetched
      → (p.1 ≡ synced → IsSynced bpf entries p.0)
      → (push_rules bpf rules p).1 ≡ true
      → IsStarted bpf fetched (push_rules bpf rules p).0
  unfolding push_rules
  push_rules-IsStarted fetched rules entries (h, synced) sent listed distinct st ok = record {
    rules = rules;
    entries = entries;
    fetched_rules = sent;
    fetched_entries = listed;
    installed = do_atomic_sync-IsInstalled bpf laws (api_rules rules) h (distinct rules sent) ok;
    listed = wl_shown-IsSynced entries h _ (do_atomic_sync-wl bpf (api_rules rules) h) (st refl);
  }
  push_rules-IsStarted fetched rules entries (h, invalid) sent listed distinct st ok = cc
  push_rules-IsStarted fetched rules entries (h, failed) sent listed distinct st ok = cc

  push_fetched-IsStarted :
      (fetched : Fetched) (rules : Option (List (String × Rule)))
      (entries : Option (List WhitelistEntry)) (h : Handlers M C T)
      → fetched.rules ≡ rules
      → fetched.whitelist ≡ entries
      → SendsDistinct fetched
      → (push_fetched bpf rules entries h).1 ≡ true
      → IsStarted bpf fetched (push_fetched bpf rules entries h).0
  unfolding push_fetched
  push_fetched-IsStarted fetched none entries h sent listed distinct ok = cc
  push_fetched-IsStarted fetched (some rules) none h sent listed distinct ok = cc
  push_fetched-IsStarted fetched (some rules) (some entries) h sent listed distinct ok =
      push_rules-IsStarted fetched rules entries (do_whitelist_atomic_sync bpf entries h) sent
        listed distinct (synced-IsSynced bpf laws entries h (listing (shadow_whitelist h))) ok

  sync_rounds-IsStarted :
      (rounds attempt : ℕ) (fetch : ℕ → Fetched) (h : Handlers M C T)
      → ((k : ℕ) → SendsDistinct (fetch k))
      → (sync_rounds bpf rounds attempt fetch h).1 ≡ true
      → (k : ℕ) × IsStarted bpf (fetch k) (sync_rounds bpf rounds attempt fetch h).0
  unfolding sync_rounds sync_round
  sync_rounds-IsStarted zero attempt fetch h distinct ok = cc
  sync_rounds-IsStarted (suc rounds) attempt fetch h distinct ok =
      let fetched = fetch attempt in
      let this_round = push_fetched bpf fetched.rules fetched.whitelist h in
      elim (Bool-cases this_round.1) [
        | inl done ↦ rw done (
          attempt,
          push_fetched-IsStarted fetched fetched.rules fetched.whitelist h refl refl
              (distinct attempt) done,
        )
        | inr more ↦
            rw more (
              sync_rounds-IsStarted rounds (suc attempt) fetch this_round.0 distinct
                (rw more at ok))
      ]

  -- the flag of a pair that ends with success, and the state that it keeps
  finish_startup_kept :
      (p : Handlers M C T × Bool)
      → (finish_startup bpf p).1 ≡ true
      → (p.1 ≡ true) × ((finish_startup bpf p).0 ≡ p.0)
  unfolding finish_startup
  finish_startup_kept (h, true) ok = (refl, refl)
  finish_startup_kept (h, false) ok = cc

  -- With BPF maps that obey their documentation and are listed without an error, and a controller
  -- that sends no id twice, a SyncOnStartup that returns no error leaves the agent with the rules
  -- and the whitelist of one answer of the controller: the rule stores are consistent, the exact rules
  -- are those of its rules and no other, and so are the CIDR rules, up to the numbers of their CIDRs;
  -- the active blacklists have for each stored rule an entry with the value that is derived from what
  -- is stored, which does not exclude further entries; the whitelist and its active map are those of
  -- its entries.
  pub sync_on_startup-IsStarted :
      (retry_count : ℤ) (fetch : ℕ → Fetched) (h : Handlers M C T)
      → ((k : ℕ) → SendsDistinct (fetch k))
      → (sync_on_startup bpf retry_count fetch h).1 ≡ true
      → (k : ℕ) × IsStarted bpf (fetch k) (sync_on_startup bpf retry_count fetch h).0
  unfolding sync_on_startup
  sync_on_startup-IsStarted retry_count fetch h distinct ok =
      let rounds = round_count retry_count in
      let kept = finish_startup_kept (sync_rounds bpf rounds 0 fetch h) ok in
      let found = sync_rounds-IsStarted rounds 0 fetch h distinct kept.0 in
      (found.0, subst (IsStarted bpf (fetch found.0)) (sym kept.1) found.1)
