-- ===== src/Agent/Startup.antt =====
-- node/agent/sync/controller_sync.go: an agent that starts fetches its rules and its whitelist from the
-- controller, and tries again for some rounds. What the controller answers is an argument.
use mathlib.Core.List.{List, [], ◌∷◌, map}
use Prim.Native.Nat.{ℕ, zero, suc}
use Prim.Native.String.{String}
use xdrop.Prelude.{Bool, true, false, Option, some, none, if◌then◌else◌}
use xdrop.Prelude.Int.{ℤ, pos, negsuc}
use xdrop.Prelude.Text.{Text}
use xdrop.Agent.Types
use xdrop.Agent.Types.{WhitelistEntry}
use xdrop.Agent.State.{Handlers, Bpf}
use xdrop.Agent.Sync.Rules.{do_atomic_sync}
use xdrop.Agent.Sync.Whitelist.{Outcome, synced, invalid, failed, do_whitelist_atomic_sync}
use xdrop.Agent.Whitelist.Clear.{clear_all_whitelist_from_sync}
pub mod Frame
pub mod Rounds
pub mod Started
pub mod Consistent
mod Tests

-- `sync.Rule`
pub record Rule : Type 0 where
  pub id : String
  pub src_ip : Text
  pub dst_ip : Text
  pub src_cidr : Text
  pub dst_cidr : Text
  pub src_port : ℕ
  pub dst_port : ℕ
  pub protocol : String
  pub action : String
  pub rate_limit : ℕ
  pub pkt_len_min : ℕ
  pub pkt_len_max : ℕ
  pub tcp_flags : Text
  pub match_anomaly : ℕ

-- the fields that the code copies into an `api.Rule`
unfoldable pub api_rule : String × Rule → String × Types.Rule
api_rule (new_id, r) = (
  new_id,
  record {
    id = r.id;
    src_ip = r.src_ip;
    dst_ip = r.dst_ip;
    src_cidr = r.src_cidr;
    dst_cidr = r.dst_cidr;
    src_port = r.src_port;
    dst_port = r.dst_port;
    protocol = r.protocol;
    action = r.action;
    rate_limit = r.rate_limit;
    pkt_len_min = r.pkt_len_min;
    pkt_len_max = r.pkt_len_max;
    tcp_flags = r.tcp_flags;
    match_anomaly = r.match_anomaly;
  },
)

-- `api_rules`: with each rule the UUID that it gets if it has no id
unfoldable pub api_rules : List (String × Rule) → List (String × Types.Rule)
unfolding api_rule
api_rules = map api_rule

-- what FetchRules and FetchWhitelist return in one round; `none` is an error
pub record Fetched : Type 0 where
  pub rules : Option (List (String × Rule))
  pub whitelist : Option (List WhitelistEntry)

module _ {M C T : Type 0} (bpf : Bpf M C T) where
  -- step 2, where step 1 succeeded
  unfoldable pub push_rules :
      List (String × Rule) → Handlers M C T × Outcome → Handlers M C T × Bool
  unfolding api_rules
  push_rules rules (h, synced) =
      let result = do_atomic_sync bpf (api_rules rules) h in (result.0, result.1.ok)
  push_rules rules (h, invalid) = (h, false)
  push_rules rules (h, failed) = (h, false)

  unfoldable pub push_fetched :
      Option (List (String × Rule))
      → Option (List WhitelistEntry)
      → Handlers M C T
      → Handlers M C T × Bool
  unfolding push_rules
  push_fetched none entries h = (h, false)
  push_fetched (some rules) none h = (h, false)
  push_fetched (some rules) (some entries) h =
      push_rules rules (do_whitelist_atomic_sync bpf entries h)

  -- one round of the loop; the flag tells whether it returns
  unfoldable pub sync_round : Fetched → Handlers M C T → Handlers M C T × Bool
  unfolding push_fetched
  sync_round fetched h = push_fetched fetched.rules fetched.whitelist h

  -- the rounds that are left, from round `attempt` on
  unfoldable pub sync_rounds : ℕ → ℕ → (ℕ → Fetched) → Handlers M C T → Handlers M C T × Bool
  unfolding sync_round
  sync_rounds zero attempt fetch h = (h, false)
  sync_rounds (suc rounds) attempt fetch h =
      let this_round = sync_round (fetch attempt) h in
      let rest = sync_rounds rounds (suc attempt) fetch this_round.0 in
      if this_round.1 then this_round else rest

  -- after the loop; the error of the clean-up is only logged
  unfoldable pub finish_startup : Handlers M C T × Bool → Handlers M C T × Bool
  finish_startup (h, true) = (h, true)
  finish_startup (h, false) = ((clear_all_whitelist_from_sync bpf h).0, false)

-- `attempt <= s.config.RetryCount`, from 0 on
unfoldable pub round_count : ℤ → ℕ
round_count (pos n) = suc n
round_count (negsuc n) = 0

module _ {M C T : Type 0} (bpf : Bpf M C T) where
  unfoldable pub sync_on_startup : ℤ → (ℕ → Fetched) → Handlers M C T → Handlers M C T × Bool
  unfolding round_count sync_rounds finish_startup
  sync_on_startup retry_count fetch h =
      finish_startup bpf (sync_rounds bpf (round_count retry_count) 0 fetch h)
