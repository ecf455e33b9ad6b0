-- ===== src/Agent/Handle/Steps.antt =====
-- The handlers of node/agent/api that change the rules, as steps of the agent: a run of the agent is a
-- sequence of whole calls. The code lets another call in between the parts of addCIDRRule, of
-- AddRulesBatch and of SyncOnStartup, which take the locks part by part; the steps do not.
use mathlib.Core.List.{List, []}
use Prim.Native.Nat.{ℕ}
use Prim.Native.String.{String}
use xdrop.Prelude.{◌≢◌}
use xdrop.Prelude.Int.{ℤ}
use xdrop.Prelude.Text.{text_eq}
use xdrop.Ebpf.{MapLaws}
use xdrop.Agent.Types.{Rule, WhitelistEntry}
use xdrop.Agent.State.{Handlers, Bpf}
use xdrop.Agent.Rules.Delete.{delete_rule}
use xdrop.Agent.Rules.Frame.{IsRules}
use xdrop.Agent.Rules.Invariant.{delete_rule-IsRules}
use xdrop.Agent.Rules.AddBatch.{add_rules_batch, publish_failed}
use xdrop.Agent.Rules.AddBatch.Invariant.{add_rules_batch-IsRules}
use xdrop.Agent.Rules.Batch.{delete_rules_batch}
use xdrop.Agent.Rules.Batch.Invariant.{delete_rules_batch-IsRules}
use xdrop.Agent.Handle.{add_rule}
use xdrop.Agent.Handle.Invariant.{add_rule-IsRules, add_rule_from_sync-IsRules}
use xdrop.Agent.Sync.AddRule.{add_rule_from_sync}
use xdrop.Agent.Sync.Rules.{do_atomic_sync}
use xdrop.Agent.Sync.Rules.Built.{IsDistinct}
use xdrop.Agent.Sync.Whitelist.{do_whitelist_atomic_sync}
use xdrop.Agent.Startup.{Fetched, sync_on_startup}
use xdrop.Agent.Startup.Started.{SendsDistinct}
use xdrop.Agent.Startup.Consistent.{
  atomic_sync-IsRules, whitelist_sync-IsRules, sync_on_startup-IsRules,
}

-- One call. A full synchronisation has no id twice, be it asked for or made at the start, and a batch
-- is not taken back.
pub data Step {M C T : Type 0} (bpf : Bpf M C T) : Handlers M C T → Handlers M C T → Type 0 where
  added :
      (h : Handlers M C T) (new_id : String) (req : Rule) → Step bpf h (add_rule bpf h new_id req).0
  added_from_sync :
      (h : Handlers M C T) (new_id : String) (req : Rule)
      → Step bpf h (add_rule_from_sync bpf h new_id req).0
  deleted : (h : Handlers M C T) (id : String) → Step bpf h (delete_rule bpf id h).0
  all_synced :
      (h : Handlers M C T) (rs : List (String × Rule))
      → IsDistinct [] rs
      → Step bpf h (do_atomic_sync bpf rs h).0
  whitelist_synced :
      (h : Handlers M C T) (es : List WhitelistEntry)
      → Step bpf h (do_whitelist_atomic_sync bpf es h).0
  batch_added :
      (h : Handlers M C T) (rs : List (String × Rule))
      → (add_rules_batch bpf rs h).1 ≢ publish_failed
      → Step bpf h (add_rules_batch bpf rs h).0
  batch_deleted :
      (h : Handlers M C T) (ids : List String) → Step bpf h (delete_rules_batch bpf ids h).0
  started :
      (h : Handlers M C T) (retry_count : ℤ) (fetch : ℕ → Fetched)
      → ((k : ℕ) → SendsDistinct (fetch k))
      → Step bpf h (sync_on_startup bpf retry_count fetch h).0

-- any number of calls, whether they succeed or not
pub data Steps {M C T : Type 0} (bpf : Bpf M C T) : Handlers M C T → Handlers M C T → Type 0 where
  stop : (h : Handlers M C T) → Steps bpf h h
  step : (h g i : Handlers M C T) → Step bpf h g → Steps bpf g i → Steps bpf h i

module _ {M C T : Type 0} (bpf : Bpf M C T) (laws : MapLaws bpf.maps) where
  Step-IsRules : (h g : Handlers M C T) → Step bpf h g → IsRules h → IsRules g
  Step-IsRules _ _ (added h new_id req) r = add_rule-IsRules bpf h new_id req r
  Step-IsRules _ _ (added_from_sync h new_id req) r = add_rule_from_sync-IsRules bpf h new_id req r
  Step-IsRules _ _ (deleted h id) r = delete_rule-IsRules bpf id h r
  Step-IsRules _ _ (all_synced h rs distinct) r = atomic_sync-IsRules bpf laws h rs distinct r
  Step-IsRules _ _ (whitelist_synced h es) r = whitelist_sync-IsRules bpf es h r
  Step-IsRules _ _ (batch_added h rs kept) r = add_rules_batch-IsRules bpf rs h r kept
  Step-IsRules _ _ (batch_deleted h ids) r = delete_rules_batch-IsRules bpf ids h r
  Step-IsRules _ _ (started h retry_count fetch distinct) r =
      sync_on_startup-IsRules bpf laws retry_count fetch h distinct r

  -- With BPF maps that obey their documentation, consistent rule stores (each rule is indexed by its
  -- key, the index names nothing else, and each combo has the count of its rules) stay consistent
  -- under any sequence of calls of SyncOnStartup, AddRule, AddRuleFromSync, DeleteRule, AddRulesBatch,
  -- DeleteRulesBatch, DoAtomicSync and DoWhitelistAtomicSync, in which no synchronisation brings a
  -- rule's id twice and no AddRulesBatch is taken back, whichever of the calls fail.
  pub Steps-IsRules : (h g : Handlers M C T) → Steps bpf h g → IsRules h → IsRules g
  Steps-IsRules _ _ (stop h) r = r
  Steps-IsRules _ _ (step h i g s rest) r = Steps-IsRules i g rest (Step-IsRules h i s r)
