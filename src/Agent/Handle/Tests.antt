-- ===== src/Agent/Handle/Tests.antt =====
-- The properties of the rule handlers, on maps that are association lists.
use mathlib.Core.List.{[], ◌∷◌}
use xdrop.Prelude.Text.{codes, text_eq, string_eq}
use xdrop.Prelude.GoMap.{is_in}
use xdrop.Agent.Fixture.{M, C, T, bpf, request, value, fresh, fresh-IsRules}
use xdrop.Ebpf.Lists.{list_ops-MapLaws}
use xdrop.Agent.Types.{StoredCidrRule}
use xdrop.Agent.State.{Handlers}
use xdrop.Agent.Rules.Frame.{IsRules}
use xdrop.Agent.Rules.Delete.{delete_rule}
use xdrop.Agent.CidrRules.{store_cidr_rule}
use xdrop.Agent.CidrRules.Invariant.{store_cidr_rule-IsRules}
use xdrop.Agent.Handle.{add_rule}
use xdrop.Agent.Handle.Steps.{
  Steps, added, deleted, all_synced, whitelist_synced, batch_deleted, stop, step, Steps-IsRules,
}
use xdrop.Agent.Rules.Batch.{delete_rules_batch}
use xdrop.Agent.Sync.Rules.{do_atomic_sync}
use xdrop.Agent.Sync.Whitelist.{do_whitelist_atomic_sync}
use Prim.Native.String.{[]}
use xdrop.Prelude.{◌∷◌, refl}

abbrev stored_net : StoredCidrRule
stored_net = record {
  key = record { src_id = 1; dst_id = 0; src_port = 0; dst_port = 0; protocol = 0 };
  src_cidr = codes "10.0.0.0/8";
  dst_cidr = [];
  action = "drop";
  rate_limit = 0;
  pkt_len_min = 0;
  pkt_len_max = 0;
  tcp_flags = [];
  match_anomaly = 0;
}

store_cidr_rule-IsRules_example : IsRules (store_cidr_rule bpf fresh "net" value stored_net).0
store_cidr_rule-IsRules_example =
    store_cidr_rule-IsRules bpf fresh "net" value stored_net fresh-IsRules

-- a rule is added, all rules are replaced, one is deleted, the whitelist is emptied, and two more are
-- deleted
abbrev one : Handlers M C T
one = (add_rule bpf fresh "new" request).0

abbrev two : Handlers M C T
two = (do_atomic_sync bpf (("new", request) ∷ []) one).0

abbrev three : Handlers M C T
three = (delete_rule bpf "web" two).0

abbrev four : Handlers M C T
four = (do_whitelist_atomic_sync bpf [] three).0

abbrev five : Handlers M C T
five = (delete_rules_batch bpf ("new" ∷ "web" ∷ []) four).0

run : Steps bpf fresh five
unfolding is_in
run = step fresh one five (added fresh "new" request) (
    step one two five (all_synced one (("new", request) ∷ []) (refl, tt)) (
      step two three five (deleted two "web") (
        step three four five (whitelist_synced three [])
          (step four five five (batch_deleted four ("new" ∷ "web" ∷ [])) (stop five)))))

Steps-IsRules_example : IsRules five
Steps-IsRules_example = Steps-IsRules bpf list_ops-MapLaws fresh five run fresh-IsRules
