-- ===== src/Agent/Whitelist/Tests.antt =====
-- The properties of the whitelist handlers, on maps that are association lists.
use xdrop.Prelude.{true, ◌≡◌, refl, arith}
use xdrop.Ebpf.Lists.{list_lookup, list_update, list_delete}
use xdrop.Prelude.Int.{◌-ℤ◌}
use xdrop.Prelude.Text.{text_beq}
use xdrop.Agent.Wire.{rule_key_to_bytes}
use xdrop.Agent.Config.{
  publish_config_update, active_map, shadow_map, active_whitelist, set_active_whitelist,
}
use mathlib.Core.List.{List, ◌∷◌}
use Prim.Native.String.{String}
use xdrop.Agent.Whitelist.Batch.{delete_whitelist_batch}
use xdrop.Agent.Whitelist.Batch.Invariant.{delete_whitelist_batch-IsWhitelist}
use xdrop.Agent.Fixture.{M, C, T, bpf, key, fresh}
use xdrop.Agent.State.{Handlers}
use xdrop.Agent.Whitelist.{store_whitelist, []}
use xdrop.Agent.Whitelist.Invariant.{IsWhitelist, store_whitelist-IsWhitelist}
use xdrop.Agent.Whitelist.Clear.{clear_all_whitelist_from_sync}
use xdrop.Prelude.GoMap.{lookup}

fresh-IsWhitelist : IsWhitelist fresh
unfolding lookup
fresh-IsWhitelist = record {
  unique = tt;
  indexed = λ id s h. ground arith;
  named = λ k id h. ground arith;
  counted = λ c small. refl;
}

store_whitelist-IsWhitelist_example : IsWhitelist (store_whitelist bpf fresh "dns" key).0
store_whitelist-IsWhitelist_example =
    store_whitelist-IsWhitelist bpf fresh "dns" key fresh-IsWhitelist

abbrev with_entry : Handlers M C T
with_entry = (store_whitelist bpf fresh "dns" key).0

entry_cleared : (clear_all_whitelist_from_sync bpf with_entry).1 ≡ true
unfolding clear_all_whitelist_from_sync store_whitelist lookup publish_config_update list_lookup
    active_map list_update shadow_map active_whitelist set_active_whitelist list_delete text_beq
    rule_key_to_bytes ◌-ℤ◌
entry_cleared = refl

-- one id twice, and one that is not there
abbrev ids : List String
ids = "dns" ∷ "dns" ∷ "ntp" ∷ []

delete_whitelist_batch-IsWhitelist_example :
    IsWhitelist (delete_whitelist_batch bpf ids with_entry).0
delete_whitelist_batch-IsWhitelist_example =
    delete_whitelist_batch-IsWhitelist bpf ids with_entry store_whitelist-IsWhitelist_example
