-- ===== src/Cidr/Tests.antt =====
-- The properties of the Manager at concrete calls, on tries that are association lists.
use xdrop.Prelude.{nat_eq, [], ◌∷◌, ℕ, false, some, none, refl, List, arith, ◌≡◌, ◌⊎◌, ◌+◌}
use xdrop.Prelude.GoMap.{GoMap, lookup}
use xdrop.Prelude.Text.{Text, codes, text_eq}
use xdrop.Ebpf.{MapOps}
use xdrop.Ebpf.Lists.{list_ops, list_ops-MapLaws, list_update}
use xdrop.Net.{parse_cidr, to4}
use xdrop.Net.Print.{net_to_string}
use xdrop.Cidr.Manager.{
  LpmKey, Table, new_manager, alloc, is_ipv6_cidr, write_trie, put_entry, make_key, make_lpm_v4_key,
}
use xdrop.Cidr.Manager.Normal.{IsNormal}
use xdrop.Cidr.Manager.Entries.{lpm_key_eq}
use xdrop.Cidr.Manager.Invariant.{IsTable}
use xdrop.Cidr.Manager.Trace.{
  Call, AllNormal, alloc_src, release_src, clear, IsManager, run, reachable-IsManager,
}
use xdrop.Cidr.Manager.Calls.{Allocated, alloc_done}

abbrev T : Type 0
T = GoMap LpmKey ℕ

abbrev ops : MapOps T LpmKey ℕ
ops = list_ops

abbrev ten : Text
ten = codes "10.0.0.0/8"

ten-IsNormal : IsNormal false ten
unfolding parse_cidr net_to_string
ten-IsNormal = record {
  ip = 0 ∷ 0 ∷ 0 ∷ 0 ∷ 0 ∷ 0 ∷ 0 ∷ 0 ∷ 0 ∷ 0 ∷ 255 ∷ 255 ∷ 10 ∷ 0 ∷ 0 ∷ 0 ∷ [];
  net = record { ip = 10 ∷ 0 ∷ 0 ∷ 0 ∷ []; ones = 8; bits = 32 };
  parsed = refl;
  printed = refl;
  size = refl;
  bits = refl;
}

abbrev empty : Table T
empty = record { cidrs = []; refs = []; trie = [] }

empty-IsTable : IsTable ops false 1 empty
unfolding lookup
empty-IsTable = record {
  normal = λ c id h. cc;
  counted = λ c id h. cc;
  uncounted = λ c h. refl;
  numbered = λ c id h. cc;
  apart = λ c d id h k. cc;
  entered = λ c id h. cc;
}

allocated : (alloc ops empty 1 ten false).2 ≡ some 1
unfolding alloc lookup write_trie put_entry make_key make_lpm_v4_key parse_cidr to4 list_update
allocated = refl

alloc_done_example :
    Allocated ops list_ops-MapLaws empty 1 ten false 1 (alloc ops empty 1 ten false).0
    × (((lookup ten empty.cidrs ≡ some 1) × ((alloc ops empty 1 ten false).1 ≡ 1))
        ⊎ ((lookup ten empty.cidrs ≡ none)
            × (◌≡◌ {A = ℕ} 1 1)
            × ((alloc ops empty 1 ten false).1 ≡ 1 + 1)))
alloc_done_example =
    alloc_done ops list_ops-MapLaws empty 1 ten false empty-IsTable (omega arith) 1 allocated

abbrev calls : List Call
calls = alloc_src ten ∷ alloc_src ten ∷ release_src ten ∷ clear ∷ []

ten_is_v4 : is_ipv6_cidr ten ≡ false
unfolding is_ipv6_cidr parse_cidr to4
ten_is_v4 = refl

calls-AllNormal : AllNormal calls
calls-AllNormal = rw ten_is_v4 (ten-IsNormal, (ten-IsNormal, (tt, (tt, tt))))

reachable-IsManager_example : IsManager ops (run ops (new_manager [] [] [] []) calls)
reachable-IsManager_example =
    reachable-IsManager ops list_ops-MapLaws [] [] [] [] calls calls-AllNormal (omega arith)
