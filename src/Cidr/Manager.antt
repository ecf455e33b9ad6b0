-- ===== src/Cidr/Manager.antt =====
-- The Manager. One `Table` holds the two Go maps and the trie of one direction and one family,
-- which the source keeps in twelve fields. The lock is taken by every method for its whole body,
-- so each method is one step.
pub mod Normal
pub mod Entries
pub mod Invariant
pub mod Trace
pub mod Calls
use xdrop.Prelude.{
  ℕ, ◌+◌, ◌-◌, ◌%◌, ◌^◌, Bool, true, false, not, ◌||◌, Option, none, some, List, [], ◌∷◌, ◌++◌, map,
  leb, if◌then◌else◌,
}
use xdrop.Prelude.Bytes.{Bytes}
use xdrop.Prelude.GoMap.{GoMap, lookup, insert, delete}
use xdrop.Prelude.Text.{Text, text_eq, text_beq}
use xdrop.Net.{IpNet, to4, to16, parse_cidr, contains}
use xdrop.Net.Print.{net_to_string}
use xdrop.Ebpf.{MapOps, update_any}

-- `lpmV4Key` and `lpmV6Key`: 4 or 16 bytes of data
pub record LpmKey : Type 0 where
  pub prefix_len : ℕ
  pub bytes : Bytes

unfoldable pub make_lpm_v4_key : Text → Option LpmKey
make_lpm_v4_key cidr = elim (parse_cidr cidr) [
  | none ↦ none
  | some (ip, ipnet) ↦ elim (to4 ipnet.ip) [
    | none ↦ none
    | some ip4 ↦ some (record { prefix_len = ipnet.ones; bytes = ip4 })
  ]
]

unfoldable pub make_lpm_v6_key : Text → Option LpmKey
make_lpm_v6_key cidr = elim (parse_cidr cidr) [
  | none ↦ none
  | some (ip, ipnet) ↦ elim (to16 ipnet.ip) [
    | none ↦ none
    | some ip16 ↦ some (record { prefix_len = ipnet.ones; bytes = ip16 })
  ]
]

unfoldable pub is_ipv6_cidr : Text → Bool
is_ipv6_cidr cidr = elim (parse_cidr cidr) [
  | none ↦ false
  | some (ip, network) ↦ elim (to4 network.ip) [ none ↦ true | some ip4 ↦ false ]
]

unfoldable pub normalize_cidr : Text → Option Text
normalize_cidr cidr = elim (parse_cidr cidr) [
  | none ↦ none
  | some (ip, network) ↦ some (net_to_string network)
]

-- one existing CIDR against the new network
conflicts : IpNet → Text → Bool
conflicts new_net existing = elim (parse_cidr existing) [
  | none ↦ false
  | some (ip, exist_net) ↦
      if text_eq.beq (net_to_string new_net) (net_to_string exist_net)
      then false
      else contains exist_net new_net.ip || contains new_net exist_net.ip
]

first_conflict : IpNet → List Text → Text
unfolding conflicts
first_conflict new_net [] = []
first_conflict new_net (existing ∷ rest) =
    let later = first_conflict new_net rest in
    if conflicts new_net existing then existing else later

-- `none` is the error; the empty text says that there is no conflict
unfoldable pub check_overlap : Text → List Text → Option Text
unfolding first_conflict
check_overlap new_cidr existing = elim (parse_cidr new_cidr) [
  | none ↦ none
  | some (ip, new_net) ↦ some (first_conflict new_net existing)
]

pub record Table (T : Type 0) : Type 0 where
  pub cidrs : GoMap Text ℕ  -- normalized CIDR → id
  pub refs : GoMap Text ℕ  -- reference count per CIDR
  pub trie : T

pub record Manager (T : Type 0) : Type 0 where
  pub src_v4 : Table T
  pub dst_v4 : Table T
  pub src_v6 : Table T
  pub dst_v6 : Table T
  pub next_id : ℕ  -- uint32

unfoldable pub make_key : Bool → Text → Option LpmKey
make_key is_v6 cidr = if is_v6 then make_lpm_v6_key cidr else make_lpm_v4_key cidr

keys : GoMap Text ℕ → List Text
keys m = map (λ e. e.0) m

module _ {T : Type 0} where
  empty_table : T → Table T
  empty_table trie = record { cidrs = []; refs = []; trie = trie }

  unfoldable pub new_manager : T → T → T → T → Manager T
  unfolding empty_table
  new_manager src_v4 dst_v4 src_v6 dst_v6 = record {
    src_v4 = empty_table src_v4;
    dst_v4 = empty_table dst_v4;
    src_v6 = empty_table src_v6;
    dst_v6 = empty_table dst_v6;
    next_id = 1;
  }

  unfoldable pub get_src_maps : Bool → Manager T → Table T
  get_src_maps is_v6 m = if is_v6 then m.src_v6 else m.src_v4

  unfoldable pub get_dst_maps : Bool → Manager T → Table T
  get_dst_maps is_v6 m = if is_v6 then m.dst_v6 else m.dst_v4

  -- what a method writes to the maps it got goes back to where they came from
  unfoldable pub set_src_maps : Bool → Table T → Manager T → Manager T
  set_src_maps is_v6 t m = if is_v6 then record m { src_v6 = t } else record m { src_v4 = t }

  unfoldable pub set_dst_maps : Bool → Table T → Manager T → Manager T
  set_dst_maps is_v6 t m = if is_v6 then record m { dst_v6 = t } else record m { dst_v4 = t }

  unfoldable pub list_src_cidrs : Manager T → List Text
  unfolding keys
  list_src_cidrs m = keys m.src_v4.cidrs ++ keys m.src_v6.cidrs

  unfoldable pub list_dst_cidrs : Manager T → List Text
  unfolding keys
  list_dst_cidrs m = keys m.dst_v4.cidrs ++ keys m.dst_v6.cidrs

  unfoldable pub get_src_id : Manager T → Text → Option ℕ
  get_src_id m cidr =
      if is_ipv6_cidr cidr then lookup cidr m.src_v6.cidrs else lookup cidr m.src_v4.cidrs

  unfoldable pub get_dst_id : Manager T → Text → Option ℕ
  get_dst_id m cidr =
      if is_ipv6_cidr cidr then lookup cidr m.dst_v6.cidrs else lookup cidr m.dst_v4.cidrs

-- a missing key of a Go map of numbers reads as 0
abbrev pub count_of : Option ℕ → ℕ
count_of none = 0
count_of (some n) = n

module _ {T : Type 0} (ops : MapOps T LpmKey ℕ) where
  -- the flag is false for an error, also that of `makeLPMv4Key` or `makeLPMv6Key`
  unfoldable pub put_entry : T → ℕ → Option LpmKey → T × Bool
  put_entry trie id none = (trie, false)
  put_entry trie id (some k) = ops.update trie update_any k id

  unfoldable pub write_trie : T → Text → ℕ → Bool → T × Bool
  write_trie trie cidr id is_v6 = put_entry trie id (make_key is_v6 cidr)

  unfoldable pub delete_entry : T → Option LpmKey → T × Bool
  delete_entry trie none = (trie, false)
  delete_entry trie (some k) = ops.delete trie k

  unfoldable pub delete_trie : T → Text → Bool → T × Bool
  delete_trie trie cidr is_v6 = delete_entry trie (make_key is_v6 cidr)

  -- a new number, with the trie as the write left it
  unfoldable pub alloc_new : Table T → Text → ℕ → T × Bool → Table T × Option ℕ
  alloc_new t cidr id (trie, written) =
      if written
      then (
        record { cidrs = insert cidr id t.cidrs; refs = insert cidr 1 t.refs; trie = trie },
        some id,
      )
      else (record t { trie = trie }, none)

  -- the body of `AllocSrcID` and of `AllocDstID` on their maps: the new maps, the new `nextID`,
  -- and the number, or `none` for the error
  unfoldable pub alloc : Table T → ℕ → Text → Bool → Table T × ℕ × Option ℕ
  unfolding alloc_new
  alloc t next_id cidr is_v6 = elim (lookup cidr t.cidrs) [
    | some id ↦ (
      record t { refs = insert cidr (count_of (lookup cidr t.refs) + 1) t.refs },
      next_id,
      some id,
    )
    | none ↦
        let (t', r) = alloc_new t cidr next_id (write_trie t.trie cidr next_id is_v6) in
        (t', (next_id + 1) % 2 ^ 32, r)
  ]

  -- the entry is gone from the trie, or nothing changes
  unfoldable pub release_last : Table T → Text → T × Bool → Table T × Bool
  release_last t cidr (trie, deleted) =
      if deleted
      then (record { cidrs = delete cidr t.cidrs; refs = delete cidr t.refs; trie = trie }, true)
      else (record t { trie = trie }, false)

  -- the body of `ReleaseSrcID` and of `ReleaseDstID`; the flag is false for an error
  unfoldable pub release : Table T → Text → Bool → Table T × Bool
  unfolding release_last
  release t cidr is_v6 = elim (lookup cidr t.refs) [
    | none ↦ (t, false)
    | some ref ↦
        if leb ref 1
        then release_last t cidr (delete_trie t.trie cidr is_v6)
        else (record t { refs = insert cidr (ref - 1) t.refs }, true)
  ]

  unfoldable pub alloc_src_id : Manager T → Text → Manager T × Option ℕ
  alloc_src_id m cidr =
      let is_v6 = is_ipv6_cidr cidr in
      let (t, next_id, r) = alloc (get_src_maps is_v6 m) m.next_id cidr is_v6 in
      let m' = set_src_maps is_v6 t m in (record m' { next_id = next_id }, r)

  unfoldable pub alloc_dst_id : Manager T → Text → Manager T × Option ℕ
  alloc_dst_id m cidr =
      let is_v6 = is_ipv6_cidr cidr in
      let (t, next_id, r) = alloc (get_dst_maps is_v6 m) m.next_id cidr is_v6 in
      let m' = set_dst_maps is_v6 t m in (record m' { next_id = next_id }, r)

  unfoldable pub release_src_id : Manager T → Text → Manager T × Bool
  release_src_id m cidr =
      let is_v6 = is_ipv6_cidr cidr in
      let (t, done) = release (get_src_maps is_v6 m) cidr is_v6 in (set_src_maps is_v6 t m, done)

  unfoldable pub release_dst_id : Manager T → Text → Manager T × Bool
  release_dst_id m cidr =
      let is_v6 = is_ipv6_cidr cidr in
      let (t, done) = release (get_dst_maps is_v6 m) cidr is_v6 in (set_dst_maps is_v6 t m, done)

  -- the trie entries of a list of CIDRs, as many as can be deleted
  delete_all : T → List Text → Bool → T
  delete_all trie [] is_v6 = trie
  delete_all trie (cidr ∷ cidrs) is_v6 = delete_all (delete_trie trie cidr is_v6).0 cidrs is_v6

  unfoldable pub clear_table : Table T → Bool → Table T
  unfolding delete_all keys
  clear_table t is_v6 = record {
    cidrs = [];
    refs = [];
    trie = delete_all t.trie (keys t.cidrs) is_v6;
  }

  unfoldable pub clear_all : Manager T → Manager T
  unfolding clear_table
  clear_all m = record m {
    src_v4 = clear_table m.src_v4 false;
    dst_v4 = clear_table m.dst_v4 false;
    src_v6 = clear_table m.src_v6 true;
    dst_v6 = clear_table m.dst_v6 true;
  }
