-- ===== src/Agent/Cidrs.antt =====
-- What the handlers of node/agent/api/cidr_rules.go, rules_mutation.go and sync.go ask of the CIDR
-- manager. An empty text stands for a side without a CIDR.
use mathlib.Core.List.{[], List}
use xdrop.Prelude.Text.{Text, text_eq}
use xdrop.Ebpf.{MapOps}
use xdrop.Cidr.Manager.{
  LpmKey, Manager, normalize_cidr, check_overlap, alloc_src_id, alloc_dst_id, release_src_id,
  release_dst_id,
}
use Prim.Native.Nat.{ℕ}
use xdrop.Prelude.{Bool, Option, some, none, false, not, ◌&&◌, if◌then◌else◌}

unfoldable pub is_empty : Text → Bool
is_empty s = text_eq.beq s []

unfoldable pub normalize_side : Text → Option Text
unfolding is_empty
normalize_side s = let normal = normalize_cidr s in if is_empty s then some [] else normal

-- `cidr != ""`, and a conflict with an existing CIDR; an error of the check is no conflict
unfoldable pub overlaps : Text → List Text → Bool
unfolding is_empty
overlaps cidr existing = elim (check_overlap cidr existing) [
  | none ↦ false
  | some conflict ↦ not (is_empty cidr) && not (is_empty conflict)
]

module _ {T : Type 0} (ops : MapOps T LpmKey ℕ) where
  unfoldable pub alloc_src : Text → Manager T → Manager T × Option ℕ
  unfolding is_empty
  alloc_src cidr m =
      let allocated = alloc_src_id ops m cidr in if is_empty cidr then (m, some 0) else allocated

  unfoldable pub alloc_dst : Text → Manager T → Manager T × Option ℕ
  unfolding is_empty
  alloc_dst cidr m =
      let allocated = alloc_dst_id ops m cidr in if is_empty cidr then (m, some 0) else allocated

  unfoldable pub release_src : Text → Manager T → Manager T
  unfolding is_empty
  release_src cidr m = if is_empty cidr then m else (release_src_id ops m cidr).0

  unfoldable pub release_dst : Text → Manager T → Manager T
  unfolding is_empty
  release_dst cidr m = if is_empty cidr then m else (release_dst_id ops m cidr).0

  unfoldable pub release_cidrs : Text → Text → Manager T → Manager T
  unfolding release_src release_dst
  release_cidrs src dst m = release_dst dst (release_src src m)

  -- the number of the destination, where the source has its own; without it the source's goes
  unfoldable pub alloc_second : Text → Text → Manager T × Option ℕ → Manager T × Option (ℕ × ℕ)
  unfolding alloc_dst release_src
  alloc_second src dst (m, none) = (m, none)
  alloc_second src dst (m, some src_id) =
      let allocated = alloc_dst dst m in
      elim allocated.1 [
        | none ↦ (release_src src allocated.0, none)
        | some dst_id ↦ (allocated.0, some (src_id, dst_id))
      ]

  unfoldable pub alloc_ids : Text → Text → Manager T → Manager T × Option (ℕ × ℕ)
  unfolding alloc_second alloc_src
  alloc_ids src dst m = alloc_second src dst (alloc_src src m)
