-- ===== src/Controller/Overlap.antt =====
-- findCIDROverlap and checkCIDROverlap of controller/internal/service/rule_service.go.
use mathlib.Core.List.{List, [], ◌∷◌}
use xdrop.Prelude.{Bool, true, false, not, ◌&&◌, ◌||◌, Option, some, none, if◌then◌else◌, leb}
use xdrop.Prelude.Text.{Text, text_beq}
use xdrop.Net.{Ip, IpNet, parse_cidr, contains}
pub mod Disjoint

-- the two tests on a pair of networks, the new one first
unfoldable pub nets_overlap : IpNet → IpNet → Bool
unfolding contains
nets_overlap new_net exist_net =
    leb exist_net.ones new_net.ones && contains exist_net new_net.ip
    || leb new_net.ones exist_net.ones && contains new_net exist_net.ip

-- one round of the loop
unfoldable pub conflicts : Text → IpNet → Text → Bool
unfolding nets_overlap text_beq
conflicts new_cidr new_net e = elim (parse_cidr e) [
  | none ↦ false
  | some (ip, exist_net) ↦ not (text_beq e new_cidr) && nets_overlap new_net exist_net
]

unfoldable pub find_conflict : Text → IpNet → List Text → Option Text
unfolding conflicts
find_conflict new_cidr new_net [] = none
find_conflict new_cidr new_net (e ∷ existing) =
    if conflicts new_cidr new_net e then some e else find_conflict new_cidr new_net existing

-- "" is `none`
unfoldable pub find_cidr_overlap : Text → List Text → Option Text
unfolding find_conflict
find_cidr_overlap new_cidr existing = elim (parse_cidr new_cidr) [
  | none ↦ none
  | some (ip, new_net) ↦ find_conflict new_cidr new_net existing
]

-- one side of `checkCIDROverlap`: whether it is refused, by the CIDRs that the repository lists, or by
-- its error
unfoldable pub side_overlaps : Text → Option (List Text) → Bool
unfolding find_cidr_overlap text_beq
side_overlaps cidr none = not (text_beq cidr [])
side_overlaps cidr (some existing) = elim (find_cidr_overlap cidr existing) [
  | none ↦ false
  | some conflict ↦ not (text_beq cidr [])
]

-- whether an error is returned
unfoldable pub check_cidr_overlap : Text → Text → Option (List Text) → Option (List Text) → Bool
unfolding side_overlaps
check_cidr_overlap src_cidr dst_cidr src_cidrs dst_cidrs =
    side_overlaps src_cidr src_cidrs || side_overlaps dst_cidr dst_cidrs
