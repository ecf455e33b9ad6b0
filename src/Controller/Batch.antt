-- ===== src/Controller/Batch.antt =====
-- BatchCreate of controller/internal/service/rule_service.go: the requests that pass the
-- checks are stored in one transaction, the others are counted.
use Prim.Native.Nat.{ℕ, zero, suc}
use mathlib.Core.List.{List, [], ◌∷◌, ◌++◌}
use text.Mathlib.Text.{◌==◌ as str_eq}
use xdrop.Prelude.{
  Bool, true, false, not, ◌&&◌, ◌||◌, Option, some, none, String, if◌then◌else◌, ltb, ◌+◌, ◌/◌, ◌%◌,
  length,
}
use xdrop.Prelude.GoMap.{is_in}
use xdrop.Prelude.Int.{ℤ, pos, negsuc}
use xdrop.Prelude.Text.{Text, codes, text_beq, text_eq}
use xdrop.Controller.Types.{RuleRequest, Rule}
use xdrop.Controller.Overlap.{check_cidr_overlap}
use xdrop.Controller.Validate.{
  Error, Result, ok, err, ◌>>=◌, refuse_if, overlap, lookup_failed, already_exists,
}
use xdrop.Controller.Create.{RuleRepository, check_fields, check_cidrs, check_anomaly, new_rule}
pub mod Printed
pub mod Items
pub mod Apart
pub mod Stored
mod Tests

-- `%d` of a number, with as many rounds as the number has units, which no number needs
unfoldable pub print_digits : ℕ → ℕ → Text → Text
print_digits zero n digits = (b'0' + n % 10) ∷ digits
print_digits (suc fuel) n digits =
    let rest = print_digits fuel (n / 10) ((b'0' + n % 10) ∷ digits) in
    if ltb n 10 then (b'0' + n) ∷ digits else rest

unfoldable pub print_int : ℤ → Text
unfolding print_digits
print_int (pos n) = print_digits n n []
print_int (negsuc n) = b'-' ∷ print_digits (suc n) (suc n) []

-- the request of a rule with CIDRs
unfoldable pub is_cidr_request : RuleRequest → Bool
unfolding text_beq
is_cidr_request req = not (text_beq req.src_cidr []) || not (text_beq req.dst_cidr [])

key_text : Text → Text → Text → RuleRequest → String → Text
unfolding print_int
key_text kind src dst req protocol =
    kind
    ++ (src
        ++ (b':'
            ∷ (dst
                ++ (b':'
                    ∷ (print_int req.src_port
                        ++ (b':' ∷ (print_int req.dst_port ++ (b':' ∷ codes protocol))))))))

-- `batchKey`
unfoldable pub batch_key : RuleRequest → String → Text
unfolding is_cidr_request key_text
batch_key req protocol =
    if is_cidr_request req
    then key_text (codes "cidr:") req.src_cidr req.dst_cidr req protocol
    else key_text (codes "ip:") req.src_ip req.dst_ip req protocol

-- `pendingSrcCIDRs`, `pendingDstCIDRs` and `seenKeys`
pub record Pending : Type 0 where
  pub src_cidrs : List Text
  pub dst_cidrs : List Text
  pub seen_keys : List Text

unfoldable pub effective_protocol : String → String
effective_protocol protocol = if str_eq protocol "" then "all" else protocol

unfoldable pub check_pending : Pending → RuleRequest × Bool → Result (RuleRequest × Bool)
unfolding check_cidr_overlap
check_pending pending (req, is_cidr) =
    refuse_if
      (is_cidr
        && check_cidr_overlap req.src_cidr req.dst_cidr (some pending.src_cidrs)
            (some pending.dst_cidrs))
      overlap (ok (req, is_cidr))

-- the answer of the repository
unfoldable pub check_exists : Option Bool → RuleRequest × Bool → Result (RuleRequest × Bool)
check_exists none checked = err lookup_failed
check_exists (some found) checked = refuse_if found already_exists (ok checked)

unfoldable pub check_seen : Pending → RuleRequest × Bool → Result (RuleRequest × Bool)
unfolding is_in batch_key effective_protocol
check_seen pending checked =
    refuse_if
      (is_in (batch_key checked.0 (effective_protocol checked.0.protocol)) pending.seen_keys)
      already_exists (ok checked)

add_cidr : Text → List Text → List Text
unfolding text_beq
add_cidr cidr cidrs = if text_beq cidr [] then cidrs else cidrs ++ (cidr ∷ [])

unfoldable pub add_pending : RuleRequest → Pending → Pending
unfolding add_cidr batch_key effective_protocol
add_pending req pending = record {
  src_cidrs = add_cidr req.src_cidr pending.src_cidrs;
  dst_cidrs = add_cidr req.dst_cidr pending.dst_cidrs;
  seen_keys = batch_key req (effective_protocol req.protocol) ∷ pending.seen_keys;
}

-- the rules that are to be stored, and the number of the requests that failed
abbrev pub Items : Type 0
Items = List Rule × ℕ

pub data BatchReply : Type 0 where
  batch_failed : BatchReply
  batch_created : List Rule → ℕ → List Rule → BatchReply  -- stored, failed, and sent to the nodes

unfoldable pub enabled_rules : List Rule → List Rule
enabled_rules [] = []
enabled_rules (rule ∷ rules) =
    let rest = enabled_rules rules in if rule.enabled then rule ∷ rest else rest

module _ {R : Type 0} (repo : RuleRepository R) where
  -- the lookup that fits the request
  unfoldable pub find_duplicate : R → RuleRequest → Option Bool
  unfolding is_cidr_request effective_protocol
  find_duplicate r req =
      let protocol = effective_protocol req.protocol in
      if is_cidr_request req
      then repo.cidr_exists r req.src_cidr req.dst_cidr req.src_port req.dst_port protocol
      else repo.exists r req.src_ip req.dst_ip req.src_port req.dst_port protocol

  -- the checks of one request, in their order
  unfoldable pub check_item : R → Pending → RuleRequest → Result (RuleRequest × Bool)
  unfolding check_fields check_cidrs check_pending check_anomaly check_exists find_duplicate
      check_seen
  check_item r pending req = do
    fields ← check_fields req
    cidrs ← check_cidrs repo r fields
    clear ← check_pending pending cidrs
    special ← check_anomaly clear
    fresh ← check_exists (find_duplicate r special.0) special
    check_seen pending fresh

  -- the loop over the requests, with the IDs that new rules get
  unfoldable pub create_items : R → Pending → List (String × RuleRequest) → Items
  unfolding check_item add_pending new_rule effective_protocol
  create_items r pending [] = ([], 0)
  create_items r pending ((id, req) ∷ reqs) = elim (check_item r pending req) [
    | err e ↦ (let rest = create_items r pending reqs in (rest.0, suc rest.1))
    | ok checked ↦
        let rest = create_items r (add_pending checked.0 pending) reqs in
        (new_rule id checked.0 (effective_protocol checked.0.protocol) ∷ rest.0, rest.1)
  ]

  -- the transaction, if there is something to store
  unfoldable pub store_items : R → Items → R × BatchReply
  unfolding enabled_rules
  store_items r ([], failed) = (r, batch_created [] failed [])
  store_items r (rule ∷ rules, failed) =
      let stored = repo.batch_create r (rule ∷ rules) in
      if stored.1
      then (stored.0, batch_created (rule ∷ rules) failed (enabled_rules (rule ∷ rules)))
      else (stored.0, batch_failed)

  unfoldable pub batch_create : R → List (String × RuleRequest) → R × BatchReply
  unfolding create_items store_items
  batch_create r reqs =
      store_items r
        (create_items r (record { src_cidrs = []; dst_cidrs = []; seen_keys = [] }) reqs)
