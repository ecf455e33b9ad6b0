-- ===== src/Controller/Delete.antt =====
-- Delete, BatchDelete and DeleteExpired of controller/internal/service/rule_service.go. What the nodes are told
-- is part of the answer; what they then answer themselves is left out.
use Prim.Native.Nat.{ℕ}
use mathlib.Core.List.{List, [], ◌∷◌}
use xdrop.Prelude.{Bool, true, false, Option, some, none, String, if◌then◌else◌, length}
use xdrop.Prelude.Int.{ℤ}
use xdrop.Controller.Types.{Rule}
use xdrop.Controller.Create.{RuleRepository}
use xdrop.Controller.Update.{Push, push_of, push_nothing}

pub data DeleteReply : Type 0 where
  not_deleted : DeleteReply
  deleted : Push → DeleteReply

-- the rules that were deleted and that were not, and whether all nodes are synchronised
pub data BatchDeleteReply : Type 0 where
  batch_not_deleted : ℕ → BatchDeleteReply
  batch_deleted : ℕ → Bool → BatchDeleteReply

module _ {R : Type 0} (repo : RuleRepository R) where
  -- behind the deletion of a rule that was found before it
  unfoldable pub settle_deleted : Bool → R × Option Bool → R × DeleteReply
  unfolding push_of
  settle_deleted was_enabled (r, none) = (r, not_deleted)
  settle_deleted was_enabled (r, some false) = (r, deleted push_nothing)
  settle_deleted was_enabled (r, some true) = (r, deleted (push_of was_enabled false))

  unfoldable pub delete_found : String → R → Option (Option Rule) → R × DeleteReply
  unfolding settle_deleted
  delete_found id r none = (r, not_deleted)
  delete_found id r (some none) = (r, deleted push_nothing)
  delete_found id r (some (some rule)) = settle_deleted rule.enabled (repo.delete r id)

  unfoldable pub delete_stored : String → R → R × DeleteReply
  unfolding delete_found
  delete_stored id r = delete_found id r (repo.get r id)

  unfoldable pub batch_delete : R → List String → R × BatchDeleteReply
  batch_delete r [] = (r, batch_deleted 0 false)
  batch_delete r (id ∷ ids) =
      let done = repo.batch_delete r (id ∷ ids) in
      if done.1
      then (done.0, batch_deleted (length (id ∷ ids)) true)
      else (done.0, batch_not_deleted (length (id ∷ ids)))

  unfoldable pub delete_expired : R → R × Option ℤ
  delete_expired r = repo.delete_expired r
