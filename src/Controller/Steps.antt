-- ===== src/Controller/Steps.antt =====
-- The calls of controller/internal/service/rule_service.go that change the stored rules, as steps of the
-- repository.
mod Memory
mod Tests
use mathlib.Core.List.{List, [], ◌∷◌, Memᴰ}
use mathlib.Core.List.Memᴰ
use xdrop.Prelude.{
  Bool, Option, some, none, String, ◌≡◌, ◌⊎◌, inl, inr, refl, sym, subst, Bool-cases, true, false,
}
use Prim.Native.Nat.{ℕ, ◌≤◌}
use xdrop.Prelude.Int.{ℤ, pos}
use xdrop.Prelude.Text.{Text}
use xdrop.Agent.Convert.{validate_node_anomaly_fields}
use xdrop.Controller.Types.{RuleRequest, Rule}
use xdrop.Controller.Validate.{Result, ok, err}
use xdrop.Controller.Decoder.Accepted.{effective-node}
use xdrop.Controller.Create.{RuleRepository, create_rule}
use xdrop.Controller.Create.Sound.{IsSound, FindsTuple, HasSound}
use xdrop.Controller.Create.Checked.{Always}
use xdrop.Controller.Create.Stored.{Saved, create_rule-SoundResult}
use xdrop.Controller.Update.{update_rule, update_found, save_updated, updated_rule}
use xdrop.Controller.Delete.{
  delete_stored, delete_found, settle_deleted, batch_delete, delete_expired,
}
use xdrop.Controller.Update.Sound.{IsUpdate, updated_rule-IsUpdate, IsUpdate-IsSound}
use xdrop.Controller.Batch.{batch_create, store_items, create_items, Items}
use xdrop.Controller.Batch.Items.{All}
use xdrop.Controller.Batch.Stored.{create_items-IsSound}

-- What the service relies on in a repository that holds these rules: a read finds what is held, and a
-- write holds nothing that was neither held before nor written.
pub record Keeps {R : Type 0} (repo : RuleRepository R) (Holds : R → Rule → Type 0) : Type 0 where
  pub finds : (r : R) → FindsTuple repo r
  pub got : (r : R) (id : String) (x : Rule) → repo.get r id ≡ some (some x) → Holds r x
  pub got_by_tuple :
      (r : R) (s d : Text) (sp dp : ℤ) (protocol : String) (x : Rule)
      → repo.get_by_tuple r s d sp dp protocol ≡ some (some x)
      → Holds r x
  pub got_by_cidr_tuple :
      (r : R) (s d : Text) (sp dp : ℤ) (protocol : String) (x : Rule)
      → repo.get_by_cidr_tuple r s d sp dp protocol ≡ some (some x)
      → Holds r x
  pub after_create :
      (r : R) (rule x : Rule) → Holds (repo.create r rule).0 x → Holds r x ⊎ (x ≡ rule)
  pub after_update :
      (r : R) (rule x : Rule) → Holds (repo.update r rule).0 x → Holds r x ⊎ (x ≡ rule)
  pub after_delete : (r : R) (id : String) (x : Rule) → Holds (repo.delete r id).0 x → Holds r x
  pub after_batch_delete :
      (r : R) (ids : List String) (x : Rule) → Holds (repo.batch_delete r ids).0 x → Holds r x
  pub after_delete_expired : (r : R) (x : Rule) → Holds (repo.delete_expired r).0 x → Holds r x
  pub after_batch :
      (r : R) (rules : List Rule) (x : Rule)
      → Holds (repo.batch_create r rules).0 x
      → Holds r x ⊎ Memᴰ x rules

module _ {R : Type 0} (repo : RuleRepository R) where
  -- one call, whether it succeeds or not
  pub data Step : R → R → Type 0 where
    create :
        (r : R) (id : String) (expiry : Bool) (req : RuleRequest)
        → Step r (create_rule repo id expiry req r).0
    update : (r : R) (id : String) (req : RuleRequest) → Step r (update_rule repo id req r).0
    delete : (r : R) (id : String) → Step r (delete_stored repo id r).0
    batch : (r : R) (reqs : List (String × RuleRequest)) → Step r (batch_create repo r reqs).0
    delete_many : (r : R) (ids : List String) → Step r (batch_delete repo r ids).0
    expire : (r : R) → Step r (delete_expired repo r).0

  -- any number of calls
  pub data Steps : R → R → Type 0 where
    stop : (r : R) → Steps r r
    step : (r s t : R) → Step r s → Steps s t → Steps r t

settle_deleted-state :
    {R : Type 0} (repo : RuleRepository R) (was : Bool) (p : R × Option Bool)
    → (settle_deleted repo was p).0 ≡ p.0
unfolding settle_deleted
settle_deleted-state repo was (r, none) = refl
settle_deleted-state repo was (r, some false) = refl
settle_deleted-state repo was (r, some true) = refl

module _ {R : Type 0} (repo : RuleRepository R) (Holds : R → Rule → Type 0)
    (keeps : Keeps repo Holds) where
  -- all rules of the repository are sound
  abbrev pub AllSound : R → Type 0
  AllSound r = (x : Rule) → Holds r x → IsSound x

  AllSound-HasSound : (r : R) → AllSound r → HasSound repo r
  AllSound-HasSound r sound = record {
    exact = λ s d sp dp protocol x found. sound x (keeps.got_by_tuple r s d sp dp protocol x found);
    cidr = λ s d sp dp protocol x found.
        sound x (keeps.got_by_cidr_tuple r s d sp dp protocol x found);
  }

  -- one rule more that is sound
  more_sound :
      (r : R) (rule x : Rule) → AllSound r → IsSound rule → Holds r x ⊎ (x ≡ rule) → IsSound x
  more_sound r rule x sound good (inl before) = sound x before
  more_sound r rule x sound good (inr same) = subst IsSound (sym same) good

  created-AllSound : (r r' : R) → AllSound r → Saved repo r r' → AllSound r'
  created-AllSound r r' sound (inl same) = subst AllSound (sym same) sound
  created-AllSound r r' sound (inr (rule, good, inl same)) =
      subst AllSound (sym same)
        (λ x held. more_sound r rule x sound good (keeps.after_create r rule x held))
  created-AllSound r r' sound (inr (rule, good, inr same)) =
      subst AllSound (sym same)
        (λ x held. more_sound r rule x sound good (keeps.after_update r rule x held))

  save_updated-AllSound :
      (old : Rule) (r : R) (result : Result Rule)
      → AllSound r
      → IsSound old
      → Always (IsUpdate old) result
      → AllSound (save_updated repo old.enabled r result).0
  unfolding save_updated Always
  save_updated-AllSound old r (err e) sound good valid = sound
  save_updated-AllSound old r (ok rule) sound good valid =
      let new = λ (x : Rule) (held : Holds (repo.update r rule).0 x).
        more_sound r rule x sound (IsUpdate-IsSound old rule valid good.aimed)
          (keeps.after_update r rule x held) in
      elim (Bool-cases (repo.update r rule).1) [
        | inl saved ↦ rw saved new
        | inr failed ↦ rw failed new
      ]

  update_found-AllSound :
      (req : RuleRequest) (r : R) (found : Option (Option Rule))
      → AllSound r
      → ((x : Rule) → found ≡ some (some x) → IsSound x)
      → AllSound (update_found repo req r found).0
  unfolding update_found
  update_found-AllSound req r none sound good = sound
  update_found-AllSound req r (some none) sound good = sound
  update_found-AllSound req r (some (some old)) sound good =
      save_updated-AllSound old r (updated_rule req old) sound (good old refl)
        (updated_rule-IsUpdate req old)

  delete_found-AllSound :
      (id : String) (r : R) (found : Option (Option Rule))
      → AllSound r
      → AllSound (delete_found repo id r found).0
  unfolding delete_found
  delete_found-AllSound id r none sound = sound
  delete_found-AllSound id r (some none) sound = sound
  delete_found-AllSound id r (some (some rule)) sound =
      subst AllSound (sym (settle_deleted-state repo rule.enabled (repo.delete r id)))
        (λ x held. sound x (keeps.after_delete r id x held))

  batch_delete-AllSound :
      (ids : List String) (r : R) → AllSound r → AllSound (batch_delete repo r ids).0
  unfolding batch_delete
  batch_delete-AllSound [] r sound = sound
  batch_delete-AllSound (id ∷ ids) r sound =
      let new = λ (x : Rule) (held : Holds (repo.batch_delete r (id ∷ ids)).0 x).
        sound x (keeps.after_batch_delete r (id ∷ ids) x held) in
      elim (Bool-cases (repo.batch_delete r (id ∷ ids)).1) [
        | inl done ↦ rw done new
        | inr failed ↦ rw failed new
      ]

  one_of_sound : (x : Rule) (rules : List Rule) → All IsSound rules → Memᴰ x rules → IsSound x
  one_of_sound x _ sound (Memᴰ.head same) = subst IsSound (sym same) sound.0
  one_of_sound x _ sound (Memᴰ.tail later) = one_of_sound x _ sound.1 later

  store_items-AllSound :
      (r : R) (items : Items)
      → AllSound r
      → All IsSound items.0
      → AllSound (store_items repo r items).0
  unfolding store_items
  store_items-AllSound r ([], failed) sound good = sound
  store_items-AllSound r (rule ∷ rules, failed) sound good =
      let new = λ (x : Rule) (held : Holds (repo.batch_create r (rule ∷ rules)).0 x).
        elim (keeps.after_batch r (rule ∷ rules) x held) as (λ o. IsSound x) [
          | inl before ↦ sound x before
          | inr here ↦ one_of_sound x (rule ∷ rules) good here
        ] in
      elim (Bool-cases (repo.batch_create r (rule ∷ rules)).1) [
        | inl stored ↦ rw stored new
        | inr lost ↦ rw lost new
      ]

  Step-AllSound : (r s : R) → Step repo r s → AllSound r → AllSound s
  unfolding update_rule delete_stored batch_create delete_expired
  Step-AllSound _ _ (create r id expiry req) sound =
      created-AllSound r _ sound
        (create_rule-SoundResult repo id expiry req r (keeps.finds r) (AllSound-HasSound r sound)).1
  Step-AllSound _ _ (update r id req) sound =
      update_found-AllSound req r (repo.get r id) sound
        (λ x found. sound x (keeps.got r id x found))
  Step-AllSound _ _ (delete r id) sound = delete_found-AllSound id r (repo.get r id) sound
  Step-AllSound _ _ (batch r reqs) sound =
      store_items-AllSound r (create_items repo r _ reqs) sound (create_items-IsSound repo r _ reqs)
  Step-AllSound _ _ (delete_many r ids) sound = batch_delete-AllSound ids r sound
  Step-AllSound _ _ (expire r) sound = λ x held. sound x (keeps.after_delete_expired r x held)

  Steps-AllSound : (r s : R) → Steps repo r s → AllSound r → AllSound s
  Steps-AllSound _ _ (stop r) sound = sound
  Steps-AllSound _ _ (step r s t first rest) sound =
      Steps-AllSound s t rest (Step-AllSound r s first sound)

  -- In a repository whose reads find what it holds and whose writes add nothing else, and which holds
  -- sound rules, each rule is sound after any sequence of calls of Create, Update, Delete, BatchCreate,
  -- BatchDelete and DeleteExpired, whichever of them fail: it has TCP flags or anomaly bits but not
  -- both, addresses or CIDRs but not both, and its anomaly bits pass the checks of the controller and
  -- of the agents.
  pub Steps-IsSound :
      (r s : R) (x : Rule)
      → Steps repo r s
      → AllSound r
      → Holds s x
      → IsSound x
        × ((bits : ℕ) × (x.match_anomaly ≡ pos bits)
            × (bits ≤ 3)
            × (validate_node_anomaly_fields bits x.action x.src_ip x.dst_ip x.src_cidr x.dst_cidr
                ≡ none))
  Steps-IsSound r s x steps sound held =
      let good = Steps-AllSound r s steps sound x held in
      (good, effective-node _ _ _ _ x.match_anomaly x.action good.anomaly)
