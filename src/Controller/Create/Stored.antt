-- ===== src/Controller/Create/Stored.antt =====
-- What Create of controller/internal/service/rule_service.go stores, merges and sends is sound.
use Prim.Native.Nat.{ℕ, bit_or, ◌≤◌}
use mathlib.Core.List.{[]}
use text.Mathlib.Text.{◌==◌ as str_eq}
use xdrop.Prelude.{
  Bool, true, false, not, ◌||◌, Option, some, none, String, ◌≡◌, ◌⊎◌, inl, inr, refl, sym, ◌∙◌,
  subst, arith, Bool-cases,
}
use xdrop.Prelude.Int.{ℤ, pos, negsuc}
use xdrop.Prelude.Text.{Text}
use xdrop.Agent.Convert.{validate_node_anomaly_fields}
use xdrop.Controller.Types.{RuleRequest, Rule}
use xdrop.Controller.Decoder.{
  validate_anomaly_fields, validate_anomaly_effective, is_zero, invalid_bits,
}
use xdrop.Controller.Decoder.Accepted.{effective-node}
use xdrop.Controller.Validate.{Result, ok, err}
use xdrop.Controller.Create.{
  RuleRepository, Reply, refused, created, merged, check_create, or_bits, same_bits, save_merged,
  try_anomaly_merge, store_new, find_existing, settle, finish_create, create_rule,
}
use xdrop.Controller.Create.Checked.{IsChecked, Always, check_create-IsChecked}
use xdrop.Controller.Create.Sound.{
  IsSound, passed_parts, passed_of_parts, or_bits-Effective, new_rule-IsSound, FindsTuple, HasSound,
  SameTarget, no_target_unbounded,
}

or_bits_valid :
    (m n : ℤ) (action action' : String) (s d sc dc : Text)
    → is_zero m ≡ false
    → is_zero n ≡ false
    → validate_anomaly_effective m action s d sc dc ≡ none
    → validate_anomaly_effective n action' s d sc dc ≡ none
    → validate_anomaly_effective (or_bits m n) action s d sc dc ≡ none
unfolding or_bits is_zero
or_bits_valid (pos a) (pos b) action action' s d sc dc set set' valid valid' =
    passed_of_parts action s d sc dc (bit_or a b) (
      or_bits-Effective a b action action' _ _ (passed_parts action s d sc dc a set valid)
        (passed_parts action' s d sc dc b set' valid'))
or_bits_valid (negsuc a) n action action' s d sc dc set set' valid valid' =
    (let never : some invalid_bits ≡ none = unfold validate_anomaly_effective in valid in cc)
or_bits_valid (pos a) (negsuc b) action action' s d sc dc set set' valid valid' =
    (let never : some invalid_bits ≡ none = unfold validate_anomaly_effective in valid' in cc)

no_flags :
    (unset unset' empty : Bool) → unset ≡ false → (unset || empty) ≡ true → (unset' || empty) ≡ true
no_flags unset unset' empty set h = ground arith

merged-IsSound :
    (existing : Rule) (req : RuleRequest) (flag : Bool)
    → IsChecked (req, flag)
    → IsSound existing
    → SameTarget existing req
    → is_zero existing.match_anomaly ≡ false
    → is_zero req.match_anomaly ≡ false
    → IsSound (record existing { match_anomaly = or_bits existing.match_anomaly req.match_anomaly })
unfolding validate_anomaly_fields
merged-IsSound existing req flag checked sound same set set' = record {
  anomaly =
      or_bits_valid existing.match_anomaly req.match_anomaly existing.action req.action _ _ _ _ set
        set' sound.anomaly (rw (same.0, same.1, same.2, same.3) checked.anomaly);
  exclusive = no_flags _ _ _ set sound.exclusive;
  aimed = sound.aimed;
}

-- the rule of an answer
abbrev pub rule_of : Reply → Option Rule
rule_of (refused e) = none
rule_of (created rule pushed) = some rule
rule_of (merged rule pushed) = some rule

abbrev SoundReply : Reply → Type 0
SoundReply (refused e) = Unit
SoundReply (created rule pushed) = IsSound rule
SoundReply (merged rule pushed) = IsSound rule

-- bits without a target are refused
needs_target :
    (m : ℤ) (action : String)
    → is_zero m ≡ false
    → validate_anomaly_effective m action [] [] [] [] ≡ none
    → true ≡ false
unfolding is_zero
needs_target (pos n) action set valid =
    let parts = passed_parts action [] [] [] [] n set valid in
    sym parts.is_bounded ∙ no_target_unbounded
needs_target (negsuc n) action set valid =
    (let never : some invalid_bits ≡ none = unfold validate_anomaly_effective in valid in cc)

-- the target of a found rule is that of the request, or the request aims at nothing
cidr_target :
    (existing : Rule) (req : RuleRequest)
    → IsChecked (req, true)
    → IsSound existing
    → (existing.src_cidr ≡ req.src_cidr) × (existing.dst_cidr ≡ req.dst_cidr)
    → is_zero req.match_anomaly ≡ false
    → SameTarget existing req
unfolding validate_anomaly_fields
cidr_target existing req checked sound same set = elim sound.aimed [
  | inr no_ip ↦ (no_ip.0 ∙ sym checked.aimed.0, no_ip.1 ∙ sym checked.aimed.1, same.0, same.1)
  | inl no_cidr ↦
      (let never : true ≡ false = needs_target req.match_anomaly req.action set (
          rw (checked.aimed.0, checked.aimed.1, sym same.0 ∙ no_cidr.0, sym same.1 ∙ no_cidr.1) at
            checked.anomaly) in
        cc)
]

module _ {R : Type 0} (repo : RuleRepository R) where
  -- the stored rules are as before, or a sound one was created or updated
  abbrev pub Saved : R → R → Type 0
  Saved r r' =
      (r' ≡ r)
      ⊎ ((rule : Rule) × IsSound rule
          × ((r' ≡ (repo.create r rule).0) ⊎ (r' ≡ (repo.update r rule).0)))

  -- what is answered and what is stored
  abbrev pub SoundResult : R → R × Reply → Type 0
  SoundResult r p = SoundReply p.1 × Saved r p.0

  save_merged-SoundResult :
      (rule : Rule) (r : R) → IsSound rule → SoundResult r (save_merged repo rule r)
  unfolding save_merged
  save_merged-SoundResult rule r sound = elim (Bool-cases (repo.update r rule).1) [
    | inl done ↦ rw done (sound, inr (rule, sound, inr refl))
    | inr failed ↦ rw failed (tt, inr (rule, sound, inr refl))
  ]

  store_new-SoundResult :
      (rule : Rule) (r : R) → IsSound rule → SoundResult r (store_new repo rule r)
  unfolding store_new
  store_new-SoundResult rule r sound = elim (Bool-cases (repo.create r rule).1) [
    | inl done ↦ rw done (sound, inr (rule, sound, inl refl))
    | inr failed ↦ rw failed (tt, inr (rule, sound, inl refl))
  ]

  try_anomaly_merge-SoundResult :
      (existing : Rule) (req : RuleRequest) (flag : Bool) (r : R)
      → IsChecked (req, flag)
      → IsSound existing
      → (is_zero req.match_anomaly ≡ false → SameTarget existing req)
      → SoundResult r (try_anomaly_merge repo existing req r)
  unfolding try_anomaly_merge
  try_anomaly_merge-SoundResult existing req flag r checked sound same =
      let both = or_bits existing.match_anomaly req.match_anomaly in
      let rule = record existing { match_anomaly = both } in
      elim (Bool-cases (is_zero req.match_anomaly)) [
        | inl unset ↦ rw unset (tt, inl refl)
        | inr set ↦ elim (Bool-cases (is_zero existing.match_anomaly)) [
          | inl plain ↦ rw (set, plain) (tt, inl refl)
          | inr special ↦
              let good = merged-IsSound existing req flag checked sound (same set) special set in
              elim (Bool-cases (not (str_eq existing.action req.action))) [
                | inl other ↦ rw (set, special, other) (tt, inl refl)
                | inr alike ↦ elim (Bool-cases (same_bits both existing.match_anomaly)) [
                  | inl nothing_new ↦ rw (set, special, alike, nothing_new) (good, inl refl)
                  | inr new ↦ rw (set, special, alike, new) (save_merged-SoundResult rule r good)
                ]
              ]
        ]
      ]

  settle-SoundResult :
      (id : String) (expiry : Bool) (req : RuleRequest) (flag : Bool) (protocol : String) (r : R)
      (found : Option (Option Rule))
      → IsChecked (req, flag)
      → ((existing : Rule)
          → found ≡ some (some existing)
          → IsSound existing × (is_zero req.match_anomaly ≡ false → SameTarget existing req))
      → SoundResult r (settle repo id expiry req protocol r found)
  unfolding settle
  settle-SoundResult id expiry req flag protocol r none checked old = (tt, inl refl)
  settle-SoundResult id true req flag protocol r (some none) checked old =
      store_new-SoundResult _ r (new_rule-IsSound id protocol req flag checked)
  settle-SoundResult id false req flag protocol r (some none) checked old = (tt, inl refl)
  settle-SoundResult id expiry req flag protocol r (some (some existing)) checked old =
      let facts = old existing refl in
      try_anomaly_merge-SoundResult existing req flag r checked facts.0 facts.1

  finish_create-SoundResult :
      (id : String) (expiry : Bool) (r : R) (result : Result (RuleRequest × Bool))
      → FindsTuple repo r
      → HasSound repo r
      → Always IsChecked result
      → SoundResult r (finish_create repo id expiry r result)
  unfolding finish_create find_existing Always
  finish_create-SoundResult id expiry r (err e) finds sound checked = (tt, inl refl)
  finish_create-SoundResult id expiry r (ok (req, true)) finds sound checked =
      settle-SoundResult id expiry req true _ r _ checked λ existing found. (
        sound.cidr _ _ _ _ _ existing found,
        cidr_target existing req checked (sound.cidr _ _ _ _ _ existing found)
            (finds.cidr _ _ _ _ _ existing found),
      )
  finish_create-SoundResult id expiry r (ok (req, false)) finds sound checked =
      settle-SoundResult id expiry req false _ r _ checked λ existing found. (
        sound.exact _ _ _ _ _ existing found,
        λ set.
            let same = finds.exact _ _ _ _ _ existing found in
            (same.0, same.1, same.2 ∙ sym checked.aimed.0, same.3 ∙ sym checked.aimed.1),
      )

  reply_sound :
      (reply : Reply) (rule : Rule) → rule_of reply ≡ some rule → SoundReply reply → IsSound rule
  reply_sound (refused e) rule same sound = cc
  reply_sound (created stored pushed) rule same sound =
      let here : stored ≡ rule = cc in subst IsSound here sound
  reply_sound (merged stored pushed) rule same sound =
      let here : stored ≡ rule = cc in subst IsSound here sound

  pub create_rule-SoundResult :
      (id : String) (expiry : Bool) (req : RuleRequest) (r : R)
      → FindsTuple repo r
      → HasSound repo r
      → SoundResult r (create_rule repo id expiry req r)
  unfolding create_rule
  create_rule-SoundResult id expiry req r finds sound =
      finish_create-SoundResult id expiry r (check_create repo r req) finds sound
        (check_create-IsChecked repo r req)

  -- If the repository finds a rule by its own tuple and the rules that it finds are sound, then so is
  -- the rule that Create stores or merges into, on every path: its anomaly bits, its action and its
  -- target pass the anomaly checks, it has no TCP flags together with anomaly bits, and no addresses
  -- together with CIDRs. The agents' anomaly check takes it too.
  pub create_rule-IsSound :
      (id : String) (expiry : Bool) (req : RuleRequest) (r : R) (rule : Rule)
      → FindsTuple repo r
      → HasSound repo r
      → rule_of (create_rule repo id expiry req r).1 ≡ some rule
      → IsSound rule
        × ((bits : ℕ) × (rule.match_anomaly ≡ pos bits)
            × (bits ≤ 3)
            × (validate_node_anomaly_fields bits rule.action rule.src_ip rule.dst_ip rule.src_cidr
                  rule.dst_cidr
                ≡ none))
  create_rule-IsSound id expiry req r rule finds sound stored =
      let good =
        reply_sound _ rule stored (create_rule-SoundResult id expiry req r finds sound).0 in
      (good, effective-node _ _ _ _ rule.match_anomaly rule.action good.anomaly)
