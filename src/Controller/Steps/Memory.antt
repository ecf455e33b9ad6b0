-- ===== src/Controller/Steps/Memory.antt =====
-- A repository that holds its rules in a list, for the tests of Controller/Steps.
use mathlib.Core.List.{List, [], ◌∷◌, ◌++◌, Memᴰ}
use mathlib.Core.List.Memᴰ
use text.Mathlib.Text.{◌==◌ as str_eq}
use xdrop.Prelude.{
  Bool, true, false, not, and_parts, ◌&&◌, Option, some, none, String, if◌then◌else◌, ◌≡◌, ◌⊎◌, inl,
  inr, sym, Bool-cases,
}
use xdrop.Prelude.Int.{ℤ, pos, ltb_ℤ}
use xdrop.Prelude.Text.{Text, text_beq, text_eq}
use xdrop.Controller.Types.{Rule}
use xdrop.Controller.Create.{RuleRepository}
use xdrop.Controller.Create.Sound.{FindsTuple}
use xdrop.Controller.Steps.{Keeps}

-- the first rule that passes a test
unfoldable pub find : (Rule → Bool) → List Rule → Option Rule
find test [] = none
find test (x ∷ rules) = let rest = find test rules in if test x then some x else rest

-- the rules, less the one with this id
unfoldable pub remove : String → List Rule → List Rule
remove id [] = []
remove id (x ∷ rules) = let rest = remove id rules in if str_eq x.id id then rest else x ∷ rest

unfoldable pub remove_all : List String → List Rule → List Rule
unfolding remove
remove_all [] rules = rules
remove_all (id ∷ ids) rules = remove_all ids (remove id rules)

-- the rules with this one in the place of the one with its id
unfoldable pub replace : Rule → List Rule → List Rule
replace rule [] = []
replace rule (x ∷ rules) =
    let rest = replace rule rules in if str_eq x.id rule.id then rule ∷ rest else x ∷ rest

abbrev is_same : ℤ → ℤ → Bool
is_same a b = not (ltb_ℤ a b) && not (ltb_ℤ b a)

abbrev pub has_addresses : Text → Text → Rule → Bool
has_addresses s d rule =
    text_beq rule.src_ip s
    && (text_beq rule.dst_ip d && (text_beq rule.src_cidr [] && text_beq rule.dst_cidr []))

abbrev pub has_ports : ℤ → ℤ → String → Rule → Bool
has_ports sp dp protocol rule =
    is_same rule.src_port sp && (is_same rule.dst_port dp && str_eq rule.protocol protocol)

abbrev pub has_tuple : Text → Text → ℤ → ℤ → String → Rule → Bool
has_tuple s d sp dp protocol rule = has_addresses s d rule && has_ports sp dp protocol rule

abbrev pub has_cidrs : Text → Text → Rule → Bool
has_cidrs s d rule = text_beq rule.src_cidr s && text_beq rule.dst_cidr d

abbrev pub found : Option Rule → Bool
found none = false
found (some rule) = true

abbrev pub memory : RuleRepository (List Rule)
memory = record {
  list_src_cidrs = λ r. some [];
  list_dst_cidrs = λ r. some [];
  get_by_tuple = λ r s d sp dp protocol. some (find (has_tuple s d sp dp protocol) r);
  get_by_cidr_tuple = λ r s d sp dp protocol. some (find (has_cidrs s d) r);
  create = λ r rule. (rule ∷ r, true);
  update = λ r rule. (replace rule r, true);
  get = λ r id. some (find (λ x. str_eq x.id id) r);
  delete = λ r id. (remove id r, some true);
  exists = λ r s d sp dp protocol. some (found (find (has_tuple s d sp dp protocol) r));
  cidr_exists = λ r s d sp dp protocol. some (found (find (has_cidrs s d) r));
  batch_create = λ r rules. (rules ++ r, true);
  batch_delete = λ r ids. (remove_all ids r, true);
  delete_expired = λ r. (r, some (pos 0));
}

-- a rule that is found is held, and passes the test
find_lem :
    (test : Rule → Bool) (rules : List Rule) (x : Rule)
    → find test rules ≡ some x
    → Memᴰ x rules × (test x ≡ true)
unfolding find
find_lem test [] x same = cc
find_lem test (y ∷ rules) x same = elim (Bool-cases (test y)) [
  | inl passes ↦
      (let here : y ≡ x = (let s : some y ≡ some x = rw passes at same in cc) in
        (Memᴰ.head (sym here), rw (sym here) passes))
  | inr fails ↦
      (let later = find_lem test rules x (rw fails at same) in (Memᴰ.tail later.0, later.1))
]

remove_lem : (id : String) (rules : List Rule) (x : Rule) → Memᴰ x (remove id rules) → Memᴰ x rules
unfolding remove
remove_lem id [] x held = held
remove_lem id (y ∷ rules) x held = elim (Bool-cases (str_eq y.id id)) [
  | inl gone ↦ Memᴰ.tail (remove_lem id rules x (rw gone at held))
  | inr kept ↦ elim (Memᴰ.cases_cons (rw kept at held)) [
    | inl here ↦ Memᴰ.head here
    | inr later ↦ Memᴰ.tail (remove_lem id rules x later)
  ]
]

remove_all_lem :
    (ids : List String) (rules : List Rule) (x : Rule)
    → Memᴰ x (remove_all ids rules)
    → Memᴰ x rules
unfolding remove_all
remove_all_lem [] rules x held = held
remove_all_lem (id ∷ ids) rules x held =
    remove_lem id rules x (remove_all_lem ids (remove id rules) x held)

replace_lem :
    (rule : Rule) (rules : List Rule) (x : Rule)
    → Memᴰ x (replace rule rules)
    → Memᴰ x rules ⊎ (x ≡ rule)
unfolding replace
replace_lem rule [] x held = inl held
replace_lem rule (y ∷ rules) x held = elim (Bool-cases (str_eq y.id rule.id)) [
  | inl new ↦ elim (Memᴰ.cases_cons (rw new at held)) [
    | inl here ↦ inr here
    | inr later ↦ elim (replace_lem rule rules x later) [
      | inl before ↦ inl (Memᴰ.tail before)
      | inr written ↦ inr written
    ]
  ]
  | inr other ↦ elim (Memᴰ.cases_cons (rw other at held)) [
    | inl here ↦ inl (Memᴰ.head here)
    | inr later ↦ elim (replace_lem rule rules x later) [
      | inl before ↦ inl (Memᴰ.tail before)
      | inr written ↦ inr written
    ]
  ]
]

same_addresses :
    (s d : Text) (rule : Rule)
    → has_addresses s d rule ≡ true
    → (rule.src_ip ≡ s) × (rule.dst_ip ≡ d) × (rule.src_cidr ≡ []) × (rule.dst_cidr ≡ [])
same_addresses s d rule passes =
    let ends = and_parts (text_beq rule.src_ip s) _ passes in
    let rest = and_parts (text_beq rule.dst_ip d) _ ends.1 in
    let cidrs = and_parts (text_beq rule.src_cidr []) _ rest.1 in
    (
      (text_eq.beq_iff rule.src_ip s).0 ends.0,
      (text_eq.beq_iff rule.dst_ip d).0 rest.0,
      (text_eq.beq_iff rule.src_cidr []).0 cidrs.0,
      (text_eq.beq_iff rule.dst_cidr []).0 cidrs.1,
    )

same_cidrs :
    (s d : Text) (rule : Rule)
    → has_cidrs s d rule ≡ true
    → (rule.src_cidr ≡ s) × (rule.dst_cidr ≡ d)
same_cidrs s d rule passes =
    let parts = and_parts (text_beq rule.src_cidr s) _ passes in
    ((text_eq.beq_iff rule.src_cidr s).0 parts.0, (text_eq.beq_iff rule.dst_cidr d).0 parts.1)

some_same : (a : Option Rule) (x : Rule) → some a ≡ some (some x) → a ≡ some x
some_same a x same = cc

finds_tuple : (r : List Rule) → FindsTuple memory r
finds_tuple r = record {
  exact = λ s d sp dp protocol rule same.
      same_addresses s d rule
        (and_parts (has_addresses s d rule) _
          (find_lem (has_tuple s d sp dp protocol) r rule (some_same _ rule same)).1).0;
  cidr = λ s d sp dp protocol rule same.
      same_cidrs s d rule (find_lem (has_cidrs s d) r rule (some_same _ rule same)).1;
}

written : (rule : Rule) (r : List Rule) (x : Rule) → Memᴰ x (rule ∷ r) → Memᴰ x r ⊎ (x ≡ rule)
written rule r x held = elim (Memᴰ.cases_cons held) [
  | inl here ↦ inr here
  | inr before ↦ inl before
]

all_written : (rules r : List Rule) (x : Rule) → Memᴰ x (rules ++ r) → Memᴰ x r ⊎ Memᴰ x rules
all_written rules r x held = elim (Memᴰ.append_cases rules held) [
  | inl here ↦ inr here
  | inr before ↦ inl before
]

pub memory-Keeps : Keeps memory (λ r x. Memᴰ x r)
memory-Keeps = record {
  finds = finds_tuple;
  got = λ r id x same. (find_lem _ r x (some_same _ x same)).0;
  got_by_tuple = λ r s d sp dp protocol x same. (find_lem _ r x (some_same _ x same)).0;
  got_by_cidr_tuple = λ r s d sp dp protocol x same. (find_lem _ r x (some_same _ x same)).0;
  after_create = λ r rule x held. written rule r x held;
  after_update = λ r rule x held. replace_lem rule r x held;
  after_delete = λ r id x held. remove_lem id r x held;
  after_batch_delete = λ r ids x held. remove_all_lem ids r x held;
  after_delete_expired = λ r x held. held;
  after_batch = λ r rules x held. all_written rules r x held;
}
