-- ===== src/Agent/Combo/Fields.antt =====
-- What the combo number of a key says: the table that the comments of the constants state, and the
-- proofs that the switches follow it.
use xdrop.Prelude.{
  if◌then◌else◌, ◌||◌, ℕ, ◌≡◌, ◌≢◌, refl, Bool, true, false, not, Option, none, some, List, [], ◌∷◌,
  get_elem?, arith, ◌==◌, ◌<◌, ◌↔◌, Bool-cases, inl, ap, inr,
}
use xdrop.Prelude.Int.{ℤ, pos, negsuc}
use xdrop.Agent.Types.{RuleKey, CidrRuleKey}
use xdrop.Agent.Combo.{
  is_zero_ip, combo_switch, cidr_combo_switch, get_combo_type, get_cidr_combo_type,
  validate_combo_type, combo_dst_ip_dst_port_proto,
}

-- which of src_ip, dst_ip, src_port, dst_port and protocol are set
abbrev pub Fields : Type 0
Fields = Bool × Bool × Bool × Bool × Bool

-- the comments behind the constants, by number; 19 has none
abbrev pub documented : List (Option Fields)
documented =
    some (true, true, true, true, true)
    ∷ some (false, true, true, true, true)
    ∷ some (false, true, false, true, true)
    ∷ some (false, true, false, false, true)
    ∷ some (false, true, false, false, false)
    ∷ some (false, false, false, false, true)
    ∷ some (false, false, true, false, false)
    ∷ some (false, false, false, true, false)
    ∷ some (true, false, false, false, false)
    ∷ some (true, false, false, false, true)
    ∷ some (true, true, false, false, false)
    ∷ some (true, false, false, true, false)
    ∷ some (false, true, false, true, false)
    ∷ some (true, true, false, false, true)
    ∷ some (true, false, false, true, true)
    ∷ some (false, false, true, false, true)
    ∷ some (false, false, false, true, true)
    ∷ some (true, false, true, false, false)
    ∷ some (true, false, true, false, true)
    ∷ none
    ∷ some (false, true, false, true, true)
    ∷ some (true, true, false, true, false)
    ∷ some (true, true, false, true, true)
    ∷ some (true, false, true, true, false)
    ∷ some (true, false, true, true, true)
    ∷ some (false, true, true, false, false)
    ∷ some (false, true, true, false, true)
    ∷ some (false, false, true, true, false)
    ∷ some (false, false, true, true, true)
    ∷ some (true, true, true, false, false)
    ∷ some (true, true, true, false, true)
    ∷ some (false, true, true, true, false)
    ∷ some (false, true, true, true, true)
    ∷ some (true, true, true, true, false)
    ∷ []

join : Option (Option Fields) → Option Fields
join none = none
join (some o) = o

-- the fields that the documentation gives a combo number
unfoldable pub documented_fields : ℤ → Option Fields
unfolding join
documented_fields (pos n) = join (get_elem? documented n)
documented_fields (negsuc n) = none

unfoldable pub is_any : Fields → Bool
is_any (a, b, c, d, e) = a || b || c || d || e

unfoldable pub key_fields : RuleKey → Fields
key_fields k = (
  not (is_zero_ip k.src_ip),
  not (is_zero_ip k.dst_ip),
  not (k.src_port == 0),
  not (k.dst_port == 0),
  not (k.protocol == 0),
)

unfoldable pub cidr_key_fields : CidrRuleKey → Fields
cidr_key_fields k = (
  not (k.src_id == 0),
  not (k.dst_id == 0),
  not (k.src_port == 0),
  not (k.dst_port == 0),
  not (k.protocol == 0),
)

unfoldable pub switched : Fields → ℤ
switched (a, b, c, d, e) = combo_switch a b c d e

switched-documented :
    (f : Fields) → documented_fields (switched f) ≡ (if is_any f then some f else none)
unfolding documented_fields switched is_any combo_switch
switched-documented (a, b, c, d, e) = ground arith

switched-cidr : (a b c d e : Bool) → cidr_combo_switch a b c d e ≡ combo_switch a b c d e
unfolding cidr_combo_switch combo_switch
switched-cidr a b c d e = ground arith

switched-validate : (f : Fields) → (validate_combo_type (switched f) ≡ none) ↔ (is_any f ≡ true)
unfolding validate_combo_type switched is_any combo_switch
switched-validate (a, b, c, d, e) = (ground arith, ground arith)

is_any-none : (f : Fields) → is_any f ≡ false → f ≡ (false, false, false, false, false)
unfolding is_any
is_any-none (a, b, c, d, e) h = ground arith

switched-injective : (f g : Fields) → switched f ≡ switched g → f ≡ g
switched-injective f g h = elim (Bool-cases (is_any f)) [
  | inl x ↦ elim (Bool-cases (is_any g)) [
    | inl y ↦ ground (arith, switched-documented f, switched-documented g)
    | inr y ↦ ground (arith, switched-documented f, switched-documented g)
  ]
  | inr x ↦ elim (Bool-cases (is_any g)) [
    | inl y ↦ ground (arith, switched-documented f, switched-documented g)
    | inr y ↦ ground (arith, is_any-none f, is_any-none g)
  ]
]

get_combo_type-switched : (k : RuleKey) → get_combo_type k ≡ switched (key_fields k)
unfolding get_combo_type switched key_fields
get_combo_type-switched k = refl

get_cidr_combo_type-switched :
    (k : CidrRuleKey) → get_cidr_combo_type k ≡ switched (cidr_key_fields k)
unfolding get_cidr_combo_type switched cidr_key_fields
get_cidr_combo_type-switched k =
    switched-cidr (not (k.src_id == 0)) (not (k.dst_id == 0)) (not (k.src_port == 0))
      (not (k.dst_port == 0)) (not (k.protocol == 0))

-- The combo number of an exact key that sets some field is one whose documented fields are exactly
-- the fields that the key sets; a key that sets none has a number with no documented fields.
pub get_combo_type-documented :
    (k : RuleKey)
    → documented_fields (get_combo_type k)
      ≡ (if is_any (key_fields k) then some (key_fields k) else none)
get_combo_type-documented k = rw get_combo_type-switched (switched-documented (key_fields k))

-- The combo number of a CIDR key that sets some field is one whose documented fields are exactly
-- the fields that the key sets; a key that sets none has a number with no documented fields.
pub get_cidr_combo_type-documented :
    (k : CidrRuleKey)
    → documented_fields (get_cidr_combo_type k)
      ≡ (if is_any (cidr_key_fields k) then some (cidr_key_fields k) else none)
get_cidr_combo_type-documented k =
    rw get_cidr_combo_type-switched (switched-documented (cidr_key_fields k))

-- Exact keys have the same combo number exactly when they set the same fields, and so have CIDR
-- keys; an exact key and a CIDR key that set the same fields have the same number.
pub combo_type_iff :
    ((k j : RuleKey) → (get_combo_type k ≡ get_combo_type j) ↔ (key_fields k ≡ key_fields j))
    × ((k j : CidrRuleKey)
        → (get_cidr_combo_type k ≡ get_cidr_combo_type j) ↔ (cidr_key_fields k ≡ cidr_key_fields j))
    × ((k : RuleKey) (j : CidrRuleKey)
        → (get_combo_type k ≡ get_cidr_combo_type j) ↔ (key_fields k ≡ cidr_key_fields j))
combo_type_iff = (
  λ k j. rw (get_combo_type-switched k, get_combo_type-switched j) (same _ _),
  λ k j. rw (get_cidr_combo_type-switched k, get_cidr_combo_type-switched j) (same _ _),
  λ k j. rw (get_combo_type-switched k, get_cidr_combo_type-switched j) (same _ _),
)
  where
    same : (f g : Fields) → (switched f ≡ switched g) ↔ (f ≡ g)
    same f g = (switched-injective f g, ap switched)

-- The check of the insertion paths accepts the combo of a key exactly when the key sets a field:
-- for exact keys and for CIDR keys.
pub validate_combo_type_iff :
    ((k : RuleKey)
      → (validate_combo_type (get_combo_type k) ≡ none) ↔ (is_any (key_fields k) ≡ true))
    × ((k : CidrRuleKey)
        → (validate_combo_type (get_cidr_combo_type k) ≡ none)
          ↔ (is_any (cidr_key_fields k) ≡ true))
validate_combo_type_iff = (
  λ k. rw get_combo_type-switched (switched-validate (key_fields k)),
  λ k. rw get_cidr_combo_type-switched (switched-validate (cidr_key_fields k)),
)

switched-ne-20 : (f : Fields) → switched f ≢ combo_dst_ip_dst_port_proto
unfolding switched combo_switch
switched-ne-20 (a, b, c, d, e) = ground arith

-- `ComboDstIPDstPortProto` is the number of no key: its case repeats the case of
-- `ComboWildcardSrcIPPort`, which stands above it.
pub get_combo_type-ne-20 :
    ((k : RuleKey) → get_combo_type k ≢ combo_dst_ip_dst_port_proto)
    × ((k : CidrRuleKey) → get_cidr_combo_type k ≢ combo_dst_ip_dst_port_proto)
get_combo_type-ne-20 = (
  λ k. rw get_combo_type-switched (switched-ne-20 (key_fields k)),
  λ k. rw get_cidr_combo_type-switched (switched-ne-20 (cidr_key_fields k)),
)

-- what an insertion path may rely on: an accepted combo indexes the array of 64 reference counts
pub combo_accepted :
    (k : RuleKey)
    → validate_combo_type (get_combo_type k) ≡ none
    → (n : ℕ) × (get_combo_type k ≡ pos n) × (n < 64)
unfolding validate_combo_type
combo_accepted k h = go (get_combo_type k) h
  where
    go : (c : ℤ) → validate_combo_type c ≡ none → (n : ℕ) × (c ≡ pos n) × (n < 64)
    go (pos n) e = (n, refl, ground arith)
    go (negsuc n) e = ground arith
