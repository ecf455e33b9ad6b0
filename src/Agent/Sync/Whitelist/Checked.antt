-- ===== src/Agent/Sync/Whitelist/Checked.antt =====
-- What phase 1 of DoWhitelistAtomicSync of node/agent/api/sync.go checks: the entries that pass have
-- ids and keys that are told apart, and they are those of the request.
use mathlib.Core.List.{List, [], ◌∷◌}
use Prim.Native.String.{String}
use xdrop.Prelude.{
  Option, some, none, true, false, ◌≡◌, arith, Bool-cases, inl, inr, refl, if◌then◌else◌, subst,
  Option-cases,
}
use xdrop.Prelude.GoMap.{is_in}
use xdrop.Prelude.Text.{string_eq}
use xdrop.Prelude.Bytes.{Bytes}
use xdrop.Agent.Types.{RuleKey, WhitelistEntry, rule_key_eq}
use xdrop.Agent.Wire.{rule_key_to_bytes}
use xdrop.Agent.Convert.{whitelist_to_key}
use xdrop.Agent.Sync.Whitelist.{Prepared, check_entry, prepare}

-- no id and no key comes twice, nor is it one of those already seen
abbrev pub IsFresh : List String → List RuleKey → List Prepared → Type 0
IsFresh ids keys [] = Unit
IsFresh ids keys (item ∷ items) =
    (is_in item.id ids ≡ false)
    × (is_in item.key keys ≡ false)
    × IsFresh (item.id ∷ ids) (item.key ∷ keys) items

unfoldable pub by_id : String → List Prepared → Option RuleKey
by_id j [] = none
by_id j (item ∷ items) = if string_eq.beq item.id j then some item.key else by_id j items

-- the key that a request has for an id
unfoldable pub requested : String → List WhitelistEntry → Option RuleKey
requested j [] = none
requested j (e ∷ es) = if string_eq.beq e.id j then whitelist_to_key e else requested j es

unfoldable pub item_bytes : List Prepared → List Bytes
item_bytes [] = []
item_bytes (item ∷ items) = rule_key_to_bytes item.key ∷ item_bytes items

-- the keys of a request as the BPF map has them
unfoldable pub requested_bytes : List WhitelistEntry → List Bytes
requested_bytes [] = []
requested_bytes (e ∷ es) = elim (whitelist_to_key e) [
  | none ↦ requested_bytes es
  | some key ↦ rule_key_to_bytes key ∷ requested_bytes es
]

check_entry_lem :
    (e : WhitelistEntry) (ids : List String) (keys : List RuleKey) (key : RuleKey)
    → check_entry e ids keys ≡ some key
    → (is_in e.id ids ≡ false) × (is_in key keys ≡ false) × (whitelist_to_key e ≡ some key)
unfolding check_entry
check_entry_lem e ids keys key h = ground arith

-- what the checks have made of the entries
pub record IsPrepared (es : List WhitelistEntry) (ids : List String) (keys : List RuleKey)
    (items : List Prepared) : Type 0 where
  pub fresh : IsFresh ids keys items
  pub same_keys : (j : String) → by_id j items ≡ requested j es
  pub same_bytes : item_bytes items ≡ requested_bytes es

cons-IsPrepared :
    (e : WhitelistEntry) (es : List WhitelistEntry) (ids : List String) (keys : List RuleKey)
    (key : RuleKey) (rest : List Prepared)
    → (is_in e.id ids ≡ false) × (is_in key keys ≡ false) × (whitelist_to_key e ≡ some key)
    → IsPrepared es (e.id ∷ ids) (key ∷ keys) rest
    → IsPrepared (e ∷ es) ids keys (record { id = e.id; key = key } ∷ rest)
unfolding by_id requested item_bytes requested_bytes
cons-IsPrepared e es ids keys key rest checked p = record {
  fresh = (checked.0, checked.1, p.fresh);
  same_keys = λ j. ground (arith, checked.2, p.same_keys j);
  same_bytes = ground (arith, checked.2, p.same_bytes);
}

pub prepare-IsPrepared :
    (es : List WhitelistEntry) (ids : List String) (keys : List RuleKey) (items : List Prepared)
    → prepare es ids keys ≡ some items
    → IsPrepared es ids keys items
unfolding prepare by_id requested item_bytes requested_bytes
prepare-IsPrepared [] ids keys items h =
    (let q : [] ≡ items = cc in
      subst (IsPrepared [] ids keys) q
        (record { fresh = tt; same_keys = λ j. refl; same_bytes = refl }))
prepare-IsPrepared (e ∷ es) ids keys items h = elim (Option-cases (check_entry e ids keys)) [
  | inl bad ↦ (let never : none ≡ some items = ground (arith, h, bad) in cc)
  | inr (key, good) ↦ elim (Option-cases (prepare es (e.id ∷ ids) (key ∷ keys))) [
    | inl bad ↦ (let never : none ≡ some items = ground (arith, h, good, bad) in cc)
    | inr (rest, done) ↦
        let q : record { id = e.id; key = key } ∷ rest ≡ items = ground (arith, h, good, done) in
        subst (IsPrepared (e ∷ es) ids keys) q (
          cons-IsPrepared e es ids keys key rest (check_entry_lem e ids keys key good)
            (prepare-IsPrepared es (e.id ∷ ids) (key ∷ keys) rest done))
  ]
]

pub fresh-by_id :
    (ids : List String) (keys : List RuleKey) (items : List Prepared) (j : String)
    → IsFresh ids keys items
    → is_in j ids ≡ true
    → by_id j items ≡ none
unfolding by_id is_in
fresh-by_id ids keys [] j f seen = refl
fresh-by_id ids keys (item ∷ items) j f seen = elim (Bool-cases (string_eq.beq item.id j)) [
  | inl same ↦
      (let q : item.id ≡ j = ground (arith, string_eq.beq_iff item.id j) in
        let never = rw q at f.0 in cc)
  | inr other ↦ rw other (fresh-by_id (item.id ∷ ids) (item.key ∷ keys) items j f.2 (rw other seen))
]
