-- ===== src/Controller/Tests.antt =====
-- The properties of the controller, at concrete requests.
use Prim.Native.Nat.{ℕ, ◌≤◌}
use mathlib.Core.List.{List, [], ◌∷◌}
use xdrop.Prelude.{
  true, false, Option, some, none, ◌≡◌, ◌≢◌, refl, nat_eq, sym, ap, ◌∙◌, subst, inl, inr,
  Bool-cases, ◌&&◌, ◌&&◌,
}
use xdrop.Prelude.Int.{pos}
use xdrop.Prelude.GoMap.{is_in, lookup}
use xdrop.Prelude.Text.{Text, codes, text_beq, text_beq_iff, text_eq, string_eq, text_beq_iff}
use xdrop.Prelude.Bytes.{Bytes}
use xdrop.Net.Print.{ip_to_string}
use xdrop.Net.{IpNet, contains, parse_cidr, parse_ip}
use xdrop.Agent.Convert.{validate_node_anomaly_fields}
use xdrop.Controller.Types.{Rule}
use xdrop.Controller.Fixture.{request, stored, found_if, one_rule}
use xdrop.Controller.Decoder.{
  is_zero, normalize_decoder, validate_anomaly_effective, validate_anomaly_fields,
}
use xdrop.Controller.Decoder.Expansion.{OnlyUnbounded, normalize_decoder-OnlyUnbounded}
use xdrop.Controller.Decoder.Accepted.{effective-node}
use xdrop.Controller.Overlap.{find_cidr_overlap}
use xdrop.Controller.Overlap.Disjoint.{find_cidr_overlap-disjoint}
use xdrop.Controller.Validate.{
  validate_and_normalize_tcp_flags, contradictory_flags, err, refuse_if, ◌>>=◌,
}
use xdrop.Controller.Validate.Flags.{no_contradiction}
use xdrop.Controller.Create.{create_rule}
use xdrop.Controller.Create.Sound.{IsSound, FindsTuple, HasSound}
use xdrop.Controller.Create.Stored.{rule_of, create_rule-IsSound}

decoder_accepted : (normalize_decoder request).1 ≡ none
unfolding normalize_decoder lookup text_beq parse_ip parse_cidr
decoder_accepted = refl

normalize_decoder-OnlyUnbounded_example :
    OnlyUnbounded (validate_anomaly_fields (normalize_decoder request).0)
normalize_decoder-OnlyUnbounded_example =
    normalize_decoder-OnlyUnbounded request refl decoder_accepted

anomaly_valid : validate_anomaly_effective (pos 2) "drop" [] (codes "10.0.0.1") [] [] ≡ none
unfolding validate_anomaly_effective text_beq parse_ip parse_cidr
anomaly_valid = refl

effective-node_example :
    (bits : ℕ) × (pos 2 ≡ pos bits)
    × (bits ≤ 3)
    × (validate_node_anomaly_fields bits "drop" [] (codes "10.0.0.1") [] [] ≡ none)
effective-node_example = effective-node [] (codes "10.0.0.1") [] [] (pos 2) "drop" anomaly_valid

no_contradiction_example :
    validate_and_normalize_tcp_flags (codes "SYN,!SYN") ≢ err contradictory_flags
no_contradiction_example = no_contradiction (codes "SYN,!SYN")

abbrev new_cidr : Text
new_cidr = codes "10.1.0.0/16"

abbrev old_cidr : Text
old_cidr = codes "10.2.0.0/16"

abbrev old_cidrs : List Text
old_cidrs = old_cidr ∷ []

abbrev mapped : Bytes → Bytes
mapped v4 = 0 ∷ 0 ∷ 0 ∷ 0 ∷ 0 ∷ 0 ∷ 0 ∷ 0 ∷ 0 ∷ 0 ∷ 0xff ∷ 0xff ∷ v4

abbrev net_of : ℕ → IpNet
net_of n = record { ip = 10 ∷ n ∷ 0 ∷ 0 ∷ []; ones = 16; bits = 32 }

no_overlap : find_cidr_overlap new_cidr old_cidrs ≡ none
unfolding find_cidr_overlap parse_cidr text_beq
no_overlap = refl

listed : is_in old_cidr old_cidrs ≡ true
unfolding is_in text_beq
listed = refl

not_new : old_cidr ≢ new_cidr
not_new same =
    (let never : text_beq old_cidr new_cidr ≡ true = (text_beq_iff old_cidr new_cidr).1 same in
      unfold text_beq in cc)

new_parsed : parse_cidr new_cidr ≡ some (mapped (10 ∷ 1 ∷ 0 ∷ 0 ∷ []), net_of 1)
unfolding parse_cidr
new_parsed = refl

old_parsed : parse_cidr old_cidr ≡ some (mapped (10 ∷ 2 ∷ 0 ∷ 0 ∷ []), net_of 2)
unfolding parse_cidr
old_parsed = refl

inside : contains (net_of 1) (10 ∷ 1 ∷ 7 ∷ 9 ∷ []) ≡ true
unfolding contains
inside = refl

find_cidr_overlap-disjoint_example : contains (net_of 2) (10 ∷ 1 ∷ 7 ∷ 9 ∷ []) ≡ false
find_cidr_overlap-disjoint_example =
    find_cidr_overlap-disjoint new_cidr old_cidr old_cidrs _ _ (10 ∷ 1 ∷ 7 ∷ 9 ∷ []) (net_of 1)
      (net_of 2) no_overlap listed not_new new_parsed old_parsed refl inside

stored-IsSound : IsSound stored
unfolding is_zero text_beq
stored-IsSound = record { anomaly = anomaly_valid; exclusive = refl; aimed = inl (refl, refl) }

found_stored :
    (s d : Text) (rule : Rule)
    → found_if (text_beq [] s && text_beq (codes "10.0.0.1") d) ≡ some rule
    → (stored ≡ rule) × ([] ≡ s) × (codes "10.0.0.1" ≡ d)
found_stored s d rule found = elim (Bool-cases (text_beq [] s)) [
  | inr other ↦ (let never : none ≡ some rule = rw other at found in cc)
  | inl first ↦ elim (Bool-cases (text_beq (codes "10.0.0.1") d)) [
    | inr other ↦ (let never : none ≡ some rule = rw (first, other) at found in cc)
    | inl second ↦ (
      (let here : some stored ≡ some rule = rw (first, second) at found in cc),
      (text_beq_iff [] s).0 first,
      (text_beq_iff (codes "10.0.0.1") d).0 second,
    )
  ]
]

some_of : {A : Type 0} (x y : Option A) → some x ≡ some y → x ≡ y
some_of x y same = cc

one_rule-FindsTuple : FindsTuple one_rule tt
one_rule-FindsTuple = record {
  exact = λ s d sp dp protocol rule found.
      let parts = found_stored s d rule (some_of _ _ found) in
      (
        sym (ap (λ (x : Rule). x.src_ip) parts.0) ∙ parts.1,
        sym (ap (λ (x : Rule). x.dst_ip) parts.0) ∙ parts.2,
        sym (ap (λ (x : Rule). x.src_cidr) parts.0),
        sym (ap (λ (x : Rule). x.dst_cidr) parts.0),
      );
  cidr = λ s d sp dp protocol rule found. cc;
}

one_rule-HasSound : HasSound one_rule tt
one_rule-HasSound = record {
  exact = λ s d sp dp protocol rule found.
      subst IsSound (found_stored s d rule (some_of _ _ found)).0 stored-IsSound;
  cidr = λ s d sp dp protocol rule found. cc;
}

-- the rule with both bits
abbrev both : Rule
both = record stored { match_anomaly = pos 3 }

request_merged : rule_of (create_rule one_rule "rule_2" true request tt).1 ≡ some both
unfolding create_rule refuse_if ◌>>=◌ lookup text_beq parse_ip parse_cidr ip_to_string
request_merged = refl

create_rule-IsSound_example :
    IsSound both
    × ((bits : ℕ) × (both.match_anomaly ≡ pos bits)
        × (bits ≤ 3)
        × (validate_node_anomaly_fields bits both.action both.src_ip both.dst_ip both.src_cidr
              both.dst_cidr
            ≡ none))
create_rule-IsSound_example =
    create_rule-IsSound one_rule "rule_2" true request tt both one_rule-FindsTuple one_rule-HasSound
      request_merged
