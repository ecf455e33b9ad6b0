-- ===== src/Controller/Decoder/Accepted.antt =====
-- What the controller's anomaly checks of decoder.go let pass, the agents of node/agent/api take.
use Prim.Native.Nat.{ℕ, ◌≤◌}
use text.Mathlib.Text.{◌==◌ as str_eq}
use xdrop.Prelude.{
  Bool, true, false, not, ◌&&◌, ◌||◌, Option, some, none, String, if◌then◌else◌, ◌==◌, ltb, arith,
  refl, ◌≡◌, Bool-cases, inl, inr, subst,
}
use xdrop.Prelude.Int.{ℤ, pos, negsuc}
use xdrop.Prelude.Text.{Text, codes, text_beq, text_beq_iff}
use xdrop.Net.{Ip, is_unspecified, parse_ip}
use xdrop.Agent.Convert.{validate_node_anomaly_fields}
use xdrop.Agent.Convert
use xdrop.Controller.Decoder.{
  is_ipv6_string, is_ipv6_cidr, bounded_exact, bounded_cidr, has_bounded_anomaly_target,
  validate_anomaly_effective, unbounded, ipv6_bad_fragment, invalid_bits, not_drop,
}

unspecified_or_none : Option Ip → Bool
unspecified_or_none none = true
unspecified_or_none (some ip) = is_unspecified ip

-- a text that parses to an address is another one than that of an unspecified address
differs :
    (s : Text) (ip : Ip) (unset : Text)
    → parse_ip s ≡ some ip
    → unspecified_or_none (parse_ip unset) ≡ true
    → is_unspecified ip ≡ false
    → text_beq s unset ≡ false
unfolding unspecified_or_none
differs s ip unset parsed zeros specified = elim (Bool-cases (text_beq s unset)) [
  | inr other ↦ other
  | inl same ↦
      let here = subst (λ t. parse_ip t ≡ some ip) ((text_beq_iff s unset).0 same) parsed in
      let never : is_unspecified ip ≡ true = subst (λ o. unspecified_or_none o ≡ true) here zeros in
      cc
]

zeros_v4 : unspecified_or_none (parse_ip (codes "0.0.0.0")) ≡ true
unfolding unspecified_or_none parse_ip is_unspecified
zeros_v4 = refl

zeros_v6 : unspecified_or_none (parse_ip (codes "::")) ≡ true
unfolding unspecified_or_none parse_ip is_unspecified
zeros_v6 = refl

-- an address that is bounded for the controller is bounded for the agents
bounded_of :
    (s : Text) (ip : Option Ip)
    → parse_ip s ≡ ip
    → bounded_exact s ≡ true
    → Convert.bounded_ip s ≡ true
unfolding bounded_exact Convert.bounded_ip Convert.is_set
bounded_of s none parsed h = ground arith
bounded_of s (some ip) parsed h = ground (
  arith,
  differs s ip (codes "0.0.0.0") parsed zeros_v4,
  differs s ip (codes "::") parsed zeros_v6,
)

cidr_bounded_of : (s : Text) → bounded_cidr s ≡ Convert.bounded_cidr s
unfolding bounded_cidr Convert.bounded_cidr
cidr_bounded_of s = refl

v6_of :
    (s : Text) (ip : Option Ip)
    → parse_ip s ≡ ip
    → is_ipv6_string s ≡ false
    → Convert.v6_ip s ≡ false
unfolding is_ipv6_string Convert.v6_ip Convert.is_v4
v6_of s none parsed h = ground arith
v6_of s (some ip) parsed h = ground arith

cidr_v6_of : (s : Text) → is_ipv6_cidr s ≡ Convert.v6_cidr s
unfolding is_ipv6_cidr Convert.v6_cidr Convert.is_v4
cidr_v6_of s = refl

-- the last two guards: a side with a weaker target test and a stronger IPv6 test passes as well
last_guards :
    (b b' f v v' : Bool)
    → (b ≡ true → b' ≡ true)
    → (v ≡ false → v' ≡ false)
    → (if not b then some unbounded else if f && v then some ipv6_bad_fragment else none) ≡ none
    → (if not b'
        then some Convert.unbounded
        else if f && v'
        then some Convert.ipv6_bad_fragment
        else none)
      ≡ none
last_guards false b' f v v' hb hv ok = cc
last_guards true b' false v v' hb hv ok = rw (hb refl) refl
last_guards true b' true true v' hb hv ok = cc
last_guards true b' true false v' hb hv ok = rw (hb refl, hv refl) refl

module _ (src_ip dst_ip src_cidr dst_cidr : Text) where
  bounded_target :
      has_bounded_anomaly_target src_ip dst_ip src_cidr dst_cidr ≡ true
      → (Convert.bounded_ip src_ip
          || Convert.bounded_ip dst_ip
          || Convert.bounded_cidr src_cidr
          || Convert.bounded_cidr dst_cidr)
        ≡ true
  unfolding has_bounded_anomaly_target
  bounded_target h = ground (
    arith,
    bounded_of src_ip (parse_ip src_ip) refl,
    bounded_of dst_ip (parse_ip dst_ip) refl,
    cidr_bounded_of src_cidr,
    cidr_bounded_of dst_cidr,
  )

  not_v6_target :
      (is_ipv6_string src_ip
          || is_ipv6_string dst_ip
          || is_ipv6_cidr src_cidr
          || is_ipv6_cidr dst_cidr)
        ≡ false
      → (Convert.v6_ip src_ip
          || Convert.v6_ip dst_ip
          || Convert.v6_cidr src_cidr
          || Convert.v6_cidr dst_cidr)
        ≡ false
  not_v6_target h = ground (
    arith,
    v6_of src_ip (parse_ip src_ip) refl,
    v6_of dst_ip (parse_ip dst_ip) refl,
    cidr_v6_of src_cidr,
    cidr_v6_of dst_cidr,
  )

  node_of :
      (bits : ℕ) (action : String)
      → validate_anomaly_effective (pos bits) action src_ip dst_ip src_cidr dst_cidr ≡ none
      → (bits ≤ 3)
        × (validate_node_anomaly_fields bits action src_ip dst_ip src_cidr dst_cidr ≡ none)
  unfolding validate_anomaly_effective validate_node_anomaly_fields
  node_of bits action ok = elim (Bool-cases (bits == 0)) [
    | inl unset ↦ (ground arith, rw unset refl)
    | inr set ↦ elim (Bool-cases (ltb 3 bits)) [
      | inl big ↦ (let never : some invalid_bits ≡ none = rw (set, big) at ok in cc)
      | inr small ↦ elim (Bool-cases (str_eq action "rate_limit")) [
        | inl rate ↦ (let never : some not_drop ≡ none = rw (set, small, rate) at ok in cc)
        | inr drop ↦ (
          ground arith,
          rw (set, small, drop)
              (last_guards _ _ _ _ _ bounded_target not_v6_target (rw (set, small, drop) at ok)),
        )
      ]
    ]
  ]

  -- The anomaly bits, the action and the target that validateAnomalyEffective of the controller
  -- lets pass are not negative, and validateNodeAnomalyFields of the agents takes them.
  pub effective-node :
      (n : ℤ) (action : String)
      → validate_anomaly_effective n action src_ip dst_ip src_cidr dst_cidr ≡ none
      → (bits : ℕ) × (n ≡ pos bits)
        × (bits ≤ 3)
        × (validate_node_anomaly_fields bits action src_ip dst_ip src_cidr dst_cidr ≡ none)
  unfolding validate_anomaly_effective
  effective-node (pos bits) action ok =
      let taken = node_of bits action ok in (bits, refl, taken.0, taken.1)
  effective-node (negsuc bits) action ok = cc
