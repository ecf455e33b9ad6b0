-- ===== src/Agent/Validate/Fields.antt =====
-- Byte order, protocol names, and what the field checks accept.
use xdrop.Prelude.Text.{text_eq}
use xdrop.Agent.Validate.{
  htons, ntohs, ok, parse_protocol_strict, protocol_to_string, is_portless, validate_rule, ℕ, ◌≡◌,
  String, if◌then◌else◌, ltb, true, none, Text, [],
}
use text.Mathlib.Text.{◌==◌ as str_eq}
use text.Mathlib.TextEquality.{eq_iff}
use xdrop.Prelude.Range.{all_below, all_below_sound}
use xdrop.Prelude.{refl, ◌<◌, ◌==◌, arith, ◌↔◌, ◌&&◌, ◌⊎◌, ◌≢◌, sym, ◌∙◌, ◌≤◌, ap}

htons_table : all_below 65536 (λ n. ntohs (htons n) == n && ltb (htons n) 65536) ≡ true
unfolding all_below ntohs
htons_table = refl

htons_pair : (n : ℕ) → n < 65536 → (ntohs (htons n) == n && ltb (htons n) 65536) ≡ true
htons_pair n h =
    all_below_sound 65536 (λ n. ntohs (htons n) == n && ltb (htons n) 65536) n htons_table h

zero_swapped : htons 0 ≡ 0
unfolding htons
zero_swapped = refl

zero_back : ntohs 0 ≡ 0
unfolding ntohs
zero_back = refl

-- A port survives the change of byte order and back, its swapped form is a port again, and it is
-- zero, which stands for any port, exactly if the swapped form is zero.
pub ntohs-htons :
    (n : ℕ) → n < 65536 → (ntohs (htons n) ≡ n) × (htons n < 65536) × ((htons n ≡ 0) ↔ (n ≡ 0))
ntohs-htons n h =
    let t = htons_pair n h in
    let back : ntohs (htons n) ≡ n = ground arith in
    (back, ground arith, (λ e. sym back ∙ ap ntohs e ∙ zero_back, λ e. ap htons e ∙ zero_swapped))

-- Every protocol name that the strict parser accepts is printed back from its number, except that
-- the empty name is printed as "all".
pub protocol_to_string-parse :
    (s : String) (p : ℕ)
    → parse_protocol_strict s ≡ ok p
    → protocol_to_string p ≡ (if str_eq s "" then "all" else s)
unfolding parse_protocol_strict protocol_to_string
protocol_to_string-parse s p h = ground (
  arith,
  eq_iff s "",
  eq_iff s "all",
  eq_iff s "tcp",
  eq_iff s "udp",
  eq_iff s "icmp",
  eq_iff s "icmpv6",
  eq_iff s "igmp",
  eq_iff s "gre",
  eq_iff s "esp",
)

-- The fields of a rule that the check accepts, as conditions.
pub record IsAcceptable (src_ip dst_ip : Text) (protocol : String)
    (src_port dst_port pkt_len_min pkt_len_max : ℕ) : Type 0 where
  pub scoped :
      (0 < pkt_len_min) ⊎ (0 < pkt_len_max)
      → (src_ip ≢ [])
        ⊎ (dst_ip ≢ [])
        ⊎ (src_port ≢ 0)
        ⊎ (dst_port ≢ 0)
        ⊎ ((protocol ≢ "") × (protocol ≢ "all"))
  pub ordered : 0 < pkt_len_min → 0 < pkt_len_max → pkt_len_min ≤ pkt_len_max
  pub portless : is_portless protocol ≡ true → (src_port ≡ 0) × (dst_port ≡ 0)

module _ (src_ip dst_ip : Text) (protocol : String)
    (src_port dst_port pkt_len_min pkt_len_max : ℕ) where
  accepted-IsAcceptable :
      validate_rule src_ip dst_ip protocol src_port dst_port pkt_len_min pkt_len_max ≡ none
      → IsAcceptable src_ip dst_ip protocol src_port dst_port pkt_len_min pkt_len_max
  unfolding validate_rule
  accepted-IsAcceptable h = record {
    scoped = λ l. ground (
      arith,
      text_eq.beq_iff src_ip [],
      text_eq.beq_iff dst_ip [],
      eq_iff protocol "",
      eq_iff protocol "all",
    );
    ordered = λ a b. ground arith;
    portless = λ p. ground arith;
  }

  IsAcceptable-accepted :
      IsAcceptable src_ip dst_ip protocol src_port dst_port pkt_len_min pkt_len_max
      → validate_rule src_ip dst_ip protocol src_port dst_port pkt_len_min pkt_len_max ≡ none
  unfolding validate_rule
  IsAcceptable-accepted a = ground (
    arith,
    text_eq.beq_iff src_ip [],
    text_eq.beq_iff dst_ip [],
    eq_iff protocol "",
    eq_iff protocol "all",
  )

-- The check on the fields of a rule accepts exactly these: a length filter comes with an address, a
-- port or a protocol other than "all"; a minimum and a maximum that are both set are in order; and
-- a protocol without ports has none.
pub validate_rule_iff :
    (src_ip dst_ip : Text) (protocol : String) (src_port dst_port pkt_len_min pkt_len_max : ℕ)
    → (validate_rule src_ip dst_ip protocol src_port dst_port pkt_len_min pkt_len_max ≡ none)
      ↔ IsAcceptable src_ip dst_ip protocol src_port dst_port pkt_len_min pkt_len_max
validate_rule_iff s d p sp dp lo hi =
    (accepted-IsAcceptable s d p sp dp lo hi, IsAcceptable-accepted s d p sp dp lo hi)
