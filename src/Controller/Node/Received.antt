-- ===== src/Controller/Node/Received.antt =====
-- What an agent gets of a rule that controller/internal/model/rule.go prepares for it.
use Prim.Native.Nat.{ℕ, ◌<◌, ◌^◌}
use text.Mathlib.Text.{◌==◌ as str_eq}
use mathlib.Core.List.{[]}
use xdrop.Prelude.{
  true, false, Option, none, some, String, if◌then◌else◌, ltb, ◌≡◌, inl, inr, refl, sym, ap, ◌∙◌,
  Bool-cases, arith, ◌||◌,
}
use xdrop.Prelude.Int.{ℤ, pos, negsuc}
use xdrop.Prelude.Text.{Text, text_beq, text_eq, string_eq}
use xdrop.Agent.Types
use xdrop.Agent.Validate.{parse_protocol, parse_protocol_strict, ok}
use xdrop.Controller.Types.{Rule}
use xdrop.Controller.Decoder.{is_zero}
use xdrop.Controller.Node.{NodeRule, unless_empty, if_positive, unless_zero, unless_all}

-- An agent reads the JSON of the map into its `Rule`, as encoding/json documents it: a key that is not
-- there leaves the field at its zero, and a number that does not fit the field is an error.
unfoldable pub text_field : Option Text → Text
text_field none = []
text_field (some s) = s

unfoldable pub string_field : Option String → String
string_field none = ""
string_field (some s) = s

unfoldable pub number_field : ℕ → Option ℤ → Option ℕ
number_field bound none = some 0
number_field bound (some (pos n)) = if ltb n bound then some n else none
number_field bound (some (negsuc n)) = none

-- the rule that an agent reads
pub record Reads (r : NodeRule) (req : Types.Rule) : Type 0 where
  pub id : req.id ≡ r.id
  pub action : req.action ≡ r.action
  pub src_ip : req.src_ip ≡ text_field r.src_ip
  pub dst_ip : req.dst_ip ≡ text_field r.dst_ip
  pub src_cidr : req.src_cidr ≡ text_field r.src_cidr
  pub dst_cidr : req.dst_cidr ≡ text_field r.dst_cidr
  pub protocol : req.protocol ≡ string_field r.protocol
  pub tcp_flags : req.tcp_flags ≡ text_field r.tcp_flags
  pub src_port : number_field (2 ^ 16) r.src_port ≡ some req.src_port
  pub dst_port : number_field (2 ^ 16) r.dst_port ≡ some req.dst_port
  pub rate_limit : number_field (2 ^ 32) r.rate_limit ≡ some req.rate_limit
  pub pkt_len_min : number_field (2 ^ 16) r.pkt_len_min ≡ some req.pkt_len_min
  pub pkt_len_max : number_field (2 ^ 16) r.pkt_len_max ≡ some req.pkt_len_max
  pub match_anomaly : number_field (2 ^ 8) r.match_anomaly ≡ some req.match_anomaly

-- the numbers of a rule fit the fields of the agents
abbrev pub Fits : ℕ → ℤ → Type 0
Fits bound n = (k : ℕ) × (n ≡ pos k) × (k < bound)

pub record InRange (rule : Rule) : Type 0 where
  pub src_port : Fits (2 ^ 16) rule.src_port
  pub dst_port : Fits (2 ^ 16) rule.dst_port
  pub rate_limit : Fits (2 ^ 32) rule.rate_limit
  pub pkt_len_min : Fits (2 ^ 16) rule.pkt_len_min
  pub pkt_len_max : Fits (2 ^ 16) rule.pkt_len_max

-- a rule of an agent that says what a rule of the controller says
pub record Says (rule : Rule) (req : Types.Rule) : Type 0 where
  pub id : req.id ≡ rule.id
  pub action : req.action ≡ rule.action
  pub src_ip : req.src_ip ≡ rule.src_ip
  pub dst_ip : req.dst_ip ≡ rule.dst_ip
  pub src_cidr : req.src_cidr ≡ rule.src_cidr
  pub dst_cidr : req.dst_cidr ≡ rule.dst_cidr
  pub tcp_flags : req.tcp_flags ≡ rule.tcp_flags
  pub protocol : parse_protocol req.protocol ≡ parse_protocol rule.protocol
  pub src_port : pos req.src_port ≡ rule.src_port
  pub dst_port : pos req.dst_port ≡ rule.dst_port
  pub rate_limit : pos req.rate_limit ≡ rule.rate_limit
  pub pkt_len_min : pos req.pkt_len_min ≡ rule.pkt_len_min
  pub pkt_len_max : pos req.pkt_len_max ≡ rule.pkt_len_max
  pub match_anomaly : pos req.match_anomaly ≡ rule.match_anomaly

pub empty_kept : (s : Text) → text_field (unless_empty s) ≡ s
unfolding unless_empty text_field
empty_kept s = elim (Bool-cases (text_beq s [])) [
  | inl empty ↦ rw empty (sym ((text_eq.beq_iff s []).0 empty))
  | inr filled ↦ rw filled refl
]

pub positive_kept :
    (bound : ℕ) (n : ℤ) (fits : Fits bound n) → number_field bound (if_positive n) ≡ some fits.0
unfolding if_positive number_field
positive_kept bound n (k, same, small) =
    ap (λ m. number_field bound (if_positive m)) same ∙ ground arith

pub zero_kept :
    (bound : ℕ) (n : ℤ) (fits : Fits bound n) → number_field bound (unless_zero n) ≡ some fits.0
unfolding unless_zero number_field is_zero
zero_kept bound n (k, same, small) =
    ap (λ m. number_field bound (unless_zero m)) same ∙ ground arith

any_strict : (s : String) → (str_eq s "" || str_eq s "all") ≡ true → parse_protocol_strict s ≡ ok 0
unfolding parse_protocol_strict
any_strict s any = rw any refl

any_named : (s : String) → (str_eq s "" || str_eq s "all") ≡ true → parse_protocol s ≡ 0
unfolding parse_protocol
any_named s any = rw (any_strict s any, parse_protocol) refl

left_out : (s : String) → (str_eq s "" || str_eq s "all") ≡ true → string_field (unless_all s) ≡ ""
unfolding unless_all string_field
left_out s any = rw any refl

given : (s : String) → (str_eq s "" || str_eq s "all") ≡ false → string_field (unless_all s) ≡ s
unfolding unless_all string_field
given s named = rw named refl

pub protocol_kept : (s : String) → parse_protocol (string_field (unless_all s)) ≡ parse_protocol s
protocol_kept s = elim (Bool-cases (str_eq s "" || str_eq s "all")) [
  | inl any ↦ ap parse_protocol (left_out s any) ∙ any_named "" refl ∙ sym (any_named s any)
  | inr named ↦ ap parse_protocol (given s named)
]
