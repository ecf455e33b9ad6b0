-- ===== src/Controller/Batch/Apart.antt =====
-- When a rule of a batch of controller/internal/service/rule_service.go stands apart from those that
-- came before it.
use mathlib.Core.List.{List, [], ◌∷◌, ◌++◌}
use xdrop.Prelude.{
  Bool, true, false, ◌&&◌, some, none, String, ◌≡◌, ◌≢◌, refl, sym, ◌∙◌, subst, arith, Bool-cases,
  Option-cases, inl, inr,
}
use xdrop.Prelude.GoMap.{is_in}
use xdrop.Prelude.Text.{Text, text_beq, text_eq, text_beq_iff}
use xdrop.Net.{Ip, IpNet, parse_cidr, contains}
use xdrop.Controller.Types.{RuleRequest, Rule}
use xdrop.Controller.Overlap.{check_cidr_overlap, side_overlaps, find_cidr_overlap}
use xdrop.Controller.Overlap.Disjoint.{find_cidr_overlap-disjoint}
use xdrop.Controller.Create.{new_rule}
use xdrop.Controller.Create.Checked.{Aimed}
use xdrop.Controller.Batch.{Pending, batch_key, effective_protocol, add_pending, add_cidr}
use xdrop.Controller.Batch.Items.{MayJoin, All}

-- no address lies in both, if they are written differently and of one family
abbrev pub NoneShared : Text → Text → Type 0
NoneShared c e =
    (ip ip' x : Ip) (m n : IpNet)
    → c ≢ e
    → parse_cidr c ≡ some (ip, m)
    → parse_cidr e ≡ some (ip', n)
    → n.bits ≡ m.bits
    → contains n x ≡ true
    → contains m x ≡ false

abbrev pub SameTuple : Rule → Rule → Type 0
SameTuple a b =
    (a.src_ip ≡ b.src_ip)
    × (a.dst_ip ≡ b.dst_ip)
    × (a.src_cidr ≡ b.src_cidr)
    × (a.dst_cidr ≡ b.dst_cidr)
    × (a.src_port ≡ b.src_port)
    × (a.dst_port ≡ b.dst_port)
    × (a.protocol ≡ b.protocol)

-- two rules of different tuples, whose CIDRs share no address
pub record IsApart (a b : Rule) : Type 0 where
  pub tuple : ¬ SameTuple a b
  pub src : NoneShared a.src_cidr b.src_cidr
  pub dst : NoneShared a.dst_cidr b.dst_cidr

abbrev pub AreApart : List Rule → Type 0
AreApart [] = Unit
AreApart (a ∷ rules) = All (IsApart a) rules × AreApart rules

-- the key of a stored rule in a batch
key_of : Rule → Text
key_of rule =
    batch_key
      (record {
        src_ip = rule.src_ip;
        dst_ip = rule.dst_ip;
        src_cidr = rule.src_cidr;
        dst_cidr = rule.dst_cidr;
        src_port = rule.src_port;
        dst_port = rule.dst_port;
        protocol = "";
        action = "";
        rate_limit = rule.rate_limit;
        pkt_len_min = none;
        pkt_len_max = none;
        tcp_flags = none;
        decoder = "";
        match_anomaly = rule.match_anomaly;
        enabled = none;
      })
      rule.protocol

key_of-new_rule :
    (id : String) (req : RuleRequest) (protocol : String)
    → key_of (new_rule id req protocol) ≡ batch_key req protocol
unfolding key_of batch_key new_rule
key_of-new_rule id req protocol = refl

key_of-SameTuple : (a b : Rule) → SameTuple a b → key_of a ≡ key_of b
unfolding key_of batch_key
key_of-SameTuple a b same = rw (same.0, same.1, same.2, same.3, same.4, same.5, same.6) refl

-- a rule of the batch that came before
pub record Covers (pending : Pending) (a : Rule) : Type 0 where
  key : is_in (key_of a) pending.seen_keys ≡ true
  src : text_beq a.src_cidr [] ≡ false → is_in a.src_cidr pending.src_cidrs ≡ true
  dst : text_beq a.dst_cidr [] ≡ false → is_in a.dst_cidr pending.dst_cidrs ≡ true

is_in-append :
    (t : Text) (xs : List Text) (c : Text) → is_in t xs ≡ true → is_in t (xs ++ (c ∷ [])) ≡ true
unfolding is_in
is_in-append t [] c here = cc
is_in-append t (x ∷ xs) c here = ground (arith, is_in-append t xs c)

is_in-append_last : (xs : List Text) (c : Text) → is_in c (xs ++ (c ∷ [])) ≡ true
unfolding is_in
is_in-append_last [] c = ground (arith, text_beq_iff c c)
is_in-append_last (x ∷ xs) c = ground (arith, is_in-append_last xs c)

is_in-add_cidr : (t c : Text) (xs : List Text) → is_in t xs ≡ true → is_in t (add_cidr c xs) ≡ true
unfolding add_cidr
is_in-add_cidr t c xs here = elim (Bool-cases (text_beq c [])) [
  | inl empty ↦ rw empty here
  | inr filled ↦ rw filled (is_in-append t xs c here)
]

is_in-add_cidr_self :
    (c : Text) (xs : List Text) → text_beq c [] ≡ false → is_in c (add_cidr c xs) ≡ true
unfolding add_cidr
is_in-add_cidr_self c xs filled = rw filled (is_in-append_last xs c)

pub add_pending-Covers :
    (pending : Pending) (req : RuleRequest) (a : Rule)
    → Covers pending a
    → Covers (add_pending req pending) a
unfolding add_pending is_in
add_pending-Covers pending req a covers = record {
  key = ground (arith, covers.key);
  src = λ filled. is_in-add_cidr a.src_cidr req.src_cidr pending.src_cidrs (covers.src filled);
  dst = λ filled. is_in-add_cidr a.dst_cidr req.dst_cidr pending.dst_cidrs (covers.dst filled);
}

pub new_rule-Covers :
    (pending : Pending) (id : String) (req : RuleRequest)
    → Covers (add_pending req pending) (new_rule id req (effective_protocol req.protocol))
unfolding add_pending is_in new_rule
new_rule-Covers pending id req = record {
  key = ground (
    arith,
    key_of-new_rule id req (effective_protocol req.protocol),
    text_beq_iff (batch_key req (effective_protocol req.protocol))
        (key_of (new_rule id req (effective_protocol req.protocol))),
  );
  src = λ filled. is_in-add_cidr_self req.src_cidr pending.src_cidrs filled;
  dst = λ filled. is_in-add_cidr_self req.dst_cidr pending.dst_cidrs filled;
}

empty_unparsed : (ip : Ip) (m : IpNet) → parse_cidr [] ≡ some (ip, m) → true ≡ false
unfolding parse_cidr
empty_unparsed ip m parsed = cc

parsed-filled :
    (c : Text) (ip : Ip) (m : IpNet) → parse_cidr c ≡ some (ip, m) → text_beq c [] ≡ false
parsed-filled c ip m parsed = elim (Bool-cases (text_beq c [])) [
  | inr filled ↦ filled
  | inl empty ↦
      let same = (text_beq_iff c []).0 empty in
      (let never : true ≡ false =
          empty_unparsed ip m (subst (λ s. parse_cidr s ≡ some (ip, m)) same parsed) in
        cc)
]

side-free :
    (e : Text) (cidrs : List Text)
    → side_overlaps e (some cidrs) ≡ false
    → text_beq e [] ≡ false
    → find_cidr_overlap e cidrs ≡ none
unfolding side_overlaps
side-free e cidrs free filled = elim (Option-cases (find_cidr_overlap e cidrs)) [
  | inl clear ↦ clear
  | inr found ↦ (let never : true ≡ false = rw (found.1, filled, side_overlaps) at free in cc)
]

side-NoneShared :
    (c e : Text) (cidrs : List Text)
    → (text_beq c [] ≡ false → is_in c cidrs ≡ true)
    → (text_beq e [] ≡ false → side_overlaps e (some cidrs) ≡ false)
    → NoneShared c e
side-NoneShared c e cidrs listed free ip ip' x m n other parsed parsed' family inside =
    let filled = parsed-filled e ip' n parsed' in
    find_cidr_overlap-disjoint e c cidrs ip' ip x n m (side-free e cidrs (free filled) filled)
      (listed (parsed-filled c ip m parsed)) other parsed' parsed family inside

-- a request with a CIDR was tested
tested : (flag overlaps : Bool) → flag ≡ true → (flag && overlaps) ≡ false → overlaps ≡ false
tested true overlaps set clear = clear
tested false overlaps set clear = cc

cidr_flag :
    (req : RuleRequest) (flag : Bool)
    → Aimed (req, flag)
    → (text_beq req.src_cidr [] && text_beq req.dst_cidr []) ≡ false
    → flag ≡ true
unfolding text_beq
cidr_flag req true aimed filled = refl
cidr_flag req false aimed filled =
    (let never : true ≡ false = rw (aimed.0, aimed.1) at filled in cc)

sides_free :
    (pending : Pending) (checked : RuleRequest × Bool)
    → MayJoin pending checked
    → (text_beq checked.0.src_cidr [] && text_beq checked.0.dst_cidr []) ≡ false
    → (side_overlaps checked.0.src_cidr (some pending.src_cidrs) ≡ false)
      × (side_overlaps checked.0.dst_cidr (some pending.dst_cidrs) ≡ false)
unfolding check_cidr_overlap
sides_free pending checked may filled =
    let set = cidr_flag checked.0 checked.1 may.is_checked.aimed filled in
    let clear = tested checked.1 _ set may.clear in (ground (arith, clear), ground (arith, clear))

pub Covers-IsApart :
    (pending : Pending) (a : Rule) (id : String) (checked : RuleRequest × Bool)
    → Covers pending a
    → MayJoin pending checked
    → IsApart a (new_rule id checked.0 (effective_protocol checked.0.protocol))
unfolding new_rule
Covers-IsApart pending a id checked covers may =
    let req = checked.0 in
    let protocol = effective_protocol req.protocol in
    let b = new_rule id req protocol in
    record {
      tuple = λ same.
          let keys = key_of-SameTuple a b same ∙ key_of-new_rule id req protocol in
          let never : true ≡ false =
            sym (subst (λ k. is_in k pending.seen_keys ≡ true) keys covers.key) ∙ may.fresh in
          cc;
      src =
          side-NoneShared a.src_cidr req.src_cidr pending.src_cidrs covers.src
            (λ filled. (sides_free pending checked may (ground (arith, filled))).0);
      dst =
          side-NoneShared a.dst_cidr req.dst_cidr pending.dst_cidrs covers.dst
            (λ filled. (sides_free pending checked may (ground (arith, filled))).1);
    }
