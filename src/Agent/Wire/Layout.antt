-- ===== src/Agent/Wire/Layout.antt =====
-- The layouts of the C structs, field by field, and that a key is known by its bytes.
use xdrop.Prelude.{ℕ, ◌++◌, ◌∷◌, ◌<◌, ◌≡◌, length, arith, ◌^◌, []}
use xdrop.Prelude.Bytes.{Bytes, le_bytes, append_split}
use mathlib.Core.List.{append_assoc}
use xdrop.Prelude.{◌∙◌, ap, sym, length-append, set, replicate, refl}
use xdrop.Prelude.Bytes.{put_uint16, copy_at, copy_at-append, set-append}
use xdrop.Agent.Types.{IpAddr, RuleKey, RuleValue, CidrRuleKey}
use xdrop.Agent.Wire.{cidr_rule_key_to_bytes, rule_key_to_bytes, rule_value_to_bytes, put_uint16}

-- the values that the fields' Go types can hold
abbrev pub IsIpAddr : IpAddr → Type 0
IsIpAddr ip = length ip ≡ 16

pub record IsRuleKey (k : RuleKey) : Type 0 where
  pub src_ip : IsIpAddr k.src_ip
  pub dst_ip : IsIpAddr k.dst_ip
  pub src_port : k.src_port < 65536
  pub dst_port : k.dst_port < 65536
  pub protocol : k.protocol < 256

pub record IsCidrRuleKey (k : CidrRuleKey) : Type 0 where
  pub src_id : k.src_id < 2 ^ 32
  pub dst_id : k.dst_id < 2 ^ 32
  pub src_port : k.src_port < 65536
  pub dst_port : k.dst_port < 65536
  pub protocol : k.protocol < 256

-- `struct rule_key`
unfoldable pub rule_key_layout : RuleKey → Bytes
unfolding le_bytes
rule_key_layout k =
    k.src_ip
    ++ (k.dst_ip
        ++ (le_bytes 2 k.src_port ++ (le_bytes 2 k.dst_port ++ k.protocol ∷ 0 ∷ 0 ∷ 0 ∷ [])))

-- `struct cidr_rule_key`
unfoldable pub cidr_rule_key_layout : CidrRuleKey → Bytes
unfolding le_bytes
cidr_rule_key_layout k =
    le_bytes 4 k.src_id
    ++ (le_bytes 4 k.dst_id
        ++ (le_bytes 2 k.src_port ++ (le_bytes 2 k.dst_port ++ k.protocol ∷ 0 ∷ 0 ∷ 0 ∷ [])))

-- `struct rule_value`
unfoldable pub rule_value_layout : RuleValue → Bytes
unfolding le_bytes
rule_value_layout v =
    v.action
    ∷ v.tcp_flags_mask
    ∷ v.tcp_flags_value
    ∷ v.match_anomaly
    ∷ (le_bytes 4 v.rate_limit
        ++ (le_bytes 8 v.match_count
            ++ (le_bytes 8 v.drop_count
                ++ (le_bytes 2 v.pkt_len_min ++ (le_bytes 2 v.pkt_len_max ++ 0 ∷ 0 ∷ 0 ∷ 0 ∷ [])))))

cidr_rule_key_to_bytes-layout :
    (k : CidrRuleKey) → cidr_rule_key_to_bytes k ≡ cidr_rule_key_layout k
unfolding cidr_rule_key_to_bytes cidr_rule_key_layout
cidr_rule_key_to_bytes-layout k = ground arith

rule_value_to_bytes-layout : (v : RuleValue) → rule_value_to_bytes v ≡ rule_value_layout v
unfolding rule_value_to_bytes rule_value_layout
rule_value_to_bytes-layout v = ground arith

ports_written :
    (pre : Bytes) (sp dp proto : ℕ)
    → length pre ≡ 32
    → set (put_uint16 34 dp (put_uint16 32 sp (pre ++ replicate 8 0))) 36 proto
      ≡ pre ++ (le_bytes 2 sp ++ (le_bytes 2 dp ++ proto ∷ 0 ∷ 0 ∷ 0 ∷ []))
unfolding put_uint16 le_bytes
ports_written pre sp dp proto h =
    rw (set-append pre _ 32 0 _ (omega arith), set-append pre _ 33 1 _ (omega arith))
      (rw (set-append pre _ 34 2 _ (omega arith), set-append pre _ 35 3 _ (omega arith))
        (rw (set-append pre _ 36 4 _ (omega arith))))

ips_written :
    (src dst : IpAddr)
    → IsIpAddr src
    → IsIpAddr dst
    → copy_at 16 dst (copy_at 0 src (replicate 40 0)) ≡ (src ++ dst) ++ replicate 8 0
ips_written src dst s d =
    ap (copy_at 16 dst)
      (copy_at-append [] (replicate 16 0) (replicate 24 0) src 0 refl (omega arith))
    ∙ copy_at-append src (replicate 16 0) (replicate 8 0) dst 16 (omega arith) (omega arith)
    ∙ sym (append_assoc src dst (replicate 8 0))

-- The bytes of a well-formed exact key are its addresses, its ports, its protocol and three zeros,
-- in the order and at the widths of the C struct.
pub rule_key_to_bytes-layout : (k : RuleKey) → IsRuleKey k → rule_key_to_bytes k ≡ rule_key_layout k
unfolding rule_key_to_bytes rule_key_layout
rule_key_to_bytes-layout k v =
    ap (λ b. set (put_uint16 34 k.dst_port (put_uint16 32 k.src_port b)) 36 k.protocol)
      (ips_written k.src_ip k.dst_ip v.src_ip v.dst_ip)
    ∙ ports_written (k.src_ip ++ k.dst_ip) k.src_port k.dst_port k.protocol
        (omega (arith, length-append k.src_ip k.dst_ip, v.src_ip, v.dst_ip))
    ∙ append_assoc k.src_ip k.dst_ip _

rule_key_layout-injective :
    (k j : RuleKey) → IsRuleKey k → IsRuleKey j → rule_key_layout k ≡ rule_key_layout j → k ≡ j
unfolding rule_key_layout
rule_key_layout-injective k j v w h =
    let (src, rest) = append_split k.src_ip j.src_ip _ _ (omega (arith, v.src_ip, w.src_ip)) h in
    let (dst, rest') =
      append_split k.dst_ip j.dst_ip _ _ (omega (arith, v.dst_ip, w.dst_ip)) rest in
    ground arith

cidr_rule_key_layout-injective :
    (k j : CidrRuleKey)
    → IsCidrRuleKey k
    → IsCidrRuleKey j
    → cidr_rule_key_layout k ≡ cidr_rule_key_layout j
    → k ≡ j
unfolding cidr_rule_key_layout
cidr_rule_key_layout-injective k j v w h = ground arith

-- Two well-formed exact keys, or two well-formed CIDR keys, have the same bytes only if they are
-- equal: no two rules share an entry of a BPF map.
pub key_bytes_injective :
    ((k j : RuleKey)
      → IsRuleKey k
      → IsRuleKey j
      → rule_key_to_bytes k ≡ rule_key_to_bytes j
      → k ≡ j)
    × ((k j : CidrRuleKey)
        → IsCidrRuleKey k
        → IsCidrRuleKey j
        → cidr_rule_key_to_bytes k ≡ cidr_rule_key_to_bytes j
        → k ≡ j)
key_bytes_injective = (
  λ k j v w h.
      rule_key_layout-injective k j v w
        (sym (rule_key_to_bytes-layout k v) ∙ h ∙ rule_key_to_bytes-layout j w),
  λ k j v w h.
      cidr_rule_key_layout-injective k j v w
        (sym (cidr_rule_key_to_bytes-layout k) ∙ h ∙ cidr_rule_key_to_bytes-layout j),
)
