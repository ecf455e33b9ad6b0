-- ===== src/Agent/Combo.antt =====
-- node/agent/api/combo.go: the combo type of a rule key, by which fields it sets. The numbers are
-- those of the combo bitmap that the XDP program reads.
pub mod Types
pub mod Fields
use xdrop.Prelude.{
  ℕ, Bool, true, false, not, ◌&&◌, ◌||◌, [], ◌∷◌, Option, none, some, ◌==◌, if◌then◌else◌,
}
use xdrop.Prelude.Int.{ℤ, pos, negsuc, ltb_ℤ}
use xdrop.Agent.Types.{IpAddr, RuleKey, CidrRuleKey}
use Types.{
  combo_unknown, combo_bitmap_size, combo_exact5_tuple, combo_wildcard_src_ip,
  combo_wildcard_src_ip_port, combo_dst_ip_proto, combo_dst_ip_only, combo_proto_only,
  combo_src_port_only, combo_dst_port_only, combo_src_ip_only, combo_src_ip_proto, combo_src_dst_ip,
  combo_src_ip_dst_port, combo_dst_ip_dst_port, combo_src_dst_ip_proto, combo_src_ip_dst_port_proto,
  combo_src_port_proto, combo_dst_port_proto, combo_src_ip_src_port, combo_src_ip_src_port_proto,
  combo_dst_ip_dst_port_proto, combo_src_dst_ip_dst_port, combo_src_dst_ip_dst_port_proto,
  combo_src_ip_ports, combo_src_ip_ports_proto, combo_dst_ip_src_port, combo_dst_ip_src_port_proto,
  combo_ports_only, combo_ports_proto, combo_src_dst_ip_src_port, combo_src_dst_ip_src_port_proto,
  combo_dst_ip_ports, combo_dst_ip_ports_proto, combo_all_except_proto,
}

pub data ComboError : Type 0 where
  not_recognized out_of_range : ComboError

-- `nil` is `none`
-- `comboType == ComboUnknown`
abbrev is_unknown : ℤ → Bool
is_unknown (pos n) = false
is_unknown (negsuc n) = n == 0

unfoldable pub validate_combo_type : ℤ → Option ComboError
validate_combo_type combo_type =
    if is_unknown combo_type
    then some not_recognized
    else if ltb_ℤ combo_type (pos 0) || not (ltb_ℤ combo_type (pos combo_bitmap_size))
    then some out_of_range
    else none

unfoldable pub is_zero_ip : IpAddr → Bool
is_zero_ip [] = true
is_zero_ip (b ∷ ip) = let rest = is_zero_ip ip in if not (b == 0) then false else rest

-- The `switch` of `getComboType`, case by case and in its order.
unfoldable pub combo_switch : Bool → Bool → Bool → Bool → Bool → ℤ
combo_switch has_src has_dst has_src_port has_dst_port has_proto =
    if has_src && has_dst && has_src_port && has_dst_port && has_proto
    then combo_exact5_tuple
    else if not has_src && has_dst && has_src_port && has_dst_port && has_proto
    then combo_wildcard_src_ip
    else if not has_src && has_dst && not has_src_port && has_dst_port && has_proto
    then combo_wildcard_src_ip_port
    else if not has_src && has_dst && not has_src_port && not has_dst_port && has_proto
    then combo_dst_ip_proto
    else if not has_src && has_dst && not has_src_port && not has_dst_port && not has_proto
    then combo_dst_ip_only
    else if not has_src && not has_dst && not has_src_port && not has_dst_port && has_proto
    then combo_proto_only
    else if not has_src && not has_dst && has_src_port && not has_dst_port && not has_proto
    then combo_src_port_only
    else if not has_src && not has_dst && not has_src_port && has_dst_port && not has_proto
    then combo_dst_port_only
    else if has_src && not has_dst && not has_src_port && not has_dst_port && not has_proto
    then combo_src_ip_only
    else if has_src && not has_dst && not has_src_port && not has_dst_port && has_proto
    then combo_src_ip_proto
    else if has_src && has_dst && not has_src_port && not has_dst_port && not has_proto
    then combo_src_dst_ip
    else if has_src && not has_dst && not has_src_port && has_dst_port && not has_proto
    then combo_src_ip_dst_port
    else if not has_src && has_dst && not has_src_port && has_dst_port && not has_proto
    then combo_dst_ip_dst_port
    else if has_src && has_dst && not has_src_port && not has_dst_port && has_proto
    then combo_src_dst_ip_proto
    else if has_src && not has_dst && not has_src_port && has_dst_port && has_proto
    then combo_src_ip_dst_port_proto
    else if not has_src && not has_dst && has_src_port && not has_dst_port && has_proto
    then combo_src_port_proto
    else if not has_src && not has_dst && not has_src_port && has_dst_port && has_proto
    then combo_dst_port_proto
    else if has_src && not has_dst && has_src_port && not has_dst_port && not has_proto
    then combo_src_ip_src_port
    else if has_src && not has_dst && has_src_port && not has_dst_port && has_proto
    then combo_src_ip_src_port_proto
    else if not has_src && has_dst && not has_src_port && has_dst_port && has_proto
    then combo_dst_ip_dst_port_proto
    else if has_src && has_dst && not has_src_port && has_dst_port && not has_proto
    then combo_src_dst_ip_dst_port
    else if has_src && has_dst && not has_src_port && has_dst_port && has_proto
    then combo_src_dst_ip_dst_port_proto
    else if has_src && not has_dst && has_src_port && has_dst_port && not has_proto
    then combo_src_ip_ports
    else if has_src && not has_dst && has_src_port && has_dst_port && has_proto
    then combo_src_ip_ports_proto
    else if not has_src && has_dst && has_src_port && not has_dst_port && not has_proto
    then combo_dst_ip_src_port
    else if not has_src && has_dst && has_src_port && not has_dst_port && has_proto
    then combo_dst_ip_src_port_proto
    else if not has_src && not has_dst && has_src_port && has_dst_port && not has_proto
    then combo_ports_only
    else if not has_src && not has_dst && has_src_port && has_dst_port && has_proto
    then combo_ports_proto
    else if has_src && has_dst && has_src_port && not has_dst_port && not has_proto
    then combo_src_dst_ip_src_port
    else if has_src && has_dst && has_src_port && not has_dst_port && has_proto
    then combo_src_dst_ip_src_port_proto
    else if not has_src && has_dst && has_src_port && has_dst_port && not has_proto
    then combo_dst_ip_ports
    else if not has_src && has_dst && has_src_port && has_dst_port && has_proto
    then combo_dst_ip_ports_proto
    else if has_src && has_dst && has_src_port && has_dst_port && not has_proto
    then combo_all_except_proto
    else combo_unknown

-- The `switch` of `getCIDRComboType`, case by case and in its order.
unfoldable pub cidr_combo_switch : Bool → Bool → Bool → Bool → Bool → ℤ
cidr_combo_switch has_src has_dst has_src_port has_dst_port has_proto =
    if has_src && has_dst && has_src_port && has_dst_port && has_proto
    then combo_exact5_tuple
    else if not has_src && has_dst && has_src_port && has_dst_port && has_proto
    then combo_wildcard_src_ip
    else if not has_src && has_dst && not has_src_port && has_dst_port && has_proto
    then combo_wildcard_src_ip_port
    else if not has_src && has_dst && not has_src_port && not has_dst_port && has_proto
    then combo_dst_ip_proto
    else if not has_src && has_dst && not has_src_port && not has_dst_port && not has_proto
    then combo_dst_ip_only
    else if not has_src && not has_dst && not has_src_port && not has_dst_port && has_proto
    then combo_proto_only
    else if not has_src && not has_dst && has_src_port && not has_dst_port && not has_proto
    then combo_src_port_only
    else if not has_src && not has_dst && not has_src_port && has_dst_port && not has_proto
    then combo_dst_port_only
    else if has_src && not has_dst && not has_src_port && not has_dst_port && not has_proto
    then combo_src_ip_only
    else if has_src && not has_dst && not has_src_port && not has_dst_port && has_proto
    then combo_src_ip_proto
    else if has_src && has_dst && not has_src_port && not has_dst_port && not has_proto
    then combo_src_dst_ip
    else if has_src && not has_dst && not has_src_port && has_dst_port && not has_proto
    then combo_src_ip_dst_port
    else if not has_src && has_dst && not has_src_port && has_dst_port && not has_proto
    then combo_dst_ip_dst_port
    else if has_src && has_dst && not has_src_port && not has_dst_port && has_proto
    then combo_src_dst_ip_proto
    else if has_src && not has_dst && not has_src_port && has_dst_port && has_proto
    then combo_src_ip_dst_port_proto
    else if not has_src && not has_dst && has_src_port && not has_dst_port && has_proto
    then combo_src_port_proto
    else if not has_src && not has_dst && not has_src_port && has_dst_port && has_proto
    then combo_dst_port_proto
    else if has_src && not has_dst && has_src_port && not has_dst_port && not has_proto
    then combo_src_ip_src_port
    else if has_src && not has_dst && has_src_port && not has_dst_port && has_proto
    then combo_src_ip_src_port_proto
    else if not has_src && has_dst && not has_src_port && has_dst_port && has_proto
    then combo_dst_ip_dst_port_proto
    else if has_src && has_dst && not has_src_port && has_dst_port && not has_proto
    then combo_src_dst_ip_dst_port
    else if has_src && has_dst && not has_src_port && has_dst_port && has_proto
    then combo_src_dst_ip_dst_port_proto
    else if has_src && not has_dst && has_src_port && has_dst_port && not has_proto
    then combo_src_ip_ports
    else if has_src && not has_dst && has_src_port && has_dst_port && has_proto
    then combo_src_ip_ports_proto
    else if not has_src && has_dst && has_src_port && not has_dst_port && not has_proto
    then combo_dst_ip_src_port
    else if not has_src && has_dst && has_src_port && not has_dst_port && has_proto
    then combo_dst_ip_src_port_proto
    else if not has_src && not has_dst && has_src_port && has_dst_port && not has_proto
    then combo_ports_only
    else if not has_src && not has_dst && has_src_port && has_dst_port && has_proto
    then combo_ports_proto
    else if has_src && has_dst && has_src_port && not has_dst_port && not has_proto
    then combo_src_dst_ip_src_port
    else if has_src && has_dst && has_src_port && not has_dst_port && has_proto
    then combo_src_dst_ip_src_port_proto
    else if not has_src && has_dst && has_src_port && has_dst_port && not has_proto
    then combo_dst_ip_ports
    else if not has_src && has_dst && has_src_port && has_dst_port && has_proto
    then combo_dst_ip_ports_proto
    else if has_src && has_dst && has_src_port && has_dst_port && not has_proto
    then combo_all_except_proto
    else combo_unknown

unfoldable pub get_combo_type : RuleKey → ℤ
unfolding is_zero_ip combo_switch
get_combo_type key =
    combo_switch (not (is_zero_ip key.src_ip)) (not (is_zero_ip key.dst_ip))
      (not (key.src_port == 0)) (not (key.dst_port == 0)) (not (key.protocol == 0))

unfoldable pub get_cidr_combo_type : CidrRuleKey → ℤ
unfolding cidr_combo_switch
get_cidr_combo_type key =
    cidr_combo_switch (not (key.src_id == 0)) (not (key.dst_id == 0)) (not (key.src_port == 0))
      (not (key.dst_port == 0)) (not (key.protocol == 0))
