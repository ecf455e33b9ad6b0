-- ===== src/Agent/Listing/Entries.antt =====
-- Whitelist entries of node/agent/api/convert.go that are listed and sent back to the agent.
use Prim.Native.Nat.{ℕ, ◌<◌}
use Prim.Native.String.{String}
use xdrop.Prelude.{some, none, ◌≡◌, ◌⊎◌, inl, inr, refl, sym, ap, ◌∙◌, Option-cases}
use xdrop.Agent.Types.{RuleKey, WhitelistEntry}
use xdrop.Agent.Validate.{Result, ok, err, ValidateError, parse_protocol_strict, htons, ntohs}
use xdrop.Agent.Convert.{whitelist_to_key, side_addr}
use xdrop.Agent.Listing.{key_to_whitelist}
use xdrop.Agent.Listing.Sides.{IsV4, side_addr-ip_addr_to_string}
use xdrop.Agent.Listing.Sent.{named_protocol, port_back, key_equal}

Result-cases : (r : Result ℕ) → ((e : ValidateError) × (r ≡ err e)) ⊎ ((p : ℕ) × (r ≡ ok p))
Result-cases (err e) = inl (e, refl)
Result-cases (ok p) = inr (p, refl)

-- what the key has of the entry
key_parts :
    (w : WhitelistEntry) (key : RuleKey)
    → whitelist_to_key w ≡ some key
    → (key.src_port ≡ htons w.src_port)
      × (key.dst_port ≡ htons w.dst_port)
      × (parse_protocol_strict w.protocol ≡ ok key.protocol)
unfolding whitelist_to_key
key_parts w key made = elim (Option-cases (side_addr w.src_ip)) [
  | inl no_src ↦ (let never : none ≡ some key = rw (no_src, whitelist_to_key) at made in cc)
  | inr (src, src_found) ↦ elim (Option-cases (side_addr w.dst_ip)) [
    | inl no_dst ↦
        (let never : none ≡ some key = rw (src_found, no_dst, whitelist_to_key) at made in cc)
    | inr (dst, dst_found) ↦ elim (Result-cases (parse_protocol_strict w.protocol)) [
      | inl (e, unknown) ↦
          (let never : none ≡ some key =
              rw (src_found, dst_found, unknown, whitelist_to_key) at made in
            cc)
      | inr (p, named) ↦
          let same = key_equal _ key (rw (src_found, dst_found, named, whitelist_to_key) at made) in
          (
            ap (λ k. k.src_port) (sym same),
            ap (λ k. k.dst_port) (sym same),
            named ∙ ap (λ k. ok k.protocol) same,
          )
    ]
  ]
]

-- An entry with ports of 16 bits and with addresses that are absent or of IPv4 and not 0.0.0.0, once it is
-- accepted, is listed as an entry of the same id that the agent, if it is sent back, takes for the same
-- key.
pub whitelist_to_key-key_to_whitelist :
    (id : String) (w : WhitelistEntry) (key : RuleKey)
    → whitelist_to_key w ≡ some key
    → w.src_port < 65536
    → w.dst_port < 65536
    → IsV4 key.src_ip
    → IsV4 key.dst_ip
    → ((key_to_whitelist id key).id ≡ id) × (whitelist_to_key (key_to_whitelist id key) ≡ some key)
unfolding whitelist_to_key key_to_whitelist
whitelist_to_key-key_to_whitelist id w key made src dst src_v4 dst_v4 =
    let parts = key_parts w key made in
    let src_port : htons (ntohs key.src_port) ≡ key.src_port = port_back w.src_port _ src parts.0 in
    let dst_port : htons (ntohs key.dst_port) ≡ key.dst_port = port_back w.dst_port _ dst parts.1 in
    let protocol = named_protocol w.protocol key.protocol parts.2 in
    let src_side = side_addr-ip_addr_to_string key.src_ip src_v4 in
    let dst_side = side_addr-ip_addr_to_string key.dst_ip dst_v4 in
    (refl, rw (src_side, dst_side, protocol, src_port, dst_port, whitelist_to_key) refl)
