-- ===== src/Rule/Match.antt =====
-- Matching a connection against one rule: `matches_rule`, `address_matches` and
-- `network_zone_matches` of service/src/rule/manager.rs.
pub mod Address
use ceasefire.Prelude.{
  ℕ, ◌-◌, ◌/◌, ◌^◌, Bool, true, false, not, ◌&&◌, ◌||◌, List, [], ◌∷◌, ◌++◌, map, Option, none,
  some, Result, ok, err, ltb, leb, ◌==◌, same, nat_eq, list_eq, option_eq, if◌then◌else◌, any, keep,
  find, is_empty, is_some,
}
use ceasefire.Text.{Text, contains_char, contains}
use ceasefire.Net.{IpAddr, v4, v6}
use ceasefire.Net.Parse.{parse_ip}
use ceasefire.Net.Prefix.{clear_low}
use ceasefire.Errors.{ServiceError}
use ceasefire.Models.{
  Rule, ConnectionInfo, PortRange, NetworkZone, internet, localhost, lan, Direction, Protocol,
  direction_eq, protocol_eq,
}
use ceasefire.Models.Ports.{matches}
use ceasefire.Rule.Cidr.{cidr_matches, masked_v6}

-- `x & mask` with the mask `0`, `!0u32` from 32 bits on, and `!0u32 << (32 - bits)` between.
unfoldable pub capped_v4 : ℕ → ℕ → ℕ
capped_v4 bits x = if bits == 0 then 0 else if leb 32 bits then x else clear_low (32 - bits) x

unfoldable pub in_network : IpAddr → Option ℕ → IpAddr → Bool
unfolding capped_v4
in_network (v4 rule) (some bits) (v4 conn) = capped_v4 bits rule == capped_v4 bits conn
in_network (v4 rule) none (v4 conn) = rule == conn
in_network (v6 rule) (some bits) (v6 conn) = masked_v6 bits rule == masked_v6 bits conn
in_network (v6 rule) none (v6 conn) = rule == conn
in_network _ mask _ = false

both_parsed : Option ℕ → Option IpAddr → Option IpAddr → Bool
both_parsed mask (some rule) (some conn) = in_network rule mask conn
both_parsed mask _ _ = false

-- `unwrap_or(false)`
or_false : Result ServiceError Bool → Bool
or_false (ok b) = b
or_false (err e) = false

unfoldable pub address_matches : Text → Option ℕ → Text → Bool
unfolding both_parsed or_false
address_matches rule_addr mask conn_addr =
    if contains_char b'/' rule_addr
    then or_false (cidr_matches rule_addr conn_addr)
    else both_parsed mask (parse_ip rule_addr) (parse_ip conn_addr)

-- `Ipv4Addr::is_loopback`, `is_private` and `is_link_local`, and the tests of `v6_is_lan`.
abbrev pub v4_is_loopback : ℕ → Bool
v4_is_loopback x = x / 2 ^ 24 == 127

abbrev pub v4_is_private : ℕ → Bool
v4_is_private x = x / 2 ^ 24 == 10 || x / 2 ^ 20 == 0xac1 || x / 2 ^ 16 == 0xc0a8

abbrev pub v4_is_link_local : ℕ → Bool
v4_is_link_local x = x / 2 ^ 16 == 0xa9fe

abbrev pub v6_is_lan : ℕ → Bool
v6_is_lan x = x / 2 ^ 121 == 0x7e || x / 2 ^ 118 == 0x3fa

unfoldable pub zone_of_ip : NetworkZone → IpAddr → Bool
zone_of_ip localhost (v4 x) = v4_is_loopback x
zone_of_ip localhost (v6 x) = x == 1
zone_of_ip lan (v4 x) = v4_is_private x || v4_is_link_local x
zone_of_ip lan (v6 x) = v6_is_lan x
zone_of_ip internet (v4 x) = not (v4_is_loopback x || v4_is_private x || v4_is_link_local x)
zone_of_ip internet (v6 x) = not (x == 1 || v6_is_lan x)

zone_of_parsed : NetworkZone → Option IpAddr → Bool
zone_of_parsed zone none = false
zone_of_parsed zone (some ip) = zone_of_ip zone ip

unfoldable pub network_zone_matches : NetworkZone → Text → Bool
unfolding zone_of_parsed
network_zone_matches zone addr = zone_of_parsed zone (parse_ip addr)

-- A condition that is absent holds.
unfoldable pub holds {ℓ} : {A : Type ℓ} → Option A → (A → Bool) → Bool
holds none p = true
holds (some a) p = p a

unfoldable pub protocol_matches : Option Protocol → Protocol → Bool
protocol_matches none p = true
protocol_matches (some r) p = same r Protocol.any || same r p

unfoldable pub direction_matches : Direction → Direction → Bool
direction_matches r d = same r Direction.both || same r d

-- `process_name.map(|n| n.contains(rule_path)) == Some(true)`
unfoldable pub name_contains : Option Text → Text → Bool
name_contains none path = false
name_contains (some name) path = contains path name

-- The early returns of `matches_rule`, in their order.
unfoldable pub matches_rule : Rule → ConnectionInfo → Bool
matches_rule rule c =
    not (is_some rule.remote_domain)
    && protocol_matches rule.protocol c.protocol
    && direction_matches rule.direction c.direction
    && holds rule.remote_addr (λ a. address_matches a rule.remote_addr_mask c.remote_addr)
    && holds rule.local_addr (λ a. address_matches a rule.local_addr_mask c.local_addr)
    && holds rule.remote_port (λ r. matches r c.remote_port)
    && holds rule.local_port (λ r. matches r c.local_port)
    && holds rule.process_path (λ p. name_contains c.process_name p)
    && holds rule.process_id (λ i. same c.process_id (some i))
    && holds rule.network_zone (λ z. network_zone_matches z c.remote_addr)
