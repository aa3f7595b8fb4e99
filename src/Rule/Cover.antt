-- ===== src/Rule/Cover.antt =====
-- The duplicate and coverage tests of service/src/rule/manager.rs, by which a new rule is merged
-- into an existing one.
pub mod Sound
pub mod Gap
use ceasefire.Prelude.{
  ℕ, Bool, true, false, ◌&&◌, ◌||◌, Option, none, some, Result, ok, err, ltb, leb, ◌==◌, same, Eq,
  nat_eq, list_eq, option_eq, if◌then◌else◌,
}
use ceasefire.Text.{Text, contains_char, ends_with}
use ceasefire.Net.{IpAddr}
use ceasefire.Net.Parse.{parse_ip}
use ceasefire.Errors.{ServiceError}
use ceasefire.Models.{
  Rule, PortRange, single, range, Direction, both, Protocol, any, direction_eq, protocol_eq,
  port_range_eq, network_zone_eq,
}
use ceasefire.Rule.Cidr.{validate_cidr, family_bits, same_network}

unfoldable pub same_effective_fields : Rule → Rule → Bool
same_effective_fields a b =
    same a.direction b.direction
    && same a.protocol b.protocol
    && same a.process_path b.process_path
    && same a.process_id b.process_id
    && same a.remote_addr b.remote_addr
    && same a.remote_addr_mask b.remote_addr_mask
    && same a.remote_domain b.remote_domain
    && same a.remote_port b.remote_port
    && same a.local_addr b.local_addr
    && same a.local_addr_mask b.local_addr_mask
    && same a.local_port b.local_port
    && same a.network_zone b.network_zone
    && same a.app_group_id b.app_group_id

unfoldable pub with_mask : Option ℕ → Option IpAddr → Option (IpAddr × ℕ)
with_mask mask none = none
with_mask none (some ip) = some (ip, family_bits ip)
with_mask (some m) (some ip) = some (ip, m)

unfoldable pub ok_part : Result ServiceError (IpAddr × ℕ) → Option (IpAddr × ℕ)
ok_part (ok p) = some p
ok_part (err e) = none

-- The closure `parse_field`: the network that an address field stands for.
unfoldable pub parse_field : Text → Option ℕ → Option (IpAddr × ℕ)
unfolding with_mask ok_part
parse_field addr mask =
    if contains_char b'/' addr then ok_part (validate_cidr addr) else with_mask mask (parse_ip addr)

covers_parsed : Option (IpAddr × ℕ) → Option (IpAddr × ℕ) → Bool
covers_parsed (some (bip, bmask)) (some (nip, nmask)) =
    if ltb nmask bmask then false else same_network bip bmask nip
covers_parsed _ _ = false

unfoldable pub addr_field_covers : Option Text → Option ℕ → Option Text → Option ℕ → Bool
unfolding covers_parsed
addr_field_covers broad_addr broad_mask none narrow_mask = true
addr_field_covers none broad_mask (some narrow_addr) narrow_mask = false
addr_field_covers (some broad_addr) broad_mask (some narrow_addr) narrow_mask =
    covers_parsed (parse_field broad_addr broad_mask) (parse_field narrow_addr narrow_mask)

unfoldable pub port_covers : Option PortRange → Option PortRange → Bool
port_covers none narrow = true
port_covers (some b) none = false
port_covers (some (single a)) (some (single b)) = a == b
port_covers (some (range s e)) (some (range ns ne)) = leb s ns && leb ne e
port_covers (some (range s e)) (some (single p)) = leb s p && leb p e
port_covers (some (single a)) (some (range ns ne)) = false

unfoldable pub covers_opt {ℓ} : {A : Type ℓ} ⦃e : Eq A⦄ → Option A → Option A → Bool
covers_opt none narrow = true
covers_opt (some b) narrow = same narrow (some b)

unfoldable pub direction_covers : Direction → Direction → Bool
direction_covers b n = same b both || same b n

unfoldable pub protocol_covers : Option Protocol → Option Protocol → Bool
protocol_covers none narrow = true
protocol_covers (some p) narrow = if same p any then true else same (some p) narrow

module _ (lower : Text → Text) where
  unfoldable pub path_covers : Option Text → Option Text → Bool
  path_covers none narrow = true
  path_covers (some b) none = false
  path_covers (some b) (some n) = ends_with (lower b) (lower n)

  unfoldable pub matchset_covers : Rule → Rule → Bool
  matchset_covers broad narrow =
      direction_covers broad.direction narrow.direction
      && protocol_covers broad.protocol narrow.protocol
      && path_covers broad.process_path narrow.process_path
      && covers_opt broad.process_id narrow.process_id
      && covers_opt broad.network_zone narrow.network_zone
      && covers_opt broad.app_group_id narrow.app_group_id
      && same broad.remote_domain narrow.remote_domain
      && addr_field_covers broad.remote_addr broad.remote_addr_mask narrow.remote_addr
          narrow.remote_addr_mask
      && addr_field_covers broad.local_addr broad.local_addr_mask narrow.local_addr
          narrow.local_addr_mask
      && port_covers broad.remote_port narrow.remote_port
      && port_covers broad.local_port narrow.local_port
