-- ===== src/Driver/Converter.antt =====
-- `DriverRuleInput::from_rule` of service/src/driver/converter.rs: a rule as the driver's record. An
-- array is the list of its elements. The device that Windows names for a drive is a parameter.
pub mod Accepts
use ceasefire.Prelude.{
  ℕ, zero, suc, ◌+◌, ◌-◌, ◌*◌, ◌/◌, ◌%◌, ◌^◌, ◌≡◌, refl, Bool, true, false, ◌&&◌, ◌||◌, List, [],
  ◌∷◌, ◌++◌, Option, none, some, Result, ok, err, ◌>>=◌, ltb, leb, ◌==◌, if◌then◌else◌, length,
  take, drop, replicate, unwrap_or, min,
}
use ceasefire.Text.{Text, rsplit_once}
use ceasefire.Text.Number.{parse_uint}
use ceasefire.Net.{IpAddr, v4, v6}
use ceasefire.Net.Parse.{parse_ip}
use ceasefire.Errors.{
  ServiceError, Message, validation, invalid_address_prefix, ipv4_prefix_out_of_range,
  ipv6_prefix_out_of_range, invalid_remote_address,
}
use ceasefire.Models.{
  Rule, RuleAction, allow, block, Direction, both, inbound, outbound, Protocol, any, tcp, udp, icmp,
  icmpv6, PortRange, single, range,
}

pub record DriverRuleInput : Type 0 where
  pub rule_id : ℕ
  pub priority : ℕ
  pub enabled : ℕ
  pub is_allow : ℕ
  pub process_id : ℕ
  pub process_path : List ℕ
  pub protocol : ℕ
  pub remote_addr : List ℕ
  pub remote_addr_mask : List ℕ
  pub address_family : ℕ
  pub remote_port : ℕ
  pub local_port : ℕ
  pub direction : ℕ
  pub remote_port_end : ℕ
  pub local_port_end : ℕ

-- `str::encode_utf16`
encode_utf16 : Text → List ℕ
encode_utf16 [] = []
encode_utf16 (c ∷ s) =
    let rest = encode_utf16 s in
    if ltb c 0x10000
    then c ∷ rest
    else (0xd800 + (c - 0x10000) / 0x400) ∷ (0xdc00 + (c - 0x10000) % 0x400) ∷ rest

-- `to_le_bytes` of the lowest octets.
unfoldable pub le_bytes : ℕ → ℕ → List ℕ
le_bytes zero v = []
le_bytes (suc n) v = (v % 256) ∷ le_bytes n (v / 256)

-- `octets` of an address with that many octets.
be_bytes : ℕ → ℕ → List ℕ
be_bytes zero v = []
be_bytes (suc n) v = (v / 256 ^ n % 256) ∷ be_bytes n v

pad : ℕ → List ℕ → List ℕ
pad n l = l ++ replicate (n - length l) 0

abbrev pub is_ascii_alphabetic : ℕ → Bool
is_ascii_alphabetic c = (leb b'A' c && leb c b'Z') || (leb b'a' c && leb c b'z')

has_drive : Text → Bool
has_drive (c ∷ d ∷ rest) = is_ascii_alphabetic c && d == b':'
has_drive _ = false

on_device : Text → Option Text → Option Text
on_device path none = none
on_device path (some device) = some (device ++ drop 2 path)

-- `query` is `QueryDosDeviceW`.
unfoldable pub convert_dos_path_to_nt : (Text → Option Text) → Text → Option Text
unfolding has_drive on_device
convert_dos_path_to_nt query path =
    if has_drive path then on_device path (query (take 2 path)) else some path

path_buffer : (Text → Option Text) → Option Text → List ℕ
unfolding convert_dos_path_to_nt encode_utf16 pad
path_buffer query none = replicate 260 0
path_buffer query (some path) =
    pad 260 (take 259 (encode_utf16 (unwrap_or path (convert_dos_path_to_nt query path))))

-- The three fields of an address: its octets, those of its mask, and its family.
abbrev pub Wire : Type 0
Wire = List ℕ × List ℕ × ℕ

mask_v4 : ℕ → ℕ
mask_v4 bits = if bits == 0 then 0 else (2 ^ 32 - 1) * 2 ^ (32 - bits) % 2 ^ 32

v6_mask : ℕ → List ℕ
v6_mask bits =
    let full = bits / 8 in
    let rest = bits % 8 in
    pad 16 (
      replicate full 0xff
      ++ (if ltb full 16 && ltb 0 rest then (0xff * 2 ^ (8 - rest) % 256) ∷ [] else []))

wire_addr : Option ℕ → Option IpAddr → Result ServiceError Wire
unfolding mask_v4 v6_mask le_bytes be_bytes pad
wire_addr bits none = err (validation invalid_remote_address)
wire_addr bits (some (v4 value)) =
    let b = unwrap_or 32 bits in
    if ltb 32 b
    then err (validation ipv4_prefix_out_of_range)
    else ok (pad 16 (le_bytes 4 value), pad 16 (le_bytes 4 (mask_v4 b)), 4)
wire_addr bits (some (v6 value)) =
    let b = unwrap_or 128 bits in
    if ltb 128 b
    then err (validation ipv6_prefix_out_of_range)
    else ok (be_bytes 16 value, v6_mask b, 6)

-- `prefix.or(mask)`, behind the parse of the prefix.
prefixed_addr : Text → Option ℕ → Result ServiceError Wire
unfolding wire_addr
prefixed_addr ip none = err (validation invalid_address_prefix)
prefixed_addr ip (some prefix) = wire_addr (some prefix) (parse_ip ip)

addr_parts : Text → Option ℕ → Option (Text × Text) → Result ServiceError Wire
unfolding prefixed_addr wire_addr
addr_parts addr mask none = wire_addr mask (parse_ip addr)
addr_parts addr mask (some (ip, p)) = prefixed_addr ip (parse_uint 255 p)

convert_addr : Option Text → Option ℕ → Result ServiceError Wire
unfolding addr_parts
convert_addr none mask = ok (replicate 16 0, replicate 16 0, 0)
convert_addr (some addr) mask = addr_parts addr mask (rsplit_once b'/' addr)

protocol_number : Option Protocol → ℕ
protocol_number none = 0
protocol_number (some tcp) = 6
protocol_number (some udp) = 17
protocol_number (some icmp) = 1
protocol_number (some icmpv6) = 58
protocol_number (some any) = 0

port_bounds : Option PortRange → ℕ × ℕ
port_bounds none = (0, 0)
port_bounds (some (single p)) = (p, p)
port_bounds (some (range start end)) = (start, end)

direction_number : Direction → ℕ
direction_number both = 0
direction_number inbound = 1
direction_number outbound = 2

allow_number : RuleAction → ℕ
allow_number allow = 1
allow_number block = 0

driver_input : (Text → Option Text) → Rule → Wire → DriverRuleInput
unfolding path_buffer protocol_number port_bounds direction_number allow_number
driver_input query rule (addr, mask, family) = record {
  rule_id = unwrap_or 0 rule.id;
  priority = rule.priority;
  enabled = if rule.enabled then 1 else 0;
  is_allow = allow_number rule.action;
  process_id = unwrap_or 0 rule.process_id;
  process_path = path_buffer query rule.process_path;
  protocol = protocol_number rule.protocol;
  remote_addr = addr;
  remote_addr_mask = mask;
  address_family = family;
  remote_port = (port_bounds rule.remote_port).0;
  local_port = (port_bounds rule.local_port).0;
  direction = direction_number rule.direction;
  remote_port_end = (port_bounds rule.remote_port).1;
  local_port_end = (port_bounds rule.local_port).1;
}

unfoldable pub from_rule : (Text → Option Text) → Rule → Result ServiceError DriverRuleInput
unfolding convert_addr driver_input
from_rule query rule = convert_addr rule.remote_addr rule.remote_addr_mask >>= λ wire.
    ok (driver_input query rule wire)
