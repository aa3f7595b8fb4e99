-- ===== src/Driver/Received.antt =====
-- The events of the driver, service/src/driver/converter.rs: `DriverEvent` and `DriverDnsEvent`. An
-- array is the list of its elements. The device behind a drive is a parameter, as is the text of a
-- number or of an IPv6 address.
pub mod Layout
use ceasefire.Prelude.{
  ℕ, zero, suc, ◌+◌, ◌-◌, ◌*◌, ◌/◌, ◌%◌, ◌^◌, ◌≡◌, refl, Bool, true, false, not, ◌&&◌, ◌||◌, List,
  [], ◌∷◌, ◌++◌, Option, none, some, Result, ok, err, ltb, leb, ◌==◌, if◌then◌else◌, length, take,
  drop, replicate, min, same, list_eq, nat_eq,
}
use ceasefire.Text.{Text, codes, to_ascii_lowercase, starts_with, strip_prefix}
use ceasefire.Text.Number.{parse_uint}
use ceasefire.Errors.{ServiceError, driver, buffer_too_small, dns_buffer_too_small}
use ceasefire.Models.{
  NetworkEvent, EventAction, Direction, inbound, outbound, Protocol, tcp, udp, icmp, icmpv6,
}
use ceasefire.Driver.Path.{convert_nt_path_to_dos}

pub record DriverEvent : Type 0 where
  pub timestamp : ℕ
  pub process_id : ℕ
  pub event_type : ℕ
  pub process_path : List ℕ
  pub protocol : ℕ
  pub local_addr : List ℕ
  pub remote_addr : List ℕ
  pub local_port : ℕ
  pub remote_port : ℕ
  pub allowed : ℕ
  pub padding3 : List ℕ
  pub matched_rule_id : ℕ
  pub bytes_sent : ℕ
  pub bytes_received : ℕ
  pub address_family : ℕ
  pub direction : ℕ

pub record DriverDnsEvent : Type 0 where
  pub timestamp : ℕ
  pub process_id : ℕ
  pub remote_addr : List ℕ
  pub address_family : ℕ
  pub data_length : ℕ
  pub data_bytes : List ℕ

-- `from_le_bytes`
unfoldable pub from_le : List ℕ → ℕ
from_le [] = 0
from_le (b ∷ bs) = b + 256 * from_le bs

-- An array of 16-bit numbers.
unfoldable pub wide : ℕ → List ℕ → List ℕ
unfolding from_le
wide zero bytes = []
wide (suc n) bytes = from_le (take 2 bytes) ∷ wide n (drop 2 bytes)

abbrev pub event_size : ℕ
event_size = 606

-- The packed fields, one behind the other.
unfoldable pub read_event : List ℕ → DriverEvent
read_event b0 =
    let b8 = drop 8 b0 in
    let b12 = drop 4 b8 in
    let b16 = drop 4 b12 in
    let b536 = drop 520 b16 in
    let b540 = drop 4 b536 in
    let b556 = drop 16 b540 in
    let b572 = drop 16 b556 in
    let b574 = drop 2 b572 in
    let b576 = drop 2 b574 in
    let b577 = drop 1 b576 in
    let b578 = drop 1 b577 in
    let b582 = drop 4 b578 in
    let b590 = drop 8 b582 in
    let b598 = drop 8 b590 in
    let b602 = drop 4 b598 in
    record {
      timestamp = from_le (take 8 b0);
      process_id = from_le (take 4 b8);
      event_type = from_le (take 4 b12);
      process_path = wide 260 (take 520 b16);
      protocol = from_le (take 4 b536);
      local_addr = take 16 b540;
      remote_addr = take 16 b556;
      local_port = from_le (take 2 b572);
      remote_port = from_le (take 2 b574);
      allowed = from_le (take 1 b576);
      padding3 = take 1 b577;
      matched_rule_id = from_le (take 4 b578);
      bytes_sent = from_le (take 8 b582);
      bytes_received = from_le (take 8 b590);
      address_family = from_le (take 4 b598);
      direction = from_le (take 4 b602);
    }

unfoldable pub event_from_bytes : List ℕ → Result ServiceError DriverEvent
event_from_bytes bytes =
    if ltb (length bytes) event_size then err (driver buffer_too_small) else ok (read_event bytes)

-- The size with the padding behind the fields.
abbrev pub dns_event_size : ℕ
dns_event_size = 552

unfoldable pub dns_event_from_bytes : List ℕ → Result ServiceError DriverDnsEvent
dns_event_from_bytes bytes =
    if ltb (length bytes) dns_event_size
    then err (driver dns_buffer_too_small)
    else (let data_length = from_le (take 2 (drop 32 bytes)) in
        let copied = min data_length 512 in
        ok (record {
          timestamp = from_le (take 8 bytes);
          process_id = from_le (take 4 (drop 8 bytes));
          remote_addr = take 16 (drop 12 bytes);
          address_family = from_le (take 4 (drop 28 bytes));
          data_length = data_length;
          data_bytes = take copied (drop 34 bytes) ++ replicate (512 - copied) 0;
        }))

-- `String::from_utf16`
unfoldable pub from_utf16 : List ℕ → Option Text
from_utf16 [] = some []
from_utf16 (u ∷ []) = if leb 0xd800 u && leb u 0xdfff then none else some (u ∷ [])
from_utf16 (u ∷ v ∷ us) =
    let single = from_utf16 (v ∷ us) in
    let pair = from_utf16 us in
    if not (leb 0xd800 u && leb u 0xdfff)
    then (elim single [ none ↦ none | some s ↦ some (u ∷ s) ])
    else if leb u 0xdbff && leb 0xdc00 v && leb v 0xdfff
    then (elim pair [
      | none ↦ none
      | some s ↦ some ((0x10000 + (u - 0xd800) * 0x400 + (v - 0xdc00)) ∷ s)
    ])
    else none

-- What stands in front of the first 0.
before_null : List ℕ → List ℕ
before_null [] = []
before_null (c ∷ cs) = if c == 0 then [] else c ∷ before_null cs

wchar_to_string : List ℕ → Option Text
unfolding before_null
wchar_to_string wchars =
    let text = before_null wchars in if length text == 0 then none else from_utf16 text

module _ (decimal : ℕ → Text) where
  -- `format!("{}.{}.{}.{}", ...)`
  unfoldable pub format_v4_bytes : List ℕ → Text
  format_v4_bytes buf =
      let v = from_le (take 4 buf) in
      decimal (v / 2 ^ 24 % 256)
      ++ codes "."
      ++ decimal (v / 2 ^ 16 % 256)
      ++ codes "."
      ++ decimal (v / 2 ^ 8 % 256)
      ++ codes "."
      ++ decimal (v % 256)

  event_protocol : ℕ → Protocol
  event_protocol n =
      if n == 6
      then tcp
      else if n == 17
      then udp
      else if n == 1
      then icmp
      else if n == 58
      then icmpv6
      else Protocol.any

  event_action : DriverEvent → EventAction
  event_action e =
      if e.event_type == 1
      then EventAction.close
      else if e.allowed == 0
      then EventAction.block
      else EventAction.allow

  nonzero : ℕ → Option ℕ
  nonzero n = if n == 0 then none else some n

  and_then : Option Text → (Text → Option Text) → Option Text
  and_then none f = none
  and_then (some s) f = f s

  event_addr : (List ℕ → Text) → ℕ → List ℕ → Text
  event_addr v6_text family buf = if family == 6 then v6_text buf else format_v4_bytes buf

  -- `now` is the clock's, `v6_text` the text of an `Ipv6Addr`, `file_name` that of `Path`.
  unfoldable pub to_network_event :
      (List ℕ → Text)
      → (Text → Option Text)
      → List (ℕ × List Text)
      → Text
      → DriverEvent
      → NetworkEvent
  unfolding event_protocol event_action nonzero and_then event_addr wchar_to_string
  to_network_event v6_text file_name drives now e =
      let process_path =
        and_then (wchar_to_string e.process_path) (convert_nt_path_to_dos decimal drives) in
      record {
        timestamp = now;
        action = event_action e;
        local_addr = event_addr v6_text e.address_family e.local_addr;
        local_port = e.local_port;
        remote_addr = event_addr v6_text e.address_family e.remote_addr;
        remote_port = e.remote_port;
        protocol = event_protocol e.protocol;
        direction = if e.direction == 1 then inbound else outbound;
        process_id = some e.process_id;
        process_name = and_then process_path file_name;
        process_path = process_path;
        bytes_sent = nonzero e.bytes_sent;
        bytes_received = nonzero e.bytes_received;
        packets_sent = none;
        packets_received = none;
        rule_id = nonzero e.matched_rule_id;
      }
