-- ===== src/Connections.antt =====
-- `ConnectionTracker` of service/src/connection/tracker.rs: the connections by key, and the counters.
-- A time is its RFC 3339 text, a parameter of each operation that reads the clock.
pub mod Update
pub mod Totals
use ceasefire.Prelude.{
  ℕ, ◌+◌, ◌-◌, ◌^◌, ◌%◌, Bool, true, false, List, [], ◌∷◌, map, Option, none, some, ltb,
  if◌then◌else◌, min, length, keep, same, nat_eq, option_eq, unwrap_or, ◌==◌,
}
use ceasefire.Prelude.Table.{Table, lookup, insert, remove}
use ceasefire.Text.{Text, codes}
use ceasefire.Models.{
  ConnectionInfo, ConnectionKey, NetworkEvent, EventAction, allow, block, close, established,
  GlobalStats, ProcessStats, Protocol, connection_key_eq,
}

abbrev pub max_u64 : ℕ
max_u64 = 2 ^ 64 - 1

-- `u64::saturating_add`
abbrev pub saturating_add : ℕ → ℕ → ℕ
saturating_add a b = min (a + b) max_u64

pub record ConnectionTracker : Type 0 where
  pub connections : Table ConnectionKey ConnectionInfo
  pub blocked_count : ℕ
  pub allowed_count : ℕ
  pub suspicious_count : ℕ

-- What the system reports of a connection.
pub record ConnectionStats : Type 0 where
  pub local_addr : Text
  pub local_port : ℕ
  pub remote_addr : Text
  pub remote_port : ℕ
  pub protocol : Protocol
  pub process_id : ℕ
  pub bytes_sent : ℕ
  pub bytes_received : ℕ

unfoldable pub event_key : NetworkEvent → ConnectionKey
event_key e = record {
  local_addr = e.local_addr;
  local_port = e.local_port;
  remote_addr = e.remote_addr;
  remote_port = e.remote_port;
  protocol = e.protocol;
}

-- The connection with what an event adds to it.
unfoldable pub add_traffic : Text → NetworkEvent → ConnectionInfo → ConnectionInfo
add_traffic now e c = record {
  local_addr = c.local_addr;
  local_port = c.local_port;
  remote_addr = c.remote_addr;
  remote_port = c.remote_port;
  protocol = c.protocol;
  process_id = c.process_id;
  process_name = c.process_name;
  process_path = c.process_path;
  direction = c.direction;
  bytes_sent = saturating_add c.bytes_sent (unwrap_or 0 e.bytes_sent);
  bytes_received = saturating_add c.bytes_received (unwrap_or 0 e.bytes_received);
  packets_sent = saturating_add c.packets_sent (unwrap_or 0 e.packets_sent);
  packets_received = saturating_add c.packets_received (unwrap_or 0 e.packets_received);
  state = c.state;
  first_seen = c.first_seen;
  last_seen = now;
}

unfoldable pub new_connection : Text → NetworkEvent → ConnectionInfo
new_connection now e = record {
  local_addr = e.local_addr;
  local_port = e.local_port;
  remote_addr = e.remote_addr;
  remote_port = e.remote_port;
  protocol = e.protocol;
  process_id = e.process_id;
  process_name = e.process_name;
  process_path = e.process_path;
  direction = e.direction;
  bytes_sent = unwrap_or 0 e.bytes_sent;
  bytes_received = unwrap_or 0 e.bytes_received;
  packets_sent = unwrap_or 0 e.packets_sent;
  packets_received = unwrap_or 0 e.packets_received;
  state = established;
  first_seen = now;
  last_seen = now;
}

-- The entry of an event's key before it, and the table after it.
unfoldable pub apply_action :
    Text
    → NetworkEvent
    → EventAction
    → Option ConnectionInfo
    → Table ConnectionKey ConnectionInfo
    → Table ConnectionKey ConnectionInfo
apply_action now e allow (some c) t = insert (event_key e) (add_traffic now e c) t
apply_action now e allow none t = insert (event_key e) (new_connection now e) t
apply_action now e block (some c) t = insert (event_key e) (add_traffic now e c) t
apply_action now e block none t = t
apply_action now e close o t = remove (event_key e) t

-- `fetch_add(1)` on an `AtomicU32`.
count_if : Bool → ℕ → ℕ
count_if b n = if b then (n + 1) % 2 ^ 32 else n

is_allow : EventAction → Bool
is_allow allow = true
is_allow block = false
is_allow close = false

is_block : EventAction → Bool
is_block allow = false
is_block block = true
is_block close = false

unfoldable pub update_connection : Text → NetworkEvent → ConnectionTracker → ConnectionTracker
unfolding count_if is_allow is_block
update_connection now e t = record {
  connections = apply_action now e e.action (lookup (event_key e) t.connections) t.connections;
  blocked_count = count_if (is_block e.action) t.blocked_count;
  allowed_count = count_if (is_allow e.action) t.allowed_count;
  suspicious_count = t.suspicious_count;
}

with_connections : ConnectionTracker → Table ConnectionKey ConnectionInfo → ConnectionTracker
with_connections t connections = record {
  connections = connections;
  blocked_count = t.blocked_count;
  allowed_count = t.allowed_count;
  suspicious_count = t.suspicious_count;
}

stats_key : ConnectionStats → ConnectionKey
stats_key s = record {
  local_addr = s.local_addr;
  local_port = s.local_port;
  remote_addr = s.remote_addr;
  remote_port = s.remote_port;
  protocol = s.protocol;
}

-- Byte counts of 0 do not replace what the events summed up.
measured : Text → ConnectionStats → ConnectionInfo → ConnectionInfo
measured now s c = record {
  local_addr = c.local_addr;
  local_port = c.local_port;
  remote_addr = c.remote_addr;
  remote_port = c.remote_port;
  protocol = c.protocol;
  process_id = c.process_id;
  process_name = c.process_name;
  process_path = c.process_path;
  direction = c.direction;
  bytes_sent = if ltb 0 s.bytes_sent then s.bytes_sent else c.bytes_sent;
  bytes_received = if ltb 0 s.bytes_received then s.bytes_received else c.bytes_received;
  packets_sent = c.packets_sent;
  packets_received = c.packets_received;
  state = c.state;
  first_seen = c.first_seen;
  last_seen = now;
}

measure :
    Text
    → ConnectionStats
    → Option ConnectionInfo
    → Table ConnectionKey ConnectionInfo
    → Table ConnectionKey ConnectionInfo
measure now s none t = t
measure now s (some c) t = insert (stats_key s) (measured now s c) t

measure_all :
    Text
    → List ConnectionStats
    → Table ConnectionKey ConnectionInfo
    → Table ConnectionKey ConnectionInfo
measure_all now [] t = t
measure_all now (s ∷ ss) t = measure_all now ss (measure now s (lookup (stats_key s) t) t)

-- The order of texts.
text_lt : Text → Text → Bool
text_lt [] [] = false
text_lt [] (d ∷ ds) = true
text_lt (c ∷ cs) [] = false
text_lt (c ∷ cs) (d ∷ ds) =
    let rest = text_lt cs ds in if ltb c d then true else if c == d then rest else false

-- One round of the collection task: the system's numbers, if they could be read, and the removal of
-- what was not seen since `cutoff`.
unfoldable pub collect :
    Text → Text → Option (List ConnectionStats) → ConnectionTracker → ConnectionTracker
unfolding stats_key measured measure measure_all text_lt with_connections
collect now cutoff stats t =
    let fresh : Table ConnectionKey ConnectionInfo = elim stats [
      | none ↦ t.connections
      | some ss ↦ measure_all now ss t.connections
    ] in
    with_connections t (keep (λ e. text_lt cutoff (e.1).last_seen) fresh)

unfoldable pub get_active_connections : ConnectionTracker → List ConnectionInfo
get_active_connections t = map (λ e. e.1) t.connections

unfoldable pub get_connection : ConnectionTracker → ConnectionKey → Option ConnectionInfo
get_connection t key = lookup key t.connections

unfoldable pub close_connection : ConnectionKey → ConnectionTracker → ConnectionTracker
unfolding with_connections
close_connection key t = with_connections t (remove key t.connections)

unfoldable pub get_process_connections : ConnectionTracker → ℕ → List ConnectionInfo
get_process_connections t pid =
    keep (λ c. same c.process_id (some pid)) (map (λ e. e.1) t.connections)

-- `fold(0u64, |acc, x| acc.saturating_add(x))`
saturating_sum : ℕ → List ℕ → ℕ
saturating_sum acc [] = acc
saturating_sum acc (x ∷ xs) = saturating_sum (saturating_add acc x) xs

unfoldable pub get_global_stats : ConnectionTracker → GlobalStats
unfolding saturating_sum
get_global_stats t =
    let cs = map (λ e. e.1) t.connections in
    record {
      active_connections = length cs % 2 ^ 32;
      total_bytes_sent = saturating_sum 0 (map (λ c. c.bytes_sent) cs);
      total_bytes_received = saturating_sum 0 (map (λ c. c.bytes_received) cs);
      total_packets_sent = saturating_sum 0 (map (λ c. c.packets_sent) cs);
      total_packets_received = saturating_sum 0 (map (λ c. c.packets_received) cs);
      blocked_connections = t.blocked_count;
      allowed_connections = t.allowed_count;
      suspicious_connections = t.suspicious_count;
    }

first_name : List ConnectionInfo → Text
first_name [] = codes "Unknown"
first_name (c ∷ cs) = unwrap_or (codes "Unknown") c.process_name

unfoldable pub get_process_stats : ConnectionTracker → ℕ → ProcessStats
unfolding saturating_sum first_name
get_process_stats t pid =
    let cs = get_process_connections t pid in
    record {
      process_id = pid;
      process_name = first_name cs;
      active_connections = length cs % 2 ^ 32;
      total_bytes_sent = saturating_sum 0 (map (λ c. c.bytes_sent) cs);
      total_bytes_received = saturating_sum 0 (map (λ c. c.bytes_received) cs);
    }

unfoldable pub mark_suspicious : ConnectionTracker → ConnectionTracker
mark_suspicious t = record {
  connections = t.connections;
  blocked_count = t.blocked_count;
  allowed_count = t.allowed_count;
  suspicious_count = (t.suspicious_count + 1) % 2 ^ 32;
}

unfoldable pub reset_stats : ConnectionTracker → ConnectionTracker
reset_stats t = record {
  connections = t.connections;
  blocked_count = 0;
  allowed_count = 0;
  suspicious_count = 0;
}
