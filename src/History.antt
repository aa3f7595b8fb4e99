-- ===== src/History.antt =====
-- `NetworkHistoryManager` of service/src/network_history/manager.rs: the traffic of the connections,
-- written to the database in differences from a baseline. The database's calls are operations on a
-- world, and `decimal` is the text of a number.
pub mod Account
pub mod Once
pub mod Statistics
use ceasefire.Prelude.{
  ℕ, ◌-◌, Bool, true, false, ◌||◌, List, [], ◌∷◌, ◌++◌, Option, none, some, Result, ok, ltb,
  if◌then◌else◌, keep, any, is_empty, same, list_eq, nat_eq, unwrap_or,
}
use ceasefire.Prelude.State.{Action, Done}
use ceasefire.Errors.{ServiceError}
use ceasefire.Prelude.Table.{Table, lookup, insert, remove}
use ceasefire.Text.{Text, codes}
use ceasefire.Models.{
  ConnectionInfo, NetworkEvent, NetworkHistoryRecord, Protocol, tcp, udp, icmp, icmpv6, allow,
}
use ceasefire.Connections.{ConnectionTracker, get_active_connections}

-- The calls of `Database`.
pub record HistoryTable (W : Type 0) : Type 0 where
  pub create_network_history : NetworkHistoryRecord → Action W Done
  pub create_network_history_batch : List NetworkHistoryRecord → Action W Done

abbrev pub Baseline : Type 0
Baseline = Table Text (ℕ × ℕ)

-- `protocol as u8`
protocol_index : Protocol → ℕ
protocol_index Protocol.any = 0
protocol_index tcp = 1
protocol_index udp = 2
protocol_index icmp = 3
protocol_index icmpv6 = 4

-- The bytes since the baseline, or all of them without one.
unfoldable pub delta : Option (ℕ × ℕ) → ConnectionInfo → ℕ × ℕ
delta none c = (c.bytes_sent, c.bytes_received)
delta (some (sent, received)) c = (c.bytes_sent - sent, c.bytes_received - received)

unfoldable pub snapshot_row : Text → ConnectionInfo → ℕ × ℕ → NetworkHistoryRecord
snapshot_row now c (sent, received) = record {
  id = none;
  timestamp = now;
  action = allow;
  local_addr = c.local_addr;
  local_port = c.local_port;
  remote_addr = c.remote_addr;
  remote_port = c.remote_port;
  protocol = c.protocol;
  direction = c.direction;
  process_id = c.process_id;
  process_name = c.process_name;
  process_path = c.process_path;
  bytes_sent = sent;
  bytes_received = received;
  rule_id = none;
}

unfoldable pub closed_row : Text → NetworkEvent → ℕ × ℕ → NetworkHistoryRecord
closed_row now e (sent, received) = record {
  id = none;
  timestamp = now;
  action = allow;
  local_addr = e.local_addr;
  local_port = e.local_port;
  remote_addr = e.remote_addr;
  remote_port = e.remote_port;
  protocol = e.protocol;
  direction = e.direction;
  process_id = e.process_id;
  process_name = e.process_name;
  process_path = e.process_path;
  bytes_sent = sent;
  bytes_received = received;
  rule_id = none;
}

abbrev pub moved : ℕ × ℕ → Bool
moved (sent, received) = ltb 0 sent || ltb 0 received

module _ (decimal : ℕ → Text) where
  unfoldable pub connection_snapshot_key : Text → ℕ → Text → ℕ → Protocol → Text
  unfolding protocol_index
  connection_snapshot_key local_addr local_port remote_addr remote_port protocol =
      local_addr
      ++ codes ":"
      ++ decimal local_port
      ++ codes "->"
      ++ remote_addr
      ++ codes ":"
      ++ decimal remote_port
      ++ codes ":"
      ++ decimal (protocol_index protocol)

  abbrev pub connection_key : ConnectionInfo → Text
  connection_key c =
      connection_snapshot_key c.local_addr c.local_port c.remote_addr c.remote_port c.protocol

  abbrev pub closed_key : NetworkEvent → Text
  closed_key e =
      connection_snapshot_key e.local_addr e.local_port e.remote_addr e.remote_port e.protocol

  -- The rows of one round, and the baseline after them.
  unfoldable pub snapshot_all :
      Text → List ConnectionInfo → Baseline → List NetworkHistoryRecord × Baseline
  snapshot_all now [] baseline = ([], baseline)
  snapshot_all now (c ∷ cs) baseline =
      let d = delta (lookup (connection_key c) baseline) c in
      let later =
        snapshot_all now cs (insert (connection_key c) (c.bytes_sent, c.bytes_received) baseline) in
      (if moved d then snapshot_row now c d ∷ later.0 else later.0, later.1)

  module _ {W : Type 0} (db : HistoryTable W) where
    -- One round of the periodic snapshot; a failed write is only logged.
    unfoldable pub snapshot : Text → ConnectionTracker → Baseline × W → Baseline × W
    snapshot now tracker (baseline, w) =
        let connections = get_active_connections tracker in
        let (batch, fresh) = snapshot_all now connections baseline in
        (
          keep (λ e. any (λ c. same (connection_key c) (e.0)) connections) fresh,
          if is_empty batch then w else (db.create_network_history_batch batch w).1,
        )

    -- The end of a connection, with the driver's totals.
    unfoldable pub record_closed_connection :
        Text → NetworkEvent → Baseline → W → Baseline × (Result ServiceError Done × W)
    record_closed_connection now e baseline w =
        let (last_sent, last_received) = unwrap_or (0, 0) (lookup (closed_key e) baseline) in
        let d : ℕ × ℕ =
          (unwrap_or 0 e.bytes_sent - last_sent, unwrap_or 0 e.bytes_received - last_received) in
        (
          remove (closed_key e) baseline,
          if moved d then db.create_network_history (closed_row now e d) w else (ok tt, w),
        )

    unfoldable pub add_record : NetworkHistoryRecord → Action W Done
    add_record r = db.create_network_history r
