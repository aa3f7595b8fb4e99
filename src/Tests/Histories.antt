-- ===== src/Tests/Histories.antt =====
-- The theorems on the history at a concrete database.
use ceasefire.Prelude.{
  list_eq, nat_eq, option_eq, ◌+◌, ◌≤◌, length, ℕ, ◌+◌, ◌-◌, ◌≤◌, ◌≡◌, refl, List, [], ◌∷◌, ◌++◌,
  none, some, ok, err, arith, list_eq, nat_eq, length, List-discrete, ℕ_discrete,
}
use ceasefire.Prelude.Table.{lookup}
use ceasefire.Errors.{database, other}
use ceasefire.Text.{Text, codes}
use ceasefire.Models.{
  ConnectionInfo, NetworkEvent, NetworkHistoryRecord, EventAction, RuleAction, Protocol, Direction,
}
use ceasefire.Connections.{ConnectionTracker, event_key, get_active_connections}
use ceasefire.History.{
  HistoryTable, connection_snapshot_key, closed_key, snapshot, record_closed_connection,
}
use ceasefire.History.Account.{sent, logged, of_key, Promises, Writes}
use ceasefire.History.Once.{snapshots, Grows, exactly_once, counted_twice, snapshot_lost}
use ceasefire.Models.{rule_action_eq, protocol_eq, RuleAction}
use ceasefire.Tests.{conn, event}

-- A number's text; its digits do not matter here.
abbrev decimal : ℕ → Text
decimal n = n ∷ []

abbrev World : Type 0
World = List NetworkHistoryRecord

abbrev table : HistoryTable World
table = record {
  create_network_history = λ r w. (ok tt, w ++ r ∷ []);
  create_network_history_batch = λ rs w. (ok tt, w ++ rs);
}

-- A database that takes single rows only.
abbrev busy : HistoryTable World
busy = record {
  create_network_history = λ r w. (ok tt, w ++ r ∷ []);
  create_network_history_batch = λ rs w. (err (database other), w);
}

promises : Promises decimal (λ w. w) table
promises = record {
  row_ok = λ r w h. refl;
  row_err = λ r w e h. absurd (cc);
  batch_ok = λ rs w h. refl;
  batch_err = λ rs w e h. absurd (cc);
}

busy_promises : Promises decimal (λ w. w) busy
busy_promises = record {
  row_ok = λ r w h. refl;
  row_err = λ r w e h. absurd (cc);
  batch_ok = λ rs w h. absurd (cc);
  batch_err = λ rs w e h. refl;
}

writes : Writes decimal (λ w. w) table
writes = (λ r w. refl, λ rs w. refl)

abbrev ended : NetworkEvent
ended = record (event EventAction.close) { bytes_sent = some 150; bytes_received = some 200 }

abbrev tracked : List ConnectionInfo → ConnectionTracker
tracked [] = record { connections = []; blocked_count = 0; allowed_count = 0; suspicious_count = 0 }
tracked (c ∷ cs) = record {
  connections = (event_key (event EventAction.allow), c) ∷ [];
  blocked_count = 0;
  allowed_count = 0;
  suspicious_count = 0;
}

abbrev grown : ConnectionInfo
grown = record conn { bytes_sent = 120 }

abbrev steps : List (Text × ConnectionTracker × ConnectionInfo)
steps = ([], tracked (conn ∷ []), conn) ∷ ([], tracked (grown ∷ []), grown) ∷ []

sole_conn :
    of_key decimal (closed_key decimal ended) (get_active_connections (tracked (conn ∷ [])))
    ≡ conn ∷ []
unfolding get_active_connections connection_snapshot_key List-discrete ℕ_discrete
sole_conn = refl

sole_grown :
    of_key decimal (closed_key decimal ended) (get_active_connections (tracked (grown ∷ [])))
    ≡ grown ∷ []
unfolding get_active_connections connection_snapshot_key List-discrete ℕ_discrete
sole_grown = refl

gone : of_key decimal (closed_key decimal ended) (get_active_connections (tracked [])) ≡ []
unfolding get_active_connections
gone = refl

grows : Grows decimal (λ w. w) table promises (closed_key decimal ended) (0, 0) steps
grows = (sole_conn, omega arith, omega arith, (sole_grown, omega arith, omega arith, tt))

exactly_once_example :
    let after = snapshots decimal (λ w. w) table promises steps ([], []) in
    let end = record_closed_connection decimal table [] ended (after.0) (after.1) in
    (logged decimal sent (closed_key decimal ended) (end.1.1)
      ≡ logged decimal sent (closed_key decimal ended) [] + 150)
    × (lookup (closed_key decimal ended) (end.0) ≡ none)
exactly_once_example =
    exactly_once decimal (λ w. w) table promises sent [] ended steps ([], []) writes refl grows
      (omega arith) (omega arith)

counted_twice_example :
    let after =
      snapshot decimal table []
        (tracked [])
        (snapshots decimal (λ w. w) table promises steps ([], [])) in
    let end = record_closed_connection decimal table [] ended (after.0) (after.1) in
    logged decimal sent (closed_key decimal ended) (end.1.1)
    ≡ logged decimal sent (closed_key decimal ended) [] + 120 + 150
counted_twice_example =
    counted_twice decimal (λ w. w) table promises sent [] [] (tracked []) ended steps ([], [])
      writes refl grows gone

snapshot_lost_example :
    let after = snapshot decimal busy [] (tracked (conn ∷ [])) ([], []) in
    let end = record_closed_connection decimal busy [] ended (after.0) (after.1) in
    logged decimal sent (closed_key decimal ended) (end.1.1)
    ≡ logged decimal sent (closed_key decimal ended) [] + (150 - 100)
snapshot_lost_example =
    snapshot_lost decimal (λ w. w) busy busy_promises sent [] [] (tracked (conn ∷ [])) conn ended []
      [] (database other) (λ r v. refl) (λ rs v. refl) sole_conn

abbrev history_row : NetworkHistoryRecord
history_row = record {
  id = some 1;
  timestamp = [];
  action = RuleAction.block;
  local_addr = [];
  local_port = 50000;
  remote_addr = codes "10.1.2.3";
  remote_port = 443;
  protocol = Protocol.tcp;
  direction = Direction.outbound;
  process_id = none;
  process_name = some (codes "curl.exe");
  process_path = none;
  bytes_sent = 10;
  bytes_received = 20;
  rule_id = none;
}
