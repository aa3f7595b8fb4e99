-- ===== src/Connections/Update.antt =====
-- What an event does to the connections.
use ceasefire.Prelude.{
  ◌+◌, ◌-◌, ◌^◌, min, unwrap_or, ◌≡◌, ◌≢◌, refl, Option, none, some, same, differ, if◌then◌else◌,
  Bool-cases, inl, inr,
}
use ceasefire.Prelude.Table.{
  Table, Unique, lookup, lookup-insert, lookup-insert_other, lookup-remove, lookup-remove_other,
  insert-Unique, remove-Unique,
}
use ceasefire.Text.{Text}
use ceasefire.Models.{
  ConnectionInfo, ConnectionKey, NetworkEvent, EventAction, allow, block, close, connection_key_eq,
  established,
}
use ceasefire.Connections.{
  ConnectionTracker, event_key, add_traffic, new_connection, apply_action, update_connection,
  get_connection,
}

-- The connection `c` with the event's traffic added to each counter, up to the largest number of 64
-- bits, and seen now; nothing else of it has changed.
abbrev pub Adds : Text → NetworkEvent → ConnectionInfo → Option ConnectionInfo → Type 0
Adds now e c none = ⊥
Adds now e c (some d) =
    (d.bytes_sent ≡ min (c.bytes_sent + unwrap_or 0 e.bytes_sent) (2 ^ 64 - 1))
    × (d.bytes_received ≡ min (c.bytes_received + unwrap_or 0 e.bytes_received) (2 ^ 64 - 1))
    × (d.packets_sent ≡ min (c.packets_sent + unwrap_or 0 e.packets_sent) (2 ^ 64 - 1))
    × (d.packets_received ≡ min (c.packets_received + unwrap_or 0 e.packets_received) (2 ^ 64 - 1))
    × (d.last_seen ≡ now)
    × (record d {
      bytes_sent = c.bytes_sent;
      bytes_received = c.bytes_received;
      packets_sent = c.packets_sent;
      packets_received = c.packets_received;
      last_seen = c.last_seen;
    }
        ≡ c)

-- A connection of the event's key, process and direction, with the event's traffic, seen now alone.
abbrev pub Opens : Text → NetworkEvent → Option ConnectionInfo → Type 0
Opens now e none = ⊥
Opens now e (some d) =
    (d.bytes_sent ≡ unwrap_or 0 e.bytes_sent)
    × (d.bytes_received ≡ unwrap_or 0 e.bytes_received)
    × (d.packets_sent ≡ unwrap_or 0 e.packets_sent)
    × (d.packets_received ≡ unwrap_or 0 e.packets_received)
    × ((d.local_addr ≡ e.local_addr) × (d.local_port ≡ e.local_port))
    × ((d.remote_addr ≡ e.remote_addr) × (d.remote_port ≡ e.remote_port))
    × ((d.protocol ≡ e.protocol) × (d.direction ≡ e.direction))
    × ((d.process_id ≡ e.process_id) × (d.process_name ≡ e.process_name))
    × (d.process_path ≡ e.process_path)
    × (d.state ≡ established)
    × ((d.first_seen ≡ now) × (d.last_seen ≡ now))

-- What an action makes of the connection of the event's key.
abbrev pub Acts :
    Text → NetworkEvent → EventAction → Option ConnectionInfo → Option ConnectionInfo → Type 0
Acts now e allow (some c) o = Adds now e c o
Acts now e allow none o = Opens now e o
Acts now e block (some c) o = Adds now e c o
Acts now e block none o = o ≡ none
Acts now e close before o = o ≡ none

apply_action-Acts :
    (now : Text) (e : NetworkEvent) (a : EventAction) (t : Table ConnectionKey ConnectionInfo)
    (o : Option ConnectionInfo)
    → lookup (event_key e) t ≡ o
    → Acts now e a o (lookup (event_key e) (apply_action now e a o t))
unfolding apply_action add_traffic new_connection
apply_action-Acts now e allow t (some c) h =
    rw (lookup-insert (event_key e) (add_traffic now e c) t) (refl, refl, refl, refl, refl, refl)
apply_action-Acts now e allow t none h = rw (lookup-insert (event_key e) (new_connection now e) t) (
  refl,
  refl,
  refl,
  refl,
  (refl, refl),
  (refl, refl),
  (refl, refl),
  (refl, refl),
  refl,
  refl,
  (refl, refl),
)
apply_action-Acts now e block t (some c) h =
    rw (lookup-insert (event_key e) (add_traffic now e c) t) (refl, refl, refl, refl, refl, refl)
apply_action-Acts now e block t none h = h
apply_action-Acts now e close t none h = lookup-remove (event_key e) t
apply_action-Acts now e close t (some c) h = lookup-remove (event_key e) t

apply_action_other :
    (now : Text) (e : NetworkEvent) (a : EventAction) (o : Option ConnectionInfo)
    (t : Table ConnectionKey ConnectionInfo) (k : ConnectionKey)
    → k ≢ event_key e
    → lookup k (apply_action now e a o t) ≡ lookup k t
unfolding apply_action
apply_action_other now e allow (some c) t k n = lookup-insert_other (event_key e) k _ t n
apply_action_other now e allow none t k n = lookup-insert_other (event_key e) k _ t n
apply_action_other now e block (some c) t k n = lookup-insert_other (event_key e) k _ t n
apply_action_other now e block none t k n = refl
apply_action_other now e close none t k n = lookup-remove_other (event_key e) k t n
apply_action_other now e close (some c) t k n = lookup-remove_other (event_key e) k t n

apply_action-Unique :
    (now : Text) (e : NetworkEvent) (a : EventAction) (o : Option ConnectionInfo)
    (t : Table ConnectionKey ConnectionInfo)
    → Unique t
    → Unique (apply_action now e a o t)
unfolding apply_action
apply_action-Unique now e allow (some c) t u = insert-Unique (event_key e) _ t u
apply_action-Unique now e allow none t u = insert-Unique (event_key e) _ t u
apply_action-Unique now e block (some c) t u = insert-Unique (event_key e) _ t u
apply_action-Unique now e block none t u = u
apply_action-Unique now e close none t u = remove-Unique (event_key e) t u
apply_action-Unique now e close (some c) t u = remove-Unique (event_key e) t u

-- An event acts on the connection of its key alone, as its action says: an allowed one adds its
-- traffic to a connection that is there, each counter up to the largest number of 64 bits, or enters
-- a new one of the event's fields; a blocked one adds its traffic to a connection that is there and
-- enters none; a closed one removes it. The connections of other keys stay, and if each key stood
-- once it still does.
pub get_connection-update_connection :
    (now : Text) (e : NetworkEvent) (t : ConnectionTracker) (k : ConnectionKey)
    → Unique t.connections
    → Acts now e e.action
        (get_connection t (event_key e))
        (get_connection (update_connection now e t) (event_key e))
      × (if same k (event_key e)
          then Unit {0}
          else get_connection (update_connection now e t) k ≡ get_connection t k)
      × Unique (update_connection now e t).connections
unfolding update_connection get_connection
get_connection-update_connection now e t k u = (
  apply_action-Acts now e e.action t.connections _ refl,
  elim (Bool-cases (same k (event_key e))) [
    | inl g ↦ rw g tt
    | inr g ↦ rw g (apply_action_other now e e.action _ t.connections k (differ k (event_key e) g))
  ],
  apply_action-Unique now e e.action _ t.connections u,
)
