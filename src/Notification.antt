-- ===== src/Notification.antt =====
-- service/src/notification: the notifications that wait for the GUI, and the test that keeps one from
-- being repeated. Texts that are formatted from an event, and the GUI's path of a process, are
-- parameters. An `Instant` is a number of nanoseconds.
pub mod Cooldown
use ceasefire.Prelude.{
  ℕ, ◌+◌, ◌-◌, ◌*◌, ◌%◌, ◌^◌, Bool, true, false, not, ◌&&◌, List, [], ◌∷◌, Option, none, some, ltb,
  if◌then◌else◌, length, take, drop, keep, is_some, min, list_eq, nat_eq,
}
use ceasefire.Prelude.Table.{Table, lookup, insert}
use ceasefire.Text.{Text}
use ceasefire.Models.{NetworkEvent, NotificationItem, NotificationKind, blocked, ask}
use ceasefire.Event.{push_capped}

abbrev pub queue_cap : ℕ
queue_cap = 500

abbrev pub secs : ℕ → ℕ
secs s = s * 1_000_000_000

-- `NotificationDeduplicator`, with its cooldown of 60 seconds: when each key was last notified.
abbrev pub Deduplicator : Type 0
Deduplicator = Table Text ℕ

cleanup_expired : ℕ → Deduplicator → Deduplicator
cleanup_expired now d = keep (λ e. ltb (now - e.1) (secs 60)) d

too_soon : ℕ → ℕ → Option ℕ → Bool
too_soon now cooldown none = false
too_soon now cooldown (some last) = ltb (now - last) (secs cooldown)

unfoldable pub should_notify : ℕ → Text → ℕ → Deduplicator → Bool × Deduplicator
unfolding cleanup_expired too_soon
should_notify now key cooldown d =
    if too_soon now cooldown (lookup key d)
    then (false, d)
    else (true, cleanup_expired now (insert key now d))

pub record Notifier : Type 0 where
  pub deduplicator : Deduplicator
  pub enabled : Bool
  pub ask_mode : Bool
  pub queue : List NotificationItem
  pub next_id : ℕ

unfoldable pub enqueue : NotificationItem → List NotificationItem → List NotificationItem
enqueue item queue = push_capped queue_cap item queue

-- `drain`: at most `max` notifications taken, and the queue left.
unfoldable pub drain_queue :
    ℕ → List NotificationItem → List NotificationItem × List NotificationItem
drain_queue max queue = let count = min max (length queue) in (take count queue, drop count queue)

module _ (key_of : NetworkEvent → Text) (dos_path : Text → Option Text) (timestamp : Text)
    (protocol_text direction_text : NetworkEvent → Text) where
  item_path : Option Text → Option Text
  item_path none = none
  item_path (some p) = dos_path p

  make_item : ℕ → NotificationKind → NetworkEvent → NotificationItem
  unfolding item_path
  make_item id kind event = record {
    id = id;
    kind = kind;
    timestamp = timestamp;
    process_path = item_path event.process_path;
    process_name = event.process_name;
    remote_addr = event.remote_addr;
    remote_port = event.remote_port;
    protocol = protocol_text event;
    direction = direction_text event;
    rule_id = event.rule_id;
  }

  -- A connection that no rule matched becomes a question in the asking mode.
  kind_of : Bool → Option ℕ → NotificationKind
  kind_of ask_mode rule_id = if ask_mode && not (is_some rule_id) then ask else blocked

  notified : NetworkEvent → Notifier → Bool × Deduplicator → Notifier
  unfolding make_item kind_of
  notified event n (true, d) = record {
    deduplicator = d;
    enabled = n.enabled;
    ask_mode = n.ask_mode;
    queue = enqueue (make_item n.next_id (kind_of n.ask_mode event.rule_id) event) n.queue;
    next_id = (n.next_id + 1) % 2 ^ 64;
  }
  notified event n (false, d) = record n { deduplicator = d }

  unfoldable pub notify_blocked_connection : ℕ → NetworkEvent → Notifier → Notifier
  unfolding notified
  notify_blocked_connection now event n =
      if n.enabled then notified event n (should_notify now (key_of event) 60 n.deduplicator) else n
