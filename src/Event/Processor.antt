-- ===== src/Event/Processor.antt =====
-- `EventProcessor` of service/src/event/processor.rs: what an event of the driver does to the
-- components. The parameters are the calls of the driver and of the database, the clock, and the texts
-- that are formatted; what is only logged is left out.
pub mod Flushes
use ceasefire.Prelude.{
  ℕ, Bool, true, false, ◌&&◌, ◌||◌, List, [], ◌∷◌, Option, none, some, Result, ok, err, ltb, leb,
  if◌then◌else◌, length, is_empty, unwrap_or, same,
}
use ceasefire.Prelude.State.{Action, Done}
use ceasefire.Text.{Text}
use ceasefire.Models.{
  NetworkEvent, NetworkHistoryRecord, LogEntry, ConnectionInfo, EventAction, RuleAction,
  established, event_action_eq,
}
use ceasefire.Bandwidth.Kernel.{KernelThrottleSync, Driver, sync_event}
use ceasefire.Bandwidth.Limiter.{BandwidthLimiter, allow_upload, allow_download}
use ceasefire.Connections.{ConnectionTracker, update_connection}
use ceasefire.Decisions.{DecisionTable, get_decision}
use ceasefire.Event.{LogBuffer, add, drain}
use ceasefire.History.{HistoryTable, Baseline, record_closed_connection, add_record}
use ceasefire.Notification.{Notifier, notify_blocked_connection}

-- The components, and the world of the driver and the database.
pub record Processor (W : Type 0) : Type 0 where
  pub kernel_throttle : KernelThrottleSync
  pub connection_tracker : ConnectionTracker
  pub bandwidth_limiter : BandwidthLimiter
  pub log_buffer : LogBuffer
  pub baseline : Baseline
  pub notifier : Notifier
  pub world : W

pub record Calls (W : Type 0) : Type 0 where
  pub driver : Driver W
  pub history : HistoryTable W
  pub decisions : DecisionTable W
  pub add_logs_batch : List LogEntry → Action W Done

-- The clock: as a text, in seconds and as an instant.
pub record Clock : Type 0 where
  pub now : Text
  pub seconds : ℕ
  pub instant : ℕ

-- What other code formats, parses or computes.
pub record Formats : Type 0 where
  pub lower : Text → Text
  pub decimal : ℕ → Text
  pub earned : ℕ → ℕ → ℕ
  pub parse_time : Text → Option ℕ
  pub key_of : NetworkEvent → Text
  pub dos_path : Text → Option Text
  pub protocol_text : NetworkEvent → Text
  pub direction_text : NetworkEvent → Text

unfoldable pub event_to_log_entry : Text → NetworkEvent → LogEntry
event_to_log_entry now e = record {
  id = none;
  timestamp = now;
  action = e.action;
  local_addr = e.local_addr;
  local_port = e.local_port;
  remote_addr = e.remote_addr;
  remote_port = e.remote_port;
  protocol = e.protocol;
  direction = e.direction;
  process_id = e.process_id;
  process_name = e.process_name;
  bytes_sent = e.bytes_sent;
  bytes_received = e.bytes_received;
  rule_id = e.rule_id;
}

-- A close counts as allowed.
history_action : EventAction → RuleAction
history_action EventAction.allow = RuleAction.allow
history_action EventAction.block = RuleAction.block
history_action EventAction.close = RuleAction.allow

unfoldable pub event_to_history_record : Text → NetworkEvent → NetworkHistoryRecord
unfolding history_action
event_to_history_record now e = record {
  id = none;
  timestamp = now;
  action = history_action e.action;
  local_addr = e.local_addr;
  local_port = e.local_port;
  remote_addr = e.remote_addr;
  remote_port = e.remote_port;
  protocol = e.protocol;
  direction = e.direction;
  process_id = e.process_id;
  process_name = e.process_name;
  process_path = e.process_path;
  bytes_sent = unwrap_or 0 e.bytes_sent;
  bytes_received = unwrap_or 0 e.bytes_received;
  rule_id = e.rule_id;
}

-- The connection that a remembered decision is looked up for.
event_connection : Text → NetworkEvent → ConnectionInfo
event_connection now e = record {
  local_addr = e.local_addr;
  local_port = e.local_port;
  remote_addr = e.remote_addr;
  remote_port = e.remote_port;
  protocol = e.protocol;
  process_id = e.process_id;
  process_name = e.process_name;
  process_path = e.process_path;
  direction = e.direction;
  bytes_sent = 0;
  bytes_received = 0;
  packets_sent = 0;
  packets_received = 0;
  state = established;
  first_seen = now;
  last_seen = now;
}

module _ {W : Type 0} (calls : Calls W) (f : Formats) where
  -- A failed write is only logged; the entries are gone.
  unfoldable pub flush : LogBuffer → W → LogBuffer × W
  flush buffer w =
      let (logs, rest) = drain buffer in
      (rest, if is_empty logs then w else (calls.add_logs_batch logs w).1)

  sync_throttle : NetworkEvent → Option ℕ → KernelThrottleSync × W → KernelThrottleSync × W
  sync_throttle e none s = s
  sync_throttle e (some pid) s = sync_event calls.driver f.lower s pid e.process_path

  charge_path : Clock → ℕ → ℕ → Option Text → BandwidthLimiter → BandwidthLimiter
  charge_path c sent received none l = l
  charge_path c sent received (some path) l =
      let l1 = if ltb 0 sent then (allow_upload f.earned f.lower c.instant l path sent).1 else l in
      if ltb 0 received then (allow_download f.earned f.lower c.instant l1 path received).1 else l1

  charge : Clock → NetworkEvent → BandwidthLimiter → BandwidthLimiter
  unfolding charge_path
  charge c e l =
      let sent = unwrap_or 0 e.bytes_sent in
      let received = unwrap_or 0 e.bytes_received in
      if (ltb 0 sent || ltb 0 received) && same e.action EventAction.allow
      then charge_path c sent received e.process_path l
      else l

  -- A decision to block only makes a message.
  look_up : Clock → NetworkEvent → W → W
  unfolding event_connection
  look_up c e w =
      if same e.action EventAction.allow
      then (get_decision f.parse_time calls.decisions c.seconds (event_connection c.now e) w).1
      else w

  buffered : LogBuffer → W → LogBuffer × W
  unfolding flush
  buffered buffer w = if leb 100 (length buffer) then flush buffer w else (buffer, w)

  write_history : Clock → NetworkEvent → Baseline → W → Baseline × W
  write_history c e baseline w =
      if same e.action EventAction.close
      then (let r = record_closed_connection f.decimal calls.history c.now e baseline w in
          (r.0, r.1.1))
      else (baseline, (add_record f.decimal calls.history (event_to_history_record c.now e) w).1)

  notify : Clock → NetworkEvent → Notifier → Notifier
  notify c e n =
      if same e.action EventAction.block
      then notify_blocked_connection f.key_of f.dos_path c.now f.protocol_text f.direction_text
          c.seconds e n
      else n

  unfoldable pub process_event : Clock → NetworkEvent → Processor W → Processor W
  unfolding sync_throttle charge look_up buffered write_history notify
  process_event c e s =
      let (throttle, w1) = sync_throttle e e.process_id (s.kernel_throttle, s.world) in
      let w2 = look_up c e w1 in
      let (buffer, w3) = buffered (add (event_to_log_entry c.now e) s.log_buffer) w2 in
      let (baseline, w4) = write_history c e s.baseline w3 in
      record {
        kernel_throttle = throttle;
        connection_tracker = update_connection c.now e s.connection_tracker;
        bandwidth_limiter = charge c e s.bandwidth_limiter;
        log_buffer = buffer;
        baseline = baseline;
        notifier = notify c e s.notifier;
        world = w4;
      }
