-- ===== src/Tests/Events.antt =====
-- The theorems on the driver's events at concrete bytes.
use ceasefire.Prelude.{
  ℕ, true, false, ◌*◌, ◌<◌, ◌^◌, ◌≡◌, refl, zero, suc, List, [], ◌∷◌, ◌++◌, none, some, ok, err,
  replicate, length, arith, All,
}
use ceasefire.Text.{Text, codes}
use ceasefire.Errors.{driver, buffer_too_small}
use ceasefire.Driver.Converter.{convert_dos_path_to_nt}
use ceasefire.Driver.Received.{DriverEvent, event_from_bytes}
use ceasefire.Driver.Path.{query_dos_device_path, convert_nt_path_to_dos}
use ceasefire.Driver.Received.Layout.{event_bytes, Fits, event_from_bytes-event_bytes}
use ceasefire.Driver.Path.Round.{device_named, convert_nt_path_to_dos-convert_dos_path_to_nt}
use ceasefire.Models.{LogEntry, NetworkEvent, EventAction}
use ceasefire.Event.Processor.{Calls, Formats, Clock, Processor}
use ceasefire.Event.Processor.Flushes.{LogTable, process_all, entries_of, process_all-entries}
use ceasefire.Tests.{lower, event}

abbrev received : DriverEvent
received = record {
  timestamp = 7;
  process_id = 42;
  event_type = 1;
  process_path = replicate 260 0;
  protocol = 6;
  local_addr = replicate 16 1;
  remote_addr = replicate 16 2;
  local_port = 50000;
  remote_port = 443;
  allowed = 1;
  padding3 = 0 ∷ [];
  matched_rule_id = 7;
  bytes_sent = 70000;
  bytes_received = 1;
  address_family = 4;
  direction = 2;
}

zeros : (n : ℕ) → All (λ c. c < 256 ^ 2) (replicate n 0)
zeros zero = tt
zeros (suc n) = (omega arith, zeros n)

fits : Fits received
fits = (
  omega arith,
  omega arith,
  omega arith,
  refl,
  zeros 260,
  omega arith,
  refl,
  refl,
  omega arith,
  omega arith,
  omega arith,
  refl,
  omega arith,
  omega arith,
  omega arith,
  omega arith,
  omega arith,
)

event_from_bytes-event_bytes_example :
    (event_from_bytes (event_bytes received) ≡ ok received)
    × (event_from_bytes (1 ∷ 2 ∷ []) ≡ err (driver buffer_too_small))
event_from_bytes-event_bytes_example =
    event_from_bytes-event_bytes received (1 ∷ 2 ∷ []) fits (omega arith)

abbrev noise : List ℕ
noise = replicate 600 255

convert_nt_path_to_dos-convert_dos_path_to_nt_example :
    let query = λ (drive : Text). some (device_named (codes "HarddiskVolume3")) in
    let rest = codes "\\curl.exe" in
    (convert_dos_path_to_nt query (b'C' ∷ b':' ∷ rest)
      ≡ some (device_named (codes "HarddiskVolume3") ++ rest))
    × (convert_nt_path_to_dos
          (λ n. n ∷ [])
          ((b'C', device_named (codes "HarddiskVolume3") ∷ []) ∷ [])
          (device_named (codes "HarddiskVolume3") ++ rest)
        ≡ some (b'C' ∷ b':' ∷ rest))
unfolding query_dos_device_path
convert_nt_path_to_dos-convert_dos_path_to_nt_example =
    convert_nt_path_to_dos-convert_dos_path_to_nt (λ n. n ∷ [])
      (λ drive. some (device_named (codes "HarddiskVolume3"))) [] [] b'C' []
      (codes "HarddiskVolume3") (codes "\\curl.exe") refl refl refl

-- A driver, a history and a table of logs in one world: the logs.
abbrev calls : Calls (List LogEntry)
calls = record {
  driver = record {
    set_throttle = λ pid up down w. (true, w);
    clear_throttle_table = λ w. (true, w);
  };
  history = record {
    create_network_history = λ r w. (ok tt, w);
    create_network_history_batch = λ rs w. (ok tt, w);
  };
  decisions = record { find_connection_decisions = λ addr port name w. (ok [], w) };
  add_logs_batch = λ entries w. (ok tt, w ++ entries);
}

log_table : LogTable (λ w. w) calls
log_table = record {
  set_throttle_keeps = λ pid up down w. refl;
  decisions_keep = λ addr port name w. refl;
  history_keeps = λ r w. refl;
  batch_appends = λ entries w h. refl;
}

abbrev formats : Formats
formats = record {
  lower = lower;
  decimal = λ n. n ∷ [];
  earned = λ d r. d * r;
  parse_time = λ s. none;
  key_of = λ e. e.remote_addr;
  dos_path = λ s. some s;
  protocol_text = λ e. codes "Tcp";
  direction_text = λ e. codes "Outbound";
}

abbrev processor : Processor (List LogEntry)
processor = record {
  kernel_throttle = record {
    path_limits = [];
    global = (false, 0, 0);
    pushed = [];
    global_pushed = false;
  };
  connection_tracker = record {
    connections = [];
    blocked_count = 0;
    allowed_count = 0;
    suspicious_count = 0;
  };
  bandwidth_limiter = record {
    upload_limits = [];
    download_limits = [];
    global_upload_limit = none;
    global_download_limit = none;
  };
  log_buffer = [];
  baseline = [];
  notifier = record {
    deduplicator = [];
    enabled = true;
    ask_mode = false;
    queue = [];
    next_id = 1;
  };
  world = [];
}

abbrev clock : Clock
clock = record { now = []; seconds = 5; instant = 5 }

abbrev happened : List (Clock × NetworkEvent)
happened = (clock, event EventAction.allow) ∷ (clock, event EventAction.close) ∷ []

process_all-entries_example :
    let after = process_all (λ w. w) calls formats log_table (λ es w. refl) happened processor in
    (after.world ++ after.log_buffer
      ≡ entries_of (λ w. w) calls formats log_table (λ es w. refl) happened)
    × (length after.log_buffer < 100)
process_all-entries_example =
    process_all-entries (λ w. w) calls formats log_table (λ es w. refl) happened processor
      (omega arith)
