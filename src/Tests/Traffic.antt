-- ===== src/Tests/Traffic.antt =====
-- The theorems on limits, connections and queues at concrete states.
use ceasefire.Prelude.{
  ℕ, ◌+◌, ◌*◌, ◌≤◌, ◌≡◌, refl, true, false, List, [], ◌∷◌, none, some, min, is_empty, arith,
  ℕ_discrete, nat_eq, same, if◌then◌else◌, list_eq, List-discrete,
}
use ceasefire.Prelude.Table.{lookup, Unique}
use ceasefire.Text.{Text, codes, replace, to_ascii_lowercase}
use ceasefire.Models.{connection_key_eq, ConnectionKey, EventAction, LogEntry}
use ceasefire.Models.Path.{normalize_path}
use ceasefire.Bandwidth.{TokenBucket}
use ceasefire.Bandwidth.Budget.{run, earnings, run-earnings}
use ceasefire.Bandwidth.Limiter.{
  BandwidthLimiter, set_limits, get_upload_limit, get_download_limit, rounded, get_limit-set_limits,
}
use ceasefire.Bandwidth.Kernel.{
  KernelThrottleSync, Driver, sweep_dead_pids, sync_event, update_path_limit, update_global,
}
use ceasefire.Bandwidth.Kernel.Pushed.{
  lookup-update_path_limit, lookup-update_global, global_limit_stays,
}
use ceasefire.Connections.{
  ConnectionTracker, update_connection, get_connection, event_key, get_global_stats, max_u64,
}
use ceasefire.Connections.Update.{Acts, get_connection-update_connection}
use ceasefire.Connections.Totals.{get_global_stats-sum}
use ceasefire.Notification.{should_notify}
use ceasefire.Tests.{lower, conn, event}

abbrev earned : ℕ → ℕ → ℕ
earned d r = d * r

abbrev bucket : TokenBucket
bucket = record { capacity = 100; rate = 2; tokens = 30; last_update = 5 }

abbrev requests : List (ℕ × ℕ)
requests = (10, 35) ∷ (12, 20) ∷ (20, 5) ∷ []

run-earnings_example :
    (run earned requests bucket).0 + ((run earned requests bucket).1).tokens
    ≤ 30 + earnings earned 100 2 5 requests
run-earnings_example = run-earnings earned requests bucket

abbrev curl : Text
curl = codes "C:/curl.exe"

abbrev curl_key : Text
curl_key = codes "c:\\curl.exe"

curl_normal : normalize_path lower curl ≡ curl_key
unfolding normalize_path replace to_ascii_lowercase
curl_normal = refl

abbrev limiter : BandwidthLimiter
limiter = record {
  upload_limits = [];
  download_limits = [];
  global_upload_limit = none;
  global_download_limit = none;
}

get_limit-set_limits_example :
    (get_upload_limit lower (set_limits lower 1 limiter curl (some 100) none) curl ≡ (
      if same (normalize_path lower curl) (normalize_path lower curl)
      then rounded (some 100)
      else get_upload_limit lower limiter curl))
    × (get_download_limit lower (set_limits lower 1 limiter curl (some 100) none) curl ≡ (
        if same (normalize_path lower curl) (normalize_path lower curl)
        then rounded none
        else get_download_limit lower limiter curl))
get_limit-set_limits_example =
    get_limit-set_limits lower 1 limiter curl curl (some 100) none (omega arith) (omega arith)

abbrev kernel : KernelThrottleSync
kernel = record {
  path_limits = [];
  global = (true, 800, 800);
  pushed = (42, curl_key) ∷ (43, []) ∷ [];
  global_pushed = true;
}

-- A driver that accepts every call.
abbrev driver : Driver ℕ
driver = record {
  set_throttle = λ pid up down w. (true, w + 1);
  clear_throttle_table = λ w. (true, w + 1);
}

kernel_Unique : Unique kernel.pushed
unfolding ℕ_discrete
kernel_Unique = (refl, (refl, tt))

swept : lookup 42 (sweep_dead_pids (λ p. true) kernel).pushed ≡ some curl_key
unfolding sweep_dead_pids ℕ_discrete
swept = refl

fallback_swept : lookup 43 (sweep_dead_pids (λ p. true) kernel).pushed ≡ some []
unfolding sweep_dead_pids ℕ_discrete
fallback_swept = refl

lookup-update_path_limit_example :
    lookup 42
      (((update_path_limit driver lower (λ p. true) (kernel, 0) curl (some 50) none).0).pushed)
    ≡ none
unfolding normalize_path replace to_ascii_lowercase List-discrete ℕ_discrete
lookup-update_path_limit_example =
    lookup-update_path_limit driver lower (λ p. true) kernel 0 curl curl_key 50 42 none
      kernel_Unique (omega arith) swept

lookup-update_global_example :
    lookup 43 (((update_global driver (λ p. true) (kernel, 0) false 0 0).0).pushed) ≡ none
lookup-update_global_example =
    lookup-update_global driver (λ p. true) kernel 0 0 0 43 [] kernel_Unique fallback_swept

curl_named : is_empty (normalize_path lower curl) ≡ false
unfolding normalize_path replace to_ascii_lowercase
curl_named = refl

global_limit_stays_example :
    lookup 44 (
      ((update_global driver
        (λ p. true)
        (sync_event driver lower (kernel, 0) 44 (some curl))
        false
        800
        800).0
      ).pushed)
    ≡ some (normalize_path lower curl)
global_limit_stays_example =
    global_limit_stays driver lower (λ p. true) kernel 0 800 800 44 curl kernel_Unique (omega arith)
      refl refl (omega arith) refl curl_named (λ n up down v. refl)

abbrev key : ConnectionKey
key = event_key (event EventAction.allow)

abbrev tracker : ConnectionTracker
tracker = record {
  connections = (key, conn) ∷ [];
  blocked_count = 0;
  allowed_count = 1;
  suspicious_count = 0;
}

abbrev noon : Text
noon = codes "2026-01-01T12:00:00Z"

get_connection-update_connection_example :
    let after = update_connection noon (event EventAction.allow) tracker in
    Acts noon
      (event EventAction.allow)
      EventAction.allow
      (get_connection tracker key)
      (get_connection after key)
    × (if same key key then Unit {0} else get_connection after key ≡ get_connection tracker key)
    × Unique after.connections
get_connection-update_connection_example =
    get_connection-update_connection noon (event EventAction.allow) tracker key (refl, tt)

get_global_stats-sum_example :
    ((get_global_stats tracker).total_bytes_sent ≡ min (100 + 0) max_u64)
    × ((get_global_stats tracker).total_bytes_received ≡ min (200 + 0) max_u64)
    × ((get_global_stats tracker).total_packets_sent ≡ min (1 + 0) max_u64)
    × ((get_global_stats tracker).total_packets_received ≡ min (2 + 0) max_u64)
get_global_stats-sum_example = get_global_stats-sum tracker

abbrev entry : LogEntry
entry = record {
  id = none;
  timestamp = noon;
  action = EventAction.block;
  local_addr = [];
  local_port = 1;
  remote_addr = [];
  remote_port = 2;
  protocol = conn.protocol;
  direction = conn.direction;
  process_id = none;
  process_name = none;
  bytes_sent = none;
  bytes_received = none;
  rule_id = none;
}

first_time : (should_notify 5 noon 60 []).0 ≡ true
unfolding should_notify
first_time = refl
