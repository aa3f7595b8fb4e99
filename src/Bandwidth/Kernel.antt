-- ===== src/Bandwidth/Kernel.antt =====
-- `KernelThrottleSync` of service/src/bandwidth/kernel_sync.rs: the limits by path, and the entries
-- of the driver's throttle table by process. The driver is a parameter that acts on a world; a call of
-- it that fails is only logged.
pub mod Pushed
pub mod World
use ceasefire.Prelude.{
  ℕ, ◌*◌, ◌^◌, ◌-◌, Bool, true, false, not, ◌&&◌, ◌||◌, List, [], ◌∷◌, map, Option, none, some, ltb,
  leb, ◌==◌, if◌then◌else◌, keep, length, is_some, is_empty, unwrap_or, same, nat_eq, list_eq, min,
}
use ceasefire.Prelude.Table.{Table, lookup, insert, remove}
use ceasefire.Text.{Text}
use ceasefire.Models.Path.{normalize_path}

pub record KernelThrottleSync : Type 0 where
  pub path_limits : Table Text (ℕ × ℕ)
  pub global : Bool × ℕ × ℕ
  pub pushed : Table ℕ Text
  pub global_pushed : Bool

-- The calls of `DriverHandle`: `true` if the driver accepts one.
pub record Driver (W : Type 0) : Type 0 where
  pub set_throttle : ℕ → ℕ → ℕ → W → Bool × W
  pub clear_throttle_table : W → Bool × W

-- `kbps.saturating_mul(128)` on `u32`
unfoldable pub kbps_to_bps : ℕ → ℕ
kbps_to_bps kbps = min (kbps * 128) (2 ^ 32 - 1)

abbrev pub pushed_sweep_threshold : ℕ
pushed_sweep_threshold = 512

-- `filter(|v| *v > 0)`
positive : Option ℕ → Option ℕ
positive none = none
positive (some v) = if ltb 0 v then some v else none

with_pushed : KernelThrottleSync → Table ℕ Text → KernelThrottleSync
with_pushed s pushed = record {
  path_limits = s.path_limits;
  global = s.global;
  pushed = pushed;
  global_pushed = s.global_pushed;
}

-- What is known of the processes is a parameter, `pid_is_alive`.
module _ (pid_is_alive : ℕ → Bool) where
  unfoldable pub sweep_dead_pids : KernelThrottleSync → KernelThrottleSync
  unfolding with_pushed
  sweep_dead_pids s =
      if leb (length s.pushed) pushed_sweep_threshold
      then s
      else with_pushed s (keep (λ e. pid_is_alive e.0) s.pushed)

module _ {W : Type 0} (driver : Driver W) where
  -- Retract the entries of some processes: each is taken from the table whatever the driver says.
  retract : List ℕ → KernelThrottleSync × W → KernelThrottleSync × W
  unfolding with_pushed
  retract [] st = st
  retract (pid ∷ pids) (s, w) =
      retract pids (with_pushed s (remove pid s.pushed), (driver.set_throttle pid 0 0 w).1)

  global_entry : Bool × ℕ × ℕ → ℕ × ℕ
  global_entry (enabled, up, down) = if enabled then (kbps_to_bps up, kbps_to_bps down) else (0, 0)

  global_answer : KernelThrottleSync → Bool → Bool × W → KernelThrottleSync × W
  global_answer s enabled (accepted, w) =
      if accepted
      then (
        record {
          path_limits = s.path_limits;
          global = s.global;
          pushed = s.pushed;
          global_pushed = enabled;
        },
        w,
      )
      else (s, w)

  unfoldable pub push_global : KernelThrottleSync × W → KernelThrottleSync × W
  unfolding global_entry global_answer
  push_global (s, w) =
      let (enabled, up, down) = s.global in
      if enabled && up == 0 && down == 0
      then (s, w)
      else let (up_bps, down_bps) = global_entry s.global in
        global_answer s enabled (driver.set_throttle 0 up_bps down_bps w)

  unfoldable pub clear_kernel : KernelThrottleSync × W → KernelThrottleSync × W
  clear_kernel (s, w) = (
    record { path_limits = s.path_limits; global = s.global; pushed = []; global_pushed = false },
    (driver.clear_throttle_table w).1,
  )

  -- The two rates an event asks for, from the limit of its path and the global one.
  global_desired : Bool × ℕ × ℕ → Option (ℕ × ℕ)
  global_desired (enabled, up, down) =
      if enabled && (ltb 0 up || ltb 0 down) then some (kbps_to_bps up, kbps_to_bps down) else none

  desired : Bool × ℕ × ℕ → Option (ℕ × ℕ) → Option (ℕ × ℕ)
  desired g none = global_desired g
  desired g (some (up, down)) =
      if ltb 0 up || ltb 0 down then some (kbps_to_bps up, kbps_to_bps down) else global_desired g

  limit_of : KernelThrottleSync → Option Text → Option (ℕ × ℕ)
  limit_of s none = none
  limit_of s (some path) = lookup path s.path_limits

  event_answer : KernelThrottleSync → ℕ → Option Text → Bool × W → KernelThrottleSync × W
  unfolding with_pushed
  event_answer s pid path (accepted, w) =
      if accepted then (with_pushed s (insert pid (unwrap_or [] path) s.pushed), w) else (s, w)

  push_event : KernelThrottleSync → ℕ → Option Text → W → Option (ℕ × ℕ) → KernelThrottleSync × W
  push_event s pid path w none = (s, w)
  push_event s pid path w (some (up, down)) =
      event_answer s pid path (driver.set_throttle pid up down w)

  module _ (lower : Text → Text) where
    normalized : Option Text → Option Text
    normalized none = none
    normalized (some path) = some (normalize_path lower path)

    unfoldable pub sync_event : KernelThrottleSync × W → ℕ → Option Text → KernelThrottleSync × W
    unfolding global_desired desired limit_of event_answer push_event normalized
    sync_event (s, w) pid path =
        if pid == 0
        then (s, w)
        else let known = normalized path in
          push_event s pid known w (desired s.global (limit_of s known))

    -- The limits with the change of one path, and whether anything changed.
    changed_limits : Text → Option ℕ → Option ℕ → Table Text (ℕ × ℕ) → Bool × Table Text (ℕ × ℕ)
    changed_limits path none none limits = (is_some (lookup path limits), remove path limits)
    changed_limits path up down limits =
        (true, insert path (unwrap_or 0 up, unwrap_or 0 down) limits)

    retract_path :
        Text → Bool × Table Text (ℕ × ℕ) → KernelThrottleSync → W → KernelThrottleSync × W
    retract_path path (changed, limits) s w =
        let t : KernelThrottleSync = record {
          path_limits = limits;
          global = s.global;
          pushed = s.pushed;
          global_pushed = s.global_pushed;
        } in
        if not changed
        then (t, w)
        else retract (map (λ e. e.0) (keep (λ e. same (normalize_path lower (e.1)) path) s.pushed))
            (t, w)

    unfoldable pub update_path_limit :
        (ℕ → Bool) → KernelThrottleSync × W → Text → Option ℕ → Option ℕ → KernelThrottleSync × W
    unfolding retract changed_limits retract_path positive sweep_dead_pids
    update_path_limit pid_is_alive (s, w) path up down =
        let key = normalize_path lower path in
        let swept = sweep_dead_pids pid_is_alive s in
        retract_path key (changed_limits key (positive up) (positive down) swept.path_limits) swept
          w

  retract_fallback : Bool → ℕ → ℕ → KernelThrottleSync × W → KernelThrottleSync × W
  retract_fallback enabled up down (s, w) =
      if not enabled || (up == 0 && down == 0)
      then retract (map (λ e. e.0) (keep (λ e. is_empty (e.1)) s.pushed)) (s, w)
      else (s, w)

  unfoldable pub update_global :
      (ℕ → Bool) → KernelThrottleSync × W → Bool → ℕ → ℕ → KernelThrottleSync × W
  unfolding retract retract_fallback
  update_global pid_is_alive (s, w) enabled up down =
      let swept = sweep_dead_pids pid_is_alive s in
      retract_fallback enabled up down (
        push_global (
          record {
            path_limits = swept.path_limits;
            global = (enabled, up, down);
            pushed = swept.pushed;
            global_pushed = swept.global_pushed;
          },
          w,
        ))

-- The limits of a request as they are kept.
unfoldable pub normalize_global_limit :
    Option Bool → Option ℕ → Option ℕ → Bool × Option ℕ × Option ℕ
unfolding positive
normalize_global_limit enabled_flag upload download =
    let enabled = unwrap_or (is_some upload || is_some download) enabled_flag in
    let up = positive upload in
    let down = positive download in
    ((if enabled && not (is_some up) && not (is_some down) then false else enabled), up, down)
