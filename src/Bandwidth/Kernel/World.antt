-- ===== src/Bandwidth/Kernel/World.antt =====
-- What the throttle's calls leave alone in the world.
use ceasefire.Prelude.{ℕ, ◌≡◌, refl, Option, none, some, ◌==◌, Bool-cases, inl, inr}
use ceasefire.Text.{Text}
use ceasefire.Bandwidth.Kernel.{
  KernelThrottleSync, Driver, sync_event, push_event, event_answer, normalized, desired, limit_of,
}

module _ {W A : Type 0} (driver : Driver W) (seen : W → A)
    (kept : (pid up down : ℕ) (w : W) → seen ((driver.set_throttle pid up down w).1) ≡ seen w) where
  push_event_keeps :
      (s : KernelThrottleSync) (pid : ℕ) (path : Option Text) (w : W) (o : Option (ℕ × ℕ))
      → seen ((push_event driver s pid path w o).1) ≡ seen w
  unfolding push_event event_answer
  push_event_keeps s pid path w none = refl
  push_event_keeps s pid path w (some (up, down)) =
      elim (Bool-cases ((driver.set_throttle pid up down w).0)) [
        | inl h ↦ rw h (kept pid up down w)
        | inr h ↦ rw h (kept pid up down w)
      ]

  pub sync_event_keeps :
      (lower : Text → Text) (s : KernelThrottleSync) (w : W) (pid : ℕ) (path : Option Text)
      → seen ((sync_event driver lower (s, w) pid path).1) ≡ seen w
  unfolding sync_event
  sync_event_keeps lower s w pid path = elim (Bool-cases (pid == 0)) [
    | inl h ↦ rw h refl
    | inr h ↦
        let known = normalized driver lower path in
        rw h (push_event_keeps s pid known w (desired driver s.global (limit_of driver s known)))
  ]
