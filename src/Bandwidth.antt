-- ===== src/Bandwidth.antt =====
-- The limiter of the service: service/src/bandwidth. `TokenBucket` of token_bucket.rs is here, the
-- limiter of mod.rs in Limiter, the kernel's table of kernel_sync.rs in Kernel.
pub mod Budget
pub mod Limiter
pub mod Kernel
use ceasefire.Prelude.{ℕ, ◌+◌, ◌-◌, ◌<◌, ◌^◌, ◌≡◌, refl, Bool, true, false, leb, if◌then◌else◌, min}

-- `last_update` is an `Instant`, a number of nanoseconds.
pub record TokenBucket : Type 0 where
  pub capacity : ℕ
  pub rate : ℕ
  pub tokens : ℕ
  pub last_update : ℕ

unfoldable pub new : ℕ → ℕ → ℕ → TokenBucket
new now capacity rate = record {
  capacity = capacity;
  rate = rate;
  tokens = capacity;
  last_update = now;
}

-- `earned d r` is `(d.as_secs_f64() * r as f64) as u64`, in floating point. The sum with the tokens
-- is that of a release build only while it stays below 2^64.
module _ (earned : ℕ → ℕ → ℕ) where
  unfoldable pub available_tokens : ℕ → TokenBucket → ℕ
  available_tokens now b = min (b.tokens + earned (now - b.last_update) b.rate) b.capacity

  spend : ℕ → ℕ → ℕ → TokenBucket → Bool × TokenBucket
  spend now tokens have b =
      if leb tokens have
      then (
        true,
        record { capacity = b.capacity; rate = b.rate; tokens = have - tokens; last_update = now },
      )
      else (
        false,
        record { capacity = b.capacity; rate = b.rate; tokens = have; last_update = now },
      )

  unfoldable pub consume : ℕ → ℕ → TokenBucket → Bool × TokenBucket
  unfolding spend
  consume now tokens b =
      spend now tokens (min (b.tokens + earned (now - b.last_update) b.rate) b.capacity) b

unfoldable pub reset : ℕ → TokenBucket → TokenBucket
reset now b = record {
  capacity = b.capacity;
  rate = b.rate;
  tokens = b.capacity;
  last_update = now;
}

unfoldable pub set_rate : ℕ → ℕ → TokenBucket → TokenBucket
set_rate now rate b = record {
  capacity = b.capacity;
  rate = rate;
  tokens = b.tokens;
  last_update = now;
}

unfoldable pub set_capacity : ℕ → TokenBucket → TokenBucket
set_capacity capacity b = record {
  capacity = capacity;
  rate = b.rate;
  tokens = min b.tokens capacity;
  last_update = b.last_update;
}

-- `SharedTokenBucket::update`
unfoldable pub update : ℕ → ℕ → ℕ → TokenBucket → TokenBucket
update now capacity rate b = set_rate now rate (set_capacity capacity b)
