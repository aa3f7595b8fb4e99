-- ===== src/Bandwidth/Budget.antt =====
-- What a token bucket lets through: never more than its capacity and what it earned.
use ceasefire.Prelude.{
  ℕ, ◌+◌, ◌-◌, ◌≤◌, ◌<◌, ◌≡◌, ◌⊎◌, Bool, true, false, List, [], ◌∷◌, leb, if◌then◌else◌, min,
  Bool-cases, inl, inr, arith,
}
use ceasefire.Bandwidth.{
  TokenBucket, new, available_tokens, spend, consume, reset, set_rate, set_capacity, update,
}

abbrev pub Bounded : TokenBucket → Type 0
Bounded b = b.tokens ≤ b.capacity

module _ (earned : ℕ → ℕ → ℕ) where
  spend_lem :
      (now tokens have : ℕ) (b : TokenBucket)
      → have ≤ b.capacity
      → (((spend earned now tokens have b).0 ≡ true)
          × (tokens ≤ have)
          × (((spend earned now tokens have b).1).tokens + tokens ≡ have))
        ⊎ (((spend earned now tokens have b).0 ≡ false)
            × (have < tokens)
            × (((spend earned now tokens have b).1).tokens ≡ have))
  unfolding spend
  spend_lem now tokens have b h = elim (Bool-cases (leb tokens have)) [
    | inl g ↦ inl (rw g, ground arith, rw g (ground arith))
    | inr g ↦ inr (rw g, ground arith, rw g)
  ]

  -- `consume` answers yes exactly when the bucket's tokens, as `available_tokens` reports them,
  -- cover the request: it then takes the request from them, and else takes nothing.
  pub consume-available_tokens :
      (now tokens : ℕ) (b : TokenBucket)
      → (((consume earned now tokens b).0 ≡ true)
          × (((consume earned now tokens b).1).tokens + tokens ≡ available_tokens earned now b))
        ⊎ (((consume earned now tokens b).0 ≡ false)
            × (available_tokens earned now b < tokens)
            × (((consume earned now tokens b).1).tokens ≡ available_tokens earned now b))
  unfolding consume available_tokens
  consume-available_tokens now tokens b =
      elim (spend_lem now tokens (min (b.tokens + earned (now - b.last_update) b.rate) b.capacity) b
        (omega arith)) [ inl (a, _, c) ↦ inl (a, c) | inr r ↦ inr r ]

  spend_fields :
      (now tokens have : ℕ) (b : TokenBucket)
      → (((spend earned now tokens have b).1).capacity ≡ b.capacity)
        × (((spend earned now tokens have b).1).rate ≡ b.rate)
        × (((spend earned now tokens have b).1).last_update ≡ now)
  unfolding spend
  spend_fields now tokens have b = elim (Bool-cases (leb tokens have)) [
    | inl g ↦ (rw g, rw g, rw g)
    | inr g ↦ (rw g, rw g, rw g)
  ]

  consume-Bounded : (now n : ℕ) (b : TokenBucket) → Bounded ((consume earned now n b).1)
  unfolding consume
  consume-Bounded now n b =
      let have = min (b.tokens + earned (now - b.last_update) b.rate) b.capacity in
      let small : have ≤ b.capacity = omega arith in
      let fields = spend_fields now n have b in
      elim (spend_lem now n have b small) [
        | inl (_, _, c) ↦ rw (fields.0) (omega arith)
        | inr (_, _, c) ↦ rw (fields.0) (omega arith)
      ]

  -- A run of requests with their times: the bytes let through, and the bucket after them.
  pub run : List (ℕ × ℕ) → TokenBucket → ℕ × TokenBucket
  run [] b = (0, b)
  run ((now, n) ∷ rs) b =
      let (granted, b1) = consume earned now n b in
      let (rest, b2) = run rs b1 in ((if granted then n + rest else rest), b2)

  -- What a rate earns between the times of the requests, from a time on: in each of the spans at most
  -- the capacity.
  pub earnings : ℕ → ℕ → ℕ → List (ℕ × ℕ) → ℕ
  earnings capacity rate since [] = 0
  earnings capacity rate since ((now, n) ∷ rs) =
      min (earned (now - since) rate) capacity + earnings capacity rate now rs

  fields :
      (now n : ℕ) (b : TokenBucket)
      → (((consume earned now n b).1).capacity ≡ b.capacity)
        × (((consume earned now n b).1).rate ≡ b.rate)
        × (((consume earned now n b).1).last_update ≡ now)
  unfolding consume
  fields now n b =
      spend_fields now n (min (b.tokens + earned (now - b.last_update) b.rate) b.capacity) b

  charge :
      (granted : Bool) (n rest : ℕ)
      → (if granted then n + rest else rest) ≡ (if granted then n else 0) + rest
  charge true n rest = omega arith
  charge false n rest = omega arith

  consume_budget :
      (now n : ℕ) (b : TokenBucket)
      → (if (consume earned now n b).0 then n else 0) + ((consume earned now n b).1).tokens
        ≤ b.tokens + min (earned (now - b.last_update) b.rate) b.capacity
  unfolding available_tokens
  consume_budget now n b = elim (consume-available_tokens now n b) [
    | inl (g, e) ↦ rw g (omega arith)
    | inr (g, _, e) ↦ rw g (omega arith)
  ]

  -- Over any run of requests, the bytes let through and the tokens left are together at most the
  -- tokens of the start and what the rate earns in the spans of time between one request and the
  -- next, the first from the bucket's last update on: each span counts once, with at most the capacity.
  pub run-earnings :
      (rs : List (ℕ × ℕ)) (b : TokenBucket)
      → (run rs b).0 + ((run rs b).1).tokens
        ≤ b.tokens + earnings b.capacity b.rate b.last_update rs
  unfolding run earnings
  run-earnings [] b = omega arith
  run-earnings ((now, n) ∷ rs) b =
      let b1 = (consume earned now n b).1 in
      let step = consume_budget now n b in
      let (c, r, t) = fields now n b in
      let rest = rw (c, r, t) at (run-earnings rs b1) in
      rw (charge ((consume earned now n b).0) n ((run rs b1).0)) (omega arith)

  -- From a bucket that holds at most its capacity, each operation leads to one that does: a request,
  -- a reset, and a change of the rate, the capacity or both. A new bucket does so too.
  pub operations-Bounded :
      (now n capacity rate : ℕ) (b : TokenBucket)
      → Bounded b
      → Bounded (new now capacity rate)
        × Bounded ((consume earned now n b).1)
        × Bounded (reset now b)
        × Bounded (set_capacity capacity b)
        × Bounded (set_rate now rate b)
        × Bounded (update now capacity rate b)
  unfolding new reset set_capacity set_rate update
  operations-Bounded now n capacity rate b h =
      (omega arith, consume-Bounded now n b, omega arith, omega arith, h, omega arith)
