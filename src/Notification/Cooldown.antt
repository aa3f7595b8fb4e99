-- ===== src/Notification/Cooldown.antt =====
-- A key is not notified twice within its cooldown.
use ceasefire.Prelude.{
  ℕ, ◌+◌, ◌-◌, ◌*◌, ◌≤◌, ◌<◌, ◌≡◌, true, false, some, ltb, if◌then◌else◌, Bool-cases, inl, inr,
  arith, list_eq, nat_eq, true_not_false, sym, ◌∙◌, leb,
}
use ceasefire.Prelude.Table.{lookup, insert, lookup-insert, lookup-keep_live}
use ceasefire.Text.{Text}
use ceasefire.Notification.{Deduplicator, should_notify, secs, cleanup_expired, too_soon}

kept :
    (now cooldown : ℕ) (key : Text) (d : Deduplicator)
    → (should_notify now key cooldown d).0 ≡ true
    → lookup key ((should_notify now key cooldown d).1) ≡ some now
unfolding should_notify cleanup_expired
kept now cooldown key d h = elim (Bool-cases (too_soon now cooldown (lookup key d))) [
  | inl g ↦ absurd (true_not_false (sym h ∙ rw g))
  | inr g ↦
      let t : ltb (now - now) (secs 60) ≡ true = ground arith in
      rw g (
        lookup-keep_live (λ e. ltb (now - e.1) (secs 60)) key now (insert key now d)
          (lookup-insert key now d) t)
]

soon :
    (now last cooldown : ℕ) (key : Text) (d : Deduplicator)
    → lookup key d ≡ some last
    → (should_notify now key cooldown d).0
      ≡ (if ltb (now - last) (secs cooldown) then false else true)
unfolding should_notify too_soon
soon now last cooldown key d e = elim (Bool-cases (ltb (now - last) (secs cooldown))) [
  | inl g ↦ rw (e, g)
  | inr g ↦ rw (e, g)
]

should_notify_again_cases :
    (now later cooldown : ℕ) (key : Text) (d : Deduplicator)
    → now ≤ later
    → (should_notify now key cooldown d).0 ≡ true
    → (later < now + cooldown * 1_000_000_000
        → (should_notify later key cooldown ((should_notify now key cooldown d).1)).0 ≡ false)
      × (now + cooldown * 1_000_000_000 ≤ later
          → (should_notify later key cooldown ((should_notify now key cooldown d).1)).0 ≡ true)
should_notify_again_cases now later cooldown key d order h =
    let e = soon later now cooldown key _ (kept now cooldown key d h) in
    (
      λ early. let t : ltb (later - now) (secs cooldown) ≡ true = ground arith in e ∙ rw t,
      λ late. let t : ltb (later - now) (secs cooldown) ≡ false = ground arith in e ∙ rw t,
    )

-- A key that was just notified is refused until its cooldown is over, and accepted again from then
-- on.
pub should_notify_again :
    (now later cooldown : ℕ) (key : Text) (d : Deduplicator)
    → now ≤ later
    → (should_notify now key cooldown d).0 ≡ true
    → (should_notify later key cooldown ((should_notify now key cooldown d).1)).0
      ≡ leb (now + cooldown * 1_000_000_000) later
should_notify_again now later cooldown key d order h =
    let (early, late) = should_notify_again_cases now later cooldown key d order h in
    elim (Bool-cases (leb (now + cooldown * 1_000_000_000) later)) [
      | inl g ↦ rw g (late (ground arith))
      | inr g ↦ rw g (early (ground arith))
    ]
