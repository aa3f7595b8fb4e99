-- ===== src/Shadow/Expiry.antt =====
-- How long an entry of the ledger stands: `hit` only lengthens it, `reap` removes what has ended.
use ceasefire.Prelude.{
  ℕ, ◌+◌, ◌≤◌, ◌<◌, ◌≡◌, ◌≢◌, true, false, not, Option, none, some, ltb, leb, ◌==◌, if◌then◌else◌,
  arith, nat_eq, pair_eq, Bool-cases, inl, inr,
}
use ceasefire.Prelude.Table.{
  Unique, lookup, lookup-insert, lookup-insert_other, lookup-keep_live, lookup-keep_dead,
}
use ceasefire.Net.{IpAddr, ip_eq}
use ceasefire.Shadow.{
  ShadowStore, refresh, hit, hit_found, take_out, reap, revoke_rule, shadow_lifetime,
}

longer : ℕ → ℕ → ℕ
longer expiry old = if ltb old expiry then expiry else old

longer_lem : (expiry old : ℕ) → (expiry ≤ longer expiry old) × (old ≤ longer expiry old)
unfolding longer
longer_lem expiry old = ground arith

-- A hit of a rule and an address that are already in the ledger answers `refresh`, keeps the id
-- the driver has, and ends neither before the entry did nor before the new lifetime is over.
pub hit_again :
    (s : ShadowStore) (rule_id : ℕ) (ip : IpAddr) (ttl now i old : ℕ)
    → lookup (rule_id, ip) s.entries ≡ some (i, old)
    → ((hit s rule_id ip ttl now).0 ≡ refresh)
      × (x : ℕ) × (lookup (rule_id, ip) (((hit s rule_id ip ttl now).1).entries) ≡ some (i, x))
      × (old ≤ x)
      × (now + shadow_lifetime ttl ≤ x)
unfolding hit hit_found longer
hit_again s rule_id ip ttl now i old h =
    let (a, b) = longer_lem (now + shadow_lifetime ttl) old in
    (
      rw h,
      longer (now + shadow_lifetime ttl) old,
      rw h (lookup-insert (rule_id, ip) (i, longer (now + shadow_lifetime ttl) old) s.entries),
      b,
      a,
    )

hit_found_other :
    (s : ShadowStore) (k j : ℕ × IpAddr) (expiry : ℕ) (o : Option (ℕ × ℕ))
    → j ≢ k
    → lookup j (((hit_found s k expiry o).1).entries) ≡ lookup j s.entries
unfolding hit_found
hit_found_other s k j expiry none n = lookup-insert_other k j _ s.entries n
hit_found_other s k j expiry (some (i, old)) n = lookup-insert_other k j _ s.entries n

-- A hit leaves the entries of every other rule or address as they are.
pub hit_other :
    (s : ShadowStore) (rule_id : ℕ) (ip : IpAddr) (ttl now : ℕ) (j : ℕ × IpAddr)
    → j ≢ (rule_id, ip)
    → lookup j (((hit s rule_id ip ttl now).1).entries) ≡ lookup j s.entries
unfolding hit
hit_other s rule_id ip ttl now j n = hit_found_other s (rule_id, ip) j _ _ n

lookup-reap_cases :
    (s : ShadowStore) (now : ℕ) (k : ℕ × IpAddr) (i expiry : ℕ)
    → Unique s.entries
    → lookup k s.entries ≡ some (i, expiry)
    → (now < expiry → lookup k (((reap s now).1).entries) ≡ some (i, expiry))
      × (expiry ≤ now → lookup k (((reap s now).1).entries) ≡ none)
unfolding reap take_out
lookup-reap_cases s now k i expiry u h = (
  λ live.
      let t : leb expiry now ≡ false = ground arith in
      lookup-keep_live (λ e. not (leb e.1.1 now)) k (i, expiry) s.entries h (rw t),
  λ dead.
      let t : leb expiry now ≡ true = ground arith in
      lookup-keep_dead (λ e. not (leb e.1.1 now)) k (i, expiry) s.entries u h (rw t),
)

-- With each key once in the ledger, the sweep removes exactly the entries whose time is over: an
-- entry that ends later is found as before, any other is not found.
pub lookup-reap :
    (s : ShadowStore) (now : ℕ) (k : ℕ × IpAddr) (i expiry : ℕ)
    → Unique s.entries
    → lookup k s.entries ≡ some (i, expiry)
    → lookup k (((reap s now).1).entries) ≡ (if leb expiry now then none else some (i, expiry))
lookup-reap s now k i expiry u h =
    let (live, dead) = lookup-reap_cases s now k i expiry u h in
    elim (Bool-cases (leb expiry now)) [
      | inl g ↦ rw g (dead (ground arith))
      | inr g ↦ rw g (live (ground arith))
    ]

lookup-revoke_rule_cases :
    (s : ShadowStore) (rule_id : ℕ) (k : ℕ × IpAddr) (v : ℕ × ℕ)
    → Unique s.entries
    → lookup k s.entries ≡ some v
    → (k.0 ≢ rule_id → lookup k (((revoke_rule s rule_id).1).entries) ≡ some v)
      × (k.0 ≡ rule_id → lookup k (((revoke_rule s rule_id).1).entries) ≡ none)
unfolding revoke_rule take_out
lookup-revoke_rule_cases s rule_id k v u h = (
  λ other.
      let t : (k.0 == rule_id) ≡ false = ground arith in
      lookup-keep_live (λ e. not (e.0.0 == rule_id)) k v s.entries h (rw t),
  λ own.
      let t : (k.0 == rule_id) ≡ true = ground arith in
      lookup-keep_dead (λ e. not (e.0.0 == rule_id)) k v s.entries u h (rw t),
)

-- With each key once in the ledger, the revocation of a rule removes all entries of that rule and
-- no entry of another.
pub lookup-revoke_rule :
    (s : ShadowStore) (rule_id : ℕ) (k : ℕ × IpAddr) (v : ℕ × ℕ)
    → Unique s.entries
    → lookup k s.entries ≡ some v
    → lookup k (((revoke_rule s rule_id).1).entries) ≡ (if k.0 == rule_id then none else some v)
lookup-revoke_rule s rule_id k v u h =
    let (other, own) = lookup-revoke_rule_cases s rule_id k v u h in
    elim (Bool-cases (k.0 == rule_id)) [
      | inl g ↦ rw g (own (ground arith))
      | inr g ↦ rw g (other (ground arith))
    ]
