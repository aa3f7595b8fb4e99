-- ===== src/Dns/Cache.antt =====
-- `DnsCache` of service/src/dns_cache.rs: the domain each address was last seen under. An `Instant`
-- is a number of nanoseconds.
use ceasefire.Prelude.{
  ℕ, ◌-◌, ◌*◌, ◌+◌, ◌≤◌, ◌<◌, ◌≡◌, ◌≢◌, Bool, true, false, not, Option, none, some, ltb,
  if◌then◌else◌, length, keep, Bool-cases, Option-cases, inl, inr, arith, same, same→eq, differ,
}
use ceasefire.Prelude.Table.{
  Table, Unique, lookup, insert, lookup-insert, lookup-insert_other, insert-Unique, keep-Unique,
  lookup-keep_absent, lookup-keep_dead, lookup-keep_live,
}
use ceasefire.Text.{Text}
use ceasefire.Net.{IpAddr, ip_eq}

pub record DnsCacheEntry : Type 0 where
  pub domain : Text
  pub ip : IpAddr
  pub ttl : ℕ
  pub timestamp : ℕ

pub record DnsObservation : Type 0 where
  pub ip : IpAddr
  pub domain : Text
  pub ttl : ℕ

abbrev pub DnsCache : Type 0
DnsCache = Table IpAddr DnsCacheEntry

unfoldable pub is_expired : ℕ → DnsCacheEntry → Bool
is_expired now e = ltb (e.ttl * 1_000_000_000) (now - e.timestamp)

-- The new cache, and what is sent to the subscribers.
unfoldable pub add_entry : DnsCache → ℕ → IpAddr → Text → ℕ → DnsCache × DnsObservation
add_entry cache now ip domain ttl = (
  insert ip (record { domain = domain; ip = ip; ttl = ttl; timestamp = now }) cache,
  record { ip = ip; domain = domain; ttl = ttl },
)

live_domain : ℕ → Option DnsCacheEntry → Option Text
live_domain now none = none
live_domain now (some e) = if not (is_expired now e) then some (e.domain) else none

unfoldable pub lookup_domain : DnsCache → ℕ → IpAddr → Option Text
unfolding live_domain
lookup_domain cache now ip = live_domain now (lookup ip cache)

unfoldable pub cleanup_expired : DnsCache → ℕ → ℕ × DnsCache
cleanup_expired cache now =
    let left = keep (λ e. not (is_expired now (e.1))) cache in (length cache - length left, left)

lookup_domain-add_entry_cases :
    (cache : DnsCache) (now later ttl : ℕ) (ip : IpAddr) (domain : Text)
    → (now ≤ later
        → later ≤ now + ttl * 1_000_000_000
        → lookup_domain ((add_entry cache now ip domain ttl).0) later ip ≡ some domain)
      × (now + ttl * 1_000_000_000 < later
          → lookup_domain ((add_entry cache now ip domain ttl).0) later ip ≡ none)
      × ((other : IpAddr)
          → other ≢ ip
          → lookup_domain ((add_entry cache now ip domain ttl).0) later other
            ≡ lookup_domain cache later other)
unfolding lookup_domain add_entry live_domain is_expired
lookup_domain-add_entry_cases cache now later ttl ip domain =
    let e : DnsCacheEntry = record { domain = domain; ip = ip; ttl = ttl; timestamp = now } in
    (
      λ h k.
          let t : ltb (ttl * 1_000_000_000) (later - now) ≡ false = ground arith in
          rw (lookup-insert ip e cache, t),
      λ h.
          let t : ltb (ttl * 1_000_000_000) (later - now) ≡ true = ground arith in
          rw (lookup-insert ip e cache, t),
      λ other n. rw (lookup-insert_other ip other e cache n),
    )

-- An address just entered is found under its domain while its TTL runs and is not found after it,
-- and entering it does not change what another address is found under.
pub lookup_domain-add_entry :
    (cache : DnsCache) (now later ttl : ℕ) (ip other : IpAddr) (domain : Text)
    → now ≤ later
    → lookup_domain ((add_entry cache now ip domain ttl).0) later other ≡ (
        if same other ip
        then (if ltb (now + ttl * 1_000_000_000) later then none else some domain)
        else lookup_domain cache later other)
lookup_domain-add_entry cache now later ttl ip other domain order =
    let (live, dead, others) = lookup_domain-add_entry_cases cache now later ttl ip domain in
    elim (Bool-cases (same other ip)) [
      | inl g ↦ elim (Bool-cases (ltb (now + ttl * 1_000_000_000) later)) [
        | inl t ↦ rw (g, t, same→eq other ip g) (dead (ground arith))
        | inr t ↦ rw (g, t, same→eq other ip g) (live order (ground arith))
      ]
      | inr g ↦ rw g (others other (differ other ip g))
    ]

live_domain-keep :
    (now : ℕ) (cache : DnsCache) (ip : IpAddr)
    → Unique cache
    → live_domain now (lookup ip (keep (λ e. not (is_expired now (e.1))) cache))
      ≡ live_domain now (lookup ip cache)
unfolding live_domain
live_domain-keep now cache ip u = elim (Option-cases (lookup ip cache)) [
  | inl h ↦ rw (h, lookup-keep_absent (λ e. not (is_expired now (e.1))) ip cache h)
  | inr (e, h) ↦ elim (Bool-cases (is_expired now e)) [
    | inl dead ↦
        rw (h, dead, lookup-keep_dead (λ e. not (is_expired now (e.1))) ip e cache u h (rw dead))
    | inr live ↦ rw (h, lookup-keep_live (λ e. not (is_expired now (e.1))) ip e cache h (rw live))
  ]
]

-- With each address entered once, the sweep is not seen by a lookup at the time it runs, each
-- address stands once afterwards, and so it does after an entry is added.
pub lookup_domain-cleanup_expired :
    (cache : DnsCache) (now ttl : ℕ) (ip : IpAddr) (domain : Text)
    → Unique cache
    → (lookup_domain ((cleanup_expired cache now).1) now ip ≡ lookup_domain cache now ip)
      × Unique ((cleanup_expired cache now).1)
      × Unique ((add_entry cache now ip domain ttl).0)
unfolding lookup_domain cleanup_expired add_entry
lookup_domain-cleanup_expired cache now ttl ip domain u =
    (live_domain-keep now cache ip u, keep-Unique _ cache u, insert-Unique ip _ cache u)
