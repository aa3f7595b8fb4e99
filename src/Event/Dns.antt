-- ===== src/Event/Dns.antt =====
-- `process_dns_event` of service/src/event/processor.rs: the answers of a DNS response that the driver saw
-- go into the cache. A panic of the parser is `none`.
use ceasefire.Prelude.{
  ℕ, ◌≡◌, ◌||◌, List, [], ◌∷◌, Option, none, some, ltb, ◌==◌, if◌then◌else◌, length, take,
  Bool-cases, inl, inr, refl,
}
use ceasefire.Dns.Cache.{DnsCache, add_entry}
use ceasefire.Dns.Response.{Answer, parse_dns_response}
use ceasefire.Dns.Response.Total.{parse_dns_response_total}
use ceasefire.Driver.Received.{DriverDnsEvent}

add_answers : ℕ → List Answer → DnsCache → DnsCache
add_answers now [] cache = cache
add_answers now ((domain, ip, ttl) ∷ rest) cache =
    add_answers now rest ((add_entry cache now ip domain ttl).0)

answered : ℕ → DnsCache → Option (List Answer) → Option DnsCache
unfolding add_answers
answered now cache none = none
answered now cache (some rs) = some (add_answers now rs cache)

unfoldable pub process_dns_event : ℕ → DriverDnsEvent → DnsCache → Option DnsCache
unfolding answered
process_dns_event now e cache =
    if e.data_length == 0 || ltb (length e.data_bytes) e.data_length
    then some cache
    else answered now cache (parse_dns_response (take e.data_length e.data_bytes))

-- Whatever a DNS event holds, the parser reads nothing outside its payload and the event is processed.
pub process_dns_event_total :
    (now : ℕ) (e : DriverDnsEvent) (cache : DnsCache)
    → (cache' : DnsCache) × (process_dns_event now e cache ≡ some cache')
unfolding process_dns_event answered
process_dns_event_total now e cache =
    let (rs, parsed) = parse_dns_response_total (take e.data_length e.data_bytes) in
    elim (Bool-cases (e.data_length == 0 || ltb (length e.data_bytes) e.data_length)) [
      | inl skip ↦ rw skip (cache, refl)
      | inr read ↦ rw (read, parsed) (add_answers now rs cache, refl)
    ]
