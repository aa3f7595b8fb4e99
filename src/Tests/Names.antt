-- ===== src/Tests/Names.antt =====
-- The theorems on DNS at concrete packets and caches.
use ceasefire.Prelude.{◌≡◌, List, [], ◌∷◌, some, arith, ℕ_discrete}
use ceasefire.Text.{codes}
use ceasefire.Net.{v4, ip_eq, IpAddr-discrete}
use ceasefire.Dns.Response.{Answer, parse_dns_response, response}
use ceasefire.Dns.Response.Total.{parse_dns_response_total}
use ceasefire.Dns.Cache.{DnsCache, add_entry, lookup_domain, lookup_domain-add_entry}

parse_dns_response_total_example : (rs : List Answer) × (parse_dns_response response ≡ some rs)
parse_dns_response_total_example = parse_dns_response_total response

abbrev cache : DnsCache
cache = (v4 1, record { domain = codes "a.com"; ip = v4 1; ttl = 300; timestamp = 0 }) ∷ []

lookup_domain-add_entry_example :
    lookup_domain ((add_entry cache 5 (v4 2) (codes "b.com") 60).0) 6 (v4 2) ≡ some (codes "b.com")
unfolding IpAddr-discrete ℕ_discrete
lookup_domain-add_entry_example =
    lookup_domain-add_entry cache 5 6 60 (v4 2) (v4 2) (codes "b.com") (omega arith)
