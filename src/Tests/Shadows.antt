-- ===== src/Tests/Shadows.antt =====
-- The theorems on shadow rules at a ledger with one entry.
use ceasefire.Prelude.{
  same, ◌==◌, if◌then◌else◌, nat_eq, pair_eq, none, some, ℕ, ◌≡◌, ◌⊎◌, inl, inr, refl, Bool, true,
  false, List, [], ◌∷◌, Option, none, some, ok, arith, ℕ_discrete, pair-discrete, pair_eq, nat_eq,
}
use ceasefire.Prelude.Table.{lookup}
use ceasefire.Text.{codes}
use ceasefire.Net.{IpAddr, v4, IpAddr-discrete, ip_eq}
use ceasefire.Dns.Cache.{DnsObservation}
use ceasefire.Shadow.{ShadowStore, create, hit, reap, revoke_rule, remove_entry, source_of}
use ceasefire.Shadow.WellFormed.{WellFormed}
use ceasefire.Shadow.Ids.{hit-WellFormed, source_of-hit}
use ceasefire.Shadow.Removal.{unexpired, removals_exact}
use ceasefire.Shadow.Engine.{Ops, on_dns_observation}
use ceasefire.Shadow.Engine.Ledger.{Reliable, Backed, on_dns_observation-Backed}
use ceasefire.Tests.{lower, to_domain}

abbrev store : ShadowStore
store = record { next_index = 2; entries = ((7, v4 1), (0x8000_0001, 50)) ∷ [] }

store-WellFormed : WellFormed store
store-WellFormed = record {
  unique = (refl, tt);
  issued = ((omega arith, omega arith), tt);
  distinct = (tt, tt);
  positive = omega arith;
}

hit-WellFormed_example : WellFormed ((hit store 7 (v4 2) 300 10).1)
hit-WellFormed_example = hit-WellFormed store 7 (v4 2) 300 10 store-WellFormed (omega arith)

removals_exact_example :
    ((lookup (7, v4 1) (((reap store 60).1).entries)
        ≡ unexpired 60 (lookup (7, v4 1) store.entries))
      × WellFormed ((reap store 60).1))
    × ((lookup (7, v4 1) (((revoke_rule store 8).1).entries)
          ≡ (if 7 == 8 then none else lookup (7, v4 1) store.entries))
        × WellFormed ((revoke_rule store 8).1))
    × ((lookup (7, v4 1) (((remove_entry store 8 (v4 1)).1).entries) ≡ (
          if same {A = ℕ × IpAddr} (7, v4 1) (8, v4 1)
          then none
          else lookup (7, v4 1) store.entries))
        × WellFormed ((remove_entry store 8 (v4 1)).1))
removals_exact_example = removals_exact store (7, v4 1) 60 8 (v4 1) store-WellFormed

absent : lookup (7, v4 2) store.entries ≡ none
unfolding pair-discrete ℕ_discrete IpAddr-discrete
absent = refl

present : lookup (7, v4 1) store.entries ≡ some (0x8000_0001, 50)
unfolding pair-discrete ℕ_discrete IpAddr-discrete
present = refl

source_of-hit_example :
    (i : ℕ) × ((hit store 7 (v4 2) 300 10).0 ≡ create i)
    × (source_of ((hit store 7 (v4 2) 300 10).1) i ≡ some 7)
source_of-hit_example = source_of-hit store 7 (v4 2) 300 10 store-WellFormed (omega arith) absent

-- A driver that takes every rule, whose world is the list of the ids in it.
abbrev In : List ℕ → ℕ → Type 0
In [] i = Path Bool true false
In (j ∷ l) i = (i ≡ j) ⊎ In l i

abbrev id_of : Option ℕ → ℕ
id_of none = 0
id_of (some i) = i

abbrev ops : Ops (List ℕ)
ops = record {
  add_rule = λ r w. (ok tt, id_of r.id ∷ w);
  remove_rule = λ i w. (ok tt, w);
  list_rules = λ w. (ok (to_domain (codes "*.com") ∷ []), w);
  now = λ w. (10, w);
}

reliable : Reliable (List ℕ) ops In
reliable = record {
  add_ok = λ r w i e h. inl (rw e);
  add_keeps = λ r w i h. inr h;
  list_keeps = λ w i h. h;
  now_keeps = λ w i h. h;
}

abbrev seen : DnsObservation
seen = record { ip = v4 2; domain = codes "a.com"; ttl = 300 }

on_dns_observation-Backed_example :
    Backed In (on_dns_observation ops lower (λ ip. []) seen (store, 0x8000_0001 ∷ []))
on_dns_observation-Backed_example =
    on_dns_observation-Backed ops lower (λ ip. []) In reliable seen store (0x8000_0001 ∷ [])
      (inl refl, tt)
