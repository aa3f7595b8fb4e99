-- ===== src/Tests/Geos.antt =====
-- The theorem on the cache of locations at a concrete cache.
use ceasefire.Prelude.{
  same, list_eq, nat_eq, if◌then◌else◌, ◌&&◌, is_some, drop, ◌++◌, ◌∷◌, ℕ, ◌≡◌, refl, [], none,
  some, arith, list_eq, nat_eq,
}
use ceasefire.Prelude.Table.{lookup}
use ceasefire.Text.{codes}
use ceasefire.Geo.{GeoCache, cache_insert, cache_remove}
use ceasefire.Geo.Queue.{Sync, operations-Sync}
use ceasefire.Geo.Others.{gives_up, is_oldest}

abbrev empty : GeoCache ℕ
empty = record { entries = []; order = [] }

empty-Sync : Sync empty
empty-Sync = (tt, tt, λ ip. refl, refl, omega arith)

abbrev one : GeoCache ℕ
one = cache_insert (codes "10.0.0.1") 7 empty

one-Sync : Sync one
one-Sync = (operations-Sync (codes "10.0.0.1") 7 empty [] empty-Sync).0

operations-Sync_example :
    Sync (cache_insert (codes "10.0.0.2") 8 one)
    × (lookup (codes "10.0.0.1") (cache_insert (codes "10.0.0.2") 8 one).entries ≡ (
        if same (codes "10.0.0.1") (codes "10.0.0.2")
        then some 8
        else if gives_up (codes "10.0.0.2") one && is_oldest (codes "10.0.0.1") one.order
        then none
        else lookup (codes "10.0.0.1") one.entries))
    × ((cache_insert (codes "10.0.0.2") 8 one).order ≡ (
        if is_some (lookup (codes "10.0.0.2") one.entries)
        then one.order
        else (if gives_up (codes "10.0.0.2") one then drop 1 one.order else one.order)
          ++ codes "10.0.0.2" ∷ []))
    × Sync ((cache_remove (codes "10.0.0.2") one).1)
    × (lookup (codes "10.0.0.1") ((cache_remove (codes "10.0.0.2") one).1).entries ≡ (
        if same (codes "10.0.0.1") (codes "10.0.0.2")
        then none
        else lookup (codes "10.0.0.1") one.entries))
operations-Sync_example = operations-Sync (codes "10.0.0.2") 8 one (codes "10.0.0.1") one-Sync
