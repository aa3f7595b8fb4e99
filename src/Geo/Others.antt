-- ===== src/Geo/Others.antt =====
-- What an operation on the cache of service/src/geoip/service.rs does to the other addresses.
use ceasefire.Prelude.{
  not, ◌&&◌, false, Option, Bool, if◌then◌else◌, drop, ◌≡◌, refl, ap, ◌∙◌, List, [], ◌∷◌, ◌++◌,
  none, some, leb, length, same, same→eq, differ, list_eq, nat_eq, is_some, Bool-cases,
  Option-cases, inl, inr,
}
use ceasefire.Prelude.Table.{
  Table, lookup, insert, remove, lookup-insert, lookup-insert_other, lookup-remove,
  lookup-remove_other,
}
use ceasefire.Text.{Text}
use ceasefire.Geo.{GeoCache, cache_max_entries, evict, make_room, cache_insert, cache_remove}

-- The address at the head of the queue.
abbrev pub is_oldest : Text → List Text → Bool
is_oldest other [] = false
is_oldest other (k ∷ ks) = same other k

module _ {V : Type 0} where
  -- The insertion of a new address into a full cache.
  abbrev pub gives_up : Text → GeoCache V → Bool
  gives_up ip c = not (is_some (lookup ip c.entries)) && leb cache_max_entries (length c.entries)

  behind_insert :
      (ip : Text) (location : V) (t : Table Text V) (other : Text) {o : Option V}
      → lookup other t ≡ o
      → lookup other (insert ip location t) ≡ (if same other ip then some location else o)
  behind_insert ip location t other h = elim (Bool-cases (same other ip)) [
    | inl g ↦ rw (g, same→eq other ip g) (lookup-insert ip location t)
    | inr g ↦ rw g (lookup-insert_other ip other location t (differ other ip g) ∙ h)
  ]

  behind_remove :
      (ip : Text) (t : Table Text V) (other : Text)
      → lookup other (remove ip t) ≡ (if same other ip then none else lookup other t)
  behind_remove ip t other = elim (Bool-cases (same other ip)) [
    | inl g ↦ rw (g, same→eq other ip g) (lookup-remove ip t)
    | inr g ↦ rw g (lookup-remove_other ip other t (differ other ip g))
  ]

  evict_lem :
      (t : Table Text V) (ks : List Text) (other : Text)
      → (lookup other (evict t ks).entries ≡ (if is_oldest other ks then none else lookup other t))
        × ((evict t ks).order ≡ drop 1 ks)
  unfolding evict
  evict_lem t [] other = (refl, refl)
  evict_lem t (k ∷ ks) other = (behind_remove k t other, refl)

  roomy_others :
      (c : GeoCache V) (other : Text)
      → let full = leb cache_max_entries (length c.entries) in
        (lookup other (make_room c).entries
          ≡ (if full && is_oldest other c.order then none else lookup other c.entries))
        × ((make_room c).order ≡ (if full then drop 1 c.order else c.order))
  unfolding make_room
  roomy_others c other = elim (Bool-cases (leb cache_max_entries (length c.entries))) [
    | inl h ↦ rw h (evict_lem c.entries c.order other)
    | inr h ↦ rw h (refl, refl)
  ]

  pub removed :
      (ip : Text) (c : GeoCache V) (other : Text)
      → lookup other ((cache_remove ip c).1).entries
        ≡ (if same other ip then none else lookup other c.entries)
  unfolding cache_remove
  removed ip c other = elim (Option-cases (lookup ip c.entries)) [
    | inr (v, here) ↦ rw here (behind_remove ip c.entries other)
    | inl absent ↦ elim (Bool-cases (same other ip)) [
      | inl g ↦ rw (absent, g) (ap (λ k. lookup k c.entries) (same→eq other ip g) ∙ absent)
      | inr g ↦ rw (absent, g)
    ]
  ]

  -- What every other address has behind an insertion, and what the queue is.
  pub inserted :
      (ip : Text) (location : V) (c : GeoCache V) (other : Text)
      → (lookup other (cache_insert ip location c).entries ≡ (
          if same other ip
          then some location
          else if gives_up ip c && is_oldest other c.order
          then none
          else lookup other c.entries))
        × ((cache_insert ip location c).order ≡ (
            if is_some (lookup ip c.entries)
            then c.order
            else (if gives_up ip c then drop 1 c.order else c.order) ++ ip ∷ []))
  unfolding cache_insert
  inserted ip location c other = elim (Option-cases (lookup ip c.entries)) [
    | inl fresh ↦
        let (rest, queue) = roomy_others c other in
        rw fresh
          (behind_insert ip location (make_room c).entries other rest, ap (λ l. l ++ ip ∷ []) queue)
    | inr (v, here) ↦ rw here (behind_insert ip location c.entries other refl, refl)
  ]
