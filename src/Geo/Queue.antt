-- ===== src/Geo/Queue.antt =====
-- The cache and the queue of its keys go together.
use ceasefire.Prelude.{
  ◌&&◌, if◌then◌else◌, drop, ◌<◌, ◌≤◌, ◌≡◌, ◌≢◌, refl, sym, ap, ◌∙◌, true, List, [], ◌∷◌, ◌++◌,
  none, some, leb, length, length-append, same, same_refl, same→eq, differ, list_eq, nat_eq,
  is_some, Bool-cases, Option-cases, inl, inr, arith,
}
use ceasefire.Prelude.Table.{
  Table, lookup, insert, remove, Unique, lookup-insert, lookup-insert_other, lookup-remove,
  lookup-remove_other, insert-Unique, remove-Unique, lookup-remove_absent,
}
use ceasefire.Text.{Text}
use ceasefire.Geo.{
  GeoCache, cache_max_entries, remove_first, evict, make_room, cache_insert, cache_remove,
}
use ceasefire.Geo.Keys.{
  member, Distinct, length-insert_new, length-insert_old, length-remove, length-remove_first,
  member-remove_first_other, member-remove_first, remove_first-Distinct, member-append,
  append-Distinct,
}
use ceasefire.Geo.Others.{gives_up, removed, inserted, is_oldest}

module _ {V : Type 0} where
  -- Each key of the cache stands once in the queue, and nothing else does; the cache is within its bound.
  abbrev pub Sync : GeoCache V → Type 0
  Sync c =
      Unique c.entries
      × Distinct c.order
      × ((ip : Text) → member ip c.order ≡ is_some (lookup ip c.entries))
      × (length c.entries ≡ length c.order)
      × (length c.entries ≤ cache_max_entries)

  dropped :
      (ip : Text) (c : GeoCache V)
      → Sync c
      → is_some (lookup ip c.entries) ≡ true
      → Sync (record { entries = remove ip c.entries; order = remove_first ip c.order })
  dropped ip c (u, d, agree, len, bound) here =
      let shorter = length-remove ip c.entries u here in
      let queue = length-remove_first ip c.order (agree ip ∙ here) in
      (
        remove-Unique ip c.entries u,
        remove_first-Distinct ip c.order d,
        λ other. elim (Bool-cases (same other ip)) [
          | inl e ↦
              let q : other ≡ ip = same→eq other ip e in
              rw q
                (member-remove_first ip c.order d ∙ sym (ap is_some (lookup-remove ip c.entries)))
          | inr e ↦
              let n : other ≢ ip = differ other ip e in
              member-remove_first_other ip other c.order n
              ∙ agree other
              ∙ sym (ap is_some (lookup-remove_other ip other c.entries n))
        ],
        omega (arith, shorter, queue, len),
        omega (arith, shorter, bound),
      )

  added :
      (ip : Text) (v : V) (c : GeoCache V)
      → Sync c
      → lookup ip c.entries ≡ none
      → length c.entries < cache_max_entries
      → Sync (record { entries = insert ip v c.entries; order = c.order ++ ip ∷ [] })
  added ip v c (u, d, agree, len, bound) fresh room = (
    insert-Unique ip v c.entries u,
    append-Distinct ip c.order d (agree ip ∙ ap is_some fresh),
    λ other. member-append other ip c.order ∙ elim (Bool-cases (same ip other)) [
      | inl e ↦ rw (e, sym (same→eq ip other e)) (sym (ap is_some (lookup-insert ip v c.entries)))
      | inr e ↦
          let n : other ≢ ip = λ q. differ ip other e (sym q) in
          rw e (agree other ∙ sym (ap is_some (lookup-insert_other ip other v c.entries n)))
    ],
    omega (arith, length-insert_new ip v c.entries fresh, length-append c.order (ip ∷ []), len),
    omega (arith, length-insert_new ip v c.entries fresh, room),
  )

  overwritten :
      (ip : Text) (v : V) (c : GeoCache V)
      → Sync c
      → is_some (lookup ip c.entries) ≡ true
      → Sync (record c { entries = insert ip v c.entries })
  overwritten ip v c (u, d, agree, len, bound) here = (
    insert-Unique ip v c.entries u,
    d,
    λ other. agree other ∙ elim (Bool-cases (same ip other)) [
      | inl e ↦
          rw (sym (same→eq ip other e)) (here ∙ sym (ap is_some (lookup-insert ip v c.entries)))
      | inr e ↦
          let n : other ≢ ip = λ q. differ ip other e (sym q) in
          sym (ap is_some (lookup-insert_other ip other v c.entries n))
    ],
    length-insert_old ip v c.entries here ∙ len,
    omega (arith, length-insert_old ip v c.entries here, bound),
  )

  oldest_here :
      (k : Text) (ks : List Text) (t : Table Text V)
      → ((ip : Text) → member ip (k ∷ ks) ≡ is_some (lookup ip t))
      → is_some (lookup k t) ≡ true
  oldest_here k ks t agree = sym (agree k) ∙ rw (same_refl k) refl

  -- Room for one more, without a key that was absent coming in.
  roomy :
      (ip : Text) (c : GeoCache V)
      → Sync c
      → lookup ip c.entries ≡ none
      → Sync (make_room c)
        × (lookup ip (make_room c).entries ≡ none)
        × (length (make_room c).entries < cache_max_entries)
  unfolding make_room evict remove_first
  roomy ip c s fresh = elim (Bool-cases (leb cache_max_entries (length c.entries))) [
    | inr h ↦ rw h (s, fresh, ground arith)
    | inl h ↦ rw h (full c.entries c.order s fresh (ground arith))
  ]
    where
      full :
          (t : Table Text V) (ks : List Text)
          → Sync (record { entries = t; order = ks })
          → lookup ip t ≡ none
          → cache_max_entries ≤ length t
          → Sync (evict t ks)
            × (lookup ip (evict t ks).entries ≡ none)
            × (length (evict t ks).entries < cache_max_entries)
      full t [] (u, d, agree, len, bound) absent many = absurd (omega arith)
      full t (k ∷ ks) s absent many =
          let here = oldest_here k ks t (s.2) in
          let shorter = length-remove k t (s.0) here in
          let first : remove_first k (k ∷ ks) ≡ ks = rw (remove_first, same_refl k) refl in
          (
            rw first at (dropped k (record { entries = t; order = k ∷ ks }) s here),
            lookup-remove_absent k ip t absent,
            omega (arith, shorter, s.4),
          )

  operations-Sync_cases :
      (ip : Text) (location : V) (c : GeoCache V)
      → Sync c
      → Sync (cache_insert ip location c) × Sync ((cache_remove ip c).1)
  unfolding cache_insert cache_remove
  operations-Sync_cases ip location c s = elim (Option-cases (lookup ip c.entries)) [
    | inl fresh ↦
        let (synced, absent, room) = roomy ip c s fresh in
        rw fresh (added ip location (make_room c) synced absent room, s)
    | inr (v, here) ↦
        let h : is_some (lookup ip c.entries) ≡ true = ap is_some here in
        rw here (overwritten ip location c s h, dropped ip c s h)
  ]

  -- Where the cache and the queue go together they still do behind an insertion and behind a removal,
  -- and the cache never holds more than 10000 entries. Behind an insertion the address is found; only
  -- where it is new and the cache is full, the oldest address of the queue is not found any more; every
  -- other address has what it had; and a new address goes to the end of the queue. Behind a removal the
  -- address is not found, and every other address has what it had.
  pub operations-Sync :
      (ip : Text) (location : V) (c : GeoCache V) (other : Text)
      → Sync c
      → Sync (cache_insert ip location c)
        × (lookup other (cache_insert ip location c).entries ≡ (
            if same other ip
            then some location
            else if gives_up ip c && is_oldest other c.order
            then none
            else lookup other c.entries))
        × ((cache_insert ip location c).order ≡ (
            if is_some (lookup ip c.entries)
            then c.order
            else (if gives_up ip c then drop 1 c.order else c.order) ++ ip ∷ []))
        × Sync ((cache_remove ip c).1)
        × (lookup other ((cache_remove ip c).1).entries
            ≡ (if same other ip then none else lookup other c.entries))
  operations-Sync ip location c other s =
      let (found_after, queue) = inserted ip location c other in
      let (kept, gone) = operations-Sync_cases ip location c s in
      (kept, found_after, queue, gone, removed ip c other)
