-- ===== src/History/Once.antt =====
-- Each byte of a connection is written once: a run of snapshots and the connection's end, and the
-- ways in which it fails.
use ceasefire.Prelude.{
  ℕ, ◌+◌, ◌-◌, ◌≤◌, ◌≡◌, refl, ap, ◌∙◌, List, [], ◌∷◌, none, some, if◌then◌else◌, any, is_empty,
  same, list_eq, nat_eq, unwrap_or, ok, err, Bool-cases, same_refl, inl, inr, arith,
}
use ceasefire.Errors.{ServiceError}
use ceasefire.Prelude.Table.{lookup, lookup-keep_live, lookup-remove}
use ceasefire.Text.{Text}
use ceasefire.Models.{ConnectionInfo, NetworkEvent, NetworkHistoryRecord}
use ceasefire.Connections.{ConnectionTracker, get_active_connections}
use ceasefire.History.{
  HistoryTable, Baseline, connection_key, closed_key, snapshot_all, snapshot,
  record_closed_connection, moved, closed_row,
}
use ceasefire.History.Account.{
  Way, part, counters, totals, logged, of_key, logged-append, snapshot_all-absent,
  snapshot_all-sole, of_key-any, of_key-not_any, lookup-keep_gone, Promises, Writes, still, sent,
  received, amount-closed_row, row_key-closed_row,
}

module _ (decimal : ℕ → Text) {W : Type 0} (rows : W → List NetworkHistoryRecord)
    (db : HistoryTable W) (p : Promises decimal rows db) where
  written :
      (way : Way) (k : Text) (batch : List NetworkHistoryRecord) (w : W)
      → Writes decimal rows db
      → logged decimal way k
          (rows (if is_empty batch then w else (db.create_network_history_batch batch w).1))
        ≡ logged decimal way k (rows w) + logged decimal way k batch
  written way k [] w writes = omega arith
  written way k (r ∷ rs) w writes =
      ap (logged decimal way k) (p.batch_ok (r ∷ rs) w (writes.1 (r ∷ rs) w))
      ∙ logged-append decimal way k (rows w) (r ∷ rs)

  -- A round, with the only connection of the key in it.
  snapshot-sole :
      (way : Way) (k now : Text) (t : ConnectionTracker) (a : ConnectionInfo) (b : Baseline) (w : W)
      → Writes decimal rows db
      → of_key decimal k (get_active_connections t) ≡ a ∷ []
      → (lookup k ((snapshot decimal db now t (b, w)).0) ≡ some (counters a))
        × (logged decimal way k (rows ((snapshot decimal db now t (b, w)).1))
            ≡ logged decimal way k (rows w)
              + (part way (counters a) - part way (unwrap_or (0, 0) (lookup k b))))
  unfolding snapshot
  snapshot-sole way k now t a b w writes h =
      let cs = get_active_connections t in
      let s = snapshot_all decimal now cs b in
      let (value, all_logged) = snapshot_all-sole decimal way k now a cs b h in
      (
        lookup-keep_live (λ e. any (λ c. same (connection_key decimal c) (e.0)) cs) k (counters a)
            (s.1) value (of_key-any decimal k a cs [] h),
        written way k (s.0) w writes ∙ ap (λ x. logged decimal way k (rows w) + x) all_logged,
      )

  -- A round without the connection forgets what was written of it.
  snapshot_absent :
      (way : Way) (k now : Text) (t : ConnectionTracker) (b : Baseline) (w : W)
      → Writes decimal rows db
      → of_key decimal k (get_active_connections t) ≡ []
      → (lookup k ((snapshot decimal db now t (b, w)).0) ≡ none)
        × (logged decimal way k (rows ((snapshot decimal db now t (b, w)).1))
            ≡ logged decimal way k (rows w))
  unfolding snapshot
  snapshot_absent way k now t b w writes h =
      let cs = get_active_connections t in
      let s = snapshot_all decimal now cs b in
      let (value, none_logged) = snapshot_all-absent decimal way k now cs b h in
      (
        lookup-keep_gone (λ e. any (λ c. same (connection_key decimal c) (e.0)) cs) k (s.1)
            (λ v. of_key-not_any decimal k cs h),
        written way k (s.0) w writes ∙ omega (arith, none_logged),
      )

  part_minus : (way : Way) (t l : ℕ × ℕ) → part way (t.0 - l.0, t.1 - l.1) ≡ part way t - part way l
  part_minus sent t l = refl
  part_minus received t l = refl

  closing :
      (way : Way) (now : Text) (e : NetworkEvent) (d : ℕ × ℕ) (w : W)
      → ((r : NetworkHistoryRecord) (v : W) → (db.create_network_history r v).0 ≡ ok tt)
      → logged decimal way (closed_key decimal e) (
          rows
            ((if moved d then db.create_network_history (closed_row now e d) w else (ok tt, w)).1))
        ≡ logged decimal way (closed_key decimal e) (rows w) + part way d
  closing way now e d w writes =
      let k = closed_key decimal e in
      elim (Bool-cases (moved d)) [
        | inl m ↦
            rw (m, p.row_ok (closed_row now e d) w (writes (closed_row now e d) w))
              (logged-append decimal way k (rows w) (closed_row now e d ∷ [])
                ∙ rw
                    (row_key-closed_row decimal now e d, same_refl k, amount-closed_row way now e d)
                    (omega arith))
        | inr m ↦ rw m (omega (arith, still way d m))
      ]

  record_closed :
      (way : Way) (now : Text) (e : NetworkEvent) (b : Baseline) (w : W)
      → ((r : NetworkHistoryRecord) (v : W) → (db.create_network_history r v).0 ≡ ok tt)
      → logged decimal way
          (closed_key decimal e)
          (rows ((record_closed_connection decimal db now e b w).1.1))
        ≡ logged decimal way (closed_key decimal e) (rows w)
          + (part way (totals e) - part way (unwrap_or (0, 0) (lookup (closed_key decimal e) b)))
  unfolding record_closed_connection
  record_closed way now e b w writes =
      let last = unwrap_or (0, 0) (lookup (closed_key decimal e) b) in
      closing way now e ((totals e).0 - last.0, (totals e).1 - last.1) w writes
      ∙ ap (λ x. logged decimal way (closed_key decimal e) (rows w) + x)
          (part_minus way (totals e) last)

  -- The rounds of a list, each with a connection that is in it.
  abbrev pub snapshots :
      List (Text × ConnectionTracker × ConnectionInfo) → Baseline × W → Baseline × W
  snapshots [] s = s
  snapshots ((now, t, a) ∷ rest) s = snapshots rest (snapshot decimal db now t s)

  -- In each round the connection is the only one of its key, and its counters do not fall.
  abbrev pub Grows : Text → ℕ × ℕ → List (Text × ConnectionTracker × ConnectionInfo) → Type 0
  Grows k last [] = Unit {0}
  Grows k last ((now, t, a) ∷ rest) =
      (of_key decimal k (get_active_connections t) ≡ a ∷ [])
      × (last.0 ≤ a.bytes_sent)
      × (last.1 ≤ a.bytes_received)
      × Grows k (counters a) rest

  abbrev pub last_counters : ℕ × ℕ → List (Text × ConnectionTracker × ConnectionInfo) → ℕ × ℕ
  last_counters last [] = last
  last_counters last ((now, t, a) ∷ rest) = last_counters (counters a) rest

  part_le : (way : Way) (l t : ℕ × ℕ) → l.0 ≤ t.0 → l.1 ≤ t.1 → part way l ≤ part way t
  part_le sent l t h g = h
  part_le received l t h g = g

  closed_forgets :
      (now : Text) (e : NetworkEvent) (b : Baseline) (w : W)
      → lookup (closed_key decimal e) ((record_closed_connection decimal db now e b w).0) ≡ none
  unfolding record_closed_connection
  closed_forgets now e b w = lookup-remove (closed_key decimal e) b

  part_zero : (way : Way) → part way (0, 0) ≡ 0
  part_zero sent = refl
  part_zero received = refl

  snapshots-Grows :
      (way : Way) (k : Text) (steps : List (Text × ConnectionTracker × ConnectionInfo))
      (s : Baseline × W)
      → Writes decimal rows db
      → Grows k (unwrap_or (0, 0) (lookup k (s.0))) steps
      → (unwrap_or (0, 0) (lookup k ((snapshots steps s).0))
          ≡ last_counters (unwrap_or (0, 0) (lookup k (s.0))) steps)
        × (logged decimal way k (rows ((snapshots steps s).1))
              + part way (unwrap_or (0, 0) (lookup k (s.0)))
            ≡ logged decimal way k (rows (s.1))
              + part way (last_counters (unwrap_or (0, 0) (lookup k (s.0))) steps))
  snapshots-Grows way k [] s writes g = (refl, refl)
  snapshots-Grows way k ((now, t, a) ∷ rest) (b, w) writes (only, up, down, g) =
      let (value, all_logged) = snapshot-sole way k now t a b w writes only in
      let (stands, sum) =
        snapshots-Grows way k rest (snapshot decimal db now t (b, w)) writes (rw value g) in
      let base : unwrap_or (0, 0) (lookup k ((snapshot decimal db now t (b, w)).0)) ≡ counters a =
        rw value refl in
      let le = part_le way (unwrap_or (0, 0) (lookup k b)) (counters a) up down in
      (stands ∙ ap (λ x. last_counters x rest) base, omega (arith, rw base at sum, all_logged, le))

  -- A connection that the history has no baseline of, that stands in each of some rounds of the
  -- snapshot as the only one of its key and whose counters do not fall, then ends with totals that
  -- are not below them: where the writes succeed, the rows of its key have grown by exactly the
  -- totals, in each direction, and no baseline of it is left.
  pub exactly_once :
      (way : Way) (now : Text) (e : NetworkEvent)
      (steps : List (Text × ConnectionTracker × ConnectionInfo)) (s : Baseline × W)
      → Writes decimal rows db
      → lookup (closed_key decimal e) (s.0) ≡ none
      → Grows (closed_key decimal e) (0, 0) steps
      → (last_counters (0, 0) steps).0 ≤ (totals e).0
      → (last_counters (0, 0) steps).1 ≤ (totals e).1
      → let after = snapshots steps s in
        let end = record_closed_connection decimal db now e (after.0) (after.1) in
        (logged decimal way (closed_key decimal e) (rows (end.1.1))
          ≡ logged decimal way (closed_key decimal e) (rows (s.1)) + part way (totals e))
        × (lookup (closed_key decimal e) (end.0) ≡ none)
  exactly_once way now e steps s writes fresh g up down =
      let k = closed_key decimal e in
      let after = snapshots steps s in
      let base : unwrap_or (0, 0) (lookup k (s.0)) ≡ (0, 0) = rw fresh refl in
      let grows : Grows k (unwrap_or (0, 0) (lookup k (s.0))) steps = rw base g in
      let (stands, sum) = snapshots-Grows way k steps s writes grows in
      let end = record_closed way now e (after.0) (after.1) (writes.0) in
      let total : unwrap_or (0, 0) (lookup k (after.0)) ≡ last_counters (0, 0) steps =
        stands ∙ ap (λ x. last_counters x steps) base in
      let le = part_le way (last_counters (0, 0) steps) (totals e) up down in
      let zero = part_zero way in
      (
        omega (arith, rw total at end, rw base at sum, le, zero),
        closed_forgets now e (after.0) (after.1),
      )

  -- If a round without the connection comes before its end, as the connection tracker forgets a
  -- connection at its `Close` event and after five minutes without a packet, its bytes up to the last
  -- round that it stood in are written twice.
  pub counted_twice :
      (way : Way) (later now : Text) (t : ConnectionTracker) (e : NetworkEvent)
      (steps : List (Text × ConnectionTracker × ConnectionInfo)) (s : Baseline × W)
      → Writes decimal rows db
      → lookup (closed_key decimal e) (s.0) ≡ none
      → Grows (closed_key decimal e) (0, 0) steps
      → of_key decimal (closed_key decimal e) (get_active_connections t) ≡ []
      → let after = snapshot decimal db later t (snapshots steps s) in
        let end = record_closed_connection decimal db now e (after.0) (after.1) in
        logged decimal way (closed_key decimal e) (rows (end.1.1))
        ≡ logged decimal way (closed_key decimal e) (rows (s.1))
          + part way (last_counters (0, 0) steps)
          + part way (totals e)
  counted_twice way later now t e steps s writes fresh g gone =
      let k = closed_key decimal e in
      let before = snapshots steps s in
      let after = snapshot decimal db later t before in
      let base : unwrap_or (0, 0) (lookup k (s.0)) ≡ (0, 0) = rw fresh refl in
      let grows : Grows k (unwrap_or (0, 0) (lookup k (s.0))) steps = rw base g in
      let (stands, sum) = snapshots-Grows way k steps s writes grows in
      let (forgotten, same_sum) = snapshot_absent way k later t (before.0) (before.1) writes gone in
      let end = record_closed way now e (after.0) (after.1) (writes.0) in
      let zero = part_zero way in omega (arith, rw forgotten at end, same_sum, rw base at sum, zero)

  unwritten_round :
      (way : Way) (k now : Text) (t : ConnectionTracker) (a : ConnectionInfo) (b : Baseline) (w : W)
      (x : ServiceError)
      → ((rs : List NetworkHistoryRecord) (v : W)
          → (db.create_network_history_batch rs v).0 ≡ err x)
      → of_key decimal k (get_active_connections t) ≡ a ∷ []
      → (lookup k ((snapshot decimal db now t (b, w)).0) ≡ some (counters a))
        × (logged decimal way k (rows ((snapshot decimal db now t (b, w)).1))
            ≡ logged decimal way k (rows w))
  unfolding snapshot
  unwritten_round way k now t a b w x fails h =
      let cs = get_active_connections t in
      let s = snapshot_all decimal now cs b in
      (
        lookup-keep_live (λ e. any (λ c. same (connection_key decimal c) (e.0)) cs) k (counters a)
            (s.1) (snapshot_all-sole decimal way k now a cs b h).0 (of_key-any decimal k a cs [] h),
        elim (Bool-cases (is_empty (s.0))) [
          | inl q ↦ rw q refl
          | inr q ↦ rw q (ap (logged decimal way k) (p.batch_err (s.0) w x (fails (s.0) w)))
        ],
      )

  -- Where the write of a round fails, the baseline moves on all the same: the connection's end then
  -- writes only what came after that round, and the bytes before it are in no row.
  pub snapshot_lost :
      (way : Way) (later now : Text) (t : ConnectionTracker) (a : ConnectionInfo) (e : NetworkEvent)
      (b : Baseline) (w : W) (x : ServiceError)
      → ((r : NetworkHistoryRecord) (v : W) → (db.create_network_history r v).0 ≡ ok tt)
      → ((rs : List NetworkHistoryRecord) (v : W)
          → (db.create_network_history_batch rs v).0 ≡ err x)
      → of_key decimal (closed_key decimal e) (get_active_connections t) ≡ a ∷ []
      → let after = snapshot decimal db later t (b, w) in
        let end = record_closed_connection decimal db now e (after.0) (after.1) in
        logged decimal way (closed_key decimal e) (rows (end.1.1))
        ≡ logged decimal way (closed_key decimal e) (rows w)
          + (part way (totals e) - part way (counters a))
  snapshot_lost way later now t a e b w x row batch only =
      let k = closed_key decimal e in
      let after = snapshot decimal db later t (b, w) in
      let (value, unwritten) = unwritten_round way k later t a b w x batch only in
      let end = record_closed way now e (after.0) (after.1) row in
      omega (arith, rw value at end, unwritten)
