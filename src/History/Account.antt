-- ===== src/History/Account.antt =====
-- What a round of the snapshot and the end of a connection add to the bytes in the database.
use ceasefire.Prelude.{
  ℕ, ◌+◌, ◌-◌, ◌≡◌, refl, sym, ap, ◌∙◌, Bool, true, false, List, [], ◌∷◌, ◌++◌, Option, none, some,
  if◌then◌else◌, keep, any, same, list_eq, nat_eq, unwrap_or, same→eq, same_refl, ok, err, differ,
  Bool-cases, inl, inr, arith, not_same,
}
use ceasefire.Errors.{ServiceError}
use ceasefire.Prelude.Table.{lookup, insert, lookup-insert, lookup-insert_other}
use ceasefire.Text.{Text}
use ceasefire.Models.{ConnectionInfo, NetworkEvent, NetworkHistoryRecord}
use ceasefire.History.{
  HistoryTable, Baseline, delta, snapshot_row, closed_row, moved, connection_snapshot_key,
  connection_key, closed_key, snapshot_all,
}

pub data Way : Type 0 where
  sent received : Way

abbrev pub part : Way → ℕ × ℕ → ℕ
part sent (s, r) = s
part received (s, r) = r

abbrev pub counters : ConnectionInfo → ℕ × ℕ
counters c = (c.bytes_sent, c.bytes_received)

abbrev pub totals : NetworkEvent → ℕ × ℕ
totals e = (unwrap_or 0 e.bytes_sent, unwrap_or 0 e.bytes_received)

abbrev pub amount : Way → NetworkHistoryRecord → ℕ
amount sent r = r.bytes_sent
amount received r = r.bytes_received

part-delta :
    (way : Way) (o : Option (ℕ × ℕ)) (c : ConnectionInfo)
    → part way (delta o c) ≡ part way (counters c) - part way (unwrap_or (0, 0) o)
unfolding delta
part-delta sent none c = omega arith
part-delta received none c = omega arith
part-delta sent (some (s, r)) c = refl
part-delta received (some (s, r)) c = refl

-- What is not written is nothing.
pub still : (way : Way) (d : ℕ × ℕ) → moved d ≡ false → part way d ≡ 0
still sent (s, r) h = ground arith
still received (s, r) h = ground arith

amount-snapshot_row :
    (way : Way) (now : Text) (c : ConnectionInfo) (d : ℕ × ℕ)
    → amount way (snapshot_row now c d) ≡ part way d
unfolding snapshot_row
amount-snapshot_row sent now c (s, r) = refl
amount-snapshot_row received now c (s, r) = refl

pub amount-closed_row :
    (way : Way) (now : Text) (e : NetworkEvent) (d : ℕ × ℕ)
    → amount way (closed_row now e d) ≡ part way d
unfolding closed_row
amount-closed_row sent now e (s, r) = refl
amount-closed_row received now e (s, r) = refl

pub lookup-keep_gone :
    (p : Text × (ℕ × ℕ) → Bool) (k : Text) (t : Baseline)
    → ((v : ℕ × ℕ) → p (k, v) ≡ false)
    → lookup k (keep p t) ≡ none
lookup-keep_gone p k [] gone = refl
lookup-keep_gone p k ((j, v) ∷ t) gone = elim (Bool-cases (same k j)) [
  | inl h ↦
      let q : p (j, v) ≡ false = ap (λ x. p (x, v)) (sym (same→eq k j h)) ∙ gone v in
      rw q (lookup-keep_gone p k t gone)
  | inr h ↦ elim (Bool-cases (p (j, v))) [
    | inl q ↦ rw (q, h) (lookup-keep_gone p k t gone)
    | inr q ↦ rw q (lookup-keep_gone p k t gone)
  ]
]

cons_not_nil {ℓ} : {A : Type ℓ} {a : A} {l : List A} → ¬ (a ∷ l ≡ [])
cons_not_nil h = cc

cons_parts {ℓ} : {A : Type ℓ} {a b : A} {l m : List A} → a ∷ l ≡ b ∷ m → (a ≡ b) × (l ≡ m)
cons_parts h = (cc, cc)

module _ (decimal : ℕ → Text) where
  abbrev pub row_key : NetworkHistoryRecord → Text
  row_key r =
      connection_snapshot_key decimal r.local_addr r.local_port r.remote_addr r.remote_port
        r.protocol

  -- The bytes of a connection in the database's rows.
  abbrev pub logged : Way → Text → List NetworkHistoryRecord → ℕ
  logged way k [] = 0
  logged way k (r ∷ rs) = (if same k (row_key r) then amount way r else 0) + logged way k rs

  -- The connections of a key.
  abbrev pub of_key : Text → List ConnectionInfo → List ConnectionInfo
  of_key k cs = keep (λ c. same k (connection_key decimal c)) cs

  pub logged-append :
      (way : Way) (k : Text) (rs ss : List NetworkHistoryRecord)
      → logged way k (rs ++ ss) ≡ logged way k rs + logged way k ss
  logged-append way k [] ss = omega arith
  logged-append way k (r ∷ rs) ss = omega (arith, logged-append way k rs ss)

  row_key-snapshot_row :
      (now : Text) (c : ConnectionInfo) (d : ℕ × ℕ)
      → row_key (snapshot_row now c d) ≡ connection_key decimal c
  unfolding snapshot_row
  row_key-snapshot_row now c (s, r) = refl

  pub row_key-closed_row :
      (now : Text) (e : NetworkEvent) (d : ℕ × ℕ)
      → row_key (closed_row now e d) ≡ closed_key decimal e
  unfolding closed_row
  row_key-closed_row now e (s, r) = refl

  logged_row :
      (way : Way) (k now : Text) (c : ConnectionInfo) (d : ℕ × ℕ) (rs : List NetworkHistoryRecord)
      → logged way k (if moved d then snapshot_row now c d ∷ rs else rs)
        ≡ (if same k (connection_key decimal c) then part way d else 0) + logged way k rs
  logged_row way k now c d rs =
      let kc : Text = connection_key decimal c in
      elim (Bool-cases (moved d)) [
        | inl m ↦ rw (m, row_key-snapshot_row now c d, amount-snapshot_row way now c d) refl
        | inr m ↦ rw m (quiet m (same k kc))
      ]
    where
      quiet :
          moved d ≡ false
          → (s : Bool) → logged way k rs ≡ (if s then part way d else 0) + logged way k rs
      quiet m true = omega (arith, still way d m)
      quiet m false = omega arith

  pub snapshot_all-absent :
      (way : Way) (k now : Text) (cs : List ConnectionInfo) (t : Baseline)
      → of_key k cs ≡ []
      → (lookup k ((snapshot_all decimal now cs t).1) ≡ lookup k t)
        × (logged way k ((snapshot_all decimal now cs t).0) ≡ 0)
  unfolding snapshot_all
  snapshot_all-absent way k now [] t h = (refl, refl)
  snapshot_all-absent way k now (c ∷ cs) t h =
      let kc : Text = connection_key decimal c in
      let d = delta (lookup kc t) c in
      let t1 = insert kc (counters c) t in
      elim (Bool-cases (same k kc)) [
        | inl e ↦ absurd (cons_not_nil (rw e at h))
        | inr e ↦
            let (same_value, none_logged) = snapshot_all-absent way k now cs t1 (rw e at h) in
            (
              same_value ∙ lookup-insert_other kc k (counters c) t (differ k kc e),
              logged_row way k now c d ((snapshot_all decimal now cs t1).0)
                  ∙ rw e (omega (arith, none_logged)),
            )
      ]

  pub snapshot_all-sole :
      (way : Way) (k now : Text) (a : ConnectionInfo) (cs : List ConnectionInfo) (t : Baseline)
      → of_key k cs ≡ a ∷ []
      → (lookup k ((snapshot_all decimal now cs t).1) ≡ some (counters a))
        × (logged way k ((snapshot_all decimal now cs t).0)
            ≡ part way (counters a) - part way (unwrap_or (0, 0) (lookup k t)))
  unfolding snapshot_all
  snapshot_all-sole way k now a [] t h = absurd (cons_not_nil (sym h))
  snapshot_all-sole way k now a (c ∷ cs) t h =
      let kc : Text = connection_key decimal c in
      let d = delta (lookup kc t) c in
      let t1 = insert kc (counters c) t in
      elim (Bool-cases (same k kc)) [
        | inl e ↦
            let kk : k ≡ kc = same→eq k kc e in
            let (ca, rest) = cons_parts (rw e at h) in
            let (same_value, none_logged) = snapshot_all-absent way k now cs t1 rest in
            (
              same_value
                  ∙ ap (λ x. lookup x t1) kk
                  ∙ lookup-insert kc (counters c) t
                  ∙ ap (λ x. some (counters x)) ca,
              logged_row way k now c d ((snapshot_all decimal now cs t1).0)
                  ∙ rw (e, none_logged, part-delta way (lookup kc t) c, sym kk, ca) (omega arith),
            )
        | inr e ↦
            let (value, all_logged) = snapshot_all-sole way k now a cs t1 (rw e at h) in
            (
              value,
              logged_row way k now c d ((snapshot_all decimal now cs t1).0)
                  ∙ rw (e, all_logged, lookup-insert_other kc k (counters c) t (differ k kc e))
                      (omega arith),
            )
      ]

  pub of_key-any :
      (k : Text) (a : ConnectionInfo) (cs l : List ConnectionInfo)
      → of_key k cs ≡ a ∷ l
      → any (λ c. same (connection_key decimal c) k) cs ≡ true
  of_key-any k a [] l h = absurd (cons_not_nil (sym h))
  of_key-any k a (c ∷ cs) l h = elim (Bool-cases (same k (connection_key decimal c))) [
    | inl e ↦ rw (sym (same→eq k (connection_key decimal c) e), same_refl k) refl
    | inr e ↦
        let other : same (connection_key decimal c) k ≡ false =
          not_same (connection_key decimal c) k
            (λ q. differ k (connection_key decimal c) e (sym q)) in
        rw other (of_key-any k a cs l (rw e at h))
  ]

  pub of_key-not_any :
      (k : Text) (cs : List ConnectionInfo)
      → of_key k cs ≡ []
      → any (λ c. same (connection_key decimal c) k) cs ≡ false
  of_key-not_any k [] h = refl
  of_key-not_any k (c ∷ cs) h = elim (Bool-cases (same k (connection_key decimal c))) [
    | inl e ↦ absurd (cons_not_nil (rw e at h))
    | inr e ↦
        let other : same (connection_key decimal c) k ≡ false =
          not_same (connection_key decimal c) k
            (λ q. differ k (connection_key decimal c) e (sym q)) in
        rw other (of_key-not_any k cs (rw e at h))
  ]

  -- What the history relies on: a write appends its rows, or it fails and appends none.
  module _ {W : Type 0} (rows : W → List NetworkHistoryRecord) where
    pub record Promises (db : HistoryTable W) : Type 0 where
      pub row_ok :
          (r : NetworkHistoryRecord) (w : W)
          → (db.create_network_history r w).0 ≡ ok tt
          → rows ((db.create_network_history r w).1) ≡ rows w ++ r ∷ []
      pub row_err :
          (r : NetworkHistoryRecord) (w : W) (e : ServiceError)
          → (db.create_network_history r w).0 ≡ err e
          → rows ((db.create_network_history r w).1) ≡ rows w
      pub batch_ok :
          (rs : List NetworkHistoryRecord) (w : W)
          → (db.create_network_history_batch rs w).0 ≡ ok tt
          → rows ((db.create_network_history_batch rs w).1) ≡ rows w ++ rs
      pub batch_err :
          (rs : List NetworkHistoryRecord) (w : W) (e : ServiceError)
          → (db.create_network_history_batch rs w).0 ≡ err e
          → rows ((db.create_network_history_batch rs w).1) ≡ rows w

    -- The writes succeed.
    abbrev pub Writes : HistoryTable W → Type 0
    Writes db =
        ((r : NetworkHistoryRecord) (w : W) → (db.create_network_history r w).0 ≡ ok tt)
        × ((rs : List NetworkHistoryRecord) (w : W)
            → (db.create_network_history_batch rs w).0 ≡ ok tt)
