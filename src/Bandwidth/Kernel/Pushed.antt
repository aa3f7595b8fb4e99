-- ===== src/Bandwidth/Kernel/Pushed.antt =====
-- Which entries of the driver's throttle table are retracted when a limit changes.
use ceasefire.Prelude.{
  ℕ, ◌<◌, ◌≡◌, ◌≢◌, refl, sym, ap, ◌∙◌, Bool, true, false, ◌&&◌, List, [], ◌∷◌, map, Option, none,
  some, ltb, leb, ◌==◌, keep, length, is_empty, unwrap_or, any, same, same→eq, same_refl, not_same,
  differ, true_not_false, nat_eq, list_eq, Bool-cases, inl, inr, arith, Eq, if◌then◌else◌,
}
use ceasefire.Prelude.Table.{
  Table, Unique, lookup, insert, lookup-insert, lookup-remove, lookup-remove_other,
  lookup-remove_absent, keep-Unique, insert-Unique, lookup-keep_live, found, next, some_injective,
  some_not_none,
}
use ceasefire.Text.{Text}
use ceasefire.Models.Path.{normalize_path}
use ceasefire.Bandwidth.Kernel.{
  KernelThrottleSync, Driver, pushed_sweep_threshold, kbps_to_bps, sweep_dead_pids, retract,
  push_global, sync_event, update_path_limit, update_global, with_pushed, retract_path,
  retract_fallback, changed_limits, global_answer, push_event, event_answer, limit_of, desired,
  global_desired, normalized, positive,
}

-- The keys that a test picks from a table.
module _ {ℓ κ} {K : Type ℓ} {V : Type κ} ⦃e : Eq K⦄ where
  picked_absent :
      (f : K × V → Bool) (k : K) (t : Table K V)
      → lookup k t ≡ none
      → any (same k) (map (λ x. x.0) (keep f t)) ≡ false
  picked_absent f k [] h = refl
  picked_absent f k ((j, w) ∷ t) h = elim (Bool-cases (same k j)) [
    | inl g ↦ absurd (some_not_none (found k j w t g ∙ h))
    | inr g ↦
        let ih = picked_absent f k t (sym (next k j w t g) ∙ h) in
        elim (Bool-cases (f (j, w))) [ inl q ↦ rw (q, g) ih | inr q ↦ rw q ih ]
  ]

  picked :
      (f : K × V → Bool) (k : K) (v : V) (t : Table K V)
      → Unique t
      → lookup k t ≡ some v
      → any (same k) (map (λ x. x.0) (keep f t)) ≡ f (k, v)
  picked f k v [] u h = absurd (some_not_none (sym h))
  picked f k v ((j, w) ∷ t) (fresh, u) h = elim (Bool-cases (same k j)) [
    | inl g ↦
        let wv : w ≡ v = some_injective (found k j w t g ∙ h) in
        let kj : k ≡ j = same→eq k j g in
        elim (Bool-cases (f (j, w))) [
          | inl q ↦ let r : f (k, v) ≡ true = rw (kj, sym wv) q in rw (q, g, r)
          | inr q ↦
              let r : f (k, v) ≡ false = rw (kj, sym wv) q in
              let absent : lookup k t ≡ none = rw kj fresh in rw (q, r) (picked_absent f k t absent)
        ]
    | inr g ↦
        let ih = picked f k v t u (sym (next k j w t g) ∙ h) in
        elim (Bool-cases (f (j, w))) [ inl q ↦ rw (q, g) ih | inr q ↦ rw q ih ]
  ]

skip : (p q : ℕ) (l : List ℕ) → same p q ≡ false → any (same p) (q ∷ l) ≡ any (same p) l
skip p q l g = rw g

hit : (p q : ℕ) (l : List ℕ) → same p q ≡ true → any (same p) (q ∷ l) ≡ true
hit p q l g = rw g

sweep-Unique :
    (alive : ℕ → Bool) (s : KernelThrottleSync)
    → Unique s.pushed
    → Unique (sweep_dead_pids alive s).pushed
unfolding sweep_dead_pids with_pushed
sweep-Unique alive s u = elim (Bool-cases (leb (length s.pushed) pushed_sweep_threshold)) [
  | inl g ↦ rw g u
  | inr g ↦ rw g (keep-Unique _ s.pushed u)
]

lookup-sweep :
    (alive : ℕ → Bool) (s : KernelThrottleSync) (pid : ℕ) (path : Text)
    → lookup pid s.pushed ≡ some path
    → alive pid ≡ true
    → lookup pid (sweep_dead_pids alive s).pushed ≡ some path
unfolding sweep_dead_pids with_pushed
lookup-sweep alive s pid path h a =
    elim (Bool-cases (leb (length s.pushed) pushed_sweep_threshold)) [
      | inl g ↦ rw g h
      | inr g ↦ rw g (lookup-keep_live (λ e. alive e.0) pid path s.pushed h a)
    ]

positive_lem : (n : ℕ) → 0 < n → positive (some n) ≡ some n
unfolding positive
positive_lem n h = let t : ltb 0 n ≡ true = ground arith in rw t

module _ {W : Type 0} (driver : Driver W) where
  lookup-retract_absent :
      (pids : List ℕ) (s : KernelThrottleSync) (w : W) (pid : ℕ)
      → lookup pid s.pushed ≡ none
      → lookup pid (((retract driver pids (s, w)).0).pushed) ≡ none
  unfolding retract with_pushed
  lookup-retract_absent [] s w pid h = h
  lookup-retract_absent (p ∷ pids) s w pid h =
      lookup-retract_absent pids _ _ pid (lookup-remove_absent p pid s.pushed h)

  lookup-retract_in :
      (pids : List ℕ) (s : KernelThrottleSync) (w : W) (pid : ℕ)
      → any (same pid) pids ≡ true
      → lookup pid (((retract driver pids (s, w)).0).pushed) ≡ none
  unfolding retract with_pushed
  lookup-retract_in [] s w pid h = absurd (true_not_false (sym h))
  lookup-retract_in (p ∷ pids) s w pid h = elim (Bool-cases (same pid p)) [
    | inl g ↦ lookup-retract_absent pids _ _ pid (rw (same→eq pid p g) (lookup-remove p s.pushed))
    | inr g ↦ lookup-retract_in pids _ _ pid (sym (skip pid p pids g) ∙ h)
  ]

  lookup-retract_out :
      (pids : List ℕ) (s : KernelThrottleSync) (w : W) (pid : ℕ)
      → any (same pid) pids ≡ false
      → lookup pid (((retract driver pids (s, w)).0).pushed) ≡ lookup pid s.pushed
  unfolding retract with_pushed
  lookup-retract_out [] s w pid h = refl
  lookup-retract_out (p ∷ pids) s w pid h = elim (Bool-cases (same pid p)) [
    | inl g ↦ absurd (true_not_false (sym (hit pid p pids g) ∙ h))
    | inr g ↦
        lookup-retract_out pids _ _ pid (sym (skip pid p pids g) ∙ h)
        ∙ lookup-remove_other p pid s.pushed (differ pid p g)
  ]

  retract_path_lem :
      (lower : Text → Text) (key : Text) (limits : Table Text (ℕ × ℕ)) (s : KernelThrottleSync)
      (w : W) (pid : ℕ) (path : Text)
      → Unique s.pushed
      → lookup pid s.pushed ≡ some path
      → (normalize_path lower path ≡ key
          → lookup pid (((retract_path driver lower key (true, limits) s w).0).pushed) ≡ none)
        × (normalize_path lower path ≢ key
            → lookup pid (((retract_path driver lower key (true, limits) s w).0).pushed)
              ≡ some path)
  unfolding retract_path
  retract_path_lem lower key limits s w pid path u h =
      let f : ℕ × Text → Bool = λ e. same (normalize_path lower (e.1)) key in
      let q = picked f pid path s.pushed u h in
      (
        λ same_path.
            lookup-retract_in _ _ w pid (q ∙ ap (λ x. same x key) same_path ∙ same_refl key),
        λ other.
            lookup-retract_out _ _ w pid (q ∙ not_same (normalize_path lower path) key other) ∙ h,
      )

  lookup-update_path_limit_cases :
      (lower : Text → Text) (alive : ℕ → Bool) (s : KernelThrottleSync) (w : W) (path own : Text)
      (up pid : ℕ) (down : Option ℕ)
      → Unique s.pushed
      → 0 < up
      → lookup pid (sweep_dead_pids alive s).pushed ≡ some own
      → (normalize_path lower own ≡ normalize_path lower path
          → lookup pid
              (((update_path_limit driver lower alive (s, w) path (some up) down).0).pushed)
            ≡ none)
        × (normalize_path lower own ≢ normalize_path lower path
            → lookup pid
                (((update_path_limit driver lower alive (s, w) path (some up) down).0).pushed)
              ≡ some own)
  unfolding update_path_limit changed_limits
  lookup-update_path_limit_cases lower alive s w path own up pid down u h e =
      rw (positive_lem up h) (
        retract_path_lem lower (normalize_path lower path) _ (sweep_dead_pids alive s) w pid own
          (sweep-Unique alive s u) e)

  -- Giving a path an upload limit takes every process pushed for that path, under any spelling of
  -- it, out of the table that survives the sweep of dead processes, and no process of another path.
  pub lookup-update_path_limit :
      (lower : Text → Text) (alive : ℕ → Bool) (s : KernelThrottleSync) (w : W) (path own : Text)
      (up pid : ℕ) (down : Option ℕ)
      → Unique s.pushed
      → 0 < up
      → lookup pid (sweep_dead_pids alive s).pushed ≡ some own
      → lookup pid (((update_path_limit driver lower alive (s, w) path (some up) down).0).pushed)
        ≡ (if same (normalize_path lower own) (normalize_path lower path) then none else some own)
  lookup-update_path_limit lower alive s w path own up pid down u h e =
      let (mine, other) =
        lookup-update_path_limit_cases lower alive s w path own up pid down u h e in
      elim (Bool-cases (same (normalize_path lower own) (normalize_path lower path))) [
        | inl g ↦ rw g (mine (same→eq _ _ g))
        | inr g ↦ rw g (other (differ _ _ g))
      ]

  pushed-global_answer :
      (s : KernelThrottleSync) (enabled : Bool) (r : Bool × W)
      → ((global_answer driver s enabled r).0).pushed ≡ s.pushed
  unfolding global_answer
  pushed-global_answer s enabled (true, v) = refl
  pushed-global_answer s enabled (false, v) = refl

  pushed-push_global :
      (s : KernelThrottleSync) (w : W) → ((push_global driver (s, w)).0).pushed ≡ s.pushed
  unfolding push_global
  pushed-push_global s w = elim (Bool-cases (s.global.0 && s.global.1 == 0 && s.global.2 == 0)) [
    | inl g ↦ rw g
    | inr g ↦ rw g (pushed-global_answer s _ _)
  ]

  retract_fallback_lem :
      (up down : ℕ) (st : KernelThrottleSync × W) (pid : ℕ) (own : Text)
      → Unique (st.0).pushed
      → lookup pid (st.0).pushed ≡ some own
      → (is_empty own ≡ true
          → lookup pid (((retract_fallback driver false up down st).0).pushed) ≡ none)
        × (is_empty own ≡ false
            → lookup pid (((retract_fallback driver false up down st).0).pushed) ≡ some own)
  unfolding retract_fallback
  retract_fallback_lem up down (s, w) pid own u h =
      let q = picked (λ e. is_empty (e.1)) pid own s.pushed u h in
      (
        λ empty. lookup-retract_in _ s w pid (q ∙ empty),
        λ named. lookup-retract_out _ s w pid (q ∙ named) ∙ h,
      )

  lookup-update_global_cases :
      (alive : ℕ → Bool) (s : KernelThrottleSync) (w : W) (up down pid : ℕ) (own : Text)
      → Unique s.pushed
      → lookup pid (sweep_dead_pids alive s).pushed ≡ some own
      → (is_empty own ≡ true
          → lookup pid (((update_global driver alive (s, w) false up down).0).pushed) ≡ none)
        × (is_empty own ≡ false
            → lookup pid (((update_global driver alive (s, w) false up down).0).pushed) ≡ some own)
  unfolding update_global
  lookup-update_global_cases alive s w up down pid own u h =
      let t : KernelThrottleSync = record {
        path_limits = (sweep_dead_pids alive s).path_limits;
        global = (false, up, down);
        pushed = (sweep_dead_pids alive s).pushed;
        global_pushed = (sweep_dead_pids alive s).global_pushed;
      } in
      let same_pushed = pushed-push_global t w in
      retract_fallback_lem up down (push_global driver (t, w)) pid own
        (rw same_pushed (sweep-Unique alive s u)) (rw same_pushed h)

  -- Switching the global limit off takes every process that was pushed without a path out of the
  -- table that survives the sweep of dead processes, and no process that was pushed with one.
  pub lookup-update_global :
      (alive : ℕ → Bool) (s : KernelThrottleSync) (w : W) (up down pid : ℕ) (own : Text)
      → Unique s.pushed
      → lookup pid (sweep_dead_pids alive s).pushed ≡ some own
      → lookup pid (((update_global driver alive (s, w) false up down).0).pushed)
        ≡ (if is_empty own then none else some own)
  lookup-update_global alive s w up down pid own u h =
      let (empty, named) = lookup-update_global_cases alive s w up down pid own u h in
      elim (Bool-cases (is_empty own)) [ inl g ↦ rw g (empty g) | inr g ↦ rw g (named g) ]

  event_answer_lem :
      (s : KernelThrottleSync) (pid : ℕ) (path : Option Text) (r : Bool × W)
      → r.0 ≡ true
      → ((event_answer driver s pid path r).0).pushed ≡ insert pid (unwrap_or [] path) s.pushed
  unfolding event_answer with_pushed
  event_answer_lem s pid path (true, v) h = refl
  event_answer_lem s pid path (false, v) h = absurd (true_not_false (sym h))

  global_desired_lem :
      (up down : ℕ)
      → 0 < up
      → global_desired driver (true, up, down) ≡ some (kbps_to_bps up, kbps_to_bps down)
  unfolding global_desired
  global_desired_lem up down h = let t : ltb 0 up ≡ true = ground arith in rw t

  desired_lem :
      (s : KernelThrottleSync) (key : Text) (up down : ℕ)
      → s.global ≡ (true, up, down)
      → 0 < up
      → lookup key s.path_limits ≡ none
      → desired driver s.global (limit_of driver s (some key))
        ≡ some (kbps_to_bps up, kbps_to_bps down)
  unfolding desired limit_of
  desired_lem s key up down g h free = rw (free, g) (global_desired_lem up down h)

  pushed-sync_event :
      (lower : Text → Text) (s : KernelThrottleSync) (w : W) (up down pid : ℕ) (path : Text)
      → 0 < pid
      → s.global ≡ (true, up, down)
      → 0 < up
      → lookup (normalize_path lower path) s.path_limits ≡ none
      → ((n up_bps down_bps : ℕ) (v : W) → (driver.set_throttle n up_bps down_bps v).0 ≡ true)
      → ((sync_event driver lower (s, w) pid (some path)).0).pushed
        ≡ insert pid (normalize_path lower path) s.pushed
  unfolding sync_event push_event normalized
  pushed-sync_event lower s w up down pid path positive_pid g h free accepts =
      let t : (pid == 0) ≡ false = ground arith in
      let np = normalize_path lower path in
      let d = desired_lem s np up down g h free in
      rw (t, d)
        (event_answer_lem s pid (some np)
          (driver.set_throttle pid (kbps_to_bps up) (kbps_to_bps down) w) (accepts pid _ _ w))

  -- A process that gets the global limit because its path, not empty, has no limit of its own is
  -- pushed under its path. If it is alive, switching the global limit off leaves its entry in the table, though
  -- the driver accepts every call.
  pub global_limit_stays :
      (lower : Text → Text) (alive : ℕ → Bool) (s : KernelThrottleSync) (w : W) (up down pid : ℕ)
      (path : Text)
      → Unique s.pushed
      → 0 < pid
      → alive pid ≡ true
      → s.global ≡ (true, up, down)
      → 0 < up
      → lookup (normalize_path lower path) s.path_limits ≡ none
      → is_empty (normalize_path lower path) ≡ false
      → ((n up_bps down_bps : ℕ) (v : W) → (driver.set_throttle n up_bps down_bps v).0 ≡ true)
      → lookup pid (
          ((update_global driver alive
            (sync_event driver lower (s, w) pid (some path))
            false
            up
            down).0
          ).pushed)
        ≡ some (normalize_path lower path)
  global_limit_stays lower alive s w up down pid path u positive_pid a g h free named accepts =
      let after = sync_event driver lower (s, w) pid (some path) in
      let p = pushed-sync_event lower s w up down pid path positive_pid g h free accepts in
      let unique : Unique after.0.pushed = rw p (insert-Unique pid _ s.pushed u) in
      let entry : lookup pid after.0.pushed ≡ some (normalize_path lower path) =
        rw p (lookup-insert pid (normalize_path lower path) s.pushed) in
      (lookup-update_global_cases alive after.0 after.1 up down pid (normalize_path lower path)
          unique (lookup-sweep alive after.0 pid (normalize_path lower path) entry a)).1
        named
