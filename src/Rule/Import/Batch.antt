-- ===== src/Rule/Import/Batch.antt =====
-- What an import inserts, and when it refuses a list.
use mathlib.Core.List.{append-nil}
use ceasefire.Prelude.{
  ℕ, ◌+◌, ◌≡◌, refl, sym, ap, ◌∙◌, not, ◌||◌, List, [], ◌∷◌, ◌++◌, map, Option, Option-cases, none,
  some, find, Result, ok, err, if◌then◌else◌, is_empty, any, length, same, list_eq, nat_eq,
  option_eq, Bool-cases, inl, inr, arith,
}
use ceasefire.Prelude.State.{Action, Result-cases, continue}
use ceasefire.Text.{Text}
use ceasefire.Errors.{ServiceError, validation, empty_import, import_rejected}
use ceasefire.Models.{Rule, AppGroup, ExportedRule, ImportMode, merge, replace, ImportStats}
use ceasefire.Rule.Manager.{Backend}
use ceasefire.Rule.Manager.Leaves.{Stays, Stays-then, reload_leaves}
use ceasefire.Rule.Import.{
  ImportStore, assign, to_rule, duplicates, user_rules, map_group, map_groups, create_group,
  new_group, select, clear_users, insert_all, import_checked, import_rules,
}
use ceasefire.Rule.Import.Promises.{Promises}
use ceasefire.Rule.Import.Kept.{clear_users_inserted}
use ceasefire.Rule.Import.Fresh.{
  length-assign, length-map, split_length, some_bad, all-acceptable, known-duplicates, ungrouped,
  fresh, fresh-ungrouped, ungrouped-assign, ungrouped-to_rule, keep_same, ok_eq,
}

module _ {W : Type 0} (rows : W → List Rule) (groups : W → List AppGroup) (inserted : W → List Rule)
    (b : Backend W) (store : ImportStore W) (lower : Text → Text)
    (p : Promises rows groups inserted b store) where
  map_group_keeps :
      {V : Type 0} (view : W → V)
      → ((g : AppGroup) (w : W) → view ((store.create_app_group g w).1) ≡ view w)
      → (o : Option Text) (gs : List AppGroup) (n : ℕ) → Stays view (map_group b store lower o gs n)
  unfolding map_group create_group
  map_group_keeps view created none gs n w = refl
  map_group_keeps view created (some name) gs n w =
      elim (Option-cases (find (λ g. same g.name name) gs)) [
        | inr (g, h) ↦ rw (map_group, h) refl
        | inl h ↦
            rw (map_group, h)
              (Stays-then view (store.create_app_group (new_group name)) _
                (created (new_group name)) (λ id v. refl) w)
      ]

  map_groups_keeps :
      {V : Type 0} (view : W → V)
      → ((g : AppGroup) (w : W) → view ((store.create_app_group g w).1) ≡ view w)
      → (rules : List ExportedRule) (gs : List AppGroup) (n : ℕ)
      → Stays view (map_groups b store lower rules gs n)
  unfolding map_groups
  map_groups_keeps view created [] gs n = λ w. refl
  map_groups_keeps view created (er ∷ rest) gs n =
      Stays-then view (map_group b store lower er.group gs n) _
        (map_group_keeps view created er.group gs n)
        (λ g.
          Stays-then view (map_groups b store lower rest (g.1) (g.2)) _
            (map_groups_keeps view created rest (g.1) (g.2)) (λ later v. refl))

  select_lem :
      (mode : ImportMode) (rs : List Rule) (w : W) (chosen : List Rule × ℕ)
      → (select b store lower mode rs w).0 ≡ ok chosen
      → (chosen.0 ≡ fresh mode (rows w) rs)
        × (length (chosen.0) + chosen.1 ≡ length rs)
        × (inserted ((select b store lower mode rs w).1) ≡ inserted w)
  unfolding select
  select_lem replace rs w chosen h =
      let e : (rs, 0) ≡ chosen = ok_eq h in rw (sym e) (refl, omega arith, refl)
  select_lem merge rs w chosen h = elim (Result-cases ((b.list_rows w).0)) [
    | inr (e, q) ↦ cc (rw q at h)
    | inl (existing, q) ↦
        let known_rows : existing ≡ rows w = p.list_rows_ok w existing q in
        let e = ok_eq (rw q at h) in
        rw (q, sym e)
          (
            keep_same _ _ rs (λ r.
                ap not
                  (ap (λ x. duplicates (user_rules x) r) known_rows ∙ known-duplicates (rows w) r)),
            split_length (duplicates (user_rules existing)) rs,
            (p.list_rows_keeps w).2,
          )
  ]

  pub insert_all_inserted :
      (rs : List Rule) (w : W)
      → (insert_all b store lower rs w).0 ≡ ok tt
      → inserted ((insert_all b store lower rs w).1) ≡ inserted w ++ rs
  unfolding insert_all
  insert_all_inserted [] w h = sym (append-nil (inserted w))
  insert_all_inserted (r ∷ rs) w h = elim (Result-cases ((store.create_rules_batch (r ∷ rs) w).0)) [
    | inr (e, q) ↦ cc (rw q at h)
    | inl (u, q) ↦
        let put = p.create_rules_batch_ok (r ∷ rs) w q in
        elim (Bool-cases (any (λ x. x.enabled) (r ∷ rs))) [
          | inl on ↦ rw (q, on) (reload_leaves inserted b lower p.others _ ∙ put)
          | inr off ↦ rw (q, off) put
        ]
  ]

  -- How an import of entries ends: with a batch of the rules to insert behind those inserted before, and
  -- their number; or with an error.
  abbrev pub Imports :
      ImportMode → List ExportedRule → W → Result ServiceError ImportStats × W → Type 0
  Imports mode rules w (ok s, w') =
      (batch : List Rule) × (map ungrouped batch ≡ fresh mode (rows w) (map to_rule rules))
      × (inserted w' ≡ inserted w ++ batch)
      × (s.imported ≡ length batch)
      × (s.imported + s.skipped ≡ length rules)
  Imports mode rules w (err e, w') = Unit {0}

  behind :
      {A : Type 0} (mode : ImportMode) (rules : List ExportedRule) (w0 : W) (m : Action W A)
      (f : A → Action W ImportStats) (w : W)
      → ((a : A) → (m w).0 ≡ ok a → Imports mode rules w0 (f a ((m w).1)))
      → Imports mode rules w0 (continue ((m w).0) f ((m w).1))
  behind mode rules w0 m f w step = elim (Result-cases ((m w).0)) [
    | inl (a, h) ↦ rw h (step a h)
    | inr (e, h) ↦ rw h tt
  ]

  import_checked-Imports :
      (mode : ImportMode) (rules : List ExportedRule) (w : W)
      → Imports mode rules w (import_checked b store lower mode rules w)
  unfolding import_checked
  import_checked-Imports mode rules w = behind mode rules w store.list_app_groups _ w (λ gs h1.
      let v : W = (store.list_app_groups w).1 in
      let (kr, kg, ki) = p.list_app_groups_keeps w in
      behind mode rules w (map_groups b store lower rules gs 0) _ v (λ ids h2.
        let x : W = (map_groups b store lower rules gs 0 v).1 in
        let rs : List Rule = assign (map to_rule rules) (ids.0) in
        let xr : rows x ≡ rows w =
          map_groups_keeps rows p.create_app_group_rows rules gs 0 v ∙ kr in
        let xi : inserted x ≡ inserted w =
          map_groups_keeps inserted p.create_app_group_inserted rules gs 0 v ∙ ki in
        behind mode rules w (select b store lower mode rs) _ x (λ chosen h3.
          let y : W = (select b store lower mode rs x).1 in
          let (which, number, yi) = select_lem mode rs x chosen h3 in
          behind mode rules w (clear_users b store lower mode) _ y (λ u h4.
            let z : W = (clear_users b store lower mode y).1 in
            behind mode rules w (insert_all b store lower (chosen.0)) _ z (λ u' h5. (
              chosen.0,
              ap (map ungrouped) which
                  ∙ fresh-ungrouped mode (rows x) rs
                  ∙ ap (fresh mode (rows x))
                      (ungrouped-assign (map to_rule rules) (ids.0) ∙ ungrouped-to_rule rules)
                  ∙ ap (λ l. fresh mode l (map to_rule rules)) xr,
              insert_all_inserted (chosen.0) z h5
                  ∙ ap (λ l. l ++ chosen.0)
                      (clear_users_inserted rows groups inserted b store lower p mode y ∙ yi ∙ xi),
              refl,
              omega (
                arith,
                number,
                length-assign (map to_rule rules) (ids.0),
                length-map to_rule rules,
              ),
            ))))))

  -- An import of an empty list, and of a list with an entry that has a system rule's name or that the
  -- validator refuses, is refused as a whole and leaves the world as it was. An import of any other list
  -- that succeeds has inserted one batch, behind what was inserted before: the entries as rules, each
  -- with some group or none; an import that merges leaves out exactly those with the name and the path of
  -- a user's rule of the database. It reports the number inserted, and all others as skipped.
  pub import_rules-Imports :
      (mode : ImportMode) (rules : List ExportedRule) (w : W)
      → if is_empty rules || some_bad rules
        then import_rules b store lower mode rules w
          ≡ (err (validation (if is_empty rules then empty_import else import_rejected)), w)
        else Imports mode rules w (import_rules b store lower mode rules w)
  unfolding import_rules
  import_rules-Imports mode [] w = refl
  import_rules-Imports mode (r ∷ rs) w = elim (Bool-cases (some_bad (r ∷ rs))) [
    | inr h ↦ rw (all-acceptable (r ∷ rs), h) (import_checked-Imports mode (r ∷ rs) w)
    | inl h ↦ rw (all-acceptable (r ∷ rs), h) refl
  ]
