-- ===== src/Rule/Manager/Load.antt =====
-- Loading all rules into the driver: service/src/rule/manager.rs, `load_rules_to_driver`.
use ceasefire.Prelude.{
  ◌++◌, refl, sym, ap, ◌∙◌, ℕ, suc, ◌+◌, ◌≡◌, not, ◌||◌, List, [], ◌∷◌, Option, none, some, Result,
  ok, err, if◌then◌else◌, is_some, unwrap_or, nat_eq, Bool-cases, inl, inr, arith,
}
use ceasefire.Prelude.State.{Done, Result-cases}
use ceasefire.Prelude.Table.{Table, lookup}
use ceasefire.Text.{Text}
use ceasefire.Errors.{ServiceError}
use ceasefire.Models.{Rule}
use ceasefire.Rule.Select.{load_group_paths}
use ceasefire.Rule.Manager.{
  Backend, counted, expanded_rule_id, member_rule, load_members, load_rule, load_all, load_listed,
  load_rules_to_driver,
}

-- The driver's entries for a rule: the rule itself, or one for each member of its group, with the
-- member's path in place of the group.
abbrev pub member_entries : Rule → ℕ → List Text → List Rule
member_entries rule i [] = []
member_entries rule i (path ∷ paths) =
    record rule {
      app_group_id = none;
      process_path = some path;
      id = some (expanded_rule_id (unwrap_or 0 rule.id) i);
    }
    ∷ member_entries rule (i + 1) paths

abbrev pub own_entries : Table ℕ (List Text) → Rule → Option ℕ → List Rule
own_entries groups rule none = rule ∷ []
own_entries groups rule (some g) = member_entries rule 0 (unwrap_or [] (lookup g groups))

-- The entries that a list of rules calls for: those of the rules that are on and name no domain.
abbrev pub entries : Table ℕ (List Text) → List Rule → List Rule
entries groups [] = []
entries groups (r ∷ rs) =
    let rest = entries groups rs in
    if not r.enabled || is_some r.remote_domain
    then rest
    else own_entries groups r r.app_group_id ++ rest

abbrev pub accepted : List (Result ServiceError Done) → ℕ
accepted [] = 0
accepted (ok u ∷ rs) = suc (accepted rs)
accepted (err e ∷ rs) = accepted rs

abbrev pub refused : List (Result ServiceError Done) → ℕ
refused [] = 0
refused (ok u ∷ rs) = refused rs
refused (err e ∷ rs) = suc (refused rs)

-- The numbers with the answers counted.
plus_answers : ℕ × ℕ → List (Result ServiceError Done) → ℕ × ℕ
plus_answers c rs = (c.0 + accepted rs, c.1 + refused rs)

plus_answers-none : (c : ℕ × ℕ) → plus_answers c [] ≡ c
unfolding plus_answers
plus_answers-none (l, f) =
    let a : l + 0 ≡ l = omega arith in let b : f + 0 ≡ f = omega arith in rw (a, b)

plus_answers-counted :
    (r : Result ServiceError Done) (c : ℕ × ℕ) (rs : List (Result ServiceError Done))
    → plus_answers (counted r c) rs ≡ plus_answers c (r ∷ rs)
unfolding plus_answers
plus_answers-counted (ok u) (l, f) rs =
    let e : l + 1 + accepted rs ≡ l + suc (accepted rs) = omega arith in
    ap (λ x. (x, f + refused rs)) e
plus_answers-counted (err e) (l, f) rs =
    let e : f + 1 + refused rs ≡ f + suc (refused rs) = omega arith in
    ap (λ x. (l + accepted rs, x)) e

plus_answers-append :
    (c : ℕ × ℕ) (rs qs : List (Result ServiceError Done))
    → plus_answers (plus_answers c rs) qs ≡ plus_answers c (rs ++ qs)
unfolding plus_answers
plus_answers-append c [] qs = ap (λ x. plus_answers x qs) (plus_answers-none c)
plus_answers-append c (r ∷ rs) qs =
    sym (ap (λ x. plus_answers x qs) (plus_answers-counted r c rs))
    ∙ plus_answers-append (counted r c) rs qs
    ∙ plus_answers-counted r c (rs ++ qs)

module _ {W : Type 0} (b : Backend W) where
  -- The entries handed to the driver one after the other: its answers, and the world behind them.
  abbrev pub offer : List Rule → W → List (Result ServiceError Done) × W
  offer [] w = ([], w)
  offer (r ∷ rs) w =
      let rest = offer rs ((b.add_rule r w).1) in ((b.add_rule r w).0 ∷ rest.0, rest.1)

  offer-append :
      (rs qs : List Rule) (w : W)
      → offer (rs ++ qs) w
        ≡ ((offer rs w).0 ++ (offer qs ((offer rs w).1)).0, (offer qs ((offer rs w).1)).1)
  offer-append [] qs w = refl
  offer-append (r ∷ rs) qs w =
      ap (λ x. ((b.add_rule r w).0 ∷ x.0, x.1)) (offer-append rs qs ((b.add_rule r w).1))

  -- What counting the answers to some entries gives.
  offered : List Rule → ℕ × ℕ → W → (ℕ × ℕ) × W
  offered rs c w = (plus_answers c ((offer rs w).0), (offer rs w).1)

  offered-append :
      (rs qs : List Rule) (c : ℕ × ℕ) (w : W)
      → offered (rs ++ qs) c w ≡ offered qs ((offered rs c w).0) ((offered rs c w).1)
  unfolding offered
  offered-append rs qs c w =
      let (one, v) = offer rs w in
      let (two, v') = offer qs v in
      ap (λ x. (plus_answers c (x.0), x.1)) (offer-append rs qs w)
      ∙ ap (λ x. (x, v')) (sym (plus_answers-append c one two))

module _ {W : Type 0} (b : Backend W) (lower : Text → Text) where
  members_offered :
      (rule : Rule) (i : ℕ) (paths : List Text) (c : ℕ × ℕ) (w : W)
      → load_members b lower rule i paths c w ≡ offered b (member_entries rule i paths) c w
  unfolding load_members offered member_rule
  members_offered rule i [] c w = ap (λ x. (x, w)) (sym (plus_answers-none c))
  members_offered rule i (path ∷ paths) c w =
      let r = b.add_rule (member_rule rule i path) w in
      members_offered rule (i + 1) paths (counted (r.0) c) (r.1)
      ∙ ap (λ x. (x, (offer b (member_entries rule (i + 1) paths) (r.1)).1))
          (plus_answers-counted (r.0) c ((offer b (member_entries rule (i + 1) paths) (r.1)).0))

  rule_offered :
      (groups : Table ℕ (List Text)) (rule : Rule) (o : Option ℕ) (c : ℕ × ℕ) (w : W)
      → load_rule b lower groups rule o c w ≡ offered b (own_entries groups rule o) c w
  unfolding load_rule offered
  rule_offered groups rule none c w =
      let r = b.add_rule rule w in
      ap (λ x. (x, r.1))
        (sym (plus_answers-none (counted (r.0) c)) ∙ plus_answers-counted (r.0) c [])
  rule_offered groups rule (some g) c w =
      members_offered rule 0 (unwrap_or [] (lookup g groups)) c w

  rules_offered :
      (groups : Table ℕ (List Text)) (rules : List Rule) (c : ℕ × ℕ) (w : W)
      → load_all b lower groups rules c w ≡ offered b (entries groups rules) c w
  unfolding load_all offered
  rules_offered groups [] c w = ap (λ x. (x, w)) (sym (plus_answers-none c))
  rules_offered groups (rule ∷ rules) c w =
      elim (Bool-cases (not rule.enabled || is_some rule.remote_domain)) [
        | inl skip ↦ rw (load_all, skip) (rules_offered groups rules c w)
        | inr take ↦
            let o : Option ℕ = rule.app_group_id in
            let own = own_entries groups rule o in
            let rest = entries groups rules in
            let r = load_rule b lower groups rule o c w in
            rw (load_all, take)
              (rules_offered groups rules (r.0) (r.1)
                ∙ ap (λ x. offered b rest (x.0) (x.1)) (rule_offered groups rule o c w)
                ∙ sym (offered-append b own rest c w))
      ]

  -- How a load ends: every entry that the rules call for was handed to the driver, and the numbers are
  -- those of its answers; or the rules were not read.
  abbrev pub Loads : W → Result ServiceError (ℕ × ℕ) × W → Type 0
  Loads w (ok (loaded, failed), w') =
      (rules : List Rule) × ((b.list_rows w).0 ≡ ok rules)
      × (let v = (b.list_rows w).1 in
          let (answers, v') =
            offer b (entries (load_group_paths lower (λ g. b.members g v) rules) rules) v in
          (w' ≡ v') × (loaded ≡ accepted answers) × (failed ≡ refused answers))
  Loads w (err e, w') = (b.list_rows w).0 ≡ err e

  -- A load hands the driver, in the order of the database's rules, every entry that they call for, and
  -- does nothing else: each rule of its own, and one entry for each member of a rule's group, of the
  -- rules that are on and name no domain. It goes on where the driver refuses an entry; its numbers are
  -- those of the entries accepted and refused. It fails only where the rules cannot be read.
  pub load_rules_to_driver-Loads : (w : W) → Loads w (load_rules_to_driver b lower w)
  unfolding load_rules_to_driver load_listed offered plus_answers
  load_rules_to_driver-Loads w = elim (Result-cases ((b.list_rows w).0)) [
    | inr (e, h) ↦ rw h h
    | inl (rules, h) ↦
        let v : W = (b.list_rows w).1 in
        let groups = load_group_paths lower (λ g. b.members g v) rules in
        let e = rules_offered groups rules (0, 0) v in
        rw h (
          rules,
          h,
          (ap (λ x. x.1) e, ap (λ x. x.0.0) e ∙ omega arith, ap (λ x. x.0.1) e ∙ omega arith),
        )
  ]
