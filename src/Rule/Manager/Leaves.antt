-- ===== src/Rule/Manager/Leaves.antt =====
-- What the operations of service/src/rule/manager.rs that others call leave of the world, where each
-- call of the database and of the driver leaves it.
use ceasefire.Prelude.{
  ℕ, ◌+◌, ◌≡◌, not, ◌||◌, refl, ◌∙◌, List, [], ◌∷◌, Option, none, some, is_some, unwrap_or, nat_eq,
  Bool-cases, inl, inr,
}
use ceasefire.Prelude.State.{Action, Result-cases, ◌>>=◌}
use ceasefire.Prelude.Table.{Table, lookup}
use ceasefire.Text.{Text}
use ceasefire.Models.{Rule}
use ceasefire.Rule.Manager.{
  Backend, counted, member_rule, load_members, load_rule, load_all, load_listed,
  load_rules_to_driver, reload_rules_to_driver, delete_driver, delete_rule_internal,
}

-- An action that leaves something of the world as it was.
module _ {W : Type 0} {V : Type 0} (view : W → V) where
  abbrev pub Stays : {A : Type 0} → Action W A → Type 0
  Stays m = (w : W) → view ((m w).1) ≡ view w

  pub Stays-then :
      {A B : Type 0} (m : Action W A) (f : A → Action W B)
      → Stays m
      → ((a : A) → Stays (f a))
      → Stays (m >>= f)
  Stays-then m f first rest w = elim (Result-cases ((m w).0)) [
    | inl (a, h) ↦ rw h (rest a ((m w).1) ∙ first w)
    | inr (e, h) ↦ rw h (first w)
  ]

  pub record Leaves (b : Backend W) : Type 0 where
    pub list_rows_leaves : (w : W) → view ((b.list_rows w).1) ≡ view w
    pub get_row_leaves : (id : ℕ) (w : W) → view ((b.get_row id w).1) ≡ view w
    pub delete_row_leaves : (id : ℕ) (w : W) → view ((b.delete_row id w).1) ≡ view w
    pub add_rule_leaves : (r : Rule) (w : W) → view ((b.add_rule r w).1) ≡ view w
    pub remove_rule_leaves : (id : ℕ) (w : W) → view ((b.remove_rule id w).1) ≡ view w
    pub clear_rules_leaves : (w : W) → view ((b.clear_rules w).1) ≡ view w
    pub revoke_leaves : (id : ℕ) (w : W) → view (b.revoke id w) ≡ view w
    pub resync_leaves : (w : W) → view (b.resync w) ≡ view w

module _ {W : Type 0} {V : Type 0} (view : W → V) (b : Backend W) (lower : Text → Text)
    (p : Leaves view b) where
  load_members_leaves :
      (rule : Rule) (i : ℕ) (paths : List Text) (c : ℕ × ℕ) (w : W)
      → view ((load_members b lower rule i paths c w).1) ≡ view w
  unfolding load_members
  load_members_leaves rule i [] c w = refl
  load_members_leaves rule i (path ∷ paths) c w =
      let r = b.add_rule (member_rule rule i path) w in
      load_members_leaves rule (i + 1) paths (counted (r.0) c) (r.1)
      ∙ p.add_rule_leaves (member_rule rule i path) w

  load_rule_leaves :
      (t : Table ℕ (List Text)) (rule : Rule) (o : Option ℕ) (c : ℕ × ℕ) (w : W)
      → view ((load_rule b lower t rule o c w).1) ≡ view w
  unfolding load_rule
  load_rule_leaves t rule none c w = p.add_rule_leaves rule w
  load_rule_leaves t rule (some g) c w = load_members_leaves rule 0 (unwrap_or [] (lookup g t)) c w

  load_all_leaves :
      (t : Table ℕ (List Text)) (rules : List Rule) (c : ℕ × ℕ) (w : W)
      → view ((load_all b lower t rules c w).1) ≡ view w
  unfolding load_all
  load_all_leaves t [] c w = refl
  load_all_leaves t (rule ∷ rules) c w =
      elim (Bool-cases (not rule.enabled || is_some rule.remote_domain)) [
        | inl skip ↦ rw (load_all, skip) (load_all_leaves t rules c w)
        | inr take ↦
            let r = load_rule b lower t rule rule.app_group_id c w in
            rw (load_all, take)
              (load_all_leaves t rules (r.0) (r.1) ∙ load_rule_leaves t rule rule.app_group_id c w)
      ]

  pub reload_leaves : Stays view (reload_rules_to_driver b lower)
  unfolding reload_rules_to_driver load_rules_to_driver load_listed
  reload_leaves = Stays-then view b.clear_rules _ p.clear_rules_leaves (λ u.
      Stays-then view (load_rules_to_driver b lower) _
        (Stays-then view b.list_rows (load_listed b lower) (λ w. p.list_rows_leaves w)
          (λ rules w. load_all_leaves _ rules (0, 0) w))
        (λ c w. p.resync_leaves w))

  delete_driver_leaves : (id : ℕ) (o : Option Rule) → Stays view (delete_driver b lower id o)
  unfolding delete_driver
  delete_driver_leaves id none w = p.remove_rule_leaves id w
  delete_driver_leaves id (some old) w = elim (Bool-cases (is_some old.remote_domain)) [
    | inl dom ↦ rw dom (p.revoke_leaves id w)
    | inr plain ↦ elim (Bool-cases (is_some old.app_group_id)) [
      | inl g ↦ rw (plain, g) (reload_leaves w)
      | inr g ↦ rw (plain, g) (p.remove_rule_leaves id w)
    ]
  ]

  pub delete_rule_internal_leaves : (id : ℕ) → Stays view (delete_rule_internal b lower id)
  unfolding delete_rule_internal
  delete_rule_internal_leaves id = Stays-then view (b.get_row id) _ (p.get_row_leaves id) (λ old.
      Stays-then view (b.delete_row id) _ (p.delete_row_leaves id)
        (λ u. delete_driver_leaves id old))
