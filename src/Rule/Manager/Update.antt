-- ===== src/Rule/Manager/Update.antt =====
-- Changing a rule, `update_rule_internal` of service/src/rule/manager.rs: the driver follows the row.
use ceasefire.Prelude.{
  ℕ, ◌<◌, ◌≡◌, refl, sym, ◌∙◌, ap, Bool, true, false, ◌||◌, Option, none, some, Result, ok, err,
  is_some, inl, inr, true_not_false,
}
use ceasefire.Prelude.State.{Action, Done, Result-cases, or_undo, ◌>>◌}
use ceasefire.Text.{Text}
use ceasefire.Errors.{ServiceError}
use ceasefire.Models.{Rule}
use ceasefire.Rule.Validator.{validate_rule}
use ceasefire.Rule.Manager.{
  Backend, with_id, switched, group_rule_id_base, find_rule, update_driver, follow_row,
  update_rule_internal,
}
use ceasefire.Rule.Manager.Promises.{
  timeless, wanted, Synced, Promises, Writes, off_wanted, domain_wanted, plain_wanted, with_id_same,
}

module _ {W : Type 0} (row live : W → ℕ → Option Rule) (b : Backend W) (lower : Text → Text)
    (p : Promises row live b) (writes : Writes row live b) where
  -- How an update ends: with the new row and a driver that agrees with it, or with an error and
  -- a driver that agrees with the row.
  abbrev pub Updates : ℕ → Rule → Result ServiceError Done × W → Type 0
  Updates id rule (ok u, w') =
      (row w' id ≡ some (timeless (with_id id rule))) × Synced row live id w'
  Updates id rule (err e, w') = Synced row live id w'

  domain_update :
      (id : ℕ) (g o n : Bool) (old rule : Rule) (w : W)
      → id < group_rule_id_base
      → row w id ≡ some (timeless (with_id id rule))
      → live w id ≡ none
      → is_some rule.remote_domain ≡ true
      → Updates id rule (follow_row b lower true g o n id old rule w)
  unfolding follow_row
  domain_update id g o n old rule w small e l rd =
      let (kr, kl) = p.revoke_keeps id id w small in
      let none_wanted = domain_wanted (timeless (with_id id rule)) rd in
      (kr ∙ e, kl ∙ l ∙ sym (ap wanted (kr ∙ e) ∙ none_wanted))

  -- A call that puts the new row's rule into the driver.
  handed_over :
      (id : ℕ) (rule : Rule) (w : W) (call undo : Action W Done)
      → rule.enabled ≡ true
      → is_some rule.remote_domain ≡ false
      → is_some rule.app_group_id ≡ false
      → (row ((call w).1) id ≡ some (timeless (with_id id rule)))
      → ((call w).0 ≡ ok tt → live ((call w).1) id ≡ some (timeless (with_id id rule)))
      → ((e : ServiceError) → (call w).0 ≡ err e → Synced row live id ((undo ((call w).1)).1))
      → Updates id rule (or_undo call undo w)
  handed_over id rule w call undo on rd rg r good bad =
      let full = plain_wanted (timeless (with_id id rule)) on rd rg in
      elim (Result-cases ((call w).0)) [
        | inl (u, a) ↦ rw a (r, good a ∙ sym (ap wanted r ∙ full))
        | inr (e, a) ↦ rw a (bad e a)
      ]

  plain_update :
      (id : ℕ) (o n : Bool) (old rule : Rule) (w : W)
      → row w id ≡ some (timeless (with_id id rule))
      → live w id ≡ wanted (some (timeless old))
      → old.id ≡ some id
      → is_some rule.remote_domain ≡ false
      → is_some rule.app_group_id ≡ false
      → old.enabled ≡ o
      → rule.enabled ≡ n
      → (o ≡ true → n ≡ true)
      → Updates id rule (follow_row b lower false false o n id old rule w)
  unfolding follow_row
  plain_update id true false old rule w e l named rd rg o n keeps_on =
      absurd (true_not_false (sym (keeps_on refl)))
  plain_update id false false old rule w e l named rd rg o n keeps_on = (
    e,
    l ∙ off_wanted (timeless old) o ∙ sym (ap wanted e ∙ off_wanted (timeless (with_id id rule)) n),
  )
  plain_update id true true old rule w e l named rd rg o n keeps_on =
      let new : Rule = with_id id rule in
      let v : W = (b.update_rule new w).1 in
      let r = p.update_rule_row new w id ∙ e in
      let back : row ((b.update_row id (with_id id old) v).1) id ≡ some (timeless old) =
        p.update_row_ok id (with_id id old) _ v r (writes.0 id (with_id id old) v)
        ∙ ap (λ y. some (timeless y)) (with_id_same id old named) in
      handed_over id rule w (b.update_rule new) (b.update_row id (with_id id old)) n rd rg r
        (p.update_rule_ok new w id refl)
        (λ x a.
          p.update_row_live id (with_id id old) v
          ∙ p.update_rule_err new w x id a
          ∙ l
          ∙ sym (ap wanted back))
  plain_update id false true old rule w e l named rd rg o n keeps_on =
      let new : Rule = with_id id rule in
      let v : W = (b.add_rule new w).1 in
      let r = p.add_rule_row new w id ∙ e in
      let undone : Rule = switched false new in
      let back = p.update_row_ok id undone _ v r (writes.0 id undone v) in
      handed_over id rule w (b.add_rule new) (b.update_row id undone) n rd rg r
        (p.add_rule_ok new w id refl)
        (λ x a.
          p.update_row_live id undone v
          ∙ p.add_rule_err new w x id a
          ∙ l
          ∙ off_wanted (timeless old) o
          ∙ sym (ap wanted back))

  same_kind_update :
      (id : ℕ) (d e g h : Bool) (old rule : Rule) (w : W)
      → id < group_rule_id_base
      → row w id ≡ some (timeless (with_id id rule))
      → live w id ≡ wanted (some (timeless old))
      → old.id ≡ some id
      → is_some old.remote_domain ≡ d
      → is_some rule.remote_domain ≡ e
      → g ≡ false
      → is_some rule.app_group_id ≡ h
      → d ≡ e
      → h ≡ false
      → (old.enabled ≡ true → rule.enabled ≡ true)
      → Updates id rule
          (follow_row b lower (d || e) (g || h) old.enabled rule.enabled id old rule w)
  same_kind_update id true true g h old rule w small r l named od rd og rg same_kind none_group
        keeps_on =
      domain_update id (g || h) old.enabled rule.enabled old rule w small r
        (l ∙ domain_wanted (timeless old) od) rd
  same_kind_update id true false g h old rule w small r l named od rd og rg same_kind none_group
        keeps_on =
      absurd (true_not_false same_kind)
  same_kind_update id false true g h old rule w small r l named od rd og rg same_kind none_group
        keeps_on =
      absurd (true_not_false (sym same_kind))
  same_kind_update id false false true h old rule w small r l named od rd og rg same_kind none_group
        keeps_on =
      absurd (true_not_false og)
  same_kind_update id false false false true old rule w small r l named od rd og rg same_kind
        none_group keeps_on =
      absurd (true_not_false none_group)
  same_kind_update id false false false false old rule w small r l named od rd og rg same_kind
        none_group keeps_on =
      plain_update id old.enabled rule.enabled old rule w r l named rd rg refl refl keeps_on

  -- An update of a row that was read.
  read_update :
      (id : ℕ) (old rule : Rule) (w : W)
      → id < group_rule_id_base
      → row w id ≡ some (timeless old)
      → Synced row live id w
      → old.id ≡ some id
      → is_some old.remote_domain ≡ is_some rule.remote_domain
      → is_some old.app_group_id ≡ false
      → is_some rule.app_group_id ≡ false
      → (old.enabled ≡ true → rule.enabled ≡ true)
      → Updates id rule ((b.update_row id rule >> update_driver b lower id old rule) w)
  unfolding update_driver
  read_update id old rule w small e s named same_kind og rg keeps_on =
      let v : W = (b.update_row id rule w).1 in
      let r = p.update_row_ok id rule (timeless old) w e (writes.0 id rule w) in
      let l = p.update_row_live id rule w ∙ s ∙ ap wanted e in
      rw (writes.0 id rule w) (
        same_kind_update id (is_some old.remote_domain) (is_some rule.remote_domain)
          (is_some old.app_group_id) (is_some rule.app_group_id) old rule v small r l named refl
          refl og refl same_kind rg keeps_on)

  -- Where the driver and the row of a rule agree and the writes of the database succeed, an update
  -- that neither gives the rule a domain nor takes its domain away, does not switch it off and
  -- concerns no group, leaves them in agreement, with the new row if it succeeds, and also where it fails.
  pub update_rule_internal-Updates :
      (id : ℕ) (rule : Rule) (w : W)
      → id < group_rule_id_base
      → Synced row live id w
      → is_some rule.app_group_id ≡ false
      → ((old : Rule)
          → row w id ≡ some old
          → (is_some old.remote_domain ≡ is_some rule.remote_domain)
            × (is_some old.app_group_id ≡ false)
            × (old.enabled ≡ true → rule.enabled ≡ true))
      → Updates id rule (update_rule_internal b lower id rule w)
  unfolding update_rule_internal find_rule
  update_rule_internal-Updates id rule w small s rg kind =
      let v : W = (b.get_row id w).1 in
      let (kr, kl) = p.get_row_keeps id id w in
      let sv : Synced row live id v = kl ∙ s ∙ sym (ap wanted kr) in
      elim (Result-cases (validate_rule rule)) [
        | inr (x, h) ↦ rw h s
        | inl (tt, valid) ↦ elim (Result-cases ((b.get_row id w).0)) [
          | inr (x, h) ↦ rw (valid, h) sv
          | inl (none, h) ↦ rw (valid, h) sv
          | inl (some old, h) ↦
              let e : row w id ≡ some (timeless old) = p.get_row_ok id w (some old) h in
              let (same_kind, og, keeps_on) = kind (timeless old) e in
              rw (valid, h)
                (read_update id old rule v small (kr ∙ e) sv (p.get_row_id id w old h) same_kind og
                  rg keeps_on)
        ]
      ]
