-- ===== src/Rule/Manager/Faults.antt =====
-- Two cases of service/src/rule/manager.rs, `update_rule_internal`, in which the driver and the
-- row part.
use ceasefire.Prelude.{
  ℕ, ◌<◌, ◌≡◌, ◌≢◌, sym, ◌∙◌, ap, Bool, true, false, not, ◌||◌, Option, some, ok, err, is_some,
  Bool-cases, arith, inl, inr,
}
use ceasefire.Prelude.Table.{some_not_none}
use ceasefire.Prelude.State.{or_undo}
use ceasefire.Text.{Text}
use ceasefire.Errors.{ServiceError}
use ceasefire.Models.{Rule}
use ceasefire.Rule.Validator.{validate_rule}
use ceasefire.Rule.Manager.{
  Backend, with_id, switched, group_rule_id_base, find_rule, update_driver, follow_row,
  update_rule_internal,
}
use ceasefire.Rule.Manager.Promises.{
  timeless, wanted, Synced, Promises, Writes, domain_wanted, plain_wanted,
}

differ_kind :
    (old rule : Rule) (id : ℕ)
    → old.enabled ≡ true
    → rule.enabled ≡ true
    → is_some old.app_group_id ≡ false
    → is_some rule.app_group_id ≡ false
    → is_some old.remote_domain ≡ not (is_some rule.remote_domain)
    → wanted (some (timeless old)) ≢ wanted (some (timeless (with_id id rule)))
differ_kind old rule id on rule_on og rg switch same_wanted =
    elim (Bool-cases (is_some rule.remote_domain)) [
      | inl rd ↦
          let od : is_some old.remote_domain ≡ false = switch ∙ ap not rd in
          some_not_none (
            sym (plain_wanted (timeless old) on od og)
            ∙ same_wanted
            ∙ domain_wanted (timeless (with_id id rule)) rd)
      | inr rd ↦
          let od : is_some old.remote_domain ≡ true = switch ∙ ap not rd in
          some_not_none (
            sym (plain_wanted (timeless (with_id id rule)) rule_on rd rg)
            ∙ sym same_wanted
            ∙ domain_wanted (timeless old) od)
    ]

module _ {W : Type 0} (row live : W → ℕ → Option Rule) (b : Backend W) (lower : Text → Text)
    (p : Promises row live b) (writes : Writes row live b) where
  driver_case :
      (d g o n : Bool) (id : ℕ) (old rule : Rule) (w : W)
      → is_some old.remote_domain || is_some rule.remote_domain ≡ d
      → is_some old.app_group_id || is_some rule.app_group_id ≡ g
      → old.enabled ≡ o
      → rule.enabled ≡ n
      → update_driver b lower id old rule w ≡ follow_row b lower d g o n id old rule w
  unfolding update_driver
  driver_case d g o n id old rule w hd hg ho hn =
      ap
        (λ x.
          follow_row b lower x (is_some old.app_group_id || is_some rule.app_group_id) old.enabled
            rule.enabled id old rule w)
        hd
      ∙ ap (λ x. follow_row b lower d x old.enabled rule.enabled id old rule w) hg
      ∙ ap (λ x. follow_row b lower d g x rule.enabled id old rule w) ho
      ∙ ap (λ x. follow_row b lower d g o x id old rule w) hn

  update_driver_refused :
      (id : ℕ) (old rule : Rule) (w : W)
      → is_some old.remote_domain ≡ false
      → is_some rule.remote_domain ≡ false
      → is_some old.app_group_id ≡ false
      → is_some rule.app_group_id ≡ false
      → old.enabled ≡ true
      → rule.enabled ≡ false
      → update_driver b lower id old rule w
        ≡ or_undo (b.remove_rule id) (b.update_row id (switched true (with_id id rule))) w
  unfolding follow_row
  update_driver_refused id old rule w od rd og rg on off =
      driver_case false false true false id old rule w (ground arith) (ground arith) on off

  -- A plain rule that is on and in the driver, updated to one that is off, where the driver does not
  -- let go of it: the call fails, the row is the new rule switched on, and the driver has the old one.
  pub update_rule_refused :
      (id : ℕ) (old rule : Rule) (w : W) (e : ServiceError)
      → validate_rule rule ≡ ok tt
      → (b.get_row id w).0 ≡ ok (some old)
      → old.enabled ≡ true
      → rule.enabled ≡ false
      → is_some old.remote_domain ≡ false
      → is_some rule.remote_domain ≡ false
      → is_some old.app_group_id ≡ false
      → is_some rule.app_group_id ≡ false
      → (b.remove_rule id ((b.update_row id rule ((b.get_row id w).1)).1)).0 ≡ err e
      → ((update_rule_internal b lower id rule w).0 ≡ err e)
        × (row ((update_rule_internal b lower id rule w).1) id
            ≡ some (timeless (with_id id (switched true rule))))
        × (live ((update_rule_internal b lower id rule w).1) id ≡ live w id)
  unfolding update_rule_internal find_rule
  update_rule_refused id old rule w e valid h on off od rd og rg refused =
      let v : W = (b.get_row id w).1 in
      let (kr, kl) = p.get_row_keeps id id w in
      let q : row w id ≡ some (timeless old) = p.get_row_ok id w (some old) h in
      let u = writes.0 id rule v in
      let v1 : W = (b.update_row id rule v).1 in
      let r1 = p.update_row_ok id rule _ v (kr ∙ q) u in
      let path = update_driver_refused id old rule v1 od rd og rg on off in
      let f = refused in
      let v2 : W = (b.remove_rule id v1).1 in
      let undone : Rule = switched true (with_id id rule) in
      (
        rw (valid, h, u, path, f),
        rw (valid, h, u, path, f)
            (p.update_row_ok id undone _ v2 (p.remove_rule_row id v1 id ∙ r1)
              (writes.0 id undone v2)),
        rw (valid, h, u, path, f)
            (p.update_row_live id undone v2
              ∙ p.remove_rule_err id v1 e id f
              ∙ p.update_row_live id rule v
              ∙ kl),
      )

  -- A valid update that gives a plain rule a domain, or takes the domain of a rule away, both being on
  -- and of no group, succeeds, and the driver no longer agrees with the row.
  pub update_rule_domain_switch :
      (id : ℕ) (old rule : Rule) (w : W)
      → id < group_rule_id_base
      → validate_rule rule ≡ ok tt
      → (b.get_row id w).0 ≡ ok (some old)
      → Synced row live id w
      → old.enabled ≡ true
      → rule.enabled ≡ true
      → is_some old.app_group_id ≡ false
      → is_some rule.app_group_id ≡ false
      → is_some old.remote_domain ≡ not (is_some rule.remote_domain)
      → ((update_rule_internal b lower id rule w).0 ≡ ok tt)
        × ¬ (Synced row live id ((update_rule_internal b lower id rule w).1))
  unfolding update_rule_internal find_rule follow_row
  update_rule_domain_switch id old rule w small valid h s on rule_on og rg switch =
      let v : W = (b.get_row id w).1 in
      let (kr, kl) = p.get_row_keeps id id w in
      let q : row w id ≡ some (timeless old) = p.get_row_ok id w (some old) h in
      let u = writes.0 id rule v in
      let v1 : W = (b.update_row id rule v).1 in
      let r1 = p.update_row_ok id rule _ v (kr ∙ q) u in
      let l1 = p.update_row_live id rule v ∙ kl ∙ s ∙ ap wanted q in
      let (rr, rl) = p.revoke_keeps id id v1 small in
      let path : update_driver b lower id old rule v1 ≡ (ok tt, b.revoke id v1) =
        driver_case true false true true id old rule v1 (ground arith) (ground arith) on rule_on in
      (
        rw (valid, h, u, path),
        λ synced.
            let bad : wanted (some (timeless old)) ≡ wanted (some (timeless (with_id id rule))) =
              sym (rl ∙ l1) ∙ (rw (valid, h, u, path) at synced) ∙ ap wanted (rr ∙ r1) in
            differ_kind old rule id on rule_on og rg switch bad,
      )
