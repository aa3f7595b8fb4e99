-- ===== src/Rule/Manager/Delete.antt =====
-- Deleting a rule: service/src/rule/manager.rs, `delete_rule`.
use ceasefire.Prelude.{
  ℕ, ◌<◌, ◌≡◌, refl, sym, ap, ◌∙◌, Bool, true, false, not, ◌&&◌, Option, none, some, Result, ok,
  err, is_some, Bool-cases, inl, inr,
}
use ceasefire.Prelude.State.{Done, Result-cases}
use ceasefire.Text.{Text}
use ceasefire.Errors.{ServiceError}
use ceasefire.Models.{Rule}
use ceasefire.Rule.Manager.{
  Backend, group_rule_id_base, is_system, delete_driver, delete_rule_internal, guard_delete,
  delete_rule,
}
use ceasefire.Rule.Manager.Promises.{
  timeless, seen, wanted, Keeps, Synced, Promises, Writes, domain_wanted,
}

module _ {W : Type 0} (row live : W → ℕ → Option Rule) (b : Backend W) (lower : Text → Text)
    (p : Promises row live b) (writes : Writes row live b) where
  -- How a deletion ends: without the row and without the driver's rule; or with an error, where, by
  -- whether the row was to be deleted, the row is gone and the driver's rule stays, or neither has
  -- changed.
  abbrev pub Ends : Bool → ℕ → W → Result ServiceError Done × W → Type 0
  Ends began id w (ok u, w') = (row w' id ≡ none) × (live w' id ≡ none)
  Ends true id w (err e, w') = (row w' id ≡ none) × (live w' id ≡ live w id)
  Ends false id w (err e, w') = Keeps row live id w w'

  removed :
      (id : ℕ) (w v : W)
      → row v id ≡ none
      → live v id ≡ live w id
      → Ends true id w (b.remove_rule id v)
  removed id w v gone stays = go (b.remove_rule id v) refl
    where
      go : (r : Result ServiceError Done × W) → b.remove_rule id v ≡ r → Ends true id w r
      go (ok u, v') h = (
        ap (λ x. row (x.1) id) (sym h) ∙ p.remove_rule_row id v id ∙ gone,
        ap (λ x. live (x.1) id) (sym h) ∙ p.remove_rule_ok id v (ap (λ x. x.0) h),
      )
      go (err e, v') h = (
        ap (λ x. row (x.1) id) (sym h) ∙ p.remove_rule_row id v id ∙ gone,
        ap (λ x. live (x.1) id) (sym h) ∙ p.remove_rule_err id v e id (ap (λ x. x.0) h) ∙ stays,
      )

  driver_deleted :
      (id : ℕ) (w v : W) (o : Option Rule)
      → id < group_rule_id_base
      → row w id ≡ seen o
      → ((r : Rule) → row w id ≡ some r → r.app_group_id ≡ none)
      → Synced row live id w
      → row v id ≡ none
      → live v id ≡ live w id
      → Ends true id w (delete_driver b lower id o v)
  unfolding delete_driver
  driver_deleted id w v none small e groupless s gone stays = removed id w v gone stays
  driver_deleted id w v (some old) small e groupless s gone stays =
      elim (Bool-cases (is_some old.remote_domain)) [
        | inl dom ↦
            let (kr, kl) = p.revoke_keeps id id v small in
            rw dom (kr ∙ gone, kl ∙ stays ∙ s ∙ ap wanted e ∙ domain_wanted (timeless old) dom)
        | inr plain ↦
            let g : is_some old.app_group_id ≡ false = ap is_some (groupless (timeless old) e) in
            rw (plain, g) (removed id w v gone stays)
      ]

  -- Nothing that a call before has changed.
  Ends-from :
      (began : Bool) (id : ℕ) (w v : W) (r : Result ServiceError Done × W)
      → Keeps row live id w v
      → Ends began id v r
      → Ends began id w r
  Ends-from began id w v (ok u, w') k h = h
  Ends-from true id w v (err e, w') (kr, kl) (hr, hl) = (hr, hl ∙ kl)
  Ends-from false id w v (err e, w') (kr, kl) (hr, hl) = (hr ∙ kr, hl ∙ kl)

  -- The row was read.
  abbrev pub is_read : Result ServiceError (Option Rule) → Bool
  is_read (ok o) = true
  is_read (err e) = false

  -- The row was read and is not one of the system's rules.
  abbrev pub is_deletable : Result ServiceError (Option Rule) → Bool
  is_deletable (ok none) = true
  is_deletable (ok (some r)) = not (is_system r)
  is_deletable (err e) = false

  -- Both times that a deletion reads the row, it can go on.
  abbrev pub deletes : ℕ → W → Bool
  deletes id w =
      is_deletable ((b.get_row id w).0) && is_read ((b.get_row id ((b.get_row id w).1)).0)

  delete_rule_internal-Ends :
      (id : ℕ) (w : W)
      → id < group_rule_id_base
      → ((r : Rule) → row w id ≡ some r → r.app_group_id ≡ none)
      → Synced row live id w
      → Ends (is_read ((b.get_row id w).0)) id w (delete_rule_internal b lower id w)
  unfolding delete_rule_internal
  delete_rule_internal-Ends id w small groupless s =
      let v : W = (b.get_row id w).1 in
      let (kr, kl) = p.get_row_keeps id id w in
      elim (Result-cases ((b.get_row id w).0)) [
        | inr (e, h) ↦ rw h (kr, kl)
        | inl (o, h) ↦
            let u = writes.1 id v in
            rw (h, u)
              (driver_deleted id w ((b.delete_row id v).1) o small (p.get_row_ok id w o h) groupless
                s (p.delete_row_ok id v u) (p.delete_row_live id id v ∙ kl))
      ]

  -- Where the driver and the row of a rule agree and the writes of the database succeed, deleting a
  -- rule that stands for no group ends with the row and the driver's rule gone, or with an error. If the
  -- rule is one of the system's or cannot be read, neither has then changed; in any other case the row
  -- is gone and the driver's rule, which the driver did not let go of, stays: this one call is not
  -- rolled back.
  pub delete_rule-Ends :
      (id : ℕ) (w : W)
      → id < group_rule_id_base
      → ((r : Rule) → row w id ≡ some r → r.app_group_id ≡ none)
      → Synced row live id w
      → Ends (deletes id w) id w (delete_rule b lower id w)
  unfolding delete_rule guard_delete
  delete_rule-Ends id w small groupless s =
      let v : W = (b.get_row id w).1 in
      let (kr, kl) = p.get_row_keeps id id w in
      let rest : Ends (is_read ((b.get_row id v).0)) id w (delete_rule_internal b lower id v) =
        Ends-from (is_read ((b.get_row id v).0)) id w v (delete_rule_internal b lower id v) (kr, kl)
          (delete_rule_internal-Ends id v small (λ r e. groupless r (sym kr ∙ e))
            (kl ∙ s ∙ sym (ap wanted kr))) in
      elim (Result-cases ((b.get_row id w).0)) [
        | inr (e, h) ↦ rw h (kr, kl)
        | inl (none, h) ↦ rw h rest
        | inl (some old, h) ↦ elim (Bool-cases (is_system old)) [
          | inl sys ↦ rw (h, sys) (kr, kl)
          | inr user ↦ rw (h, user) rest
        ]
      ]
