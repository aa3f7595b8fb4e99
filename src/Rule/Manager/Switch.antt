-- ===== src/Rule/Manager/Switch.antt =====
-- Switching a rule on and off.
use ceasefire.Prelude.{
  ℕ, ◌<◌, ◌≡◌, refl, sym, ◌∙◌, ap, Bool, true, false, Option, none, some, Result, ok, err, is_some,
  Bool-cases, inl, inr,
}
use ceasefire.Prelude.State.{Action, Done, Result-cases, continue}
use ceasefire.Text.{Text}
use ceasefire.Errors.{ServiceError}
use ceasefire.Models.{Rule}
use ceasefire.Rule.Manager.{
  Backend, with_id, switched, group_rule_id_base, find_rule, turn_on, turn_off, enable_rule,
  disable_rule, push, pull,
}
use ceasefire.Rule.Manager.Promises.{
  timeless, wanted, Keeps, Synced, Promises, Writes, off_wanted, domain_wanted, plain_wanted,
  with_id_same, switched_same,
}

module _ {W : Type 0} (row live : W → ℕ → Option Rule) (b : Backend W) (lower : Text → Text)
    (p : Promises row live b) (writes : Writes row live b) where
  -- What a call has done at an id: the row is switched on (or off) and nothing else of it has changed,
  -- and the driver has what it wants; or neither has changed.
  abbrev pub Switches : Bool → ℕ → W → Result ServiceError Done × W → Type 0
  Switches on id w (ok u, w') =
      (old : Rule) × (row w id ≡ some old)
      × (row w' id ≡ some (switched on old))
      × (live w' id ≡ wanted (some (switched on old)))
  Switches on id w (err e, w') = Keeps row live id w w'

  Groupless : ℕ → W → Type 0
  Groupless id w = (r : Rule) → row w id ≡ some r → r.app_group_id ≡ none

  turn_on-Switches :
      (id : ℕ) (w : W) (r : Rule)
      → row w id ≡ some (timeless r)
      → r.id ≡ some id
      → r.app_group_id ≡ none
      → Synced row live id w
      → Switches true id w (turn_on b lower id r w)
  unfolding turn_on push
  turn_on-Switches id w r e named groupless s = elim (Bool-cases r.enabled) [
    | inl on ↦
        let stays = e ∙ ap some (sym (switched_same true (timeless r) on)) in
        rw on (timeless r, e, stays, s ∙ ap wanted stays)
    | inr off ↦
        let on_r : Rule = switched true r in
        let flip : some (timeless (with_id id on_r)) ≡ some (switched true (timeless r)) =
          ap (λ x. some (timeless x)) (with_id_same id on_r named) in
        let w1 : W = (b.update_row id on_r w).1 in
        let u1 = writes.0 id on_r w in
        let row1 = p.update_row_ok id on_r (timeless r) w e u1 in
        let live1 : live w1 id ≡ none =
          p.update_row_live id on_r w ∙ s ∙ ap wanted e ∙ off_wanted (timeless r) off in
        elim (Bool-cases (is_some r.remote_domain)) [
          | inl dom ↦
              rw (off, u1, dom)
                (
                  timeless r,
                  e,
                  row1 ∙ flip,
                  live1 ∙ sym (domain_wanted (switched true (timeless r)) dom),
                )
          | inr plain ↦
              let g : is_some r.app_group_id ≡ false = ap is_some groupless in
              let w2 : W = (b.add_rule on_r w1).1 in
              let row2 = p.add_rule_row on_r w1 id ∙ row1 in
              elim (Result-cases ((b.add_rule on_r w1).0)) [
                | inl (tt, a) ↦
                    rw (off, u1, plain, g, a)
                      (
                        timeless r,
                        e,
                        row2 ∙ flip,
                        p.add_rule_ok on_r w1 id named a
                            ∙ sym (plain_wanted (switched true (timeless r)) refl plain g),
                      )
                | inr (x, a) ↦
                    rw (off, u1, plain, g, a)
                      (
                        p.update_row_ok id (switched false r) _ w2 row2
                              (writes.0 id (switched false r) w2)
                            ∙ ap (λ x. some (timeless x))
                                (with_id_same id (switched false r) named
                                  ∙ switched_same false r off)
                            ∙ sym e,
                        p.update_row_live id (switched false r) w2
                            ∙ p.add_rule_err on_r w1 x id a
                            ∙ p.update_row_live id on_r w,
                      )
              ]
        ]
  ]

  turn_off-Switches :
      (id : ℕ) (w : W) (r : Rule)
      → id < group_rule_id_base
      → row w id ≡ some (timeless r)
      → r.id ≡ some id
      → r.app_group_id ≡ none
      → Synced row live id w
      → Switches false id w (turn_off b lower id r w)
  unfolding turn_off pull
  turn_off-Switches id w r small e named groupless s = elim (Bool-cases r.enabled) [
    | inr off ↦
        let stays = e ∙ ap some (sym (switched_same false (timeless r) off)) in
        rw off (timeless r, e, stays, s ∙ ap wanted stays)
    | inl on ↦
        let off_r : Rule = switched false r in
        let flip : some (timeless (with_id id off_r)) ≡ some (switched false (timeless r)) =
          ap (λ x. some (timeless x)) (with_id_same id off_r named) in
        let w1 : W = (b.update_row id off_r w).1 in
        let u1 = writes.0 id off_r w in
        let row1 = p.update_row_ok id off_r (timeless r) w e u1 in
        let live1 = p.update_row_live id off_r w in
        elim (Bool-cases (is_some r.remote_domain)) [
          | inl dom ↦
              let (keeps_row, keeps_live) = p.revoke_keeps id id w1 small in
              rw (on, u1, dom)
                (
                  timeless r,
                  e,
                  keeps_row ∙ row1 ∙ flip,
                  keeps_live ∙ live1 ∙ s ∙ ap wanted e ∙ domain_wanted (timeless r) dom,
                )
          | inr plain ↦
              let g : is_some r.app_group_id ≡ false = ap is_some groupless in
              let w2 : W = (b.remove_rule id w1).1 in
              let row2 = p.remove_rule_row id w1 id ∙ row1 in
              elim (Result-cases ((b.remove_rule id w1).0)) [
                | inl (tt, a) ↦
                    rw (on, u1, plain, g, a) (timeless r, e, row2 ∙ flip, p.remove_rule_ok id w1 a)
                | inr (x, a) ↦
                    rw (on, u1, plain, g, a)
                      (
                        p.update_row_ok id (switched true r) _ w2 row2
                              (writes.0 id (switched true r) w2)
                            ∙ ap (λ x. some (timeless x))
                                (with_id_same id (switched true r) named ∙ switched_same true r on)
                            ∙ sym e,
                        p.update_row_live id (switched true r) w2
                            ∙ p.remove_rule_err id w1 x id a
                            ∙ live1,
                      )
              ]
        ]
  ]

  Switches-from :
      (on : Bool) (id : ℕ) (w v : W) (r : Result ServiceError Done × W)
      → Keeps row live id w v
      → Switches on id v r
      → Switches on id w r
  Switches-from on id w v (ok u, w') (kr, kl) (old, e, f, l) = (old, sym kr ∙ e, f, l)
  Switches-from on id w v (err e, w') (kr, kl) (hr, hl) = (hr ∙ kr, hl ∙ kl)

  -- What a search for a rule leaves for the call behind it.
  find_rule-Switches :
      (on : Bool) (id : ℕ) (w : W) (next : Rule → Action W Done)
      → Groupless id w
      → Synced row live id w
      → ((v : W) (r : Rule)
          → row v id ≡ some (timeless r)
          → r.id ≡ some id
          → r.app_group_id ≡ none
          → Synced row live id v
          → Switches on id v (next r v))
      → Switches on id w (continue ((find_rule b lower id w).0) next ((find_rule b lower id w).1))
  unfolding find_rule Groupless
  find_rule-Switches on id w next groupless s step =
      let v : W = (b.get_row id w).1 in
      let (kr, kl) = p.get_row_keeps id id w in
      elim (Result-cases ((b.get_row id w).0)) [
        | inr (e, h) ↦ rw h (kr, kl)
        | inl (none, h) ↦ rw h (kr, kl)
        | inl (some r, h) ↦
            let e : row w id ≡ some (timeless r) = p.get_row_ok id w (some r) h in
            rw h (
              Switches-from on id w v (next r v) (kr, kl)
                (step v r (kr ∙ e) (p.get_row_id id w r h) (groupless (timeless r) e)
                  (kl ∙ s ∙ sym (ap wanted kr))))
      ]

  -- Where the driver and the row of a rule agree and the writes of the database succeed, enabling a
  -- rule that stands for no group ends with the rule as it was but on in the database, and in the driver
  -- unless it names a domain, where the driver holds nothing under its id; or with an error and both as
  -- they were, also where the driver refuses the rule.
  pub enable_rule-Switches :
      (id : ℕ) (w : W)
      → ((r : Rule) → row w id ≡ some r → r.app_group_id ≡ none)
      → Synced row live id w
      → Switches true id w (enable_rule b lower id w)
  unfolding enable_rule Groupless
  enable_rule-Switches id w groupless s =
      find_rule-Switches true id w (turn_on b lower id) groupless s
        (λ v r e named g synced. turn_on-Switches id v r e named g synced)

  -- Where the driver and the row of a rule agree and the writes of the database succeed, disabling
  -- a rule that stands for no group ends with the rule as it was but off in the database and gone
  -- from the driver, or with an error and both as they were, also where the driver does not let go of the rule.
  pub disable_rule-Switches :
      (id : ℕ) (w : W)
      → id < group_rule_id_base
      → ((r : Rule) → row w id ≡ some r → r.app_group_id ≡ none)
      → Synced row live id w
      → Switches false id w (disable_rule b lower id w)
  unfolding disable_rule Groupless
  disable_rule-Switches id w small groupless s =
      find_rule-Switches false id w (turn_off b lower id) groupless s
        (λ v r e named g synced. turn_off-Switches id v r small e named g synced)
