-- ===== src/Rule/Manager/Create.antt =====
-- Creating a rule that is not merged into another: service/src/rule/manager.rs, `create_rule`.
use ceasefire.Prelude.{
  ℕ, ◌≡◌, ◌≢◌, refl, sym, ap, ◌∙◌, Bool, true, false, not, ◌&&◌, List, Option, none, some, Result,
  ok, err, ◌==◌, is_some, keep, Bool-cases, and_parts, inl, inr, arith,
}
use ceasefire.Prelude.State.{Result-cases, continue}
use ceasefire.Text.{Text}
use ceasefire.Errors.{ServiceError}
use ceasefire.Models.{Rule}
use ceasefire.Rule.Validator.{validate_rule}
use ceasefire.Rule.Merge.{merge_target}
use ceasefire.Rule.Manager.{
  Backend, with_id, is_system, push, with_priority, get_next_priority, create_new, create_or_merge,
  find_target, create_rule,
}
use ceasefire.Rule.Manager.Promises.{
  timeless, wanted, Keeps, Synced, Promises, Writes, off_wanted, domain_wanted, plain_wanted,
}

unwanted :
    (r : Rule) → (r.enabled && not (is_some r.remote_domain)) ≡ false → wanted (some r) ≡ none
unwanted r h = elim (Bool-cases r.enabled) [
  | inr off ↦ off_wanted r off
  | inl on ↦ elim (Bool-cases (is_some r.remote_domain)) [
    | inl dom ↦ domain_wanted r dom
    | inr plain ↦ cc (rw (on, plain) at h)
  ]
]

unset : (x : Bool) → not x ≡ true → x ≡ false
unset x h = ground arith

module _ {W : Type 0} (row live : W → ℕ → Option Rule) (b : Backend W) (lower : Text → Text)
    (p : Promises row live b) (writes : Writes row live b) where
  -- How a creation ends: with the rule but for its id and priority, as a new row, and a driver that
  -- agrees with it; or with an error, where every row and every rule of the driver is as it was.
  abbrev pub Creates : Rule → W → Result ServiceError Rule × W → Type 0
  Creates rule w (ok r, w') =
      (id : ℕ) × (record r { id = rule.id; priority = rule.priority } ≡ rule)
      × (r.id ≡ some id)
      × (row w id ≡ none)
      × (row w' id ≡ some (timeless r))
      × Synced row live id w'
  Creates rule w (err e, w') = (i : ℕ) → Keeps row live i w w'

  from :
      (rule : Rule) (w v : W) (r : Result ServiceError Rule × W)
      → ((i : ℕ) → Keeps row live i w v)
      → Creates rule v r
      → Creates rule w r
  from rule w v (ok r, w') k (id, same_rule, named, free, stored, synced) =
      (id, same_rule, named, sym ((k id).0) ∙ free, stored, synced)
  from rule w v (err e, w') k same = λ i. ((same i).0 ∙ (k i).0, (same i).1 ∙ (k i).1)

  -- A row that was created and deleted again, behind a call that has changed nothing.
  undone :
      (r : Rule) (w w2 : W) (id : ℕ)
      → (b.create_row r w).0 ≡ ok id
      → ((i : ℕ) → Keeps row live i ((b.create_row r w).1) w2)
      → (i : ℕ) → Keeps row live i w ((b.delete_row id w2).1)
  undone r w w2 id h k i = (
    elim (Bool-cases (i == id)) [
      | inl own ↦
          let e : i ≡ id = ground arith in
          ap (row ((b.delete_row id w2).1)) e
          ∙ p.delete_row_ok id w2 (writes.1 id w2)
          ∙ sym (ap (row w) e ∙ (p.create_row_ok r w id h).0)
      | inr other ↦
          let n : i ≢ id = ground arith in
          p.delete_row_others id i w2 n ∙ (k i).0 ∙ p.create_row_others r w id i h n
    ],
    p.delete_row_live id i w2 ∙ (k i).1 ∙ p.create_row_live r w i,
  )

  stored_rule :
      (rule r : Rule) (w : W)
      → record r { id = rule.id; priority = rule.priority } ≡ rule
      → is_some r.app_group_id ≡ false
      → ((i : ℕ) → Synced row live i w)
      → Creates rule w
          (continue ((b.create_row r w).0) (create_new b lower r) ((b.create_row r w).1))
  unfolding create_new push
  stored_rule rule r w same_rule g synced = elim (Result-cases ((b.create_row r w).0)) [
    | inr (e, h) ↦ rw h (λ i. p.create_row_err r w e i h)
    | inl (id, h) ↦
        let w1 : W = (b.create_row r w).1 in
        let (free, row1) = p.create_row_ok r w id h in
        let live1 = p.create_row_live r w id in
        let n : Rule = with_id id r in
        let idle : live w1 id ≡ none = live1 ∙ synced id ∙ ap wanted free in
        elim (Bool-cases (r.enabled && not (is_some r.remote_domain))) [
          | inr off ↦
              rw (h, off)
                (
                  id,
                  same_rule,
                  refl,
                  free,
                  row1,
                  idle ∙ sym (ap wanted row1 ∙ unwanted (timeless n) off),
                )
          | inl on ↦
              let (enabled, plain) = and_parts r.enabled (not (is_some r.remote_domain)) on in
              elim (Result-cases ((b.add_rule n w1).0)) [
                | inl (tt, a) ↦
                    let row2 = p.add_rule_row n w1 id ∙ row1 in
                    rw (h, on, g, a)
                      (
                        id,
                        same_rule,
                        refl,
                        free,
                        row2,
                        p.add_rule_ok n w1 id refl a
                            ∙ sym (
                                ap wanted row2
                                ∙ plain_wanted (timeless n) enabled
                                    (unset (is_some r.remote_domain) plain) g),
                      )
                | inr (e, a) ↦
                    let w2 : W = (b.add_rule n w1).1 in
                    rw (h, on, g, a)
                      (undone r w w2 id h (λ i. (p.add_rule_row n w1 i, p.add_rule_err n w1 e i a)))
              ]
        ]
  ]

  numbered_rule :
      (rule : Rule) (w : W)
      → is_some rule.app_group_id ≡ false
      → ((i : ℕ) → Synced row live i w)
      → Creates rule w (create_or_merge b lower rule none w)
  unfolding create_or_merge with_priority get_next_priority
  numbered_rule rule w g synced = elim (Bool-cases (rule.priority == 0)) [
    | inr given ↦ rw given (stored_rule rule rule w refl g synced)
    | inl zero ↦
        let v : W = (b.list_rows w).1 in
        let keeps = λ (i : ℕ). p.list_rows_keeps i w in
        elim (Result-cases ((b.list_rows w).0)) [
          | inr (e, h) ↦ rw (zero, h) keeps
          | inl (rs, h) ↦
              rw (zero, h)
                (from rule w v _ keeps (
                  stored_rule rule _ v refl g
                    (λ i. (keeps i).1 ∙ synced i ∙ sym (ap wanted ((keeps i).0)))))
        ]
  ]

  -- Where the driver agrees with all rows and the writes of the database succeed, creating a rule that
  -- stands for no group and that no user's rule is to be merged with ends with the rule as a new row, but
  -- for its id and priority, and a driver that agrees with it; or with an error, where every row and
  -- every rule of the driver is as it was: a row that was new is gone again.
  pub create_rule-Creates :
      (rule : Rule) (w : W)
      → is_some rule.app_group_id ≡ false
      → ((i : ℕ) → Synced row live i w)
      → (is_system rule ≡ false
          → (rs : List Rule) → (b.list_rows w).0 ≡ ok rs
          → merge_target lower (keep (λ r. not (is_system r)) rs) rule ≡ none)
      → Creates rule w (create_rule b lower rule w)
  unfolding create_rule find_target
  create_rule-Creates rule w g synced apart = elim (Result-cases (validate_rule rule)) [
    | inr (e, h) ↦ rw h (λ i. (refl, refl))
    | inl (tt, valid) ↦ elim (Bool-cases (is_system rule)) [
      | inl sys ↦ rw (valid, sys) (numbered_rule rule w g synced)
      | inr user ↦
          let v : W = (b.list_rows w).1 in
          let keeps = λ (i : ℕ). p.list_rows_keeps i w in
          elim (Result-cases ((b.list_rows w).0)) [
            | inr (e, h) ↦ rw (valid, user, h) keeps
            | inl (rs, h) ↦
                rw (valid, user, h, apart user rs h)
                  (from rule w v _ keeps (
                    numbered_rule rule v g
                      (λ i. (keeps i).1 ∙ synced i ∙ sym (ap wanted ((keeps i).0)))))
          ]
    ]
  ]
