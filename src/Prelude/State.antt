-- ===== src/Prelude/State.antt =====
-- A call that reads and changes a world and can fail: what was changed before an error stays changed.
use ceasefire.Prelude.{◌≡◌, refl, ◌⊎◌, inl, inr, Option, none, some, Result, ok, err}
use ceasefire.Errors.{ServiceError}

abbrev pub Action : Type 0 → Type 0 → Type 0
Action W A = W → Result ServiceError A × W

abbrev pub Done : Type 0
Done = Unit {0}

module _ {W : Type 0} where
  abbrev pub pure : {A : Type 0} → A → Action W A
  pure a w = (ok a, w)

  abbrev pub raise : {A : Type 0} → ServiceError → Action W A
  raise e w = (err e, w)

  -- What follows a call: nothing, if it failed.
  abbrev pub continue : {A B : Type 0} → Result ServiceError A → (A → Action W B) → Action W B
  continue (ok a) f w = f a w
  continue (err e) f w = (err e, w)

  infixl 5 ◌>>=◌ ◌>>◌
  abbrev pub ◌>>=◌ : {A B : Type 0} → Action W A → (A → Action W B) → Action W B
  ◌>>=◌ m f w = continue ((m w).0) f ((m w).1)

  abbrev pub ◌>>◌ : {A B : Type 0} → Action W A → Action W B → Action W B
  m >> k = m >>= λ _. k

  -- `opt.ok_or_else(...)?`
  abbrev pub or_raise : {A : Type 0} → ServiceError → Option A → Action W A
  or_raise e none w = (err e, w)
  or_raise e (some a) w = (ok a, w)

  abbrev pub lift : {A : Type 0} → Result ServiceError A → Action W A
  lift r w = (r, w)

  abbrev pub modify : (W → W) → Action W Done
  modify f w = (ok tt, f w)

  -- `if let Err(e) = call { log }`
  abbrev pub ignore : {A : Type 0} → Action W A → Action W Done
  ignore m w = (ok tt, (m w).1)

  -- What follows a call that may have failed: on an error, `undo` runs, its own error is only
  -- logged, and the error is passed on.
  abbrev pub undo_on :
      {A : Type 0} → Result ServiceError A → Action W Done → W → Result ServiceError A × W
  undo_on (ok a) undo w = (ok a, w)
  undo_on (err e) undo w = (err e, (undo w).1)

  abbrev pub or_undo : {A : Type 0} → Action W A → Action W Done → Action W A
  or_undo m undo w = undo_on ((m w).0) undo ((m w).1)

pub Result-cases :
    {A : Type 0} (r : Result ServiceError A)
    → ((a : A) × (r ≡ ok a)) ⊎ ((e : ServiceError) × (r ≡ err e))
Result-cases (ok a) = inl (a, refl)
Result-cases (err e) = inr (e, refl)
