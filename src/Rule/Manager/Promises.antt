-- ===== src/Rule/Manager/Promises.antt =====
-- What `RuleManager` relies on: SQLite's and the driver's calls do what they say or fail and change
-- nothing. `row` is the row of an id without its times, `live` the driver's rule of an id.
use ceasefire.Prelude.{
  ℕ, ◌<◌, ◌≡◌, ◌≢◌, Bool, true, false, not, ◌&&◌, Option, none, some, ok, err, if◌then◌else◌,
  is_some, sym, ap, Bool-cases, inl, inr,
}
use ceasefire.Errors.{ServiceError}
use ceasefire.Models.{Rule}
use ceasefire.Rule.Manager.{Backend, with_id, switched, group_rule_id_base}

-- The times of a row are set by the database.
abbrev pub timeless : Rule → Rule
timeless r = record r { created_at = none; updated_at = none }

abbrev pub seen : Option Rule → Option Rule
seen none = none
seen (some r) = some (timeless r)

-- The rule that the driver should hold under a row's id: none for a rule that is off, that names a
-- domain, or that stands for the members of a group.
abbrev pub wanted : Option Rule → Option Rule
wanted none = none
wanted (some r) =
    if r.enabled && not (is_some r.remote_domain) && not (is_some r.app_group_id)
    then some r
    else none

pub off_wanted : (r : Rule) → r.enabled ≡ false → wanted (some r) ≡ none
off_wanted r off = rw off

pub domain_wanted : (r : Rule) → is_some r.remote_domain ≡ true → wanted (some r) ≡ none
domain_wanted r dom = elim (Bool-cases r.enabled) [ inl on ↦ rw (on, dom) | inr off ↦ rw off ]

pub plain_wanted :
    (r : Rule)
    → r.enabled ≡ true
    → is_some r.remote_domain ≡ false
    → is_some r.app_group_id ≡ false
    → wanted (some r) ≡ some r
plain_wanted r on plain g = rw (on, plain, g)

pub with_id_same : (id : ℕ) (r : Rule) → r.id ≡ some id → with_id id r ≡ r
with_id_same id r e = ap (λ i. record r { id = i }) (sym e)

pub switched_same : (on : Bool) (r : Rule) → r.enabled ≡ on → switched on r ≡ r
switched_same on r e = ap (λ x. record r { enabled = x }) (sym e)

module _ {W : Type 0} (row live : W → ℕ → Option Rule) where
  abbrev pub Keeps : ℕ → W → W → Type 0
  Keeps i w w' = (row w' i ≡ row w i) × (live w' i ≡ live w i)

  -- The driver holds what the row wants.
  abbrev pub Synced : ℕ → W → Type 0
  Synced i w = live w i ≡ wanted (row w i)

  pub record Promises (b : Backend W) : Type 0 where
    pub get_row_keeps : (id i : ℕ) (w : W) → Keeps i w ((b.get_row id w).1)
    pub get_row_ok :
        (id : ℕ) (w : W) (o : Option Rule) → (b.get_row id w).0 ≡ ok o → row w id ≡ seen o
    pub get_row_id : (id : ℕ) (w : W) (r : Rule) → (b.get_row id w).0 ≡ ok (some r) → r.id ≡ some id
    pub list_rows_keeps : (i : ℕ) (w : W) → Keeps i w ((b.list_rows w).1)
    pub create_row_ok :
        (r : Rule) (w : W) (id : ℕ)
        → (b.create_row r w).0 ≡ ok id
        → (row w id ≡ none) × (row ((b.create_row r w).1) id ≡ some (timeless (with_id id r)))
    pub create_row_others :
        (r : Rule) (w : W) (id i : ℕ)
        → (b.create_row r w).0 ≡ ok id
        → i ≢ id
        → row ((b.create_row r w).1) i ≡ row w i
    pub create_row_live : (r : Rule) (w : W) (i : ℕ) → live ((b.create_row r w).1) i ≡ live w i
    pub create_row_err :
        (r : Rule) (w : W) (e : ServiceError) (i : ℕ)
        → (b.create_row r w).0 ≡ err e
        → Keeps i w ((b.create_row r w).1)
    pub update_row_ok :
        (id : ℕ) (r old : Rule) (w : W)
        → row w id ≡ some old
        → (b.update_row id r w).0 ≡ ok tt
        → row ((b.update_row id r w).1) id ≡ some (timeless (with_id id r))
    pub update_row_err :
        (id : ℕ) (r : Rule) (w : W) (e : ServiceError)
        → (b.update_row id r w).0 ≡ err e
        → row ((b.update_row id r w).1) id ≡ row w id
    pub update_row_live :
        (id : ℕ) (r : Rule) (w : W) → live ((b.update_row id r w).1) id ≡ live w id
    pub delete_row_ok :
        (id : ℕ) (w : W) → (b.delete_row id w).0 ≡ ok tt → row ((b.delete_row id w).1) id ≡ none
    pub delete_row_err :
        (id : ℕ) (w : W) (e : ServiceError)
        → (b.delete_row id w).0 ≡ err e
        → row ((b.delete_row id w).1) id ≡ row w id
    pub delete_row_others : (id i : ℕ) (w : W) → i ≢ id → row ((b.delete_row id w).1) i ≡ row w i
    pub delete_row_live : (id i : ℕ) (w : W) → live ((b.delete_row id w).1) i ≡ live w i
    pub add_rule_row : (r : Rule) (w : W) (i : ℕ) → row ((b.add_rule r w).1) i ≡ row w i
    pub add_rule_ok :
        (r : Rule) (w : W) (id : ℕ)
        → r.id ≡ some id
        → (b.add_rule r w).0 ≡ ok tt
        → live ((b.add_rule r w).1) id ≡ some (timeless r)
    pub add_rule_err :
        (r : Rule) (w : W) (e : ServiceError) (i : ℕ)
        → (b.add_rule r w).0 ≡ err e
        → live ((b.add_rule r w).1) i ≡ live w i
    pub update_rule_row : (r : Rule) (w : W) (i : ℕ) → row ((b.update_rule r w).1) i ≡ row w i
    pub update_rule_ok :
        (r : Rule) (w : W) (id : ℕ)
        → r.id ≡ some id
        → (b.update_rule r w).0 ≡ ok tt
        → live ((b.update_rule r w).1) id ≡ some (timeless r)
    pub update_rule_err :
        (r : Rule) (w : W) (e : ServiceError) (i : ℕ)
        → (b.update_rule r w).0 ≡ err e
        → live ((b.update_rule r w).1) i ≡ live w i
    pub remove_rule_row : (id : ℕ) (w : W) (i : ℕ) → row ((b.remove_rule id w).1) i ≡ row w i
    pub remove_rule_ok :
        (id : ℕ) (w : W) → (b.remove_rule id w).0 ≡ ok tt → live ((b.remove_rule id w).1) id ≡ none
    pub remove_rule_err :
        (id : ℕ) (w : W) (e : ServiceError) (i : ℕ)
        → (b.remove_rule id w).0 ≡ err e
        → live ((b.remove_rule id w).1) i ≡ live w i
    -- Shadow rules have ids above those of the rows.
    pub revoke_keeps : (id i : ℕ) (w : W) → i < group_rule_id_base → Keeps i w (b.revoke id w)

  -- The writes of the database succeed.
  abbrev pub Writes : Backend W → Type 0
  Writes b =
      ((id : ℕ) (r : Rule) (w : W) → (b.update_row id r w).0 ≡ ok tt)
      × ((id : ℕ) (w : W) → (b.delete_row id w).0 ≡ ok tt)
