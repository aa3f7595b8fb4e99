-- ===== src/Rule/Import/Fresh.antt =====
-- Which entries of a list service/src/rule/import_export.rs refuses, and which it inserts.
use ceasefire.Prelude.{
  ℕ, ◌+◌, ◌≡◌, refl, ap, Bool, true, false, not, ◌&&◌, ◌||◌, List, [], ◌∷◌, map, Option, none,
  Result, ok, err, if◌then◌else◌, keep, all, length, same, list_eq, nat_eq, option_eq, Bool-cases,
  inl, inr, arith,
}
use ceasefire.Prelude.State.{Result-cases}
use ceasefire.Errors.{ServiceError}
use ceasefire.Models.{Rule, ExportedRule, ImportMode, merge, replace}
use ceasefire.Rule.Validator.{validate_rule}
use ceasefire.Rule.Manager.{is_system}
use ceasefire.Rule.Import.{acceptable, is_ok, assign, to_rule, duplicates, user_rules}

pub length-assign : (rs : List Rule) (ids : List (Option ℕ)) → length (assign rs ids) ≡ length rs
unfolding assign
length-assign [] ids = refl
length-assign (r ∷ rs) [] = refl
length-assign (r ∷ rs) (id ∷ ids) = omega (arith, length-assign rs ids)

pub length-map {ℓ} : {A B : Type ℓ} (f : A → B) (l : List A) → length (map f l) ≡ length l
length-map f [] = refl
length-map f (a ∷ l) = omega (arith, length-map f l)

pub split_length {ℓ} :
    {A : Type ℓ} (p : A → Bool) (l : List A)
    → length (keep (λ a. not (p a)) l) + length (keep p l) ≡ length l
split_length p [] = omega arith
split_length p (a ∷ l) = elim (Bool-cases (p a)) [
  | inl h ↦ rw h (omega (arith, split_length p l))
  | inr h ↦ rw h (omega (arith, split_length p l))
]

abbrev is_err : Result ServiceError (Unit {0}) → Bool
is_err (ok u) = false
is_err (err e) = true

-- One of the entries has the name of a system rule or is refused by the validator.
abbrev pub some_bad : List ExportedRule → Bool
some_bad [] = false
some_bad (er ∷ ers) =
    (is_system (to_rule er) || is_err (validate_rule (to_rule er))) || some_bad ers

pub all-acceptable : (rules : List ExportedRule) → not (all acceptable rules) ≡ some_bad rules
unfolding acceptable is_ok
all-acceptable [] = refl
all-acceptable (er ∷ ers) = elim (Bool-cases (is_system (to_rule er))) [
  | inl sys ↦ rw sys refl
  | inr user ↦ elim (Result-cases (validate_rule (to_rule er))) [
    | inl (u, valid) ↦ rw (user, valid) (all-acceptable ers)
    | inr (e, bad) ↦ rw (user, bad) refl
  ]
]

-- A user's rule of the list has the name and the path of the rule.
abbrev pub known : List Rule → Rule → Bool
known [] rule = false
known (r ∷ rs) rule =
    (not (is_system r) && same r.name rule.name && same r.process_path rule.process_path)
    || known rs rule

if_or : (a : Bool) {x y : Bool} → x ≡ y → (if a then true else x) ≡ (a || y)
if_or true h = refl
if_or false h = h

pub known-duplicates :
    (rs : List Rule) (rule : Rule) → duplicates (user_rules rs) rule ≡ known rs rule
unfolding duplicates
known-duplicates [] rule = refl
known-duplicates (r ∷ rs) rule = elim (Bool-cases (is_system r)) [
  | inl sys ↦ rw sys (known-duplicates rs rule)
  | inr user ↦ rw user (if_or _ (known-duplicates rs rule))
]

abbrev pub ungrouped : Rule → Rule
ungrouped r = record r { app_group_id = none }

-- The rules that an import is to insert into a database with some rules.
abbrev pub fresh : ImportMode → List Rule → List Rule → List Rule
fresh merge rows rs = keep (λ r. not (known rows r)) rs
fresh replace rows rs = rs

known-ungrouped : (rs : List Rule) (r : Rule) → known rs (ungrouped r) ≡ known rs r
known-ungrouped [] r = refl
known-ungrouped (x ∷ rs) r =
    ap (λ k. (not (is_system x) && same x.name r.name && same x.process_path r.process_path) || k)
      (known-ungrouped rs r)

pub fresh-ungrouped :
    (mode : ImportMode) (rows rs : List Rule)
    → map ungrouped (fresh mode rows rs) ≡ fresh mode rows (map ungrouped rs)
fresh-ungrouped merge rows [] = refl
fresh-ungrouped merge rows (r ∷ rs) = elim (Bool-cases (known rows r)) [
  | inl g ↦ rw (known-ungrouped rows r, g) (fresh-ungrouped merge rows rs)
  | inr g ↦
      rw (known-ungrouped rows r, g) (ap (λ l. ungrouped r ∷ l) (fresh-ungrouped merge rows rs))
]
fresh-ungrouped replace rows rs = refl

pub ungrouped-assign :
    (rs : List Rule) (ids : List (Option ℕ)) → map ungrouped (assign rs ids) ≡ map ungrouped rs
unfolding assign
ungrouped-assign [] ids = refl
ungrouped-assign (r ∷ rs) [] = refl
ungrouped-assign (r ∷ rs) (id ∷ ids) = ap (λ l. ungrouped r ∷ l) (ungrouped-assign rs ids)

pub ungrouped-to_rule :
    (rules : List ExportedRule) → map ungrouped (map to_rule rules) ≡ map to_rule rules
unfolding to_rule
ungrouped-to_rule [] = refl
ungrouped-to_rule (er ∷ ers) = ap (λ l. to_rule er ∷ l) (ungrouped-to_rule ers)

pub keep_same : (f g : Rule → Bool) (l : List Rule) → ((r : Rule) → f r ≡ g r) → keep f l ≡ keep g l
keep_same f g [] h = refl
keep_same f g (r ∷ l) h = elim (Bool-cases (g r)) [
  | inl t ↦ rw (h r, t) (ap (λ x. r ∷ x) (keep_same f g l h))
  | inr t ↦ rw (h r, t) (keep_same f g l h)
]

pub ok_eq {ℓ} : {A : Type ℓ} {a b : A} → ◌≡◌ {A = Result ServiceError A} (ok a) (ok b) → a ≡ b
ok_eq h = cc
