-- ===== src/Rule/Import/Restore.antt =====
-- What is exported is imported again.
use ceasefire.Prelude.{
  ℕ, ◌≡◌, List, map, Option, none, some, ok, same, list_eq, nat_eq, option_eq, find, Result, length,
  ◌++◌,
}
use ceasefire.Text.{Text}
use ceasefire.Models.{Rule, AppGroup, ImportStats}
use ceasefire.Errors.{ServiceError}
use ceasefire.Rule.Manager.{Backend}
use ceasefire.Rule.Import.Promises.{Promises, Works}
use ceasefire.Rule.Import.{ImportStore}

-- A rule without what an export leaves out: its id, its process id and its times.
abbrev pub portable : Rule → Rule
portable r = record r { id = none; process_id = none; created_at = none; updated_at = none }

abbrev pub groups_of : List Rule → List (Option ℕ)
groups_of rs = map (λ r. r.app_group_id) rs

-- The group is in the list, and no group before it has its id or its name.
abbrev pub Known : List AppGroup → Option ℕ → Type 0
Known groups none = Unit {0}
Known groups (some id) =
    (g : AppGroup) × (g.id ≡ some id)
    × (find (λ x. same x.id (some id)) groups ≡ some g)
    × (find (λ x. same x.name g.name) groups ≡ some g)

module _ {W : Type 0} (rows : W → List Rule) (groups : W → List AppGroup) (inserted : W → List Rule)
    (b : Backend W) (store : ImportStore W) (lower : Text → Text)
    (p : Promises rows groups inserted b store) (works : Works rows groups inserted b store) where
  -- How an import of exported rules ends.
  Restores : List Rule → W → Result ServiceError ImportStats × W → Type 0
  Restores rs w r =
      (r.0 ≡ ok (record { imported = length rs; skipped = 0; groups_created = 0 }))
      × (inserted (r.1) ≡ inserted w ++ map portable rs)
