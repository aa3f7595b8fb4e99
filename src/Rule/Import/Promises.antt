-- ===== src/Rule/Import/Promises.antt =====
-- What an import of service/src/rule/import_export.rs relies on: `rows` and `groups` are the rules and
-- the groups of the database, `inserted` the rules that its batches have written so far.
use ceasefire.Prelude.{◌≡◌, ◌++◌, List, ok}
use ceasefire.Models.{Rule, AppGroup}
use ceasefire.Rule.Manager.{Backend}
use ceasefire.Rule.Manager.Leaves.{Leaves}
use ceasefire.Rule.Import.{ImportStore}

module _ {W : Type 0} (rows : W → List Rule) (groups : W → List AppGroup)
    (inserted : W → List Rule) where
  abbrev pub Keeps : W → W → Type 0
  Keeps w w' = (rows w' ≡ rows w) × (groups w' ≡ groups w) × (inserted w' ≡ inserted w)

  pub record Promises (b : Backend W) (store : ImportStore W) : Type 0 where
    pub list_rows_keeps : (w : W) → Keeps w ((b.list_rows w).1)
    pub list_rows_ok : (w : W) (rs : List Rule) → (b.list_rows w).0 ≡ ok rs → rs ≡ rows w
    pub list_app_groups_keeps : (w : W) → Keeps w ((store.list_app_groups w).1)
    pub list_app_groups_ok :
        (w : W) (gs : List AppGroup) → (store.list_app_groups w).0 ≡ ok gs → gs ≡ groups w
    pub create_app_group_rows :
        (g : AppGroup) (w : W) → rows ((store.create_app_group g w).1) ≡ rows w
    pub create_app_group_inserted :
        (g : AppGroup) (w : W) → inserted ((store.create_app_group g w).1) ≡ inserted w
    pub create_rules_batch_ok :
        (rs : List Rule) (w : W)
        → (store.create_rules_batch rs w).0 ≡ ok tt
        → inserted ((store.create_rules_batch rs w).1) ≡ inserted w ++ rs
    pub others : Leaves inserted b

  -- The calls of the database that an import makes succeed.
  pub record Works (b : Backend W) (store : ImportStore W) : Type 0 where
    pub list_rows : (w : W) → (b.list_rows w).0 ≡ ok (rows w)
    pub list_app_groups : (w : W) → (store.list_app_groups w).0 ≡ ok (groups w)
    pub create_rules_batch : (rs : List Rule) (w : W) → (store.create_rules_batch rs w).0 ≡ ok tt
    pub clear_rules : (w : W) → (b.clear_rules w).0 ≡ ok tt
