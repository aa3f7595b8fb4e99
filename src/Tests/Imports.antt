-- ===== src/Tests/Imports.antt =====
-- The theorems on the import of rules at a concrete database.
use ceasefire.Prelude.{
  ◌++◌, find, keep, same, nat_eq, option_eq, list_eq, Result, ◌≡◌, refl, ◌||◌, not, true, false,
  List, [], ◌∷◌, map, none, some, ok, err, is_empty, if◌then◌else◌,
}
use ceasefire.Errors.{ServiceError, validation, empty_import, import_rejected}
use ceasefire.Text.{codes}
use ceasefire.Models.{Rule, AppGroup, ExportedRule, merge}
use ceasefire.Rule.Manager.{Backend}
use ceasefire.Rule.Import.{ImportStore, to_exported, import_rules}
use ceasefire.Rule.Import.Batch.{Imports, import_rules-Imports}
use ceasefire.Rule.Import.Fresh.{some_bad}
use ceasefire.Rule.Import.Promises.{Promises}
use ceasefire.Tests.{lower, block_all}

-- A database, and what batches have written into it; the driver accepts every rule.
pub record Database : Type 0 where
  rows : List Rule
  groups : List AppGroup
  inserted : List Rule

abbrev database : Backend Database
database = record {
  create_row = λ r w. (ok 1, record w { rows = w.rows ++ r ∷ [] });
  get_row = λ id w. (ok (find (λ r. same r.id (some id)) w.rows), w);
  update_row = λ id r w. (ok tt, w);
  delete_row = λ id w. (ok tt, record w { rows = keep (λ r. not (same r.id (some id))) w.rows });
  list_rows = λ w. (ok w.rows, w);
  members = λ g w. [];
  add_rule = λ r w. (ok tt, w);
  update_rule = λ r w. (ok tt, w);
  remove_rule = λ id w. (ok tt, w);
  clear_rules = λ w. (ok tt, w);
  revoke = λ id w. w;
  resync = λ w. w;
}

abbrev store : ImportStore Database
store = record {
  list_app_groups = λ w. (ok w.groups, w);
  create_app_group = λ g w. (ok 1, record w { groups = w.groups ++ record g { id = some 1 } ∷ [] });
  create_rules_batch =
      λ rs w. (ok tt, record w { rows = w.rows ++ rs; inserted = w.inserted ++ rs });
}

abbrev rows_of : Database → List Rule
rows_of w = w.rows

abbrev app_groups : Database → List AppGroup
app_groups w = w.groups

abbrev inserted_rules : Database → List Rule
inserted_rules w = w.inserted

same_rows : (a b : List Rule) → ◌≡◌ {A = Result ServiceError (List Rule)} (ok a) (ok b) → b ≡ a
same_rows a b h = cc

same_groups :
    (a b : List AppGroup) → ◌≡◌ {A = Result ServiceError (List AppGroup)} (ok a) (ok b) → b ≡ a
same_groups a b h = cc

promises : Promises rows_of app_groups inserted_rules database store
promises = record {
  list_rows_keeps = λ w. (refl, refl, refl);
  list_rows_ok = λ w rs h. same_rows w.rows rs h;
  list_app_groups_keeps = λ w. (refl, refl, refl);
  list_app_groups_ok = λ w gs h. same_groups w.groups gs h;
  create_app_group_rows = λ g w. refl;
  create_app_group_inserted = λ g w. refl;
  create_rules_batch_ok = λ rs w h. refl;
  others = record {
    list_rows_leaves = λ w. refl;
    get_row_leaves = λ id w. refl;
    delete_row_leaves = λ id w. refl;
    add_rule_leaves = λ r w. refl;
    remove_rule_leaves = λ id w. refl;
    clear_rules_leaves = λ w. refl;
    revoke_leaves = λ id w. refl;
    resync_leaves = λ w. refl;
  };
}

abbrev browsers : AppGroup
browsers = record {
  id = some 4;
  name = codes "browsers";
  description = [];
  enabled = true;
  is_predefined = false;
  created_at = none;
  updated_at = none;
}

abbrev grouped : Rule
grouped = record block_all { app_group_id = some 4 }

abbrev file : List ExportedRule
file = map (to_exported (browsers ∷ [])) (grouped ∷ [])

-- A database with one rule of a group.
abbrev filled : Database
filled = record { rows = grouped ∷ []; groups = browsers ∷ []; inserted = [] }

import_rules-Imports_example :
    if is_empty file || some_bad file
    then import_rules database store lower merge file filled
      ≡ (err (validation (if is_empty file then empty_import else import_rejected)), filled)
    else Imports rows_of app_groups inserted_rules database store lower promises merge file filled
        (import_rules database store lower merge file filled)
import_rules-Imports_example =
    import_rules-Imports rows_of app_groups inserted_rules database store lower promises merge file
      filled
