-- ===== src/Rule/Import.antt =====
-- service/src/rule/import_export.rs: rules to and from the entries of an export file, and the import of
-- a list of entries. The text of the file is serde's.
pub mod Promises
pub mod Kept
pub mod Fresh
pub mod Batch
pub mod Restore
use ceasefire.Prelude.{
  ℕ, ◌+◌, ◌≡◌, Bool, true, false, not, ◌&&◌, List, [], ◌∷◌, map, ◌++◌, Option, none, some, Result,
  ok, err, if◌then◌else◌, same, list_eq, nat_eq, option_eq, is_empty, keep, any, all, find, length,
}
use ceasefire.Prelude.State.{Action, Done, pure, raise, ignore, ◌>>=◌, ◌>>◌}
use ceasefire.Text.{Text, codes}
use ceasefire.Errors.{ServiceError, validation, empty_import, import_rejected}
use ceasefire.Models.{
  Rule, AppGroup, ExportedRule, RuleExportFile, ImportMode, merge, replace, ImportStats,
}
use ceasefire.Rule.Validator.{validate_rule}
use ceasefire.Rule.Manager.{Backend, is_system, delete_rule_internal, reload_rules_to_driver}

-- The calls of `Database` that the import makes besides the manager's.
pub record ImportStore (W : Type 0) : Type 0 where
  pub list_app_groups : Action W (List AppGroup)
  pub create_app_group : AppGroup → Action W ℕ
  pub create_rules_batch : List Rule → Action W Done

abbrev pub rule_export_schema : ℕ
rule_export_schema = 1

unfoldable pub group_name : List AppGroup → Option ℕ → Option Text
group_name groups none = none
group_name groups (some id) = elim (find (λ g. same g.id (some id)) groups) [
  | none ↦ none
  | some g ↦ some g.name
]

unfoldable pub to_exported : List AppGroup → Rule → ExportedRule
unfolding group_name
to_exported groups r = record {
  name = r.name;
  description = r.description;
  enabled = r.enabled;
  priority = r.priority;
  action = r.action;
  direction = r.direction;
  protocol = r.protocol;
  process_path = r.process_path;
  remote_addr = r.remote_addr;
  remote_addr_mask = r.remote_addr_mask;
  remote_domain = r.remote_domain;
  remote_port = r.remote_port;
  local_addr = r.local_addr;
  local_addr_mask = r.local_addr_mask;
  local_port = r.local_port;
  network_zone = r.network_zone;
  group = group_name groups r.app_group_id;
}

unfoldable pub to_rule : ExportedRule → Rule
to_rule er = record {
  id = none;
  name = er.name;
  description = er.description;
  enabled = er.enabled;
  priority = er.priority;
  action = er.action;
  direction = er.direction;
  protocol = er.protocol;
  process_id = none;
  process_path = er.process_path;
  remote_addr = er.remote_addr;
  remote_addr_mask = er.remote_addr_mask;
  remote_domain = er.remote_domain;
  remote_port = er.remote_port;
  local_addr = er.local_addr;
  local_addr_mask = er.local_addr_mask;
  local_port = er.local_port;
  network_zone = er.network_zone;
  app_group_id = none;
  created_at = none;
  updated_at = none;
}

is_ok : {A : Type 0} → Result ServiceError A → Bool
is_ok (ok a) = true
is_ok (err e) = false

-- An entry that gets no line in the list of errors.
unfoldable pub acceptable : ExportedRule → Bool
unfolding is_ok
acceptable er = not (is_system (to_rule er)) && is_ok (validate_rule (to_rule er))

unfoldable pub new_group : Text → AppGroup
new_group name = record {
  id = none;
  name = name;
  description = codes "规则导入时自动创建";
  enabled = true;
  is_predefined = false;
  created_at = none;
  updated_at = none;
}

unfoldable pub assign : List Rule → List (Option ℕ) → List Rule
assign [] ids = []
assign (r ∷ rs) [] = r ∷ rs
assign (r ∷ rs) (id ∷ ids) = record r { app_group_id = id } ∷ assign rs ids

unfoldable pub duplicates : List Rule → Rule → Bool
duplicates existing rule =
    any (λ r. same r.name rule.name && same r.process_path rule.process_path) existing

row_ids : List Rule → List ℕ
row_ids [] = []
row_ids (r ∷ rs) = elim r.id [ none ↦ row_ids rs | some id ↦ id ∷ row_ids rs ]

abbrev pub user_rules : List Rule → List Rule
user_rules rs = keep (λ r. not (is_system r)) rs

module _ {W : Type 0} (b : Backend W) (store : ImportStore W) (lower : Text → Text) where
  unfoldable pub export_rules : Text → Action W RuleExportFile
  unfolding to_exported
  export_rules now = do
    rules ← b.list_rows
    groups ← store.list_app_groups
    pure (record {
      schema = rule_export_schema;
      exported_at = now;
      rules = map (to_exported groups) (user_rules rules);
    })

  -- The group's id, and the groups and the number of new ones behind it.
  create_group : Text → List AppGroup → ℕ → Action W (Option ℕ × List AppGroup × ℕ)
  unfolding new_group
  create_group name groups created = do
    id ← store.create_app_group (new_group name)
    pure (some id, groups ++ record (new_group name) { id = some id } ∷ [], created + 1)

  unfoldable pub map_group :
      Option Text → List AppGroup → ℕ → Action W (Option ℕ × List AppGroup × ℕ)
  unfolding create_group
  map_group none groups created = pure (none, groups, created)
  map_group (some name) groups created = elim (find (λ g. same g.name name) groups) [
    | some g ↦ pure (g.id, groups, created)
    | none ↦ create_group name groups created
  ]

  unfoldable pub map_groups : List ExportedRule → List AppGroup → ℕ → Action W (List (Option ℕ) × ℕ)
  unfolding map_group
  map_groups [] groups created = pure ([], created)
  map_groups (er ∷ rest) groups created = do
    g ← map_group er.group groups created
    later ← map_groups rest (g.1) (g.2)
    pure (g.0 ∷ later.0, later.1)

  -- The rules to insert, and the number of those skipped.
  unfoldable pub select : ImportMode → List Rule → Action W (List Rule × ℕ)
  unfolding duplicates
  select merge rules = do
    existing ← b.list_rows
    pure (
      keep (λ r. not (duplicates (user_rules existing) r)) rules,
      length (keep (duplicates (user_rules existing)) rules),
    )
  select replace rules = pure (rules, 0)

  unfoldable pub delete_all : List ℕ → Action W Done
  delete_all [] = pure tt
  delete_all (id ∷ ids) = do ignore (delete_rule_internal b lower id); delete_all ids

  unfoldable pub clear_users : ImportMode → Action W Done
  unfolding row_ids
  clear_users merge = pure tt
  clear_users replace = do rules ← b.list_rows; delete_all (row_ids (user_rules rules))

  unfoldable pub insert_all : List Rule → Action W Done
  insert_all rules = if is_empty rules then pure tt else do
    store.create_rules_batch rules
    (if any (λ r. r.enabled) rules then reload_rules_to_driver b lower else pure tt)

  unfoldable pub import_checked : ImportMode → List ExportedRule → Action W ImportStats
  import_checked mode rules = do
    groups ← store.list_app_groups
    ids ← map_groups rules groups 0
    chosen ← select mode (assign (map to_rule rules) (ids.0))
    clear_users mode
    insert_all (chosen.0)
    pure (record { imported = length (chosen.0); skipped = chosen.1; groups_created = ids.1 })

  unfoldable pub import_rules : ImportMode → List ExportedRule → Action W ImportStats
  import_rules mode rules =
      if is_empty rules
      then raise (validation empty_import)
      else if not (all acceptable rules)
      then raise (validation import_rejected)
      else import_checked mode rules
