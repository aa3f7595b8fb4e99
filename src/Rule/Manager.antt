-- ===== src/Rule/Manager.antt =====
-- `RuleManager` of service/src/rule/manager.rs: the rules of the database and those of the driver.
-- The database, the driver and the engine of the domain rules are operations on a world.
pub mod Promises
pub mod Switch
pub mod Update
pub mod Faults
pub mod Ids
pub mod Guard
pub mod Create
pub mod Load
pub mod Leaves
pub mod Delete
use ceasefire.Prelude.{
  ℕ, ◌+◌, ◌*◌, ◌%◌, ◌^◌, ◌≡◌, refl, Bool, true, false, not, ◌&&◌, ◌||◌, List, [], ◌∷◌, ◌++◌, map,
  Option, none, some, Result, ok, err, ltb, ◌==◌, if◌then◌else◌, same, nat_eq, list_eq, option_eq,
  unwrap_or, is_some, is_empty, keep, find, length,
}
use ceasefire.Prelude.State.{
  Action, Done, pure, raise, continue, ◌>>=◌, ◌>>◌, or_raise, lift, ignore, or_undo, modify,
}
use ceasefire.Prelude.Table.{Table, lookup}
use ceasefire.Text.{Text, codes, starts_with}
use ceasefire.Errors.{ServiceError, not_found, validation, other}
use ceasefire.Models.{
  Rule, rule_action_eq, direction_eq, protocol_eq, port_range_eq, network_zone_eq,
}
use ceasefire.Rule.Validator.{validate_rule}
use ceasefire.Rule.Cover.{same_effective_fields, matchset_covers}
use ceasefire.Rule.Select.{load_group_paths}
use ceasefire.Rule.Merge.{merge_target}

-- The calls of `Database`, of `DriverHandle` and of the engine of the domain rules, which is
-- there or not (`revoke` and `resync` do nothing if it is not). `members` are the paths of a group's
-- members, none where the database fails.
pub record Backend (W : Type 0) : Type 0 where
  pub create_row : Rule → Action W ℕ
  pub get_row : ℕ → Action W (Option Rule)
  pub update_row : ℕ → Rule → Action W Done
  pub delete_row : ℕ → Action W Done
  pub list_rows : Action W (List Rule)
  pub members : ℕ → W → List Text
  pub add_rule : Rule → Action W Done
  pub update_rule : Rule → Action W Done
  pub remove_rule : ℕ → Action W Done
  pub clear_rules : Action W Done
  pub revoke : ℕ → W → W
  pub resync : W → W

abbrev pub group_rule_id_base : ℕ
group_rule_id_base = 0x4000_0000

unfoldable pub expanded_rule_id : ℕ → ℕ → ℕ
expanded_rule_id rule_id member_index =
    ((group_rule_id_base + rule_id * 2 ^ 12 % 2 ^ 32) % 2 ^ 32 + member_index % 2 ^ 12) % 2 ^ 32

abbrev pub system_rule_prefix : Text
system_rule_prefix = codes "[System] "

unfoldable pub is_system : Rule → Bool
is_system r = starts_with system_rule_prefix r.name

-- The fields that a system rule keeps.
unfoldable pub unchanged : Rule → Rule → Bool
unchanged rule old =
    same rule.name old.name
    && same rule.direction old.direction
    && same rule.protocol old.protocol
    && same rule.process_id old.process_id
    && same rule.process_path old.process_path
    && same rule.remote_addr old.remote_addr
    && same rule.remote_addr_mask old.remote_addr_mask
    && same rule.remote_domain old.remote_domain
    && same rule.remote_port old.remote_port
    && same rule.local_addr old.local_addr
    && same rule.local_addr_mask old.local_addr_mask
    && same rule.local_port old.local_port
    && same rule.network_zone old.network_zone
    && same rule.app_group_id old.app_group_id
    && same rule.action old.action
    && same rule.priority old.priority

abbrev pub with_id : ℕ → Rule → Rule
with_id id r = record r { id = some id }

abbrev pub switched : Bool → Rule → Rule
switched on r = record r { enabled = on }

abbrev pub rule_not_found : ServiceError
rule_not_found = not_found other

abbrev counted : Result ServiceError Done → ℕ × ℕ → ℕ × ℕ
counted (ok u) (loaded, failed) = (loaded + 1, failed)
counted (err e) (loaded, failed) = (loaded, failed + 1)

-- A rule of a group for one member.
unfoldable pub member_rule : Rule → ℕ → Text → Rule
member_rule rule i path = record rule {
  app_group_id = none;
  process_path = some path;
  id = some (expanded_rule_id (unwrap_or 0 rule.id) i);
}

module _ {W : Type 0} (b : Backend W) (lower : Text → Text) where
  find_rule : ℕ → Action W Rule
  find_rule id = do o ← b.get_row id; or_raise rule_not_found o

  -- The members of one rule of a group; a failure is only counted.
  load_members : Rule → ℕ → List Text → ℕ × ℕ → W → (ℕ × ℕ) × W
  load_members rule i [] counts w = (counts, w)
  load_members rule i (path ∷ paths) counts w =
      let r = b.add_rule (member_rule rule i path) w in
      load_members rule (i + 1) paths (counted (r.0) counts) (r.1)

  load_rule : Table ℕ (List Text) → Rule → Option ℕ → ℕ × ℕ → W → (ℕ × ℕ) × W
  load_rule groups rule (some group_id) counts w =
      load_members rule 0 (unwrap_or [] (lookup group_id groups)) counts w
  load_rule groups rule none counts w = let r = b.add_rule rule w in (counted (r.0) counts, r.1)

  load_all : Table ℕ (List Text) → List Rule → ℕ × ℕ → W → (ℕ × ℕ) × W
  load_all groups [] counts w = (counts, w)
  load_all groups (rule ∷ rules) counts w =
      let r =
        if not rule.enabled || is_some rule.remote_domain
        then (counts, w)
        else load_rule groups rule rule.app_group_id counts w in
      load_all groups rules (r.0) (r.1)

  load_listed : List Rule → Action W (ℕ × ℕ)
  load_listed rules w =
      let r = load_all (load_group_paths lower (λ g. b.members g w) rules) rules (0, 0) w in
      (ok (r.0), r.1)

  -- The numbers are those of the log: rules loaded, and rules that the driver refused.
  unfoldable pub load_rules_to_driver : Action W (ℕ × ℕ)
  unfolding load_members load_rule load_all load_listed
  load_rules_to_driver = do rules ← b.list_rows; load_listed rules

  unfoldable pub reload_rules_to_driver : Action W Done
  reload_rules_to_driver = do b.clear_rules; counts ← load_rules_to_driver; modify b.resync

  -- A rule is handed to the driver, and one of a group by a reload.
  push : Rule → Action W Done
  push rule = if is_some rule.app_group_id then reload_rules_to_driver else b.add_rule rule

  pull : Rule → ℕ → Action W Done
  pull rule id = if is_some rule.app_group_id then reload_rules_to_driver else b.remove_rule id

  turn_on : ℕ → Rule → Action W Done
  unfolding push
  turn_on id rule = if rule.enabled then pure tt else do
    b.update_row id (switched true rule)
    (if is_some rule.remote_domain
        then pure tt
        else or_undo (push (switched true rule)) (b.update_row id (switched false rule)))

  unfoldable pub enable_rule : ℕ → Action W Done
  unfolding find_rule turn_on
  enable_rule id = do rule ← find_rule id; turn_on id rule

  turn_off : ℕ → Rule → Action W Done
  unfolding pull
  turn_off id rule = if not rule.enabled then pure tt else do
    b.update_row id (switched false rule)
    (if is_some rule.remote_domain
        then modify (b.revoke id)
        else or_undo (pull (switched false rule) id) (b.update_row id (switched true rule)))

  unfoldable pub disable_rule : ℕ → Action W Done
  unfolding find_rule turn_off
  disable_rule id = do rule ← find_rule id; turn_off id rule

  -- The driver's part of an update, behind the row's: by whether a domain or a group is in play,
  -- and whether the rule was on and is to be on.
  follow_row : (domain group was_on is_on : Bool) → ℕ → Rule → Rule → Action W Done
  follow_row true group was_on is_on id old rule = modify (b.revoke id)
  follow_row false true was_on is_on id old rule = ignore reload_rules_to_driver
  follow_row false false true false id old rule =
      or_undo (b.remove_rule id) (b.update_row id (switched true (with_id id rule)))
  follow_row false false false true id old rule =
      or_undo (b.add_rule (with_id id rule)) (b.update_row id (switched false (with_id id rule)))
  follow_row false false true true id old rule =
      or_undo (b.update_rule (with_id id rule)) (b.update_row id (with_id id old))
  follow_row false false false false id old rule = pure tt

  update_driver : ℕ → Rule → Rule → Action W Done
  unfolding follow_row
  update_driver id old rule =
      follow_row (is_some old.remote_domain || is_some rule.remote_domain)
        (is_some old.app_group_id || is_some rule.app_group_id) old.enabled rule.enabled id old rule

  unfoldable pub update_rule_internal : ℕ → Rule → Action W Done
  unfolding find_rule update_driver
  update_rule_internal id rule = do
    lift (validate_rule rule)
    old ← find_rule id
    b.update_row id rule
    update_driver id old rule

  guard_update : Rule → Rule → Action W Done
  guard_update rule old =
      if is_system old && not (unchanged rule old) then raise (validation other) else pure tt

  unfoldable pub update_rule : ℕ → Rule → Action W Done
  unfolding find_rule guard_update
  update_rule id rule = do old ← find_rule id; guard_update rule old; update_rule_internal id rule

  delete_driver : ℕ → Option Rule → Action W Done
  delete_driver id none = b.remove_rule id
  delete_driver id (some old) =
      if is_some old.remote_domain
      then modify (b.revoke id)
      else if is_some old.app_group_id
      then reload_rules_to_driver
      else b.remove_rule id

  unfoldable pub delete_rule_internal : ℕ → Action W Done
  unfolding delete_driver
  delete_rule_internal id = do old ← b.get_row id; b.delete_row id; delete_driver id old

  guard_delete : Option Rule → Action W Done
  guard_delete none = pure tt
  guard_delete (some old) = if is_system old then raise (validation other) else pure tt

  unfoldable pub delete_rule : ℕ → Action W Done
  unfolding guard_delete
  delete_rule id = do old ← b.get_row id; guard_delete old; delete_rule_internal id

  get_next_priority : Action W ℕ
  get_next_priority = do rules ← b.list_rows; pure ((length rules % 2 ^ 32 + 1) % 2 ^ 32)

  with_priority : Rule → Action W Rule
  unfolding get_next_priority
  with_priority rule =
      if rule.priority == 0
      then (do p ← get_next_priority; pure (record rule { priority = p }))
      else pure rule

  create_new : Rule → ℕ → Action W Rule
  unfolding push
  create_new rule id =
      if rule.enabled && not (is_some rule.remote_domain)
      then (do or_undo (push (with_id id rule)) (b.delete_row id); pure (with_id id rule))
      else pure (with_id id rule)

  find_target : Rule → Action W (Option (ℕ × Rule))
  find_target rule = if is_system rule then pure none else do
    rules ← b.list_rows
    pure (merge_target lower (keep (λ r. not (is_system r)) rules) rule)

  create_or_merge : Rule → Option (ℕ × Rule) → Action W Rule
  unfolding with_priority create_new
  create_or_merge rule (some (id, merged)) = do update_rule id merged; pure merged
  create_or_merge rule none = do
    numbered ← with_priority rule
    id ← b.create_row numbered
    create_new numbered id

  unfoldable pub create_rule : Rule → Action W Rule
  unfolding find_target create_or_merge
  create_rule rule = do
    lift (validate_rule rule)
    target ← find_target rule
    create_or_merge rule target
