-- ===== src/Rule/Select.antt =====
-- The choice of a rule for a connection: `get_matching_rule`, `load_group_paths` and
-- `matches_rule_with_groups` of service/src/rule/manager.rs. The database's rules and the members of
-- a group are parameters.
pub mod First
use ceasefire.Prelude.{
  ℕ, Bool, true, false, ◌&&◌, not, List, [], ◌∷◌, map, Option, none, some, leb, if◌then◌else◌, keep,
  find, any, is_empty, same, list_eq, nat_eq, unwrap_or,
}
use ceasefire.Prelude.Table.{Table, lookup, insert}
use ceasefire.Text.{Text}
use ceasefire.Models.{Rule, ConnectionInfo}
use ceasefire.Rule.Match.{matches_rule}

-- `sort_by_key(|r| r.priority)`, which is stable.
insert_rule : Rule → List Rule → List Rule
insert_rule r [] = r ∷ []
insert_rule r (x ∷ xs) =
    let rest = insert_rule r xs in if leb r.priority x.priority then r ∷ x ∷ xs else x ∷ rest

unfoldable pub sort_by_priority : List Rule → List Rule
unfolding insert_rule
sort_by_priority [] = []
sort_by_priority (r ∷ rs) = insert_rule r (sort_by_priority rs)

-- `members` is `get_group_members`, with no members where the database fails.
module _ (lower : Text → Text) (members : ℕ → List Text) where
  load_group : Option ℕ → Table ℕ (List Text) → Table ℕ (List Text)
  load_group none t = t
  load_group (some group_id) t =
      if is_empty (unwrap_or [] (lookup group_id t))
      then insert group_id (map lower (members group_id)) t
      else t

  load_groups : List Rule → Table ℕ (List Text) → Table ℕ (List Text)
  unfolding load_group
  load_groups [] t = t
  load_groups (r ∷ rs) t = load_groups rs (load_group r.app_group_id t)

  unfoldable pub load_group_paths : List Rule → Table ℕ (List Text)
  unfolding load_groups
  load_group_paths rules = load_groups rules []

  matches_group : Table ℕ (List Text) → Option ℕ → Option Text → Bool
  matches_group groups none path = true
  matches_group groups (some group_id) none = false
  matches_group groups (some group_id) (some path) =
      any (same (lower path)) (unwrap_or [] (lookup group_id groups))

  unfoldable pub matches_rule_with_groups : Table ℕ (List Text) → Rule → ConnectionInfo → Bool
  unfolding matches_group
  matches_rule_with_groups groups rule connection =
      if not (matches_group groups rule.app_group_id connection.process_path)
      then false
      else matches_rule (record rule { app_group_id = none }) connection

  unfoldable pub get_matching_rule : List Rule → ConnectionInfo → Option Rule
  get_matching_rule rules connection =
      let groups = load_group_paths rules in
      find (λ r. matches_rule_with_groups groups r connection)
        (sort_by_priority (keep (λ r. r.enabled) rules))
