-- ===== src/Rule/Merge.antt =====
-- The rule that a new one is merged into: `create_rule` of service/src/rule/manager.rs.
use ceasefire.Prelude.{
  ℕ, Bool, ◌&&◌, List, Option, none, some, same, nat_eq, list_eq, option_eq, unwrap_or, find,
}
use ceasefire.Text.{Text}
use ceasefire.Models.{
  Rule, rule_action_eq, direction_eq, protocol_eq, port_range_eq, network_zone_eq,
}
use ceasefire.Rule.Cover.{same_effective_fields, matchset_covers}

-- What a rule that is to be created is merged into: the id, and the row that takes its place.
override : Rule → Rule → ℕ × Rule
override rule dup = (
  unwrap_or 0 dup.id,
  record dup {
    action = rule.action;
    enabled = rule.enabled;
    name = rule.name;
    description = rule.description;
  },
)

absorb : Rule → Rule → ℕ × Rule
absorb rule b = (
  unwrap_or 0 b.id,
  record rule {
    id = some (unwrap_or 0 b.id);
    action = b.action;
    priority = b.priority;
    created_at = b.created_at;
  },
)

annotate : Rule → Rule → ℕ × Rule
annotate rule a = (
  unwrap_or 0 a.id,
  record a { name = rule.name; description = rule.description; enabled = rule.enabled },
)

same_intent : Rule → Rule → Bool
same_intent r rule =
    same r.action rule.action
    && same r.network_zone rule.network_zone
    && same r.app_group_id rule.app_group_id

or_else {ℓ} : {A : Type ℓ} → Option A → Option A → Option A
or_else none o = o
or_else (some a) o = some a

found_by : (Rule → ℕ × Rule) → Option Rule → Option (ℕ × Rule)
found_by f none = none
found_by f (some r) = some (f r)

unfoldable pub merge_target : (Text → Text) → List Rule → Rule → Option (ℕ × Rule)
unfolding override absorb annotate same_intent or_else found_by
merge_target lower existing rule =
    or_else (found_by (override rule) (find (λ r. same_effective_fields r rule) existing)) (
      or_else
        (found_by (absorb rule)
          (find (λ r. same_intent r rule && matchset_covers lower rule r) existing))
        (found_by (annotate rule)
          (find (λ r. same_intent r rule && matchset_covers lower r rule) existing)))
