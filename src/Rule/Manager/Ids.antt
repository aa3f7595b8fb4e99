-- ===== src/Rule/Manager/Ids.antt =====
-- The driver's ids of the rules of a group, service/src/rule/manager.rs: `expanded_rule_id`.
use ceasefire.Prelude.{ℕ, ◌+◌, ◌*◌, ◌<◌, ◌≤◌, ◌≡◌, arith}
use ceasefire.Shadow.{shadow_rule_id_base}
use ceasefire.Rule.Manager.{expanded_rule_id, group_rule_id_base}

expanded : (r i : ℕ) → r < 262144 → i < 4096 → expanded_rule_id r i ≡ 0x4000_0000 + (r * 4096 + i)
unfolding expanded_rule_id
expanded r i small few = omega arith

-- For rules with ids below 2^18 and groups of at most 2^12 members, two members get the same id only
-- if they are the same member of the same rule, and the id lies above the ids of the rows and below
-- those of the shadow rules.
pub expanded_rule_id_distinct :
    (r s i j : ℕ)
    → r < 262144
    → s < 262144
    → i < 4096
    → j < 4096
    → (expanded_rule_id r i ≡ expanded_rule_id s j → (r ≡ s) × (i ≡ j))
      × (group_rule_id_base ≤ expanded_rule_id r i)
      × (expanded_rule_id r i < shadow_rule_id_base)
expanded_rule_id_distinct r s i j rs ss is js =
    let er = expanded r i rs is in
    let es = expanded s j ss js in
    (
      λ e. let q : r * 4096 + i ≡ s * 4096 + j = omega arith in (omega arith, omega arith),
      omega arith,
      omega arith,
    )
