-- ===== src/Rows.antt =====
-- The rows of service/src/database.rs: how a rule is written in columns and read back.
-- An i32 is the number of its bit pattern. The JSON texts of the enumerations are serde's.
pub mod Restored
use ceasefire.Prelude.{
  ℕ, ◌%◌, ◌^◌, Bool, true, false, not, Option, none, some, if◌then◌else◌, ◌==◌, same, list_eq,
  nat_eq,
}
use ceasefire.Text.{Text, codes, to_ascii_lowercase}
use ceasefire.Models.{
  Rule, RuleAction, Direction, Protocol, NetworkZone, PortRange, single, range, DecisionAction,
}

-- `serde_json` for one type.
pub record Json (A : Type 0) : Type 0 where
  pub write : A → Text
  pub read : Text → Option A

pub record Codecs : Type 0 where
  pub action : Json RuleAction
  pub direction : Json Direction
  pub protocol : Json Protocol
  pub network_zone : Json NetworkZone

-- The columns of the table of the rules.
pub record RuleRow : Type 0 where
  pub id : ℕ
  pub name : Text
  pub description : Text
  pub enabled : ℕ
  pub priority : ℕ
  pub action : Text
  pub direction : Text
  pub protocol : Option Text
  pub process_id : Option ℕ
  pub process_path : Option Text
  pub remote_addr : Option Text
  pub remote_addr_mask : Option ℕ
  pub remote_port_start : Option ℕ
  pub remote_port_end : Option ℕ
  pub local_addr : Option Text
  pub local_addr_mask : Option ℕ
  pub local_port_start : Option ℕ
  pub local_port_end : Option ℕ
  pub network_zone : Option Text
  pub app_group_id : Option ℕ
  pub created_at : Option Text
  pub updated_at : Option Text
  pub remote_domain : Option Text

abbrev pub on_some {ℓ} : {A B : Type ℓ} → (A → B) → Option A → Option B
on_some f none = none
on_some f (some a) = some (f a)

-- A text that is not read is replaced by the type's default.
unfoldable pub parse_json : {A : Type 0} → A → Json A → Text → A
parse_json default_value j s = elim (j.read s) [ none ↦ default_value | some a ↦ a ]

unfoldable pub port_columns : Option PortRange → Option ℕ × Option ℕ
port_columns none = (none, none)
port_columns (some (single p)) = (some p, none)
port_columns (some (range start end)) = (some start, some end)

-- The casts keep the lowest bits.
unfoldable pub port_of_columns : Option ℕ → Option ℕ → Option PortRange
port_of_columns (some start) (some end) = some (range (start % 2 ^ 16) (end % 2 ^ 16))
port_of_columns (some port) none = some (single (port % 2 ^ 16))
port_of_columns none end = none

module _ (j : Codecs) where
  -- The row that `create_rule` inserts, with the id that it gets.
  unfoldable pub inserted_row : Text → ℕ → Rule → RuleRow
  unfolding port_columns
  inserted_row now id r = record {
    id = id;
    name = r.name;
    description = r.description;
    enabled = if r.enabled then 1 else 0;
    priority = r.priority;
    action = (j.action).write r.action;
    direction = (j.direction).write r.direction;
    protocol = on_some (λ p. (j.protocol).write p) r.protocol;
    process_id = r.process_id;
    process_path = r.process_path;
    remote_addr = r.remote_addr;
    remote_addr_mask = r.remote_addr_mask;
    remote_port_start = (port_columns r.remote_port).0;
    remote_port_end = (port_columns r.remote_port).1;
    local_addr = r.local_addr;
    local_addr_mask = r.local_addr_mask;
    local_port_start = (port_columns r.local_port).0;
    local_port_end = (port_columns r.local_port).1;
    network_zone = on_some (λ z. (j.network_zone).write z) r.network_zone;
    app_group_id = r.app_group_id;
    created_at = some now;
    updated_at = some now;
    remote_domain = r.remote_domain;
  }

  unfoldable pub rule_from_row : RuleRow → Rule
  unfolding parse_json port_of_columns
  rule_from_row row = record {
    id = some row.id;
    name = row.name;
    description = row.description;
    enabled = not (row.enabled == 0);
    priority = row.priority;
    action = parse_json RuleAction.allow j.action row.action;
    direction = parse_json Direction.both j.direction row.direction;
    protocol = on_some (parse_json Protocol.any j.protocol) row.protocol;
    process_id = row.process_id;
    process_path = row.process_path;
    remote_addr = row.remote_addr;
    remote_addr_mask = on_some (λ m. m % 2 ^ 8) row.remote_addr_mask;
    remote_domain = row.remote_domain;
    remote_port = port_of_columns row.remote_port_start row.remote_port_end;
    local_addr = row.local_addr;
    local_addr_mask = on_some (λ m. m % 2 ^ 8) row.local_addr_mask;
    local_port = port_of_columns row.local_port_start row.local_port_end;
    network_zone = on_some (parse_json NetworkZone.internet j.network_zone) row.network_zone;
    app_group_id = row.app_group_id;
    created_at = row.created_at;
    updated_at = row.updated_at;
  }
