-- ===== src/Tests.antt =====
-- Runs of the theorems at concrete inputs.
mod Rules
mod Shadows
mod Traffic
mod Names
mod Manager
mod Histories
mod Imports
mod Events
mod Geos
mod Storage
use ceasefire.Prelude.{ℕ, Bool, true, [], ◌∷◌, List, none, some}
use ceasefire.Text.{Text, codes, to_ascii_lowercase}
use ceasefire.Models.{
  Rule, RuleAction, Direction, ConnectionInfo, Protocol, established, NetworkEvent, EventAction,
}

abbrev lower : Text → Text
lower = to_ascii_lowercase

-- A rule that blocks every connection.
abbrev block_all : Rule
block_all = record {
  id = some 7;
  name = codes "r";
  description = [];
  enabled = true;
  priority = 3;
  action = RuleAction.block;
  direction = Direction.both;
  protocol = none;
  process_id = none;
  process_path = none;
  remote_addr = none;
  remote_addr_mask = none;
  remote_domain = none;
  remote_port = none;
  local_addr = none;
  local_addr_mask = none;
  local_port = none;
  network_zone = none;
  app_group_id = none;
  created_at = none;
  updated_at = none;
}

abbrev to_addr : Text → Rule
to_addr a = record block_all { remote_addr = some a }

abbrev to_domain : Text → Rule
to_domain d = record block_all { remote_domain = some d }

abbrev conn : ConnectionInfo
conn = record {
  local_addr = codes "192.168.0.2";
  local_port = 50000;
  remote_addr = codes "10.1.2.3";
  remote_port = 443;
  protocol = Protocol.tcp;
  process_id = some 42;
  process_name = some (codes "curl.exe");
  process_path = none;
  direction = Direction.outbound;
  bytes_sent = 100;
  bytes_received = 200;
  packets_sent = 1;
  packets_received = 2;
  state = established;
  first_seen = codes "2026-01-01T00:00:00Z";
  last_seen = codes "2026-01-01T00:00:00Z";
}

abbrev event : EventAction → NetworkEvent
event action = record {
  timestamp = codes "2026-01-01T00:00:05Z";
  action = action;
  local_addr = codes "192.168.0.2";
  local_port = 50000;
  remote_addr = codes "10.1.2.3";
  remote_port = 443;
  protocol = Protocol.tcp;
  direction = Direction.outbound;
  process_id = some 42;
  process_name = some (codes "curl.exe");
  process_path = none;
  bytes_sent = some 10;
  bytes_received = none;
  packets_sent = none;
  packets_received = none;
  rule_id = none;
}
