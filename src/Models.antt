-- ===== src/Models.antt =====
-- service/src/models.rs: the data that the components share. Numbers of a fixed width are plain
-- numbers; a text is the list of its characters; RFC 3339 times are texts, as in the source.
pub mod Ports
pub mod Path
use ceasefire.Prelude.{ℕ, Bool, true, List, Option, none, some, Eq, ℕ_discrete}
use ceasefire.Text.{Text}

pub data PortRange : Type 0 where
  single : ℕ → PortRange
  range : ℕ → ℕ → PortRange

pub data NetworkZone : Type 0 where
  internet localhost lan : NetworkZone

pub data RuleAction : Type 0 where
  allow block : RuleAction

pub data Direction : Type 0 where
  both inbound outbound : Direction

pub data Protocol : Type 0 where
  any tcp udp icmp icmpv6 : Protocol

pub data EventAction : Type 0 where
  allow block close : EventAction

pub data ConnectionState : Type 0 where
  established closing : ConnectionState

pub data DecisionAction : Type 0 where
  allow block : DecisionAction

pub record Rule : Type 0 where
  pub id : Option ℕ
  pub name : Text
  pub description : Text
  pub enabled : Bool
  pub priority : ℕ
  pub action : RuleAction
  pub direction : Direction
  pub protocol : Option Protocol
  pub process_id : Option ℕ
  pub process_path : Option Text
  pub remote_addr : Option Text
  pub remote_addr_mask : Option ℕ
  pub remote_domain : Option Text
  pub remote_port : Option PortRange
  pub local_addr : Option Text
  pub local_addr_mask : Option ℕ
  pub local_port : Option PortRange
  pub network_zone : Option NetworkZone
  pub app_group_id : Option ℕ
  pub created_at : Option Text
  pub updated_at : Option Text

pub record ConnectionInfo : Type 0 where
  pub local_addr : Text
  pub local_port : ℕ
  pub remote_addr : Text
  pub remote_port : ℕ
  pub protocol : Protocol
  pub process_id : Option ℕ
  pub process_name : Option Text
  pub process_path : Option Text
  pub direction : Direction
  pub bytes_sent : ℕ
  pub bytes_received : ℕ
  pub packets_sent : ℕ
  pub packets_received : ℕ
  pub state : ConnectionState
  pub first_seen : Text
  pub last_seen : Text

pub record ConnectionKey : Type 0 where
  pub local_addr : Text
  pub local_port : ℕ
  pub remote_addr : Text
  pub remote_port : ℕ
  pub protocol : Protocol

pub record ProcessStats : Type 0 where
  pub process_id : ℕ
  pub process_name : Text
  pub active_connections : ℕ
  pub total_bytes_sent : ℕ
  pub total_bytes_received : ℕ

pub record GlobalStats : Type 0 where
  pub active_connections : ℕ
  pub total_bytes_sent : ℕ
  pub total_bytes_received : ℕ
  pub total_packets_sent : ℕ
  pub total_packets_received : ℕ
  pub blocked_connections : ℕ
  pub allowed_connections : ℕ
  pub suspicious_connections : ℕ

pub record NetworkEvent : Type 0 where
  pub timestamp : Text
  pub action : EventAction
  pub local_addr : Text
  pub local_port : ℕ
  pub remote_addr : Text
  pub remote_port : ℕ
  pub protocol : Protocol
  pub direction : Direction
  pub process_id : Option ℕ
  pub process_name : Option Text
  pub process_path : Option Text
  pub bytes_sent : Option ℕ
  pub bytes_received : Option ℕ
  pub packets_sent : Option ℕ
  pub packets_received : Option ℕ
  pub rule_id : Option ℕ

pub record LogEntry : Type 0 where
  pub id : Option ℕ
  pub timestamp : Text
  pub action : EventAction
  pub local_addr : Text
  pub local_port : ℕ
  pub remote_addr : Text
  pub remote_port : ℕ
  pub protocol : Protocol
  pub direction : Direction
  pub process_id : Option ℕ
  pub process_name : Option Text
  pub bytes_sent : Option ℕ
  pub bytes_received : Option ℕ
  pub rule_id : Option ℕ

pub record NetworkHistoryRecord : Type 0 where
  pub id : Option ℕ
  pub timestamp : Text
  pub action : RuleAction
  pub local_addr : Text
  pub local_port : ℕ
  pub remote_addr : Text
  pub remote_port : ℕ
  pub protocol : Protocol
  pub direction : Direction
  pub process_id : Option ℕ
  pub process_name : Option Text
  pub process_path : Option Text
  pub bytes_sent : ℕ
  pub bytes_received : ℕ
  pub rule_id : Option ℕ

pub record NetworkStatistics : Type 0 where
  pub total_connections : ℕ
  pub bytes_sent : ℕ
  pub bytes_received : ℕ
  pub by_protocol : List (Protocol × ℕ)
  pub by_app : List (Text × ℕ)
  pub top_remote_addrs : List (Text × ℕ)
  pub blocked_count : ℕ
  pub allowed_count : ℕ

pub record AppGroup : Type 0 where
  pub id : Option ℕ
  pub name : Text
  pub description : Text
  pub enabled : Bool
  pub is_predefined : Bool
  pub created_at : Option Text
  pub updated_at : Option Text

pub record ExportedRule : Type 0 where
  pub name : Text
  pub description : Text
  pub enabled : Bool
  pub priority : ℕ
  pub action : RuleAction
  pub direction : Direction
  pub protocol : Option Protocol
  pub process_path : Option Text
  pub remote_addr : Option Text
  pub remote_addr_mask : Option ℕ
  pub remote_domain : Option Text
  pub remote_port : Option PortRange
  pub local_addr : Option Text
  pub local_addr_mask : Option ℕ
  pub local_port : Option PortRange
  pub network_zone : Option NetworkZone
  pub group : Option Text

pub record RuleExportFile : Type 0 where
  pub schema : ℕ
  pub exported_at : Text
  pub rules : List ExportedRule

pub data ImportMode : Type 0 where
  merge replace : ImportMode

pub record ImportStats : Type 0 where
  pub imported : ℕ
  pub skipped : ℕ
  pub groups_created : ℕ

pub record ConnectionDecision : Type 0 where
  pub id : Option ℕ
  pub process_path : Text
  pub process_name : Option Text
  pub remote_addr : Text
  pub remote_port : ℕ
  pub decision : DecisionAction
  pub remember : Bool
  pub created_at : Option Text

pub data NotificationKind : Type 0 where
  blocked ask : NotificationKind

pub record NotificationItem : Type 0 where
  pub id : ℕ
  pub kind : NotificationKind
  pub timestamp : Text
  pub process_path : Option Text
  pub process_name : Option Text
  pub remote_addr : Text
  pub remote_port : ℕ
  pub protocol : Text
  pub direction : Text
  pub rule_id : Option ℕ

-- The derived `PartialEq`s.
unfoldable pub PortRange-discrete : Discrete PortRange
PortRange-discrete = hlevel ℕ_discrete

unfoldable pub NetworkZone-discrete : Discrete NetworkZone
NetworkZone-discrete = hlevel

unfoldable pub RuleAction-discrete : Discrete RuleAction
RuleAction-discrete = hlevel

unfoldable pub Direction-discrete : Discrete Direction
Direction-discrete = hlevel

unfoldable pub Protocol-discrete : Discrete Protocol
Protocol-discrete = hlevel

unfoldable pub EventAction-discrete : Discrete EventAction
EventAction-discrete = hlevel

unfoldable pub ConnectionKey-discrete : Discrete ConnectionKey
ConnectionKey-discrete = hlevel (Protocol-discrete, ℕ_discrete)

instance abbrev pub port_range_eq : Eq PortRange
unfolding PortRange-discrete
port_range_eq = record { dec = PortRange-discrete }

instance abbrev pub network_zone_eq : Eq NetworkZone
unfolding NetworkZone-discrete
network_zone_eq = record { dec = NetworkZone-discrete }

instance abbrev pub rule_action_eq : Eq RuleAction
unfolding RuleAction-discrete
rule_action_eq = record { dec = RuleAction-discrete }

instance abbrev pub direction_eq : Eq Direction
unfolding Direction-discrete
direction_eq = record { dec = Direction-discrete }

instance abbrev pub protocol_eq : Eq Protocol
unfolding Protocol-discrete
protocol_eq = record { dec = Protocol-discrete }

instance abbrev pub event_action_eq : Eq EventAction
unfolding EventAction-discrete
event_action_eq = record { dec = EventAction-discrete }

instance abbrev pub connection_key_eq : Eq ConnectionKey
unfolding ConnectionKey-discrete Protocol-discrete
connection_key_eq = record { dec = ConnectionKey-discrete }
