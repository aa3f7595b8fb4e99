-- ===== src/Lib.antt =====
-- The service of Ceasefire, a firewall for Windows: service/src of the repository.
--
-- The service keeps rules, chooses the one that decides a connection, hands rules to a kernel driver,
-- resolves the names of rules with domains through the DNS answers it sees, limits the bandwidth of
-- processes, and tracks connections. The parts and their files:
--
-- - Rule: service/src/rule. Rule/Validator and Rule/Domain are `validate_rule` and
--   `validate_domain` of validator.rs, Rule/Cidr its CIDR tests; Rule/Match is `matches_rule` of
--   manager.rs, Rule/Select `get_matching_rule`, Rule/Cover the tests by which a new rule is merged into
--   one that is there. Rule/Network is what an address condition means: membership in a network.
--   Rule/Manager is the rest of manager.rs, the changes of the rules: the database, the driver and the
--   engine of the domain rules are a record of operations on a world (`Backend`), and
--   Rule/Manager/Promises says what is relied on of them. Rule/Merge is the choice of a rule
--   that a new one is merged into. Rule/Import is import_export.rs, whose calls of the database are a
--   record of operations too, with what is relied on of them in Rule/Import/Promises. Rule/System is
--   system_rules.rs, and Rows the columns of a rule in service/src/database.rs.
-- - Dns: service/src/dns_cache.rs. Dns/Name is `parse_dns_name`, Dns/Response `parse_dns_response`,
--   Dns/Cache the cache. A read outside the packet, on which Rust panics, is `none`.
-- - Shadow: service/src/rule/domain_expander.rs. Shadow is the ledger `ShadowStore`, Shadow/Engine the
--   handlers of `DomainRuleEngine`, which take the driver, the database and the clock as a record of
--   operations on a world (`Ops`).
-- - Bandwidth: service/src/bandwidth. Bandwidth is the token bucket, Bandwidth/Limiter the limiter of
--   mod.rs, Bandwidth/Kernel the table of kernel_sync.rs, which takes the driver as a record (`Driver`).
-- - Connections: service/src/connection/tracker.rs.
-- - Driver: service/src/driver/converter.rs. Driver/Converter is `DriverRuleInput::from_rule`,
--   Driver/Received the events that come back, from their bytes to `to_network_event`, and Driver/Path
--   their paths.
-- - Event, Notification: the log buffer of service/src/event/buffer.rs, and service/src/notification.
--   Event/Processor is `process_event` of service/src/event/processor.rs, which hands an event to the
--   throttle, the tracker, the limiter, the decisions, the buffer, the history and the notifier;
--   Event/Dns is its `process_dns_event`.
-- - History: service/src/network_history/manager.rs, the snapshot of the traffic, the end of a connection
--   and the statistics. Decisions: `get_decision` of service/src/connection_decision/manager.rs. Geo: the
--   cache of service/src/geoip/service.rs.
-- - Models, Errors: the data of service/src/models.rs and service/src/error.rs; Text and Net are the
--   operations of Rust's `str` and `IpAddr` that these use.
--
-- A handler is a function from the state to the state and an answer; locks, which each operation holds
-- for as long as it reads or writes, are left out, and logging too. A `HashMap` is a list of keys and
-- values (Prelude/Table). A number of a fixed width is a number, with its wrap-around, saturation or
-- range written where the code has one. Lower-casing of Unicode, the floating-point product in the token
-- bucket, the device names of Windows, the liveness of a process and the texts that are formatted for
-- users are parameters.
--
-- Fuel: the loop over the labels of a DNS name has more steps of fuel than the octets of the packet and
-- its 50 jumps allow, and the loop over the labels of a question has one step for each octet, so
-- neither runs out.
--
-- Not modelled: SQL, which the clients of the database take as calls; the Windows Filtering Platform,
-- pipes and the service's lifecycle, and the loops that wait for the driver; the groups that
-- are installed at the start, the lookups of locations, which read another project's data, and the
-- queries that pass a call on; the kernel driver and the GUI are in other languages or around the service.
mod Prelude
pub mod Text
pub mod Net
pub mod Errors
pub mod Models
pub mod Rule
pub mod Dns
pub mod Shadow
pub mod Bandwidth
pub mod Connections
pub mod Driver
pub mod Event
pub mod Notification
pub mod History
pub mod Decisions
pub mod Geo
pub mod Rows
mod Tests
