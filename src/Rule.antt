-- ===== src/Rule.antt =====
-- service/src/rule: validation, matching and coverage of firewall rules.
pub mod Cidr
pub mod Domain
pub mod Validator
pub mod Cover
pub mod Match
pub mod Select
pub mod Network
pub mod Merge
pub mod Manager
pub mod Import
pub mod System
