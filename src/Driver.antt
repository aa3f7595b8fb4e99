-- ===== src/Driver.antt =====
-- The boundary of the driver: service/src/driver.
pub mod Converter
pub mod Path
pub mod Received
