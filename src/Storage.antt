-- ===== src/Storage.antt =====
-- src/storage: the database.
pub mod Samples
pub mod Database
pub mod Journal
pub mod Refinement
pub mod Storable
pub mod Sensors
pub mod Migration
