-- ===== src/Config.antt =====
-- src/config.py: the configuration as the rest of the program sees it, and how it is read.
pub mod Toml
pub mod Fields
pub mod Paths
pub mod Bus
pub mod Sensor
pub mod Collisions
pub mod Load
