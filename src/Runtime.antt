-- ===== src/Runtime.antt =====
-- src/runtime: the threads of the collector and what they share.
pub mod Status
pub mod Queue
pub mod Store
pub mod Writer
pub mod Report
pub mod Worker
