-- ===== src/Collector.antt =====
-- src/collector.py: what the collector starts with, the scheduler of the reads, the shutdown of the
-- threads, and the threads together.
pub mod Start
pub mod Schedule
pub mod Shutdown
pub mod Threads
