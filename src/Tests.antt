-- ===== src/Tests.antt =====
-- Runs of the model on small inputs, and the theorems at inputs that meet their hypotheses.
mod Writer
mod Status
mod Worker
mod Collector
mod Storage
mod Config
mod Hardware
mod Ports
mod Bmp280
mod Commands
mod Database
mod Sensors
mod Migration
mod Legacy
mod Start
mod Threads
mod Storable
mod Report
