-- ===== src/Hardware.antt =====
-- src/hw: sensor drivers and bus transports.
pub mod Driver
pub mod Registry
pub mod Mock
pub mod Ports
pub mod Bmp280
