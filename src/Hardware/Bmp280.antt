-- ===== src/Hardware/Bmp280.antt =====
-- src/hw/drivers/bmp280.py: the driver of the BMP280. A byte is a number; the clock is in nanoseconds.
-- The operations on floats are a parameter.
pub mod Calibration
pub mod Compensate
pub mod Options
pub mod Sensor
pub mod Raw
pub mod Wait
pub mod Session
pub mod Reading
pub mod Create
pub mod Enough
