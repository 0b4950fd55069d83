-- ===== src/Fastboot.antt =====
-- The meaning of the device's variables and images (src/fastboot).
pub mod Variable
pub mod Slots
