-- ===== src/Camera.antt =====
-- drivers/camera: the bus of the camera sensor, its register tables and its driver.
pub mod Bus
pub mod Tables
pub mod Gc0328
pub mod Size
pub mod Init
pub mod Scan
mod Tests
