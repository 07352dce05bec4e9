-- ===== src/Camera/Tables.antt =====
-- drivers/camera/gc0328/src/gc0328.c: the tables of register values.
mod Start
mod RgbGamma
mod YGamma
mod Finish
mod Sizes
pub use Start.*
pub use RgbGamma.*
pub use YGamma.*
pub use Finish.*
pub use Sizes.*
