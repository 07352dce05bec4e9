-- ===== src/Camera/Tables/Sizes.antt =====
-- drivers/camera/gc0328/src/gc0328.c: the registers of the image sizes, and the sizes.
use kendryte_k210_base_proje.Prelude.{ℕ, List, [], ◌∷◌}

-- `qqvga_config`
abbrev pub qqvga_config : List (ℕ × ℕ)
qqvga_config =
    (0xFE, 0x00)
    ∷ (0x09, 0x00)
    ∷ (0x0A, 0x00)
    ∷ (0x0B, 0x00)
    ∷ (0x0C, 0x00)
    ∷ (0x0D, 0x01)
    ∷ (0x0E, 0xE8)
    ∷ (0x0F, 0x02)
    ∷ (0x10, 0x88)
    ∷ (0x50, 0x01)
    ∷ (0x51, 0x00)
    ∷ (0x52, 0x00)
    ∷ (0x53, 0x00)
    ∷ (0x54, 0x00)
    ∷ (0x55, 0x00)
    ∷ (0x56, 0x78)
    ∷ (0x57, 0x00)
    ∷ (0x58, 0xA0)
    ∷ (0x59, 0x44)
    ∷ (0x5A, 0x03)
    ∷ (0x5B, 0x00)
    ∷ (0x5C, 0x00)
    ∷ (0x5D, 0x00)
    ∷ (0x5E, 0x00)
    ∷ (0x5F, 0x00)
    ∷ (0x60, 0x00)
    ∷ (0x61, 0x00)
    ∷ (0x62, 0x00)
    ∷ (0x00, 0x00)
    ∷ []

-- `qvga_config`
abbrev pub qvga_config : List (ℕ × ℕ)
qvga_config =
    (0xFE, 0x00)
    ∷ (0x09, 0x00)
    ∷ (0x0A, 0x00)
    ∷ (0x0B, 0x00)
    ∷ (0x0C, 0x00)
    ∷ (0x0D, 0x01)
    ∷ (0x0E, 0xE8)
    ∷ (0x0F, 0x02)
    ∷ (0x10, 0x88)
    ∷ (0x50, 0x01)
    ∷ (0x59, 0x22)
    ∷ (0x5A, 0x00)
    ∷ (0x5B, 0x00)
    ∷ (0x5C, 0x00)
    ∷ (0x5D, 0x00)
    ∷ (0x5E, 0x00)
    ∷ (0x5F, 0x00)
    ∷ (0x60, 0x00)
    ∷ (0x61, 0x00)
    ∷ (0x62, 0x00)
    ∷ (0x00, 0x00)
    ∷ []

-- `vga_config`
abbrev pub vga_config : List (ℕ × ℕ)
vga_config = (0xFE, 0x00) ∷ (0x50, 0x00) ∷ (0x00, 0x00) ∷ []

-- `resolution`: width and height
abbrev pub resolution : List (ℕ × ℕ)
resolution =
    (0, 0)
    ∷ (88, 72)
    ∷ (176, 144)
    ∷ (352, 288)
    ∷ (88, 60)
    ∷ (176, 120)
    ∷ (352, 240)
    ∷ (40, 30)
    ∷ (80, 60)
    ∷ (160, 120)
    ∷ (320, 240)
    ∷ (640, 480)
    ∷ (60, 40)
    ∷ (120, 80)
    ∷ (240, 160)
    ∷ (64, 32)
    ∷ (64, 64)
    ∷ (128, 64)
    ∷ (128, 128)
    ∷ (240, 240)
    ∷ (224, 224)
    ∷ (128, 160)
    ∷ (720, 480)
    ∷ (752, 480)
    ∷ (800, 600)
    ∷ (1280, 1024)
    ∷ (1600, 1200)
    ∷ []
