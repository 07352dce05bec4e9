-- ===== src/Camera/Tables/Start.antt =====
-- drivers/camera/gc0328/src/gc0328.c: `sensor_default_regs` from its first entry to the gamma
-- curves.
use kendryte_k210_base_proje.Prelude.{ℕ, List, [], ◌∷◌}

-- the first part, up to the white balance
abbrev pub clock_regs : List (ℕ × ℕ)
clock_regs =
    (0xFE, 0x80)
    ∷ (0xFE, 0x80)
    ∷ (0xFC, 0x16)
    ∷ (0xFC, 0x16)
    ∷ (0xFC, 0x16)
    ∷ (0xFC, 0x16)
    ∷ (0xFE, 0x00)
    ∷ (0x4F, 0x00)
    ∷ (0x42, 0x00)
    ∷ (0x03, 0x00)
    ∷ (0x04, 0xC0)
    ∷ (0x77, 0x62)
    ∷ (0x78, 0x40)
    ∷ (0x79, 0x4D)
    ∷ (0x05, 0x00)
    ∷ (0x06, 0x80)
    ∷ (0x07, 0x00)
    ∷ (0x08, 0x10)
    ∷ (0xFE, 0x01)
    ∷ (0x29, 0x00)
    ∷ (0x2A, 0x96)
    ∷ (0x2B, 0x02)
    ∷ (0x2C, 0x00)
    ∷ (0x2D, 0x02)
    ∷ (0x2E, 0x00)
    ∷ (0x2F, 0x02)
    ∷ (0x30, 0x00)
    ∷ (0x31, 0x02)
    ∷ (0x32, 0x00)
    ∷ (0xFE, 0x00)
    ∷ (0xFE, 0x01)
    ∷ (0x4F, 0x00)
    ∷ (0x4C, 0x01)
    ∷ (0xFE, 0x00)
    ∷ (0xFE, 0x01)
    ∷ (0x51, 0x80)
    ∷ (0x52, 0x12)
    ∷ (0x53, 0x80)
    ∷ (0x54, 0x60)
    ∷ (0x55, 0x01)
    ∷ (0x56, 0x06)
    ∷ (0x5B, 0x02)
    ∷ (0x61, 0xDC)
    ∷ (0x62, 0xDC)
    ∷ (0x7C, 0x71)
    ∷ (0x7D, 0x00)
    ∷ (0x76, 0x00)
    ∷ (0x79, 0x20)
    ∷ (0x7B, 0x00)
    ∷ (0x70, 0xFF)
    ∷ (0x71, 0x00)
    ∷ (0x72, 0x10)
    ∷ (0x73, 0x40)
    ∷ (0x74, 0x40)
    ∷ (0x50, 0x00)
    ∷ (0xFE, 0x01)
    ∷ (0x4F, 0x00)
    ∷ (0x4C, 0x01)
    ∷ (0x4F, 0x00)
    ∷ (0x4F, 0x00)
    ∷ (0x4F, 0x00)
    ∷ (0x4D, 0x36)
    ∷ (0x4E, 0x02)
    ∷ (0x4E, 0x02)
    ∷ (0x4D, 0x44)
    ∷ (0x4E, 0x02)
    ∷ (0x4E, 0x02)
    ∷ (0x4E, 0x02)
    ∷ (0x4E, 0x02)
    ∷ (0x4D, 0x53)
    ∷ (0x4E, 0x08)
    ∷ (0x4E, 0x08)
    ∷ (0x4E, 0x02)
    ∷ (0x4D, 0x63)
    ∷ (0x4E, 0x08)
    ∷ (0x4E, 0x08)
    ∷ (0x4D, 0x73)
    ∷ (0x4E, 0x20)
    ∷ (0x4D, 0x83)
    ∷ (0x4E, 0x20)
    ∷ (0x4F, 0x01)
    ∷ (0x50, 0x88)
    ∷ (0xFE, 0x00)
    ∷ []

-- the second part, up to the gamma curves
abbrev pub colour_regs : List (ℕ × ℕ)
colour_regs =
    (0x27, 0x00)
    ∷ (0x2A, 0x40)
    ∷ (0x2B, 0x40)
    ∷ (0x2C, 0x40)
    ∷ (0x2D, 0x40)
    ∷ (0xFE, 0x00)
    ∷ (0x0D, 0x01)
    ∷ (0x0E, 0xE8)
    ∷ (0x0F, 0x02)
    ∷ (0x10, 0x88)
    ∷ (0x09, 0x00)
    ∷ (0x0A, 0x00)
    ∷ (0x0B, 0x00)
    ∷ (0x0C, 0x00)
    ∷ (0x16, 0x00)
    ∷ (0x17, 0x17)
    ∷ (0x18, 0x0E)
    ∷ (0x19, 0x06)
    ∷ (0x1B, 0x48)
    ∷ (0x1F, 0xC8)
    ∷ (0x20, 0x01)
    ∷ (0x21, 0x78)
    ∷ (0x22, 0xB0)
    ∷ (0x23, 0x04)
    ∷ (0x24, 0x11)
    ∷ (0x26, 0x00)
    ∷ (0x50, 0x01)
    ∷ (0x51, 0x00)
    ∷ (0x52, 0x00)
    ∷ (0x53, 0x00)
    ∷ (0x54, 0x00)
    ∷ (0x55, 0x00)
    ∷ (0x56, 0xF0)
    ∷ (0x57, 0x01)
    ∷ (0x58, 0x40)
    ∷ (0x59, 0x22)
    ∷ (0x5A, 0x03)
    ∷ (0x5B, 0x00)
    ∷ (0x5C, 0x00)
    ∷ (0x5D, 0x00)
    ∷ (0x5E, 0x00)
    ∷ (0x5F, 0x00)
    ∷ (0x60, 0x00)
    ∷ (0x61, 0x00)
    ∷ (0x62, 0x00)
    ∷ (0x70, 0x85)
    ∷ (0x40, 0x7F)
    ∷ (0x41, 0x26)
    ∷ (0x42, 0xFF)
    ∷ (0x45, 0x00)
    ∷ (0x44, 0x00)
    ∷ (0x46, 0x03)
    ∷ (0x4B, 0x01)
    ∷ (0x50, 0x01)
    ∷ (0x7E, 0x0A)
    ∷ (0x7F, 0x03)
    ∷ (0x80, 0x27)
    ∷ (0x81, 0x15)
    ∷ (0x82, 0x90)
    ∷ (0x83, 0x02)
    ∷ (0x84, 0x23)
    ∷ (0x90, 0x2C)
    ∷ (0x92, 0x02)
    ∷ (0x94, 0x02)
    ∷ (0x95, 0x35)
    ∷ (0xD1, 0x32)
    ∷ (0xD2, 0x32)
    ∷ (0xDD, 0x18)
    ∷ (0xDE, 0x32)
    ∷ (0xE4, 0x88)
    ∷ (0xE5, 0x40)
    ∷ (0xD7, 0x0E)
    ∷ []
