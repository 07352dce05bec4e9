-- ===== src/Camera/Tables/Finish.antt =====
-- drivers/camera/gc0328/src/gc0328.c: `sensor_default_regs` behind the gamma curves.
use kendryte_k210_base_proje.Prelude.{ℕ, List, [], ◌∷◌}

-- edge, exposure and the windows of the exposure control
abbrev pub exposure_regs : List (ℕ × ℕ)
exposure_regs =
    (0xFE, 0x01)
    ∷ (0x18, 0x02)
    ∷ (0xFE, 0x00)
    ∷ (0x98, 0x00)
    ∷ (0x9B, 0x20)
    ∷ (0x9C, 0x80)
    ∷ (0xA4, 0x10)
    ∷ (0xA8, 0xB0)
    ∷ (0xAA, 0x40)
    ∷ (0xA2, 0x23)
    ∷ (0xAD, 0x01)
    ∷ (0xFE, 0x01)
    ∷ (0x9C, 0x02)
    ∷ (0x08, 0xA0)
    ∷ (0x09, 0xE8)
    ∷ (0x10, 0x00)
    ∷ (0x11, 0x11)
    ∷ (0x12, 0x10)
    ∷ (0x13, 0x80)
    ∷ (0x15, 0xFC)
    ∷ (0x18, 0x03)
    ∷ (0x21, 0xC0)
    ∷ (0x22, 0x60)
    ∷ (0x23, 0x30)
    ∷ (0x25, 0x00)
    ∷ (0x24, 0x14)
    ∷ (0xFE, 0x01)
    ∷ (0xC0, 0x10)
    ∷ (0xC1, 0x0C)
    ∷ (0xC2, 0x0A)
    ∷ (0xC6, 0x0E)
    ∷ (0xC7, 0x0B)
    ∷ (0xC8, 0x0A)
    ∷ (0xBA, 0x26)
    ∷ (0xBB, 0x1C)
    ∷ (0xBC, 0x1D)
    ∷ (0xB4, 0x23)
    ∷ (0xB5, 0x1C)
    ∷ (0xB6, 0x1A)
    ∷ (0xC3, 0x00)
    ∷ (0xC4, 0x00)
    ∷ (0xC5, 0x00)
    ∷ (0xC9, 0x00)
    ∷ (0xCA, 0x00)
    ∷ (0xCB, 0x00)
    ∷ (0xBD, 0x00)
    ∷ (0xBE, 0x00)
    ∷ (0xBF, 0x00)
    ∷ (0xB7, 0x07)
    ∷ (0xB8, 0x05)
    ∷ (0xB9, 0x05)
    ∷ []

-- the rest, with the entry that ends the table
abbrev pub output_regs : List (ℕ × ℕ)
output_regs =
    (0xA8, 0x07)
    ∷ (0xA9, 0x06)
    ∷ (0xAA, 0x00)
    ∷ (0xAB, 0x04)
    ∷ (0xAC, 0x00)
    ∷ (0xAD, 0x02)
    ∷ (0xAE, 0x0D)
    ∷ (0xAF, 0x05)
    ∷ (0xB0, 0x00)
    ∷ (0xB1, 0x07)
    ∷ (0xB2, 0x03)
    ∷ (0xB3, 0x00)
    ∷ (0xA4, 0x00)
    ∷ (0xA5, 0x00)
    ∷ (0xA6, 0x00)
    ∷ (0xA7, 0x00)
    ∷ (0xA1, 0x3C)
    ∷ (0xA2, 0x50)
    ∷ (0xFE, 0x00)
    ∷ (0xB1, 0x04)
    ∷ (0xB2, 0xFD)
    ∷ (0xB3, 0xFC)
    ∷ (0xB4, 0xF0)
    ∷ (0xB5, 0x05)
    ∷ (0xB6, 0xF0)
    ∷ (0xFE, 0x00)
    ∷ (0x27, 0xF7)
    ∷ (0x28, 0x7F)
    ∷ (0x29, 0x20)
    ∷ (0x33, 0x20)
    ∷ (0x34, 0x20)
    ∷ (0x35, 0x20)
    ∷ (0x36, 0x20)
    ∷ (0x32, 0x08)
    ∷ (0x47, 0x00)
    ∷ (0x48, 0x00)
    ∷ (0xFE, 0x01)
    ∷ (0x79, 0x00)
    ∷ (0x7D, 0x00)
    ∷ (0x50, 0x88)
    ∷ (0x5B, 0x0C)
    ∷ (0x76, 0x8F)
    ∷ (0x80, 0x70)
    ∷ (0x81, 0x70)
    ∷ (0x82, 0xB0)
    ∷ (0x70, 0xFF)
    ∷ (0x71, 0x00)
    ∷ (0x72, 0x28)
    ∷ (0x73, 0x0B)
    ∷ (0x74, 0x0B)
    ∷ (0xFE, 0x00)
    ∷ (0x70, 0x45)
    ∷ (0x4F, 0x01)
    ∷ (0xF1, 0x07)
    ∷ (0xF2, 0x01)
    ∷ (0x00, 0x00)
    ∷ []
