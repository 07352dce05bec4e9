-- ===== src/Camera/Tables/YGamma.antt =====
-- drivers/camera/gc0328/src/gc0328.c: the alternatives of the Y gamma curve in
-- `sensor_default_regs`.
use kendryte_k210_base_proje.Prelude.{ℕ, List, [], ◌∷◌}

-- `#if (GC0328_Y_Gamma == GC0328_Y_Gamma_05)`
abbrev pub y_gamma_05 : List (ℕ × ℕ)
y_gamma_05 =
    (0xFE, 0x00)
    ∷ (0x63, 0x00)
    ∷ (0x64, 0x49)
    ∷ (0x65, 0x68)
    ∷ (0x66, 0x80)
    ∷ (0x67, 0x93)
    ∷ (0x68, 0xA5)
    ∷ (0x69, 0xB5)
    ∷ (0x6A, 0xC3)
    ∷ (0x6B, 0xD1)
    ∷ (0x6C, 0xDD)
    ∷ (0x6D, 0xE9)
    ∷ (0x6E, 0xF5)
    ∷ (0x6F, 0xFF)
    ∷ []

-- `#if (GC0328_Y_Gamma == GC0328_Y_Gamma_06)`
abbrev pub y_gamma_06 : List (ℕ × ℕ)
y_gamma_06 =
    (0xFE, 0x00)
    ∷ (0x63, 0x0)
    ∷ (0x64, 0x39)
    ∷ (0x65, 0x57)
    ∷ (0x66, 0x6F)
    ∷ (0x67, 0x84)
    ∷ (0x68, 0x97)
    ∷ (0x69, 0xA8)
    ∷ (0x6A, 0xB9)
    ∷ (0x6B, 0xC8)
    ∷ (0x6C, 0xD7)
    ∷ (0x6D, 0xE5)
    ∷ (0x6E, 0xF2)
    ∷ (0x6F, 0xFF)
    ∷ []

-- `#if (GC0328_Y_Gamma == GC0328_Y_Gamma_07)`
abbrev pub y_gamma_07 : List (ℕ × ℕ)
y_gamma_07 =
    (0xFE, 0x00)
    ∷ (0x63, 0x0)
    ∷ (0x64, 0x2C)
    ∷ (0x65, 0x49)
    ∷ (0x66, 0x61)
    ∷ (0x67, 0x76)
    ∷ (0x68, 0x8A)
    ∷ (0x69, 0x9D)
    ∷ (0x6A, 0xAF)
    ∷ (0x6B, 0xC0)
    ∷ (0x6C, 0xD1)
    ∷ (0x6D, 0xE1)
    ∷ (0x6E, 0xF0)
    ∷ (0x6F, 0xFF)
    ∷ []

-- `#if (GC0328_Y_Gamma == GC0328_Y_Gamma_08)`
abbrev pub y_gamma_08 : List (ℕ × ℕ)
y_gamma_08 =
    (0xFE, 0x00)
    ∷ (0x63, 0x0)
    ∷ (0x64, 0x23)
    ∷ (0x65, 0x3D)
    ∷ (0x66, 0x54)
    ∷ (0x67, 0x6A)
    ∷ (0x68, 0x7F)
    ∷ (0x69, 0x93)
    ∷ (0x6A, 0xA6)
    ∷ (0x6B, 0xB9)
    ∷ (0x6C, 0xCB)
    ∷ (0x6D, 0xDD)
    ∷ (0x6E, 0xEE)
    ∷ (0x6F, 0xFF)
    ∷ []

-- `#if (GC0328_Y_Gamma == GC0328_Y_Gamma_09)`
abbrev pub y_gamma_09 : List (ℕ × ℕ)
y_gamma_09 =
    (0xFE, 0x00)
    ∷ (0x63, 0x0)
    ∷ (0x64, 0x1B)
    ∷ (0x65, 0x33)
    ∷ (0x66, 0x49)
    ∷ (0x67, 0x5F)
    ∷ (0x68, 0x74)
    ∷ (0x69, 0x89)
    ∷ (0x6A, 0x9D)
    ∷ (0x6B, 0xB1)
    ∷ (0x6C, 0xC5)
    ∷ (0x6D, 0xD9)
    ∷ (0x6E, 0xEC)
    ∷ (0x6F, 0xFF)
    ∷ []

-- `#if (GC0328_Y_Gamma == GC0328_Y_Gamma_10)`
abbrev pub y_gamma_10 : List (ℕ × ℕ)
y_gamma_10 =
    (0xFE, 0x00)
    ∷ (0x63, 0x0)
    ∷ (0x64, 0x15)
    ∷ (0x65, 0x2A)
    ∷ (0x66, 0x40)
    ∷ (0x67, 0x55)
    ∷ (0x68, 0x6A)
    ∷ (0x69, 0x80)
    ∷ (0x6A, 0x95)
    ∷ (0x6B, 0xAA)
    ∷ (0x6C, 0xC0)
    ∷ (0x6D, 0xD5)
    ∷ (0x6E, 0xEA)
    ∷ (0x6F, 0xFF)
    ∷ []

-- `#if (GC0328_Y_Gamma == GC0328_Y_Gamma_default)`
abbrev pub y_gamma_default : List (ℕ × ℕ)
y_gamma_default =
    (0xFE, 0x00)
    ∷ (0x63, 0)
    ∷ (0x64, 0x10)
    ∷ (0x65, 0x1C)
    ∷ (0x66, 0x30)
    ∷ (0x67, 0x43)
    ∷ (0x68, 0x54)
    ∷ (0x69, 0x65)
    ∷ (0x6A, 0x75)
    ∷ (0x6B, 0x93)
    ∷ (0x6C, 0xB0)
    ∷ (0x6D, 0xCB)
    ∷ (0x6E, 0xE6)
    ∷ (0x6F, 0xFF)
    ∷ []
