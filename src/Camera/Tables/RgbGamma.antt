-- ===== src/Camera/Tables/RgbGamma.antt =====
-- drivers/camera/gc0328/src/gc0328.c: the alternatives of the RGB gamma curve in
-- `sensor_default_regs`.
use kendryte_k210_base_proje.Prelude.{ℕ, List, [], ◌∷◌}

-- `#if (GC0328_RGB_Gamma == GC0328_RGB_Gamma_m0)`
abbrev pub rgb_gamma_m0 : List (ℕ × ℕ)
rgb_gamma_m0 =
    (0xFE, 0x00)
    ∷ (0xBF, 0x0E)
    ∷ (0xC0, 0x1C)
    ∷ (0xC1, 0x34)
    ∷ (0xC2, 0x48)
    ∷ (0xC3, 0x5A)
    ∷ (0xC4, 0x6B)
    ∷ (0xC5, 0x7B)
    ∷ (0xC6, 0x95)
    ∷ (0xC7, 0xAB)
    ∷ (0xC8, 0xBF)
    ∷ (0xC9, 0xCE)
    ∷ (0xCA, 0xD9)
    ∷ (0xCB, 0xE4)
    ∷ (0xCC, 0xEC)
    ∷ (0xCD, 0xF7)
    ∷ (0xCE, 0xFD)
    ∷ (0xCF, 0xFF)
    ∷ []

-- `#if (GC0328_RGB_Gamma == GC0328_RGB_Gamma_m1)`
abbrev pub rgb_gamma_m1 : List (ℕ × ℕ)
rgb_gamma_m1 =
    (0xFE, 0x00)
    ∷ (0xBF, 0x06)
    ∷ (0xC0, 0x12)
    ∷ (0xC1, 0x22)
    ∷ (0xC2, 0x35)
    ∷ (0xC3, 0x4B)
    ∷ (0xC4, 0x5F)
    ∷ (0xC5, 0x72)
    ∷ (0xC6, 0x8D)
    ∷ (0xC7, 0xA4)
    ∷ (0xC8, 0xB8)
    ∷ (0xC9, 0xC8)
    ∷ (0xCA, 0xD4)
    ∷ (0xCB, 0xDE)
    ∷ (0xCC, 0xE6)
    ∷ (0xCD, 0xF1)
    ∷ (0xCE, 0xF8)
    ∷ (0xCF, 0xFD)
    ∷ []

-- `#if (GC0328_RGB_Gamma == GC0328_RGB_Gamma_m2)`
abbrev pub rgb_gamma_m2 : List (ℕ × ℕ)
rgb_gamma_m2 =
    (0xFE, 0x00)
    ∷ (0xBF, 0x08)
    ∷ (0xC0, 0x0F)
    ∷ (0xC1, 0x21)
    ∷ (0xC2, 0x32)
    ∷ (0xC3, 0x43)
    ∷ (0xC4, 0x50)
    ∷ (0xC5, 0x5E)
    ∷ (0xC6, 0x78)
    ∷ (0xC7, 0x90)
    ∷ (0xC8, 0xA6)
    ∷ (0xC9, 0xB9)
    ∷ (0xCA, 0xC9)
    ∷ (0xCB, 0xD6)
    ∷ (0xCC, 0xE0)
    ∷ (0xCD, 0xEE)
    ∷ (0xCE, 0xF8)
    ∷ (0xCF, 0xFF)
    ∷ []

-- `#if (GC0328_RGB_Gamma == GC0328_RGB_Gamma_m3)`
abbrev pub rgb_gamma_m3 : List (ℕ × ℕ)
rgb_gamma_m3 =
    (0xFE, 0x00)
    ∷ (0xBF, 0x0B)
    ∷ (0xC0, 0x16)
    ∷ (0xC1, 0x29)
    ∷ (0xC2, 0x3C)
    ∷ (0xC3, 0x4F)
    ∷ (0xC4, 0x5F)
    ∷ (0xC5, 0x6F)
    ∷ (0xC6, 0x8A)
    ∷ (0xC7, 0x9F)
    ∷ (0xC8, 0xB4)
    ∷ (0xC9, 0xC6)
    ∷ (0xCA, 0xD3)
    ∷ (0xCB, 0xDD)
    ∷ (0xCC, 0xE5)
    ∷ (0xCD, 0xF1)
    ∷ (0xCE, 0xFA)
    ∷ (0xCF, 0xFF)
    ∷ []

-- `#if (GC0328_RGB_Gamma == GC0328_RGB_Gamma_m4)`
abbrev pub rgb_gamma_m4 : List (ℕ × ℕ)
rgb_gamma_m4 =
    (0xFE, 0x00)
    ∷ (0xBF, 0x0E)
    ∷ (0xC0, 0x1C)
    ∷ (0xC1, 0x34)
    ∷ (0xC2, 0x48)
    ∷ (0xC3, 0x5A)
    ∷ (0xC4, 0x6B)
    ∷ (0xC5, 0x7B)
    ∷ (0xC6, 0x95)
    ∷ (0xC7, 0xAB)
    ∷ (0xC8, 0xBF)
    ∷ (0xC9, 0xCE)
    ∷ (0xCA, 0xD9)
    ∷ (0xCB, 0xE4)
    ∷ (0xCC, 0xEC)
    ∷ (0xCD, 0xF7)
    ∷ (0xCE, 0xFD)
    ∷ (0xCF, 0xFF)
    ∷ []

-- `#if (GC0328_RGB_Gamma == GC0328_RGB_Gamma_m5)`
abbrev pub rgb_gamma_m5 : List (ℕ × ℕ)
rgb_gamma_m5 =
    (0xFE, 0x00)
    ∷ (0xBF, 0x10)
    ∷ (0xC0, 0x20)
    ∷ (0xC1, 0x38)
    ∷ (0xC2, 0x4E)
    ∷ (0xC3, 0x63)
    ∷ (0xC4, 0x76)
    ∷ (0xC5, 0x87)
    ∷ (0xC6, 0xA2)
    ∷ (0xC7, 0xB8)
    ∷ (0xC8, 0xCA)
    ∷ (0xC9, 0xD8)
    ∷ (0xCA, 0xE3)
    ∷ (0xCB, 0xEB)
    ∷ (0xCC, 0xF0)
    ∷ (0xCD, 0xF8)
    ∷ (0xCE, 0xFD)
    ∷ (0xCF, 0xFF)
    ∷ []

-- `#if (GC0328_RGB_Gamma == GC0328_RGB_Gamma_m6)`
abbrev pub rgb_gamma_m6 : List (ℕ × ℕ)
rgb_gamma_m6 =
    (0xFE, 0x00)
    ∷ (0xBF, 0x14)
    ∷ (0xC0, 0x28)
    ∷ (0xC1, 0x44)
    ∷ (0xC2, 0x5D)
    ∷ (0xC3, 0x72)
    ∷ (0xC4, 0x86)
    ∷ (0xC5, 0x95)
    ∷ (0xC6, 0xB1)
    ∷ (0xC7, 0xC6)
    ∷ (0xC8, 0xD5)
    ∷ (0xC9, 0xE1)
    ∷ (0xCA, 0xEA)
    ∷ (0xCB, 0xF1)
    ∷ (0xCC, 0xF5)
    ∷ (0xCD, 0xFB)
    ∷ (0xCE, 0xFE)
    ∷ (0xCF, 0xFF)
    ∷ []

-- `#if (GC0328_RGB_Gamma == GC0328_RGB_Gamma_night)`
abbrev pub rgb_gamma_night : List (ℕ × ℕ)
rgb_gamma_night =
    (0xFE, 0x00)
    ∷ (0xBF, 0x0B)
    ∷ (0xC0, 0x16)
    ∷ (0xC1, 0x29)
    ∷ (0xC2, 0x3C)
    ∷ (0xC3, 0x4F)
    ∷ (0xC4, 0x5F)
    ∷ (0xC5, 0x6F)
    ∷ (0xC6, 0x8A)
    ∷ (0xC7, 0x9F)
    ∷ (0xC8, 0xB4)
    ∷ (0xC9, 0xC6)
    ∷ (0xCA, 0xD3)
    ∷ (0xCB, 0xDD)
    ∷ (0xCC, 0xE5)
    ∷ (0xCD, 0xF1)
    ∷ (0xCE, 0xFA)
    ∷ (0xCF, 0xFF)
    ∷ []

-- `#if (GC0328_RGB_Gamma == GC0328_RGB_Gamma_cap)`
abbrev pub rgb_gamma_cap : List (ℕ × ℕ)
rgb_gamma_cap =
    (0xFE, 0x00)
    ∷ (0xBF, 0x10)
    ∷ (0xC0, 0x1C)
    ∷ (0xC1, 0x33)
    ∷ (0xC2, 0x48)
    ∷ (0xC3, 0x5A)
    ∷ (0xC4, 0x6B)
    ∷ (0xC5, 0x7B)
    ∷ (0xC6, 0x95)
    ∷ (0xC7, 0xAB)
    ∷ (0xC8, 0xBF)
    ∷ (0xC9, 0xCD)
    ∷ (0xCA, 0xD9)
    ∷ (0xCB, 0xE3)
    ∷ (0xCC, 0xEB)
    ∷ (0xCD, 0xF7)
    ∷ (0xCE, 0xFD)
    ∷ (0xCF, 0xFF)
    ∷ []

-- `#if (GC0328_RGB_Gamma == GC0328_RGB_Gamma_test)`
abbrev pub rgb_gamma_test : List (ℕ × ℕ)
rgb_gamma_test =
    (0xFE, 0x00)
    ∷ (0xBF, 0x00)
    ∷ (0xC0, 0x01)
    ∷ (0xC1, 0x02)
    ∷ (0xC2, 0x03)
    ∷ (0xC3, 0x04)
    ∷ (0xC4, 0x05)
    ∷ (0xC5, 0x06)
    ∷ (0xC6, 0x07)
    ∷ (0xC7, 0x08)
    ∷ (0xC8, 0x09)
    ∷ (0xC9, 0x0A)
    ∷ (0xCA, 0x0B)
    ∷ (0xCB, 0x0C)
    ∷ (0xCC, 0x0D)
    ∷ (0xCD, 0x0E)
    ∷ (0xCE, 0x0F)
    ∷ (0xCF, 0xFF)
    ∷ []
