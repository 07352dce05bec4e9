-- ===== src/Camera/Gc0328.antt =====
-- drivers/camera/gc0328/src/gc0328.c and gc0328.h: the driver of the sensor. The functions that
-- return an int return 0, except where they are modelled with their return code.
use kendryte_k210_base_proje.Prelude.{
  ℕ, ◌&&◌, List, [], ◌∷◌, ◌++◌, leb, ◌==◌, if◌then◌else◌, u16, Option, none, some, get_elem?,
}
use kendryte_k210_base_proje.Camera.Bus.{
  Sdk, M, pure, ◌>>=◌, ◌>>◌, call, ask, minus_one, cambus_writeb, cambus_scan_gc0328,
}
use kendryte_k210_base_proje.Camera.Tables.{
  clock_regs, colour_regs, rgb_gamma_m0, rgb_gamma_m1, rgb_gamma_m2, rgb_gamma_m3, rgb_gamma_m4,
  rgb_gamma_m5, rgb_gamma_m6, rgb_gamma_night, rgb_gamma_cap, rgb_gamma_test, y_gamma_05,
  y_gamma_06, y_gamma_07, y_gamma_08, y_gamma_09, y_gamma_10, y_gamma_default, exposure_regs,
  output_regs, qqvga_config, qvga_config, vga_config, resolution,
}

-- the two anonymous enums
pub data RgbGamma : Type 0 where
  m0 m1 m2 m3 m4 m5 m6 night cap test : RgbGamma

pub data YGamma : Type 0 where
  default g10 g09 g08 g07 g06 g05 : YGamma

-- What an `#if` takes for these names: none of them is a macro, and the preprocessor reads every
-- name that is not one as 0.
abbrev pub if_value : {A : Type 0} → A → ℕ
if_value a = 0

-- `#if (GC0328_RGB_Gamma == …) … #endif` with GC0328_RGB_Gamma defined as `selected`
unfoldable pub rgb_gamma_regs : RgbGamma → List (ℕ × ℕ)
rgb_gamma_regs selected =
    let is = λ (g : RgbGamma). if_value selected == if_value g in
    if is m0
    then rgb_gamma_m0
    else if is m1
    then rgb_gamma_m1
    else if is m2
    then rgb_gamma_m2
    else if is m3
    then rgb_gamma_m3
    else if is m4
    then rgb_gamma_m4
    else if is m5
    then rgb_gamma_m5
    else if is m6
    then rgb_gamma_m6
    else if is night
    then rgb_gamma_night
    else if is cap
    then rgb_gamma_cap
    else if is test
    then rgb_gamma_test
    else []

-- `#if (GC0328_Y_Gamma == …) … #endif`
unfoldable pub y_gamma_regs : YGamma → List (ℕ × ℕ)
y_gamma_regs selected =
    let is = λ (g : YGamma). if_value selected == if_value g in
    if is g05
    then y_gamma_05
    else if is g06
    then y_gamma_06
    else if is g07
    then y_gamma_07
    else if is g08
    then y_gamma_08
    else if is g09
    then y_gamma_09
    else if is g10
    then y_gamma_10
    else if is default
    then y_gamma_default
    else []

-- `sensor_default_regs` for the values of the two macros
unfoldable pub default_regs : RgbGamma → YGamma → List (ℕ × ℕ)
unfolding rgb_gamma_regs y_gamma_regs
default_regs rgb y =
    clock_regs
    ++ colour_regs
    ++ rgb_gamma_regs rgb
    ++ y_gamma_regs y
    ++ exposure_regs
    ++ output_regs

unfoldable pub sensor_default_regs : List (ℕ × ℕ)
unfolding default_regs
sensor_default_regs = default_regs test default

-- `framesize_t`: the number of the constant, in the order of `resolution`
abbrev pub framesize_qqvga : ℕ
framesize_qqvga = 9

module _ {W : Type 0} (sdk : Sdk W) where
  -- `while (regs[i][0]) { … }`; behind the end of the table C does not say what is read, and here
  -- the loop ends
  unfoldable pub write_config : List (ℕ × ℕ) → M W (Unit {0})
  write_config [] = pure tt
  write_config ((reg, value) ∷ regs) =
      let go = (do cambus_writeb sdk 0x21 reg value; write_config regs) in
      if reg == 0 then pure tt else go

  -- `gc0328_set_framesize` for a size of `w` by `h`
  unfoldable pub set_size : ℕ → ℕ × ℕ → M W ℕ
  unfolding write_config
  set_size framesize (width, height) =
      let w = u16 width in
      let h = u16 height in
      let regs =
        if framesize == framesize_qqvga
        then qqvga_config
        else if leb w 320 && leb h 240
        then qvga_config
        else vga_config in
      (do write_config regs; call (sdk.msleep 30); call (sdk.dvp_set_image_size w h); pure 0)

  -- `gc0328_set_framesize`; a number outside the table is the fault `none`
  unfoldable pub set_framesize : ℕ → Option (M W ℕ)
  unfolding set_size
  set_framesize framesize = elim (get_elem? resolution framesize) [
    | none ↦ none
    | some size ↦ some (set_size framesize size)
  ]

  -- `gc0328_read_id`
  unfoldable pub read_id : M W ℕ
  read_id = do
    call (sdk.dvp_sccb_send_data 0x21 0xFE 0x00)
    id ← ask (sdk.dvp_sccb_receive_data 0x21 0xF0)
    pure (if id == 0x9D then id else 0)

  -- the `for` loop of `gc0328_init` over the table
  unfoldable pub init_regs : List (ℕ × ℕ) → M W (Unit {0})
  init_regs [] = pure tt
  init_regs ((reg, value) ∷ regs) =
      let one =
        call (if reg == 0xFF then sdk.msleep value else sdk.dvp_sccb_send_data 0x21 reg value) in
      let go = (do one; init_regs regs) in if reg == 0 then pure tt else go

  -- `gc0328_init` behind the call of `cambus_scan_gc0328`
  unfoldable pub configure : ℕ → M W ℕ
  configure id =
      let go = (do
        call (sdk.dvp_sccb_send_data 0x21 0xFE 0x01)
        init_regs sensor_default_regs
        pure 0) in
      if id == 0 then pure minus_one else go

  -- `gc0328_init`
  unfoldable pub init : M W ℕ
  unfolding cambus_scan_gc0328
  init = do id ← cambus_scan_gc0328 sdk; configure id

  -- the `for` loop of `gc0328_reset` over the table
  unfoldable pub reset_regs : List (ℕ × ℕ) → M W (Unit {0})
  reset_regs [] = pure tt
  reset_regs ((reg, value) ∷ regs) =
      let one =
        if reg == 0xFF
        then call (sdk.msleep value)
        else (cambus_writeb sdk 0x21 reg value >> pure tt) in
      let go = (do one; reset_regs regs) in if reg == 0 then pure tt else go

  -- `gc0328_reset`
  unfoldable pub reset : M W ℕ
  reset = do cambus_writeb sdk 0x21 0xFE 0x01; reset_regs sensor_default_regs; pure 0
