-- ===== src/Camera/Init.antt =====
-- drivers/camera/gc0328/src/gc0328.c: gc0328_init and gc0328_reset.
use kendryte_k210_base_proje.Prelude.{
  ℕ, ◌≡◌, refl, ap, ◌∙◌, Bool, true, false, not, ◌&&◌, List, [], ◌∷◌, ◌==◌, if◌then◌else◌,
  ne→==_false, arith, ℕ_discrete,
}
use kendryte_k210_base_proje.Camera.Bus.{Sdk, Cambus, on_sccb, minus_one, cambus_writeb}
use kendryte_k210_base_proje.Camera.Gc0328.{
  RgbGamma, YGamma, default_regs, sensor_default_regs, init_regs, configure, init, reset_regs,
  reset,
}

abbrev pub drop_last : List (ℕ × ℕ) → List (ℕ × ℕ)
drop_last [] = []
drop_last (p ∷ []) = []
drop_last (p ∷ q ∷ ps) = p ∷ drop_last (q ∷ ps)

-- a table whose only entry for register 0 is its last, and with no pause in it
abbrev plain : List (ℕ × ℕ) → Bool
plain [] = false
plain ((reg, v) ∷ []) = reg == 0
plain ((reg, v) ∷ q ∷ ps) = not (reg == 0) && (not (reg == 0xFF) && plain (q ∷ ps))

and_true : (a b c : Bool) → (not a && (not b && c)) ≡ true → (a ≡ false) × (b ≡ false) × (c ≡ true)
and_true false false true h = (refl, refl, refl)
and_true true b c h = ground (arith, h)
and_true false true c h = ground (arith, h)
and_true false false false h = ground (arith, h)

table-plain : plain sensor_default_regs ≡ true
unfolding sensor_default_regs
table-plain = refl

module _ {W : Type 0} (sdk : Sdk W) where
  -- writes sent over SCCB one after the other
  abbrev pub sends : List (ℕ × ℕ) → W → W
  sends [] w = w
  sends ((reg, v) ∷ regs) w = sends regs (sdk.dvp_sccb_send_data 0x21 reg v w)

  -- the same with a pause behind each write
  abbrev pub sends_slowly : ℕ → List (ℕ × ℕ) → W → W
  sends_slowly ms [] w = w
  sends_slowly ms ((reg, v) ∷ regs) w =
      sends_slowly ms regs (sdk.msleep ms (sdk.dvp_sccb_send_data 0x21 reg v w))

  init_regs_lem :
      (regs : List (ℕ × ℕ)) (delay width : ℕ) (w : W)
      → plain regs ≡ true
      → init_regs sdk regs (on_sccb delay width w)
        ≡ (tt, on_sccb delay width (sends (drop_last regs) w))
  unfolding init_regs
  init_regs_lem [] delay width w h = refl
  init_regs_lem ((reg, v) ∷ []) delay width w h = rw (h)
  init_regs_lem ((reg, v) ∷ q ∷ ps) delay width w h =
      let (nonzero, no_pause, rest) = and_true (reg == 0) (reg == 0xFF) (plain (q ∷ ps)) h in
      rw (nonzero, no_pause)
        (init_regs_lem (q ∷ ps) delay width (sdk.dvp_sccb_send_data 0x21 reg v w) rest)

  reset_regs_lem :
      (regs : List (ℕ × ℕ)) (delay width : ℕ) (w : W)
      → plain regs ≡ true
      → reset_regs sdk regs (on_sccb delay width w)
        ≡ (tt, on_sccb delay width (sends_slowly delay (drop_last regs) w))
  unfolding reset_regs cambus_writeb
  reset_regs_lem [] delay width w h = refl
  reset_regs_lem ((reg, v) ∷ []) delay width w h = rw (h)
  reset_regs_lem ((reg, v) ∷ q ∷ ps) delay width w h =
      let (nonzero, no_pause, rest) = and_true (reg == 0) (reg == 0xFF) (plain (q ∷ ps)) h in
      rw (nonzero, no_pause)
        (reset_regs_lem (q ∷ ps) delay width
          (sdk.msleep delay (sdk.dvp_sccb_send_data 0x21 reg v w)) rest)

  configure_lem :
      (delay id : ℕ) (asked : W)
      → configure sdk (if id == 0x9D then id else 0) (on_sccb delay 8 asked) ≡ (
          if id == 0x9D
          then (0, on_sccb delay 8 (sends ((0xFE, 0x01) ∷ drop_last sensor_default_regs) asked))
          else (minus_one, on_sccb delay 8 asked))
  unfolding configure
  configure_lem delay id asked = elim (ℕ_discrete id 0x9D) [
    | yes e ↦ rw e (
        ap (λ (z : Unit × Cambus W). (0, z.1))
          (init_regs_lem sensor_default_regs delay 8 (sdk.dvp_sccb_send_data 0x21 0xFE 0x01 asked)
            table-plain))
    | no ne ↦ rw (ne→==_false id 0x9D ne)
  ]

-- `sensor_default_regs` is the same table for all values of GC0328_RGB_Gamma and GC0328_Y_Gamma.
default_regs-same :
    (rgb rgb' : RgbGamma) (y y' : YGamma) → default_regs rgb y ≡ default_regs rgb' y'
unfolding default_regs
default_regs-same rgb rgb' y y' = refl

-- `gc0328_init` with the sensor on SCCB: it asks for the id in register 0xF0 of page 0. If that is
-- 0x9D, it selects page 1, sends every entry of `sensor_default_regs` but the last in order, and
-- returns 0; if it is another value, it does nothing else and returns -1. The register width is 8
-- after it.
init_lem :
    {W : Type 0} (sdk : Sdk W) (delay width id : ℕ) (world asked : W)
    → sdk.dvp_sccb_receive_data 0x21 0xF0 (sdk.dvp_sccb_send_data 0x21 0xFE 0x00 world)
      ≡ (id, asked)
    → init sdk (on_sccb delay width world) ≡ (
        if id == 0x9D
        then (0, on_sccb delay 8 (sends sdk ((0xFE, 0x01) ∷ drop_last sensor_default_regs) asked))
        else (minus_one, on_sccb delay 8 asked))
unfolding init
init_lem {W} sdk delay width id world asked h =
    ap (λ (z : ℕ × W). configure sdk (if z.0 == 0x9D then z.0 else 0) (on_sccb delay 8 z.1)) h
    ∙ configure_lem sdk delay id asked

-- `gc0328_reset` with the sensor on SCCB selects page 1 and sends every entry of
-- `sensor_default_regs` but the last in order, with a pause of the bus delay behind each, and
-- returns 0.
reset_lem :
    {W : Type 0} (sdk : Sdk W) (delay width : ℕ) (world : W)
    → reset sdk (on_sccb delay width world) ≡ (
      0,
      on_sccb delay width
          (sends_slowly sdk delay ((0xFE, 0x01) ∷ drop_last sensor_default_regs) world),
    )
unfolding reset cambus_writeb
reset_lem {W} sdk delay width world =
    ap (λ (z : Unit × Cambus W). (0, z.1))
      (reset_regs_lem sdk sensor_default_regs delay width
        (sdk.msleep delay (sdk.dvp_sccb_send_data 0x21 0xFE 0x01 world)) table-plain)
