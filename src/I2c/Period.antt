-- ===== src/I2c/Period.antt =====
-- drivers/camera/gc0328/src/sipeed_i2c.c: maix_i2c_init, and the counts of half a period that it sets.
use kendryte_k210_base_proje.Prelude.{ℕ, ◌+◌, ◌-◌, ◌*◌, ◌/◌, ◌<◌, true, List, [], ◌∷◌, ◌++◌, bit_or}
use kendryte_k210_base_proje.Memory.{put}
use kendryte_k210_base_proje.I2c.{
  enable, con, ss_scl_hcnt, ss_scl_lcnt, intr_mask, dma_cr, dma_rdlr, dma_tdlr, Out, write,
  clock_enable, clock_set_threshold, I2c, ten_bits, speed_of, period_of,
}
use kendryte_k210_base_proje.I2c.Ready.{Ready}

-- how far two numbers are apart
abbrev pub distance : ℕ → ℕ → ℕ
distance a b = (a - b) + (b - a)

module _ (freq i2c_clk : ℕ) (some_clk : 0 < i2c_clk) where
  abbrev twice : ℕ
  twice = 2 * i2c_clk

  abbrev rounded : ℕ
  rounded = (freq + i2c_clk) / twice

-- the calls of `maix_i2c_init`, with the counts that it sets
abbrev pub init_calls : ℕ → ℕ → ℕ → ℕ → List Out
init_calls n address_width i2c_clk period =
    clock_enable n
    ∷ clock_set_threshold n 3
    ∷ write n enable 0
    ∷ write n con (bit_or (bit_or 0x61 (ten_bits address_width)) (speed_of i2c_clk * 2))
    ∷ write n ss_scl_hcnt period
    ∷ write n ss_scl_lcnt period
    ∷ write n intr_mask 0
    ∷ write n dma_cr 3
    ∷ write n dma_rdlr 0
    ∷ write n dma_tdlr 4
    ∷ write n enable 1
    ∷ []

-- the state behind `maix_i2c_init`
abbrev pub initialised : I2c → ℕ → ℕ → ℕ → ℕ → List ℕ → I2c
initialised d n address_width i2c_clk freq rest = record d {
  is_master_mode = put d.is_master_mode n (true ∷ []);
  outs = d.outs ++ init_calls n address_width i2c_clk (period_of freq i2c_clk);
  reads = rest;
}

-- calls that are added one by one
each : List Out → List Out → List Out
each acc [] = acc
each acc (o ∷ os) = each (acc ++ o ∷ []) os
