-- ===== src/Camera/Scan.antt =====
-- drivers/camera/gc0328/src/cambus.c: cambus_scan.
use kendryte_k210_base_proje.Prelude.{
  ℕ, zero, suc, ◌+◌, ◌≤◌, ◌<◌, ◌≡◌, refl, ap, fun_ext, ◌∙◌, ◌⊎◌, inl, inr, Bool, true, false, not,
  ◌&&◌, ◌==◌, if◌then◌else◌, u8, u16, shl, bit_or, arith, Bool-cases, ℕ_discrete, subst,
}
use kendryte_k210_base_proje.Camera.Bus.{
  Sdk, Cambus, M, pure, on_sccb, sccb_i2c_read_byte, cambus_read_id, cambus_read16_id, scan_loop,
  cambus_scan,
}

abbrev pub is_id : ℕ → Bool
is_id device_id = not (device_id == 0) && not (device_id == 0xFFFF)

-- the first address that a test accepts, from `from` to below `to`
pub record IsFirst (accepts : ℕ → Bool) (from to a : ℕ) : Type 0 where
  pub in_range : (from ≤ a) × (a < to)
  pub accepted : accepts a ≡ true
  pub earlier : (b : ℕ) → from ≤ b → b < a → accepts b ≡ false

abbrev pub Rejects : (ℕ → Bool) → ℕ → ℕ → Type 0
Rejects accepts from to = (b : ℕ) → from ≤ b → b < to → accepts b ≡ false

module _ {W : Type 0} (sdk : Sdk W) (read_numbers : ℕ → M W (ℕ × ℕ × ℕ)) (manuf number : ℕ → ℕ)
    (c : Cambus W)
    (reads : (addr : ℕ) → read_numbers addr c ≡ ((0, manuf addr, number addr), c)) where
  abbrev accepts : ℕ → Bool
  accepts addr = is_id (number addr)

  round_lem :
      (left addr : ℕ) (rest : M W ℕ)
      → scan_loop sdk read_numbers (suc left) addr rest c ≡ (
          if accepts addr
          then (addr, c)
          else scan_loop sdk read_numbers left (u8 (suc addr)) rest c)
  unfolding scan_loop
  round_lem left addr rest =
      ap
        (λ (z : (ℕ × ℕ × ℕ) × Cambus W).
          (if (z.0.0 == 0) && is_id z.0.2
              then pure addr
              else scan_loop sdk read_numbers left (u8 (suc addr)) rest)
            z.1)
        (reads addr)
      ∙ if_apply (accepts addr)
    where
      if_apply :
          (b : Bool)
          → (if b then pure {W = W} addr else scan_loop sdk read_numbers left (u8 (suc addr)) rest)
              c
            ≡ (if b then (addr, c) else scan_loop sdk read_numbers left (u8 (suc addr)) rest c)
      if_apply true = refl
      if_apply false = refl

  -- a test at one address more
  Rejects-cons :
      (from to : ℕ) → accepts from ≡ false → Rejects accepts (suc from) to → Rejects accepts from to
  Rejects-cons from to here later b hb hc = elim (ℕ_discrete b from) [
    | yes e ↦ ap accepts e ∙ here
    | no ne ↦ later b (omega arith) hc
  ]

  scan_loop_lem :
      (left addr : ℕ) (rest : M W ℕ)
      → addr + left < 256
      → ((a : ℕ) × (scan_loop sdk read_numbers left addr rest c ≡ (a, c))
          × IsFirst accepts addr (addr + left) a)
        ⊎ ((scan_loop sdk read_numbers left addr rest c ≡ rest c)
            × Rejects accepts addr (addr + left))
  unfolding scan_loop
  scan_loop_lem zero addr rest h = inr (refl, λ b hb hc. absurd (omega arith))
  scan_loop_lem (suc left) addr rest h =
      let next : u8 (suc addr) ≡ suc addr = omega arith in
      let round = round_lem left addr rest in
      let end : suc addr + left ≡ addr + suc left = omega arith in
      elim (Bool-cases (accepts addr)) [
        | inl here ↦ inl (
          addr,
          round
              ∙ ap
                  (λ b.
                    if b then (addr, c) else scan_loop sdk read_numbers left (u8 (suc addr)) rest c)
                  here,
          record {
            in_range = (omega arith, omega arith);
            accepted = here;
            earlier = λ b hb hc. absurd (omega arith);
          },
        )
        | inr not_here ↦
            let go : scan_loop sdk read_numbers (suc left) addr rest c
                ≡ scan_loop sdk read_numbers left (suc addr) rest c =
              round
              ∙ ap
                  (λ b.
                    if b then (addr, c) else scan_loop sdk read_numbers left (u8 (suc addr)) rest c)
                  not_here
              ∙ ap (λ a. scan_loop sdk read_numbers left a rest c) next in
            elim (scan_loop_lem left (suc addr) rest (omega arith)) [
              | inl (a, found, first) ↦ inl (
                a,
                go ∙ found,
                record {
                  in_range = (omega (arith, first.in_range), omega (arith, first.in_range));
                  accepted = first.accepted;
                  earlier = Rejects-cons addr a not_here first.earlier;
                },
              )
              | inr (ends, none_found) ↦ inr (
                go ∙ ends,
                Rejects-cons addr (addr + suc left) not_here
                    (subst (Rejects accepts (suc addr)) end none_found),
              )
            ]
      ]

-- the device id that the registers of the device at an address hold, for registers of 8 and 16 bits
abbrev pub id_8 : (ℕ → ℕ → ℕ) → ℕ → ℕ
id_8 answer addr = bit_or (u16 (shl (answer addr 0x0A) 8)) (answer addr 0x0B)

abbrev pub id_16 : (ℕ → ℕ → ℕ) → ℕ → ℕ
id_16 answer addr = bit_or (u16 (shl (answer addr 0x300A) 8)) (answer addr 0x300B)

module _ {W : Type 0} (sdk : Sdk W) (answer : ℕ → ℕ → ℕ) (delay width : ℕ) (world : W)
    (reads : (addr reg : ℕ) (w : W)
      → sdk.dvp_sccb_receive_data addr reg w ≡ (answer addr reg, w)) where
  abbrev here : Cambus W
  here = on_sccb delay width world

  abbrev manuf_8 : ℕ → ℕ
  manuf_8 addr = bit_or (u16 (shl (answer addr 0x1C) 8)) (answer addr 0x1D)

  answering : Sdk W
  answering = record sdk { dvp_sccb_receive_data = λ addr reg w. (answer addr reg, w) }

  same_sdk : sdk ≡ answering
  unfolding answering
  same_sdk =
      ap (λ f. record sdk { dvp_sccb_receive_data = f })
        (fun_ext (λ addr. fun_ext (λ reg. fun_ext (λ w. reads addr reg w))))

  cambus_read_id-sccb :
      (addr : ℕ) → cambus_read_id sdk addr here ≡ ((0, manuf_8 addr, id_8 answer addr), here)
  unfolding cambus_read_id answering sccb_i2c_read_byte
  cambus_read_id-sccb addr = ap (λ s. cambus_read_id s addr here) same_sdk

  cambus_read16_id-sccb :
      (addr : ℕ) → cambus_read16_id sdk addr here ≡ ((0, 0, id_16 answer addr), here)
  unfolding cambus_read16_id answering sccb_i2c_read_byte
  cambus_read16_id-sccb addr = ap (λ s. cambus_read16_id s addr here) same_sdk

-- `cambus_scan` over SCCB, where a read of a register gives the same value each time and changes
-- nothing, returns the first address of 0x08 to 0x77 whose device id over 8-bit registers is
-- neither 0 nor 0xFFFF, with the width at 8; if there is none, the first such address over 16-bit
-- registers, with the width at 16; if there is none either, 0. It always ends.
pub cambus_scan_lem :
    {W : Type 0} (sdk : Sdk W) (answer : ℕ → ℕ → ℕ) (delay width : ℕ) (world : W)
    → ((addr reg : ℕ) (w : W) → sdk.dvp_sccb_receive_data addr reg w ≡ (answer addr reg, w))
    → ((a : ℕ) × (cambus_scan sdk (on_sccb delay width world) ≡ (a, on_sccb delay 8 world))
        × IsFirst (λ addr. is_id (id_8 answer addr)) 0x08 0x78 a)
      ⊎ (Rejects (λ addr. is_id (id_8 answer addr)) 0x08 0x78
          × (((a : ℕ) × (cambus_scan sdk (on_sccb delay width world) ≡ (a, on_sccb delay 16 world))
                × IsFirst (λ addr. is_id (id_16 answer addr)) 0x08 0x78 a)
              ⊎ ((cambus_scan sdk (on_sccb delay width world) ≡ (0, on_sccb delay 16 world))
                  × Rejects (λ addr. is_id (id_16 answer addr)) 0x08 0x78)))
unfolding cambus_scan
cambus_scan_lem sdk answer delay width world reads =
    let narrow : Cambus _ = on_sccb delay 8 world in
    let wide : Cambus _ = on_sccb delay 16 world in
    let second : M _ ℕ = λ c.
      scan_loop sdk (cambus_read16_id sdk) 112 0x08 (λ d. (0, d))
        (record c { sccb_reg_width = 16 }) in
    elim (scan_loop_lem sdk (cambus_read_id sdk) (manuf_8 sdk answer delay 8 world reads)
      (id_8 answer) narrow (cambus_read_id-sccb sdk answer delay 8 world reads) 112 0x08 second
      (omega arith)) [
        | inl found ↦ inl found
        | inr (ends, none8) ↦ inr (
          none8,
          elim (scan_loop_lem sdk (cambus_read16_id sdk) (λ a. 0) (id_16 answer) wide
              (cambus_read16_id-sccb sdk answer delay 16 world reads) 112 0x08 (λ d. (0, d))
              (omega arith)) [
                | inl (a, found, first) ↦ inl (a, ends ∙ found, first)
                | inr (over, none16) ↦ inr (ends ∙ over, none16)
              ],
        )
      ]
