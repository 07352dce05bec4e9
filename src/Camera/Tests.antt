-- ===== src/Camera/Tests.antt =====
-- Runs of the camera driver over a sensor that is its page number and the registers of page 0.
use kendryte_k210_base_proje.Prelude.{ℕ, ◌≡◌, refl, ap, ◌∙◌, ◌⊎◌, ◌==◌, if◌then◌else◌, ne→==_false}
use kendryte_k210_base_proje.Camera.Bus.{Sdk, on_sccb, minus_one, cambus_scan}
use kendryte_k210_base_proje.Camera.Tables.{qqvga_config, qvga_config}
use kendryte_k210_base_proje.Camera.Size.{
  IsSensor, Sets, config_of, set_framesize_lem, stale_window,
}
use kendryte_k210_base_proje.Camera.Scan.{is_id, id_8, id_16, IsFirst, Rejects, cambus_scan_lem}

abbrev Chip : Type 0
Chip = ℕ × (ℕ → ℕ)

abbrev page_of : Chip → ℕ
page_of (page, regs) = page

abbrev reg_of : Chip → ℕ → ℕ
reg_of (page, regs) = regs

abbrev write_reg : ℕ → ℕ → Chip → Chip
write_reg reg v (page, regs) =
    if reg == 0xFE
    then (v, regs)
    else (page, λ r. if page == 0 then (if r == reg then v else regs r) else regs r)

-- the id register answers on every page
abbrev chip_sdk : Sdk Chip
chip_sdk = record {
  fpioa_set_function = λ pin function w. w;
  dvp_sccb_send_data = λ device reg v w. write_reg reg v w;
  dvp_sccb_receive_data = λ device reg w. (if reg == 0xF0 then 0x9D else 0x12, w);
  dvp_set_image_size = λ width height w. w;
  msleep = λ ms w. w;
  maix_i2c_init = λ i2c address_width clock w. w;
  maix_i2c_send_data = λ i2c device bytes timeout w. (minus_one, w);
  maix_i2c_recv_data = λ i2c device old timeout w. ((minus_one, old), w);
}

chip-IsSensor : IsSensor chip_sdk page_of reg_of
chip-IsSensor = record {
  select = λ w. refl;
  select_keeps = λ w r. refl;
  write_page = λ (page, regs) reg v h.
      ap
        (λ b. page_of (
          if b
          then (v, regs)
          else (page, λ r. if page == 0 then (if r == reg then v else regs r) else regs r)))
        (ne→==_false reg 0xFE h);
  write = λ (page, regs) reg v r h e.
      ap
        (λ b.
          reg_of
            (if b
              then (v, regs)
              else (page, λ k. if page == 0 then (if k == reg then v else regs k) else regs k))
            r)
        (ne→==_false reg 0xFE h)
      ∙ ap (λ b. if b == 0 then (if r == reg then v else regs r) else regs r) e;
  sleep_page = λ w ms. refl;
  sleep = λ w ms r. refl;
  image_size = λ w width height r. refl;
}

abbrev chip : Chip
chip = (1, λ r. 0xAA)

set_framesize_lem_example :
    (world' : Chip) × Sets chip_sdk reg_of 11 (config_of 11 640 480) 10 8 chip world'
set_framesize_lem_example =
    set_framesize_lem chip_sdk page_of reg_of 11 640 480 10 8 chip chip-IsSensor refl

stale_window_example :
    (world1 world2 : Chip) × Sets chip_sdk reg_of 9 qqvga_config 10 8 chip world1
    × Sets chip_sdk reg_of 10 qvga_config 10 8 world1 world2
    × (reg_of world2 0x56 ≡ 120)
    × (reg_of world2 0x58 ≡ 160)
stale_window_example = stale_window chip_sdk page_of reg_of 10 8 chip chip-IsSensor

abbrev answer : ℕ → ℕ → ℕ
answer device reg = if reg == 0xF0 then 0x9D else 0x12

cambus_scan_lem_example :
    ((a : ℕ) × (cambus_scan chip_sdk (on_sccb 10 8 chip) ≡ (a, on_sccb 10 8 chip))
      × IsFirst (λ addr. is_id (id_8 answer addr)) 0x08 0x78 a)
    ⊎ (Rejects (λ addr. is_id (id_8 answer addr)) 0x08 0x78
        × (((a : ℕ) × (cambus_scan chip_sdk (on_sccb 10 8 chip) ≡ (a, on_sccb 10 16 chip))
              × IsFirst (λ addr. is_id (id_16 answer addr)) 0x08 0x78 a)
            ⊎ ((cambus_scan chip_sdk (on_sccb 10 8 chip) ≡ (0, on_sccb 10 16 chip))
                × Rejects (λ addr. is_id (id_16 answer addr)) 0x08 0x78)))
cambus_scan_lem_example = cambus_scan_lem chip_sdk answer 10 8 chip (λ addr reg w. refl)
