-- ===== src/Flash.antt =====
-- drivers/flash/flash.c and flash.h: the commands of the SPI flash, over the transfers of
-- `FlashBus`. Every function returns FLASH_OK but `flash_is_busy`; a function that fills a buffer
-- returns the bytes.
pub mod Data
pub mod Write
pub mod Read
pub mod Program
mod Tests
use kendryte_k210_base_proje.Prelude.{
  ℕ, zero, suc, ◌+◌, ◌-◌, ◌%◌, ◌^◌, Bool, true, false, not, Option, none, some, List, [], ◌∷◌, ◌++◌,
  ltb, leb, ◌==◌, if◌then◌else◌, add32, sub32, u8, u32, shl, shr, bit_and, bit_or, length, take,
  drop,
}
use kendryte_k210_base_proje.FlashBus.{
  Reg, ctrlr0, ssienr, ser, baudr, imr, spi_ctrlr0, Status, flash_ok, flash_busy, ProgramFun,
  flash_page_program, flash_quad_page_program, ReadFun, flash_stand_read_data, flash_quad_read_data,
  Flash, M, pure, ◌>>=◌, ◌>>◌, set_reg, with_fuel, send_data, send_data_enhanced, receive_data,
  receive_data_enhanced,
}

-- `enum flash_read_t`
pub data ReadMode : Type 0 where
  flash_standard flash_standard_fast flash_dual flash_dual_single flash_quad flash_quad_single :
      ReadMode

-- the `#define`d commands that are used
abbrev pub write_enable_cmd : ℕ
write_enable_cmd = 0x06

abbrev read_reg1_cmd : ℕ
read_reg1_cmd = 0x05

abbrev read_reg2_cmd : ℕ
read_reg2_cmd = 0x35

-- the three bytes of an address
abbrev pub addr_bytes : ℕ → List ℕ
addr_bytes addr = u8 (shr addr 16) ∷ u8 (shr addr 8) ∷ u8 addr ∷ []

abbrev set_statics : M (Unit {0})
set_statics f = some (tt, record f { dfs_offset = 0; tmod_offset = 10; frf_offset = 22 })

abbrev set_functions : ProgramFun → ReadFun → M (Unit {0})
set_functions p r f = some (tt, record f { page_program_fun = some p; read_fun = some r })

-- `flash_init`, behind the calls of sysctl
unfoldable pub init : M Status
init = do
  set_statics
  set_reg baudr 0x02
  set_reg imr 0x00
  set_reg ser 0x00
  set_reg ssienr 0x00
  set_functions flash_page_program flash_stand_read_data
  send_data (0xFF ∷ 0xFF ∷ []) []
  pure flash_ok

-- element `i` of a buffer that was filled; a byte that was not filled is a fault
abbrev nth : List ℕ → ℕ → M ℕ
nth [] i f = none
nth (b ∷ bs) zero f = some (b, f)
nth (b ∷ bs) (suc i) f = nth bs i f

-- `flash_read_id`: manufacturer and device
unfoldable pub read_id : M (ℕ × ℕ)
read_id = do
  bs ← receive_data (0x90 ∷ 0x00 ∷ 0x00 ∷ 0x00 ∷ []) 2
  manuf ← nth bs 0
  device ← nth bs 1
  pure (manuf, device)

-- `flash_read_jedec_id` and `flash_read_unique`
unfoldable pub read_jedec_id : M (List ℕ)
read_jedec_id = receive_data (0x9F ∷ []) 3

unfoldable pub read_unique : M (List ℕ)
read_unique = receive_data (0x4B ∷ 0x00 ∷ 0x00 ∷ 0x00 ∷ 0x00 ∷ []) 8

-- `flash_write_enable`
unfoldable pub write_enable : M (Unit {0})
write_enable = send_data (write_enable_cmd ∷ []) []

-- `flash_write_status_reg`
unfoldable pub write_status_reg : ℕ → ℕ → M (Unit {0})
unfolding write_enable
write_status_reg reg1 reg2 = do write_enable; send_data (0x01 ∷ reg1 ∷ reg2 ∷ []) []

-- `flash_read_status_reg1` and `flash_read_status_reg2`
unfoldable pub read_status_reg1 : M ℕ
read_status_reg1 = do bs ← receive_data (read_reg1_cmd ∷ []) 1; nth bs 0

unfoldable pub read_status_reg2 : M ℕ
read_status_reg2 = do bs ← receive_data (read_reg2_cmd ∷ []) 1; nth bs 0

-- `flash_is_busy`
unfoldable pub is_busy : M Status
unfolding read_status_reg1
is_busy = do
  status ← read_status_reg1
  pure (if bit_and status 0x01 == 0 then flash_ok else flash_busy)

-- `flash_sector_erase`, `flash_32k_block_erase`, `flash_64k_block_erase`, by their command
erase_at : ℕ → ℕ → M Status
unfolding write_enable
erase_at cmd addr = do write_enable; send_data (cmd ∷ addr_bytes addr) []; pure flash_ok

unfoldable pub sector_erase : ℕ → M Status
unfolding erase_at
sector_erase addr = erase_at 0x20 addr

unfoldable pub block_erase_32k : ℕ → M Status
unfolding erase_at
block_erase_32k addr = erase_at 0x52 addr

unfoldable pub block_erase_64k : ℕ → M Status
unfolding erase_at
block_erase_64k addr = erase_at 0xD8 addr

-- `flash_chip_erase`
unfoldable pub chip_erase : M Status
unfolding write_enable
chip_erase = do write_enable; send_data (0x60 ∷ []) []; pure flash_ok

-- `flash_enable_quad_mode`
unfoldable pub enable_quad_mode : M Status
unfolding read_status_reg1 read_status_reg2 write_status_reg
enable_quad_mode = do
  reg2 ← read_status_reg2
  let update = (do reg1 ← read_status_reg1; write_status_reg reg1 (bit_or reg2 0x02))
  if bit_and reg2 0x02 == 0 then update else pure tt
  set_functions flash_quad_page_program flash_quad_read_data
  pure flash_ok

-- `flash_disable_quad_mode`; `reg2_data &= ~0x02` in a byte
unfoldable pub disable_quad_mode : M Status
unfolding read_status_reg1 read_status_reg2 write_status_reg
disable_quad_mode = do
  reg2 ← read_status_reg2
  let update = (do reg1 ← read_status_reg1; write_status_reg reg1 (bit_and reg2 0xFD))
  if bit_and reg2 0x02 == 0 then pure tt else update
  set_functions flash_page_program flash_stand_read_data
  pure flash_ok

-- `while (flash_is_busy() == FLASH_BUSY) ;`: a round takes at least one read
unfoldable pub wait_ready : ℕ → M Status
wait_ready zero f = none
wait_ready (suc fuel) f =
    (do
      status ← is_busy
      let again = wait_ready fuel
      elim status [ flash_ok ↦ pure flash_ok | flash_busy ↦ again ])
      f

-- the static function `flash_page_program`
unfoldable pub page_program : ℕ → List ℕ → M Status
unfolding write_enable
page_program addr bytes = do
  write_enable
  send_data (0x02 ∷ addr_bytes addr) bytes
  with_fuel wait_ready

-- the static function `flash_quad_page_program`; `cmd` is two words
unfoldable pub quad_page_program : ℕ → List ℕ → M Status
unfolding write_enable
quad_page_program addr bytes f =
    (do
      write_enable
      set_reg ctrlr0
          (bit_or (bit_or (shl 0x01 f.tmod_offset) (shl 0x07 f.dfs_offset)) (shl 0x02 f.frf_offset))
      set_reg spi_ctrlr0 (bit_or (shl 0x06 2) (shl 0x02 8))
      send_data_enhanced (0x32 ∷ addr ∷ []) bytes
      with_fuel wait_ready)
      f

-- a call through `flash_page_program_fun`; through the null pointer it is a fault
call_program : Option ProgramFun → ℕ → List ℕ → M Status
call_program none addr bytes f = none
call_program (some flash_page_program) addr bytes f = page_program addr bytes f
call_program (some flash_quad_page_program) addr bytes f = quad_page_program addr bytes f

unfoldable pub page_program_fun : ℕ → List ℕ → M Status
unfolding call_program page_program quad_page_program
page_program_fun addr bytes f = call_program f.page_program_fun addr bytes f
