-- ===== src/Flash/Data.antt =====
-- drivers/flash/flash.c: flash_write_data, flash_read and flash_read_data, the loops over a whole
-- block.
use kendryte_k210_base_proje.Prelude.{
  ℕ, zero, suc, ◌%◌, Option, none, some, List, [], ◌∷◌, ◌++◌, ltb, ◌==◌, if◌then◌else◌, add32,
  sub32, u32, shl, bit_or, length, take, drop,
}
use kendryte_k210_base_proje.FlashBus.{
  ctrlr0, spi_ctrlr0, Status, flash_ok, ReadFun, flash_stand_read_data, flash_quad_read_data, M,
  fault, pure, ◌>>=◌, ◌>>◌, set_reg, receive_data_enhanced,
}
use kendryte_k210_base_proje.Flash.{
  ReadMode, flash_standard_fast, flash_quad, flash_quad_single, page_program_fun,
}

-- The loops of `flash_write_data`, over the function that `flash_page_program_fun` points to.
-- A round moves at least one byte, so `fuel` is the number of bytes left.
module _ (program : ℕ → List ℕ → M Status) where
  -- `while (write_len) { … }`: `addr` and `data_buf` after it
  unfoldable pub write_page : ℕ → ℕ → List ℕ → ℕ → M (ℕ × List ℕ)
  write_page zero addr bytes write_len = fault
  write_page (suc fuel) addr bytes write_len =
      let len = if ltb 32 write_len then 32 else write_len in
      let rounds = (do
        program addr (take len bytes)
        write_page fuel (add32 addr len) (drop len bytes) (sub32 write_len len)) in
      if write_len == 0 then pure (addr, bytes) else rounds

  -- `while (length) { … }`
  unfoldable pub write_loop : ℕ → ℕ → List ℕ → ℕ → M Status
  write_loop zero addr bytes size = fault
  write_loop (suc fuel) addr bytes size =
      let page_remain = sub32 256 (addr % 256) in
      let write_len = if ltb size page_remain then size else page_remain in
      let rounds = (do
        (addr', bytes') ← write_page (suc write_len) addr bytes write_len
        write_loop fuel addr' bytes' (sub32 size write_len)) in
      if size == 0 then pure flash_ok else rounds

-- `flash_write_data`
unfoldable pub write_data : ℕ → List ℕ → ℕ → M Status
unfolding write_loop write_page
write_data addr bytes size = write_loop page_program_fun (suc size) addr bytes size

-- `flash_read` of as many bytes as `buf` holds: what `buf` holds after it
unfoldable pub read : ℕ → List ℕ → ReadMode → M (List ℕ)
read addr buf flash_quad f =
    (do
      set_reg ctrlr0
          (bit_or (bit_or (shl 0x02 f.tmod_offset) (shl 0x07 f.dfs_offset)) (shl 0x02 f.frf_offset))
      set_reg spi_ctrlr0 (bit_or (bit_or (shl 0x06 2) (shl 0x02 8)) (shl 0x08 11))
      receive_data_enhanced (0x6B ∷ addr ∷ []) (length buf))
      f
read addr buf flash_quad_single f =
    (do
      set_reg ctrlr0
          (bit_or (bit_or (shl 0x02 f.tmod_offset) (shl 0x07 f.dfs_offset)) (shl 0x02 f.frf_offset))
      set_reg spi_ctrlr0 (bit_or (bit_or (bit_or (shl 0x08 2) (shl 0x02 8)) (shl 0x04 11)) 0x01)
      receive_data_enhanced (0xEB ∷ u32 (shl addr 8) ∷ []) (length buf))
      f
read addr buf _ f = some (buf, f)

-- `flash_read_data` over the bytes of `buf`
unfoldable pub read_loop : ℕ → ℕ → List ℕ → ReadMode → M (List ℕ)
read_loop zero addr buf mode = fault
read_loop (suc fuel) addr buf mode =
    let len = if ltb 32 (length buf) then 32 else length buf in
    let rounds = (do
      bs ← read addr (take len buf) mode
      rest ← read_loop fuel (add32 addr len) (drop len buf) mode
      pure (bs ++ rest)) in
    if length buf == 0 then pure [] else rounds

unfoldable pub read_data : ℕ → List ℕ → ReadMode → M (List ℕ)
unfolding read_loop read
read_data addr buf mode = read_loop (suc (length buf)) addr buf mode

-- a call through `flash_read_fun`
call_read : Option ReadFun → ℕ → List ℕ → M (List ℕ)
unfolding read_data
call_read none addr buf f = none
call_read (some flash_stand_read_data) addr buf f = read_data addr buf flash_standard_fast f
call_read (some flash_quad_read_data) addr buf f = read_data addr buf flash_quad_single f

unfoldable pub read_fun : ℕ → List ℕ → M (List ℕ)
unfolding call_read
read_fun addr buf f = call_read f.read_fun addr buf f
