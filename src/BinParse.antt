-- ===== src/BinParse.antt =====
-- drivers/TBPipe/TBinParse.cpp, TBinParse.h and TBinMessage.h: binary messages with an eight-byte
-- header of size, command and checksum. A function that changes `*this` returns the new parser;
-- `none` is an access outside the buffer. `bool` is `Bool`, an unsigned field its number.
pub mod Header
pub mod Inv
pub mod Steps
pub mod Outcome
pub mod Next
pub mod Stream
pub mod Run
pub mod Oversized
mod Tests
use kendryte_k210_base_proje.Prelude.{
  ℕ, ◌%◌, ◌^◌, Bool, true, false, Option, none, some, List, ltb, leb, ◌==◌, not, if◌then◌else◌,
  add32, sub32, u16, u32, shr, shl, bit_or, bit_xor, ◌>>=◌,
}
use kendryte_k210_base_proje.Memory.{load, memcpy}
use kendryte_k210_base_proje.Bytes.{word_of}

-- `struct TBinMessage`; `at` is `data` as an offset into the parser's buffer, `none` the null
-- pointer.
pub record BinMessage : Type 0 where
  pub at : Option ℕ
  pub size : ℕ
  pub command : ℕ

-- `TBinMessage message = {};`
abbrev pub no_message : BinMessage
no_message = record { at = none; size = 0; command = 0 }

-- `is_bad`
pub is_bad : BinMessage → Bool
is_bad m = m.command == 0

-- `class TBinParse`
pub record BinParser : Type 0 where
  pub buffer : List ℕ
  pub buffer_size : ℕ
  pub buffer_pos : ℕ
  pub buffer_amount : ℕ
  pub bin_message_size : ℕ
  pub bin_message_command : ℕ
  pub parse_failed : Bool

-- the constructor, over the storage that `malloc(buffer_size)` gave
unfoldable pub init : List ℕ → ℕ → BinParser
init storage size = record {
  buffer = storage;
  buffer_size = size;
  buffer_pos = 0;
  buffer_amount = 0;
  bin_message_size = 0;
  bin_message_command = 0;
  parse_failed = false;
}

-- `MaxAppendSize`
pub max_append_size : BinParser → ℕ
max_append_size p = sub32 p.buffer_size p.buffer_amount

-- `Append(data, size)`
unfoldable pub append : BinParser → List ℕ → ℕ → Option BinParser
unfolding memcpy
append p bytes size =
    let copy = do
      buf ← memcpy p.buffer p.buffer_amount bytes 0 size
      some (record p { buffer = buf; buffer_amount = add32 p.buffer_amount size })
    in if size == 0
      then some p
      else if ltb p.buffer_size (add32 p.buffer_amount size)
      then some (record p { parse_failed = true })
      else copy

-- `AppendInplace(size)`: the caller has written through `BufferInplace()` before
unfoldable pub append_inplace : BinParser → ℕ → BinParser
append_inplace p size =
    if size == 0
    then p
    else if ltb p.buffer_size (add32 p.buffer_amount size)
    then record p { parse_failed = true }
    else record p { buffer_amount = add32 p.buffer_amount size }

-- the checksum of a header, as both `ParseHeader` and `TBinFillHeader` write it; `data_size &
-- 0xFFFF` is a remainder
abbrev pub header_crc : ℕ → ℕ → ℕ
header_crc packet_id data_size =
    bit_xor (bit_xor (bit_xor 0xFFFF (data_size % 2 ^ 16)) (shr data_size 16 % 2 ^ 16)) packet_id

-- `ParseHeader`
unfoldable pub parse_header : BinParser → ℕ → Bool × BinParser
parse_header p header =
    let data_size = u32 header in
    let packet_id = u16 (shr header 32) in
    if u16 (header_crc packet_id data_size) == u16 (shr header 48)
    then (true, record p { bin_message_size = data_size; bin_message_command = packet_id })
    else (false, record p { bin_message_size = 0; bin_message_command = 0 })

-- `TBinFillHeader`
unfoldable pub fill_header : ℕ → ℕ → ℕ
fill_header packet_id data_size =
    bit_or (bit_or data_size (shl packet_id 32)) (shl (header_crc packet_id data_size) 48)

-- the end of `NextMessage`: the incomplete message is moved to the start of the buffer
pub compact : BinParser → Option (BinMessage × BinParser)
unfolding memcpy
compact p = do
  let rest_size = sub32 p.buffer_amount p.buffer_pos
  buf ← memcpy p.buffer 0 p.buffer p.buffer_pos rest_size
  some (no_message, record p { buffer = buf; buffer_amount = rest_size; buffer_pos = 0 })

-- from the label `MessageHeaderPassed`
pub header_passed : BinParser → Option (BinMessage × BinParser)
header_passed p =
    if leb (add32 p.buffer_pos p.bin_message_size) p.buffer_amount
    then some (
      record { at = some p.buffer_pos; size = p.bin_message_size; command = p.bin_message_command },
      record p { buffer_pos = add32 p.buffer_pos p.bin_message_size; bin_message_size = 0 },
    )
    else compact p

-- behind `ParseHeader`, whose result is given
pub read_header : Bool × BinParser → Option (BinMessage × BinParser)
read_header (true, p) =
    let q = record p { buffer_pos = add32 p.buffer_pos 8 } in
    if ltb q.buffer_size (add32 q.bin_message_size 8)
    then compact (record q { bin_message_size = 0; bin_message_command = 0; parse_failed = true })
    else header_passed q
read_header (false, p) = compact (record p { parse_failed = true })

-- `NextMessage`
unfoldable pub next_message : BinParser → Option (BinMessage × BinParser)
unfolding load
next_message p =
    let parse = do
      bytes ← load p.buffer p.buffer_pos 8
      read_header (parse_header p (word_of bytes))
    in if p.parse_failed
      then some (no_message, p)
      else if not (p.bin_message_size == 0)
      then header_passed p
      else if leb 8 (sub32 p.buffer_amount p.buffer_pos)
      then parse
      else compact p

-- `Clear`: `parse_failed` is left as it is
unfoldable pub clear : BinParser → BinParser
clear p = record p {
  buffer_amount = 0;
  buffer_pos = 0;
  bin_message_size = 0;
  bin_message_command = 0;
}
