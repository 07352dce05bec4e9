-- ===== src/Pipe.antt =====
-- drivers/TBPipe/TBPipe.cpp and TBPipe.h: the ring buffer between a UART interrupt and the main
-- code. The plain loads and stores are modelled (USE_BUILDIN_ATOMIC is not defined). A function
-- that changes `*this` returns the new pipe; `none` is an access outside a buffer.
mod Contents
pub mod Inv
pub mod Write
pub mod Read
pub mod Exact
pub mod Session
mod Tests
use kendryte_k210_base_proje.Prelude.{
  ℕ, ◌+◌, ◌-◌, ◌*◌, ◌/◌, Bool, true, false, Option, none, some, List, [], ◌++◌, ltb, leb, ◌==◌,
  if◌then◌else◌, add32, sub32, ◌>>=◌,
}
use kendryte_k210_base_proje.Memory.{load, memcpy}

-- `class TBPipe`; `buffer` is the block that `malloc` returned.
pub record Pipe : Type 0 where
  pub buffer : List ℕ
  pub buffer_size : ℕ
  pub read_pos : ℕ
  pub write_pos : ℕ
  pub read_pos_tmp : ℕ

-- `TBPipe::TBPipe(int)` and `Init`, over the storage that `malloc(buffer_size)` gave
unfoldable pub init : List ℕ → ℕ → Pipe
init storage size = record {
  buffer = storage;
  buffer_size = size;
  read_pos = 0;
  write_pos = 0;
  read_pos_tmp = 0;
}

-- `FreeBytesInternal`
pub free_bytes_internal : Pipe → ℕ → ℕ → ℕ
free_bytes_internal p read write =
    if ltb write read
    then sub32 (sub32 read write) 1
    else sub32 (sub32 (add32 p.buffer_size read) write) 1

-- `AvailableBytesInternal`
pub available_bytes_internal : Pipe → ℕ → ℕ → ℕ
unfolding free_bytes_internal
available_bytes_internal p read write =
    sub32 (sub32 p.buffer_size 1) (free_bytes_internal p read write)

pub free_bytes : Pipe → ℕ
unfolding free_bytes_internal
free_bytes p = free_bytes_internal p p.read_pos p.write_pos

pub available_bytes : Pipe → ℕ
unfolding available_bytes_internal
available_bytes p = available_bytes_internal p p.read_pos p.write_pos

-- the number of bytes that `Write` takes: `free_bytes & ~7ull` clears the low three bits
pub write_count : Pipe → ℕ → ℕ
unfolding free_bytes
write_count p count = let free = free_bytes p / 8 * 8 in if ltb free count then free else count

-- `if(write_pos==buffer_size) write_pos = 0;` and the store
abbrev publish : Pipe → List ℕ → ℕ → ℕ → ℕ × Pipe
publish p buf write count =
    (count, record p { buffer = buf; write_pos = if write == p.buffer_size then 0 else write })

-- the copies of `Write`, for a `count` that is not 0
write_bytes : Pipe → List ℕ → ℕ → Option (ℕ × Pipe)
write_bytes p bytes count =
    let to_end = sub32 p.buffer_size p.write_pos in
    let straight = do
      buf ← memcpy p.buffer p.write_pos bytes 0 count
      some (publish p buf (add32 p.write_pos count) count)
    in let split = do
      buf ← memcpy p.buffer p.write_pos bytes 0 to_end
      buf' ← memcpy buf 0 bytes to_end (sub32 count to_end)
      some (publish p buf' (sub32 count to_end) count)
      in if ltb p.write_pos p.read_pos
        then straight
        else if leb count to_end
        then straight
        else split

-- `Write`: the bytes taken and the new pipe
pub write : Pipe → List ℕ → ℕ → Option (ℕ × Pipe)
write p bytes count =
    let n = write_count p count in if n == 0 then some (0, p) else write_bytes p bytes n

-- `ReadStart`: `data` as an offset into the buffer (`none` is the null pointer), `size`, the pipe
unfoldable pub read_start : Pipe → Option ℕ × ℕ × Pipe
read_start p =
    let size = sub32 p.write_pos p.read_pos in
    let next = add32 p.read_pos size in
    if p.write_pos == p.read_pos
    then (none, 0, record p { read_pos_tmp = p.read_pos })
    else if ltb p.write_pos p.read_pos
    then (some p.read_pos, sub32 p.buffer_size p.read_pos, record p { read_pos_tmp = 0 })
    else (
      some p.read_pos,
      size,
      record p { read_pos_tmp = if next == p.buffer_size then 0 else next },
    )

-- `ReadEnd`
unfoldable pub read_end : Pipe → Pipe
read_end p = record p { read_pos = p.read_pos_tmp }

-- the second copy of `ReadExact`, where `write_pos >= read_pos`; `got` is what `data` holds so far
read_rest : Pipe → ℕ → ℕ → List ℕ → Option (Bool × List ℕ × Pipe)
read_rest p read count got =
    let last = do
      bytes ← load p.buffer read count
      let next = add32 read count
      some (true, got ++ bytes, record p { read_pos = if next == p.buffer_size then 0 else next })
    in if ltb 0 count then last else some (true, got, record p { read_pos = read })

-- `ReadExact`: whether there was enough, the bytes copied to `data`, and the pipe
unfoldable pub read_exact : Pipe → ℕ → Option (Bool × List ℕ × Pipe)
unfolding available_bytes read_rest load
read_exact p count =
    let size = sub32 p.buffer_size p.read_pos in
    let straight = do
      bytes ← load p.buffer p.read_pos count
      read_rest p (add32 p.read_pos count) 0 bytes
    in let split = do bytes ← load p.buffer p.read_pos size; read_rest p 0 (sub32 count size) bytes
      in if ltb (available_bytes p) count
        then some (false, [], p)
        else if ltb p.write_pos p.read_pos
        then (if leb count size then straight else split)
        else read_rest p p.read_pos count []

-- `Clear`
unfoldable pub clear : Pipe → Pipe
clear p = let q = read_end (read_start p).2 in read_end (read_start q).2
