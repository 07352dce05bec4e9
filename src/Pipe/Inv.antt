-- ===== src/Pipe/Inv.antt =====
-- The representation invariant of TBPipe, and what the free and available counts mean under it.
use kendryte_k210_base_proje.Prelude.{ℕ, ◌+◌, ◌-◌, ◌^◌, ◌≤◌, ◌<◌, ◌≡◌, List, arith, length}
use kendryte_k210_base_proje.Pipe.{Pipe, init, free_bytes, available_bytes}
use kendryte_k210_base_proje.Pipe.Contents.{live, used, length-live}

-- `buffer_size` is an `int` that the constructor is given. `read_pos` may stand at the end of the
-- storage, where `ReadExact` leaves it; it then means the start.
pub record IsValid (p : Pipe) : Type 0 where
  pub storage : length p.buffer ≡ p.buffer_size
  pub positive : 0 < p.buffer_size
  pub small : p.buffer_size < 2 ^ 31
  pub read_in : p.read_pos ≤ p.buffer_size
  pub write_in : p.write_pos < p.buffer_size

-- the abstract view: the bytes that were written and not yet read, oldest first
abbrev pub contents : Pipe → List ℕ
contents p = live p.buffer p.buffer_size p.read_pos p.write_pos

abbrev pub bytes_used : Pipe → ℕ
bytes_used p = used p.buffer_size p.read_pos p.write_pos

pub length-contents : {p : Pipe} → IsValid p → length (contents p) ≡ bytes_used p
length-contents {p} v =
    length-live p.buffer p.buffer_size p.read_pos p.write_pos v.storage v.read_in v.write_in

-- A pipe that the constructor made is valid and empty.
pub init-IsValid :
    (storage : List ℕ) (size : ℕ)
    → length storage ≡ size
    → 0 < size
    → size < 2 ^ 31
    → IsValid (init storage size)
unfolding init
init-IsValid storage size e h k = omega arith

pub free_bytes-used : {p : Pipe} → IsValid p → free_bytes p ≡ p.buffer_size - 1 - bytes_used p
unfolding free_bytes
free_bytes-used v = ground arith

pub bytes_used-lt : {p : Pipe} → IsValid p → bytes_used p < p.buffer_size
bytes_used-lt v = ground arith

pub available_bytes-used : {p : Pipe} → IsValid p → available_bytes p ≡ bytes_used p
unfolding available_bytes
available_bytes-used v = ground arith

-- `AvailableBytes` is the number of bytes in the pipe, and with `FreeBytes` it makes up one byte
-- less than the storage, in every valid state, the wrapped ones included.
pub available_bytes-add-free_bytes :
    {p : Pipe}
    → IsValid p
    → (available_bytes p ≡ length (contents p))
      × (available_bytes p + free_bytes p + 1 ≡ p.buffer_size)
available_bytes-add-free_bytes v =
    ground (arith, length-contents v, available_bytes-used v, free_bytes-used v, bytes_used-lt v)
