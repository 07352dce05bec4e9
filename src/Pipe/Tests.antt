-- ===== src/Pipe/Tests.antt =====
-- Runs of TBPipe on concrete pipes.
use kendryte_k210_base_proje.Prelude.{
  ℕ, ◌+◌, ◌≡◌, refl, some, List, [], ◌∷◌, ◌++◌, length, take, drop, Returns, arith,
}
use kendryte_k210_base_proje.Memory.{memcpy}
use kendryte_k210_base_proje.Pipe.{
  Pipe, init, write, write_count, write_bytes, read_start, read_end, read_exact, available_bytes,
  free_bytes,
}
use kendryte_k210_base_proje.Pipe.Contents.{live}
use kendryte_k210_base_proje.Pipe.Inv.{
  IsValid, contents, init-IsValid, available_bytes-add-free_bytes,
}
use kendryte_k210_base_proje.Pipe.Write.{accepted, Appends, write_lem}
use kendryte_k210_base_proje.Pipe.Read.{Reading, offered, chunk, read_start_lem, read_end_lem}
use kendryte_k210_base_proje.Pipe.Exact.{Takes, read_exact_lem}
use kendryte_k210_base_proje.Pipe.Session.{
  World, Step, Reach, IsFifo, fresh, here, next, interrupt, open_block, Reach-IsFifo,
  Reach-progress,
}

abbrev storage_20 : List ℕ
storage_20 =
    1 ∷ 2 ∷ 3 ∷ 4 ∷ 5 ∷ 6 ∷ 7 ∷ 8 ∷ 9 ∷ 10 ∷ 11 ∷ 12 ∷ 13 ∷ 14 ∷ 15 ∷ 16 ∷ 17 ∷ 18 ∷ 19 ∷ 20 ∷ []

-- a pipe whose contents go round the end of the storage, with a block of two bytes out
abbrev wrapped : Pipe
wrapped = record {
  buffer = storage_20;
  buffer_size = 20;
  read_pos = 18;
  write_pos = 3;
  read_pos_tmp = 0;
}

wrapped-IsValid : IsValid wrapped
wrapped-IsValid = record {
  storage = refl;
  positive = omega arith;
  small = omega arith;
  read_in = omega arith;
  write_in = omega arith;
}

contents-wrapped : contents wrapped ≡ 19 ∷ 20 ∷ 1 ∷ 2 ∷ 3 ∷ []
unfolding live
contents-wrapped = refl

abbrev ten_bytes : List ℕ
ten_bytes = 50 ∷ 51 ∷ 52 ∷ 53 ∷ 54 ∷ 55 ∷ 56 ∷ 57 ∷ 58 ∷ 59 ∷ []

write_lem_example :
    Returns (write wrapped ten_bytes 10) (λ r.
      (r.0 ≡ accepted wrapped 10) × Appends wrapped (take (accepted wrapped 10) ten_bytes) r.1)
write_lem_example = write_lem {p = wrapped} ten_bytes 10 wrapped-IsValid (omega arith)

read_start_lem_example :
    let (at, n, q) = read_start wrapped in
    (n ≡ offered wrapped)
    × Returns (chunk wrapped at n) (λ bytes. bytes ≡ take n (contents wrapped))
    × (contents q ≡ contents wrapped)
    × IsValid q
    × Reading q n
read_start_lem_example = read_start_lem {p = wrapped} wrapped-IsValid

wrapped-Reading : Reading wrapped 2
wrapped-Reading = record { present = omega arith; in_one_piece = omega arith; next = refl }

read_end_lem_example :
    (contents (read_end wrapped) ≡ drop 2 (contents wrapped))
    × IsValid (read_end wrapped)
    × Reading (read_end wrapped) 0
read_end_lem_example = read_end_lem {p = wrapped} 2 wrapped-IsValid wrapped-Reading

read_exact_lem_example : Returns (read_exact wrapped 4) (λ r. Takes wrapped 4 r)
unfolding live
read_exact_lem_example = read_exact_lem {p = wrapped} 4 wrapped-IsValid (omega arith)

available_bytes-add-free_bytes_example :
    (available_bytes wrapped ≡ length (contents wrapped))
    × (available_bytes wrapped + free_bytes wrapped + 1 ≡ 20)
available_bytes-add-free_bytes_example =
    available_bytes-add-free_bytes {p = wrapped} wrapped-IsValid

-- a run: an interrupt with three bytes, then the block is opened
abbrev three_bytes : List ℕ
three_bytes = 7 ∷ 8 ∷ 9 ∷ []

abbrev filled : World
filled = record {
  pipe = record {
    buffer = three_bytes ++ drop 3 storage_20;
    buffer_size = 20;
    read_pos = 0;
    write_pos = 3;
    read_pos_tmp = 0;
  };
  block = 0;
  sent = three_bytes;
  got = [];
}

abbrev opened : World
opened = record filled { pipe = record filled.pipe { read_pos_tmp = 3 }; block = 3 }

opened_run : Reach (fresh storage_20 20) opened
unfolding init write read_start write_count write_bytes memcpy
opened_run =
    let written : write (fresh storage_20 20).pipe three_bytes 3 ≡ some (3, filled.pipe) = refl in
    let first : Step (fresh storage_20 20) filled =
      interrupt {w = fresh storage_20 20} {n = 3} {q = filled.pipe} three_bytes 3 (omega arith)
        written in
    let second : Step filled opened = open_block {w = filled} refl in next (next here first) second

empty-IsValid : IsValid (init storage_20 20)
empty-IsValid = init-IsValid storage_20 20 refl (omega arith) (omega arith)

Reach-IsFifo_example : IsFifo opened
Reach-IsFifo_example = Reach-IsFifo storage_20 20 {w = opened} empty-IsValid opened_run

Reach-progress_example :
    Returns
      (write opened.pipe three_bytes (length three_bytes))
      (λ r. Step opened (record opened { pipe = r.1; sent = three_bytes ++ take r.0 three_bytes }))
    × Step opened (record opened {
      pipe = read_end opened.pipe;
      block = 0;
      got = [] ++ take 3 (contents opened.pipe);
    })
Reach-progress_example =
    Reach-progress storage_20 20 {w = opened} empty-IsValid opened_run three_bytes
