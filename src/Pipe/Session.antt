-- ===== src/Pipe/Session.antt =====
-- The use that TBPipe.h describes: an interrupt writes while the main code has a block open for
-- reading between ReadStart and ReadEnd. The interleavings are a step relation.
use kendryte_k210_base_proje.Prelude.{
  ℕ, ◌≤◌, ◌≡◌, refl, sym, ap, ap₂, ◌∙◌, List, [], ◌++◌, append_assoc, arith, length, length-append,
  take, drop, take-append-drop, Option, none, some, Returns,
}
use kendryte_k210_base_proje.Memory.{load, load_lem}
use kendryte_k210_base_proje.Pipe.{Pipe, init, write, read_start, read_end}
use kendryte_k210_base_proje.Pipe.Contents.{live_straight}
use kendryte_k210_base_proje.Pipe.Inv.{IsValid, contents, length-contents}
use kendryte_k210_base_proje.Pipe.Write.{Appends, accepted, write_lem}
use kendryte_k210_base_proje.Pipe.Read.{Reading, live_prefix, read_start_lem, read_end_lem}

-- The pipe, the size of the block that is open (0 for none), all bytes that `Write` took so far,
-- and all bytes that the main code has read.
pub record World : Type 0 where
  pub pipe : Pipe
  pub block : ℕ
  pub sent : List ℕ
  pub got : List ℕ

pub data Step : World → World → Type 0 where
  -- the interrupt handler
  interrupt :
      {w : World} {n : ℕ} {q : Pipe} (bytes : List ℕ) (count : ℕ)
      → count ≤ length bytes
      → write w.pipe bytes count ≡ some (n, q)
      → Step w (record w { pipe = q; sent = w.sent ++ take n bytes })
  -- `ReadStart`
  open_block :
      {w : World}
      → w.block ≡ 0
      → Step w (record w { pipe = (read_start w.pipe).2; block = (read_start w.pipe).1 })
  -- the main code copies the block from its pointer, and calls `ReadEnd`
  close_block :
      {w : World} {bytes : List ℕ}
      → load w.pipe.buffer w.pipe.read_pos w.block ≡ some bytes
      → Step w (record w { pipe = read_end w.pipe; block = 0; got = w.got ++ bytes })

pub data Reach (s : World) : World → Type 0 where
  here : Reach s s
  next : {t u : World} → Reach s t → Step t u → Reach s u

pub record IsFifo (w : World) : Type 0 where
  pub valid : IsValid w.pipe
  pub reading : Reading w.pipe w.block
  pub in_order : w.got ++ contents w.pipe ≡ w.sent

abbrev pub fresh : List ℕ → ℕ → World
fresh storage size = record { pipe = init storage size; block = 0; sent = []; got = [] }

fresh-IsFifo :
    (storage : List ℕ) (size : ℕ) → IsValid (init storage size) → IsFifo (fresh storage size)
unfolding init
fresh-IsFifo storage size v = record {
  valid = v;
  reading = record { present = omega arith; in_one_piece = omega arith; next = ground arith };
  in_order = live_straight storage size 0 0 (omega arith);
}

-- A write leaves an open block as it is.
Appends-Reading :
    {p q : Pipe} {xs : List ℕ} {n : ℕ} → IsValid p → Appends p xs q → Reading p n → Reading q n
Appends-Reading {p} {q} {xs} {n} v a g = record {
  present = omega (
    arith,
    g.present,
    sym (length-contents v),
    sym (length-contents a.valid),
    ap length a.bytes,
    length-append (contents p) xs,
  );
  in_one_piece = rw (a.reader, a.capacity) g.in_one_piece;
  next = rw (a.reader, a.capacity) (a.session ∙ g.next);
}

-- The open block is the front of the contents.
block-contents :
    {w : World}
    → IsFifo w
    → load w.pipe.buffer w.pipe.read_pos w.block ≡ some (take w.block (contents w.pipe))
block-contents {w} f =
    let p : Pipe = w.pipe in
    load_lem p.buffer p.read_pos w.block (omega (arith, f.reading.in_one_piece, f.valid.storage))
    ∙ ap some (
        live_prefix p.buffer p.buffer_size p.read_pos p.write_pos w.block f.valid.storage
          f.reading.present f.reading.in_one_piece)

Step-IsFifo : {w u : World} → Step w u → IsFifo w → IsFifo u
Step-IsFifo (interrupt {w} {n} {q} bytes count h e) f =
    let (taken, a) = rw e at (write_lem bytes count f.valid h) in
    record {
      valid = a.valid;
      reading = Appends-Reading f.valid a f.reading;
      in_order =
          ap (λ l. w.got ++ l) (a.bytes ∙ ap (λ k. contents w.pipe ++ take k bytes) (sym taken))
          ∙ sym (append_assoc w.got (contents w.pipe) (take n bytes))
          ∙ ap (λ l. l ++ take n bytes) f.in_order;
    }
Step-IsFifo (open_block {w} z) f =
    let (_, _, same, valid, reading) = read_start_lem f.valid in
    record { valid = valid; reading = reading; in_order = ap (λ l. w.got ++ l) same ∙ f.in_order }
Step-IsFifo (close_block {w} {bytes} e) f =
    let (rest, valid, reading) = read_end_lem w.block f.valid f.reading in
    let b : bytes ≡ take w.block (contents w.pipe) = cc (e, block-contents f) in
    record {
      valid = valid;
      reading = reading;
      in_order =
          ap₂ (λ k l. (w.got ++ k) ++ l) b rest
          ∙ append_assoc w.got (take w.block (contents w.pipe)) (drop w.block (contents w.pipe))
          ∙ ap (λ l. w.got ++ l) (take-append-drop w.block (contents w.pipe))
          ∙ f.in_order;
    }

-- Under every interleaving of interrupts with the reader's calls, on a pipe that the constructor
-- made with a valid size: what the reader has got, followed by what is still in the pipe, is what
-- `Write` took, in order. No byte is lost, doubled or torn, also while a block is open.
pub Reach-IsFifo :
    (storage : List ℕ) (size : ℕ) {w : World}
    → IsValid (init storage size)
    → Reach (fresh storage size) w
    → IsFifo w
Reach-IsFifo storage size v here = fresh-IsFifo storage size v
Reach-IsFifo storage size v (next r s) = Step-IsFifo s (Reach-IsFifo storage size v r)

-- Under every interleaving of interrupts with the reader's calls, on a pipe that the constructor
-- made with a valid size, no call can get stuck: an interrupt with any bytes returns, and an open
-- block can be read and closed.
pub Reach-progress :
    (storage : List ℕ) (size : ℕ) {w : World}
    → IsValid (init storage size)
    → Reach (fresh storage size) w
    → (bytes : List ℕ)
    → Returns
        (write w.pipe bytes (length bytes))
        (λ r. Step w (record w { pipe = r.1; sent = w.sent ++ take r.0 bytes }))
      × Step w (record w {
        pipe = read_end w.pipe;
        block = 0;
        got = w.got ++ take w.block (contents w.pipe);
      })
Reach-progress storage size {w} v r bytes =
    let f = Reach-IsFifo storage size v r in
    (
      returned (write w.pipe bytes (length bytes)) bytes refl
          (write_lem bytes (length bytes) f.valid (omega arith)),
      close_block (block-contents f),
    )
  where
    returned :
        (m : Option (ℕ × Pipe)) (bytes : List ℕ)
        → write w.pipe bytes (length bytes) ≡ m
        → Returns m (λ s.
          (s.0 ≡ accepted w.pipe (length bytes))
          × Appends w.pipe (take (accepted w.pipe (length bytes)) bytes) s.1)
        → Returns m (λ s. Step w (record w { pipe = s.1; sent = w.sent ++ take s.0 bytes }))
    returned none bytes e h = h
    returned (some (n, q)) bytes e h = interrupt bytes (length bytes) (omega arith) e
