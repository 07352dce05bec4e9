-- ===== src/Pipe/Read.antt =====
-- drivers/TBPipe/TBPipe.cpp: TBPipe::ReadStart and TBPipe::ReadEnd.
use kendryte_k210_base_proje.Prelude.{
  ℕ, ◌+◌, ◌-◌, ◌≤◌, ◌<◌, min, ◌≡◌, inl, inr, refl, sym, ap, ap₂, ◌∙◌, List, [], ◌++◌, arith,
  ne→==_false, ==_iff, Bool-cases, ◌==◌, if◌then◌else◌, length, take, drop, Option, some, none,
  Returns, Returns_of_eq, dec_lt, ℕ_discrete, take-take, drop-take, take-append_le, drop-append_le,
  drop-drop,
}
use kendryte_k210_base_proje.Memory.{seg, load, load_lem, length-seg}
use kendryte_k210_base_proje.Pipe.{Pipe, read_start, read_end}
use kendryte_k210_base_proje.Pipe.Contents.{live, used, live_wrapped, live_straight}
use kendryte_k210_base_proje.Pipe.Inv.{IsValid, contents, bytes_used}

module _ (buf : List ℕ) (size r w n : ℕ) (e : length buf ≡ size) where
  -- The first bytes stand in the storage in one piece, up to its end.
  pub live_prefix : n ≤ used size r w → r + n ≤ size → seg buf r n ≡ take n (live buf size r w)
  live_prefix h k = elim (dec_lt w r) [
    | yes wrapped ↦ rw live_wrapped (
        sym (
          take-append_le n (seg buf r (size - r)) (seg buf 0 w)
            (omega (arith, length-seg buf r (size - r)))
          ∙ take-take n (size - r) (drop r buf) (omega arith)))
    | no straight ↦
        rw (live_straight buf size r w (omega arith))
          (sym (take-take n (w - r) (drop r buf) (ground arith)))
  ]

  -- Reading them moves the read position,
  pub live_advance :
      n ≤ used size r w → r + n ≤ size → live buf size (r + n) w ≡ drop n (live buf size r w)
  live_advance h k = elim (dec_lt w r) [
    | yes wrapped ↦
        live_wrapped buf size (r + n) w (omega arith)
        ∙ ap (λ l. l ++ seg buf 0 w)
            (sym (drop-take n (size - r) (drop r buf) ∙ ap₂ take (omega arith) (drop-drop n r buf)))
        ∙ sym (
            ap (drop n) (live_wrapped buf size r w wrapped)
            ∙ drop-append_le n (seg buf r (size - r)) (seg buf 0 w)
                (omega (arith, length-seg buf r (size - r))))
    | no straight ↦
        live_straight buf size (r + n) w (ground arith)
        ∙ sym (
            ap (drop n) (live_straight buf size r w (omega arith))
            ∙ drop-take n (w - r) (drop r buf)
            ∙ ap₂ take (omega arith) (drop-drop n r buf))
  ]

  -- which may stand at the end of the storage as well as at its start.
  live_end : r + n ≡ size → w < size → live buf size (r + n) w ≡ live buf size 0 w
  live_end k h =
      let z : size - (r + n) ≡ 0 = omega arith in
      live_wrapped buf size (r + n) w (omega arith)
      ∙ ap (λ m. take m (drop (r + n) buf) ++ seg buf 0 w) z
      ∙ sym (live_straight buf size 0 w (omega arith) ∙ ap (seg buf 0) (omega arith))

  -- the position that `ReadStart` computes
  abbrev wrap : ℕ
  wrap = if r + n == size then 0 else r + n

  live-wrap :
      n ≤ used size r w
      → r + n ≤ size
      → w < size
      → live buf size wrap w ≡ drop n (live buf size r w)
  live-wrap h k hw = elim (ℕ_discrete (r + n) size) [
    | yes end ↦ rw ((==_iff (r + n) size).1 end) (sym (live_end end hw) ∙ live_advance h k)
    | no within ↦ rw (ne→==_false (r + n) size within) (live_advance h k)
  ]

-- `n` bytes are out for reading: `ReadEnd` will drop them.
pub record Reading (p : Pipe) (n : ℕ) : Type 0 where
  pub present : n ≤ bytes_used p
  pub in_one_piece : p.read_pos + n ≤ p.buffer_size
  pub next : p.read_pos_tmp ≡ (if p.read_pos + n == p.buffer_size then 0 else p.read_pos + n)

-- the bytes that `ReadStart` offers: those up to the end of the storage
abbrev pub offered : Pipe → ℕ
offered p = min (bytes_used p) (p.buffer_size - p.read_pos)

-- what a caller reads through `data` and `size`
pub chunk : Pipe → Option ℕ → ℕ → Option (List ℕ)
unfolding load
chunk p none size = if size == 0 then some [] else none
chunk p (some i) size = load p.buffer i size

module _ {p : Pipe} (v : IsValid p) where
  read_start_size : (read_start p).1 ≡ offered p
  unfolding read_start
  read_start_size = ground (arith, v.read_in, v.write_in, v.small)

  read_start_pipe : (read_start p).2 ≡ record p {
    read_pos_tmp = if p.read_pos + offered p == p.buffer_size then 0 else p.read_pos + offered p;
  }
  unfolding read_start
  read_start_pipe = ground (arith, v.read_in, v.write_in, v.small)

  read_start_data : (read_start p).0 ≡ (if p.write_pos == p.read_pos then none else some p.read_pos)
  unfolding read_start
  read_start_data = ground arith

  chunk-offered :
      Returns
        (chunk p (if p.write_pos == p.read_pos then none else some p.read_pos) (offered p))
        (λ bytes. bytes ≡ take (offered p) (contents p))
  unfolding chunk
  chunk-offered = elim (Bool-cases (p.write_pos == p.read_pos)) [
    | inl same ↦ let z : offered p ≡ 0 = ground arith in rw (same, z)
    | inr differ ↦ rw differ (
        Returns_of_eq (λ bytes. bytes ≡ take (offered p) (contents p))
          (load_lem p.buffer p.read_pos (offered p) (omega (arith, v.read_in, v.storage)))
          (live_prefix p.buffer p.buffer_size p.read_pos p.write_pos (offered p) v.storage
            (omega arith) (omega (arith, v.read_in))))
  ]

-- In every valid state `ReadStart` offers the first bytes of the contents, as many as stand in one
-- piece before the end of the storage, and they can be read through the pointer without a fault.
-- It changes no byte, and what `ReadEnd` will drop is what was offered.
pub read_start_lem :
    {p : Pipe}
    → IsValid p
    → let (at, n, q) = read_start p in
      (n ≡ offered p)
      × Returns (chunk p at n) (λ bytes. bytes ≡ take n (contents p))
      × (contents q ≡ contents p)
      × IsValid q
      × Reading q n
read_start_lem {p} v =
    rw (read_start_size v, read_start_pipe v, read_start_data v)
      (
        refl,
        chunk-offered v,
        refl,
        record {
          storage = v.storage;
          positive = v.positive;
          small = v.small;
          read_in = v.read_in;
          write_in = v.write_in;
        },
        record { present = omega arith; in_one_piece = omega (arith, v.read_in); next = refl },
      )

-- In a valid state with `n` bytes out, `ReadEnd` drops exactly those, and none is out after it.
pub read_end_lem :
    {p : Pipe} (n : ℕ)
    → IsValid p
    → Reading p n
    → (contents (read_end p) ≡ drop n (contents p)) × IsValid (read_end p) × Reading (read_end p) 0
unfolding read_end
read_end_lem {p} n v g =
    let inside : p.read_pos_tmp < p.buffer_size = ground (arith, v.positive) in
    (
      rw g.next (
          live-wrap p.buffer p.buffer_size p.read_pos p.write_pos n v.storage g.present
            g.in_one_piece v.write_in),
      record {
        storage = v.storage;
        positive = v.positive;
        small = v.small;
        read_in = omega arith;
        write_in = v.write_in;
      },
      record { present = omega arith; in_one_piece = omega arith; next = ground arith },
    )
