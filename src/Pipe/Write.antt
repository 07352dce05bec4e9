-- ===== src/Pipe/Write.antt =====
-- TBPipe::Write: how many bytes it takes, and what becomes of the contents.
use kendryte_k210_base_proje.Prelude.{
  ℕ, ◌+◌, ◌-◌, ◌*◌, ◌/◌, ◌≤◌, ◌<◌, min, ◌≡◌, ◌⊎◌, inl, inr, refl, sym, ap, ◌∙◌, List, [], ◌++◌,
  append-nil, arith, lt→ltb, le→leb, le→ltb_false, lt→leb_false, ne→==_false, ==_iff, Bool-cases,
  ◌==◌, if◌then◌else◌, length, take, sub32, add32, some, Returns, Returns_of_eq, dec_lt, dec_le,
}
use kendryte_k210_base_proje.Memory.{seg, put, memcpy, memcpy_lem, length-seg, length-put, seg-add}
use kendryte_k210_base_proje.Pipe.{Pipe, write_count, write_bytes, publish, write}
use kendryte_k210_base_proje.Pipe.Contents.{
  live-put_wrapped, live-put_straight, live-put_to_end, live-put_split,
}
use kendryte_k210_base_proje.Pipe.Inv.{IsValid, contents, bytes_used, free_bytes-used}

-- the bytes that a call of `Write` takes: what fits, in a multiple of eight, if not all
abbrev pub accepted : Pipe → ℕ → ℕ
accepted p count = min count ((p.buffer_size - 1 - bytes_used p) / 8 * 8)

write_count-accepted : {p : Pipe} (count : ℕ) → IsValid p → write_count p count ≡ accepted p count
unfolding write_count
write_count-accepted {p} count v = ground (arith, free_bytes-used v)

-- what a write of the bytes `xs` leaves
pub record Appends (p : Pipe) (xs : List ℕ) (q : Pipe) : Type 0 where
  pub valid : IsValid q
  pub bytes : contents q ≡ contents p ++ xs
  pub reader : q.read_pos ≡ p.read_pos
  pub session : q.read_pos_tmp ≡ p.read_pos_tmp
  pub capacity : q.buffer_size ≡ p.buffer_size

-- the pipe with another storage of the same size and another write position
abbrev moved : Pipe → List ℕ → ℕ → Pipe
moved p buf w = record p { buffer = buf; write_pos = w }

moved-IsValid :
    {p : Pipe} (buf : List ℕ) (w : ℕ)
    → IsValid p
    → length buf ≡ length p.buffer
    → w < p.buffer_size
    → IsValid (moved p buf w)
moved-IsValid buf w v e h = record {
  storage = e ∙ v.storage;
  positive = v.positive;
  small = v.small;
  read_in = v.read_in;
  write_in = h;
}

moved-Appends :
    {p : Pipe} (xs buf : List ℕ) (w : ℕ)
    → IsValid p
    → length buf ≡ length p.buffer
    → w < p.buffer_size
    → contents (moved p buf w) ≡ contents p ++ xs
    → Appends p xs (moved p buf w)
moved-Appends xs buf w v e h c = record {
  valid = moved-IsValid buf w v e h;
  bytes = c;
  reader = refl;
  session = refl;
  capacity = refl;
}

module _ {p : Pipe} (v : IsValid p) (bytes : List ℕ) (n : ℕ) (enough : n ≤ length bytes) where
  open p use {buffer, buffer_size, read_pos, write_pos}

  abbrev xs : List ℕ
  xs = seg bytes 0 n

  length-xs : length xs ≡ n
  length-xs = length-seg bytes 0 n (omega arith)

  -- one copy, which ends in the storage
  straight_copy :
      write_pos + n ≤ buffer_size
      → memcpy buffer write_pos bytes 0 n ≡ some (put buffer write_pos xs)
  straight_copy h = memcpy_lem buffer write_pos bytes 0 n (omega (arith, v.storage)) (omega arith)

  no_wrap : write_pos + n ≤ buffer_size → add32 write_pos n ≡ write_pos + n
  no_wrap h = omega (arith, v.small)

  write_bytes_below :
      write_pos < read_pos
      → write_pos + n ≤ buffer_size
      → write_bytes p bytes n ≡ some (publish p (put buffer write_pos xs) (write_pos + n) n)
  unfolding write_bytes
  write_bytes_below c h = rw (lt→ltb write_pos read_pos c, straight_copy h, no_wrap h)

  write_bytes_straight :
      read_pos ≤ write_pos
      → write_pos + n ≤ buffer_size
      → write_bytes p bytes n ≡ some (publish p (put buffer write_pos xs) (write_pos + n) n)
  unfolding write_bytes
  write_bytes_straight c h =
      let fits : n ≤ sub32 buffer_size write_pos = omega (arith, v.small, v.write_in) in
      rw (
        le→ltb_false write_pos read_pos c,
        le→leb n (sub32 buffer_size write_pos) fits,
        straight_copy h,
        no_wrap h,
      )

  -- two copies
  module _ (hr : read_pos ≤ write_pos) (hw : buffer_size < write_pos + n) where
    abbrev m : ℕ
    m = buffer_size - write_pos

    abbrev split_buffer : List ℕ
    split_buffer = put (put buffer write_pos (seg bytes 0 m)) 0 (seg bytes m (n - m))

    length-first : length (seg bytes 0 m) ≡ m
    length-first = length-seg bytes 0 m (omega arith)

    length-once : length (put buffer write_pos (seg bytes 0 m)) ≡ length buffer
    length-once =
        length-put buffer write_pos (seg bytes 0 m)
          (omega (arith, v.storage, v.write_in, length-first))

    write_bytes_split :
        write_pos + n < buffer_size + read_pos
        → write_bytes p bytes n ≡ some (publish p split_buffer (n - m) n)
    unfolding write_bytes
    write_bytes_split hs =
        let em : sub32 buffer_size write_pos ≡ m = omega (arith, v.small, v.write_in) in
        let en : sub32 n m ≡ n - m = omega (arith, v.small, v.write_in, v.read_in) in
        let first =
          memcpy_lem buffer write_pos bytes 0 m (omega (arith, v.storage, v.write_in))
            (omega arith) in
        let second =
          memcpy_lem (put buffer write_pos (seg bytes 0 m)) 0 bytes m (n - m)
            (omega (arith, length-once, v.storage, v.read_in)) (omega arith) in
        rw (
          le→ltb_false write_pos read_pos hr,
          em,
          lt→leb_false n m (omega arith),
          first,
          en,
          second,
        )

    split_Appends :
        write_pos + n < buffer_size + read_pos → Appends p xs (publish p split_buffer (n - m) n).1
    split_Appends hs =
        let second : List ℕ = seg bytes m (n - m) in
        let length-second : length second ≡ n - m = length-seg bytes m (n - m) (omega arith) in
        let whole : xs ≡ seg bytes 0 m ++ second =
          ap (λ k. seg bytes 0 k) (omega arith)
          ∙ seg-add bytes 0 m (n - m)
          ∙ ap (λ k. seg bytes 0 m ++ seg bytes k (n - m)) (omega arith) in
        let e : (if n - m == buffer_size then 0 else n - m) ≡ length second =
          rw (ne→==_false (n - m) buffer_size (omega (arith, v.read_in))) (sym length-second) in
        let body =
          live-put_split buffer buffer_size read_pos write_pos (seg bytes 0 m) v.storage second hr
            (omega (arith, length-first, v.write_in)) (omega (arith, length-second)) in
        rw e (
          moved-Appends xs split_buffer (length second) v
            (length-put (put buffer write_pos (seg bytes 0 m)) 0 second
                (omega (arith, length-second, length-once, v.storage, v.read_in))
              ∙ length-once)
            (omega (arith, length-second, v.read_in, v.write_in))
            (body ∙ ap (λ l. contents p ++ l) (sym whole)))

  straight_length : write_pos + n ≤ buffer_size → length (put buffer write_pos xs) ≡ length buffer
  straight_length h = length-put buffer write_pos xs (omega (arith, length-xs, v.storage))

  -- the position that is published after one copy
  straight_Appends :
      (write_pos + n < read_pos)
        ⊎ ((read_pos ≤ write_pos) × (write_pos + n < buffer_size + read_pos))
      → write_pos + n ≤ buffer_size
      → Appends p xs (publish p (put buffer write_pos xs) (write_pos + n) n).1
  straight_Appends (inl below) h =
      let e : (if write_pos + n == buffer_size then 0 else write_pos + n) ≡ write_pos + length xs =
        rw (ne→==_false (write_pos + n) buffer_size (omega (arith, v.read_in)), length-xs) in
      rw e (
        moved-Appends xs (put buffer write_pos xs) (write_pos + length xs) v (straight_length h)
          (omega (arith, length-xs, v.read_in))
          (live-put_wrapped buffer buffer_size read_pos write_pos xs v.storage v.read_in
            (omega (arith, length-xs))))
  straight_Appends (inr (hr, room)) h = elim (dec_lt (write_pos + n) buffer_size) [
    | yes short ↦
        let e : (if write_pos + n == buffer_size then 0 else write_pos + n)
            ≡ write_pos + length xs =
          rw (ne→==_false (write_pos + n) buffer_size (omega arith), length-xs) in
        rw e (
          moved-Appends xs (put buffer write_pos xs) (write_pos + length xs) v (straight_length h)
            (omega (arith, length-xs))
            (live-put_straight buffer buffer_size read_pos write_pos xs v.storage hr
              (omega (arith, length-xs))))
    | no full ↦
        let e : (if write_pos + n == buffer_size then 0 else write_pos + n) ≡ 0 =
          rw ((==_iff (write_pos + n) buffer_size).1 (omega arith)) in
        rw e (
          moved-Appends xs (put buffer write_pos xs) 0 v (straight_length h) v.positive (
            live-put_to_end buffer buffer_size read_pos write_pos xs v.storage hr (omega arith)
              (omega (arith, length-xs))))
  ]

  -- The copies append the bytes, if these fit.
  write_bytes_lem :
      n ≤ buffer_size - 1 - bytes_used p
      → Returns (write_bytes p bytes n) (λ r. (r.0 ≡ n) × Appends p xs r.1)
  write_bytes_lem h = elim (dec_lt write_pos read_pos) [
    | yes c ↦
        let room : write_pos + n < read_pos = ground (arith, v.read_in) in
        Returns_of_eq _ (write_bytes_below c (omega (arith, v.read_in)))
          (refl, straight_Appends (inl room) (omega (arith, v.read_in)))
    | no c ↦
        let hr : read_pos ≤ write_pos = omega arith in
        let room : write_pos + n < buffer_size + read_pos =
          ground (arith, v.write_in, v.positive) in
        elim (dec_le (write_pos + n) buffer_size) [
          | yes k ↦
              Returns_of_eq _ (write_bytes_straight hr k)
                (refl, straight_Appends (inr (hr, room)) k)
          | no k ↦
              Returns_of_eq _ (write_bytes_split hr (omega arith) room)
                (refl, split_Appends hr (omega arith) room)
        ]
  ]

Appends-nil : {p : Pipe} → IsValid p → Appends p [] p
Appends-nil {p} v = record {
  valid = v;
  bytes = sym (append-nil (contents p));
  reader = refl;
  session = refl;
  capacity = refl;
}

-- In every valid state `Write` stays inside its buffers and takes as many of the `count` bytes as
-- it is given, or as many as fit, rounded down to a multiple of eight, if that is fewer. It appends
-- exactly those bytes, in order, and leaves the reader's positions alone.
pub write_lem :
    {p : Pipe} (bytes : List ℕ) (count : ℕ)
    → IsValid p
    → count ≤ length bytes
    → Returns
        (write p bytes count)
        (λ r. (r.0 ≡ accepted p count) × Appends p (take (accepted p count) bytes) r.1)
unfolding write
write_lem {p} bytes count v h =
    let e = write_count-accepted count v in
    elim (Bool-cases (write_count p count == 0)) [
      | inl none_taken ↦
          let z : write_count p count ≡ 0 = (==_iff (write_count p count) 0).0 none_taken in
          rw (none_taken, ← e, z) (refl, Appends-nil v)
      | inr some_taken ↦ rw some_taken (
          rw (← e)
            (write_bytes_lem v bytes (write_count p count) (omega (arith, e)) (omega (arith, e))))
    ]
