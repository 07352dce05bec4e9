-- ===== src/Pipe/Exact.antt =====
-- TBPipe::ReadExact and TBPipe::Clear.
use kendryte_k210_base_proje.Prelude.{
  ℕ, zero, suc, Bool, inl, inr, ◌+◌, ◌-◌, ◌≤◌, ◌<◌, ◌≡◌, ◌⊎◌, refl, sym, ap, ap₂, ◌∙◌, List, [],
  ◌++◌, append-nil, arith, ltb, lt→ltb, le→leb, le→ltb_false, lt→leb_false, ne→==_false, length,
  take, drop, sub32, add32, some, true, false, Returns, Returns_of_eq, dec_lt, dec_le, take-take,
  drop-take, take-append_ge, drop-append_past, drop_all,
}
use native.Mathlib.Nat.{add-zero, zero-add}
use kendryte_k210_base_proje.Memory.{seg, load_lem, length-seg}
use kendryte_k210_base_proje.Pipe.{Pipe, read_start, read_end, read_rest, read_exact, clear}
use kendryte_k210_base_proje.Pipe.{available_bytes}
use kendryte_k210_base_proje.Pipe.Contents.{live_wrapped, live_straight}
use kendryte_k210_base_proje.Pipe.Inv.{
  IsValid, contents, bytes_used, length-contents, available_bytes-used, bytes_used-lt,
}
use kendryte_k210_base_proje.Pipe.Read.{
  offered, live_prefix, live_advance, read_start_lem, read_end_lem,
}

-- what a successful `ReadExact` of `count` bytes returns
pub record Takes (p : Pipe) (count : ℕ) (r : Bool × List ℕ × Pipe) : Type 0 where
  pub success : r.0 ≡ true
  pub bytes : r.1 ≡ take count (contents p)
  pub rest : contents r.2 ≡ drop count (contents p)
  pub valid : IsValid r.2

module _ {p : Pipe} (v : IsValid p) where
  open p use {buffer, buffer_size, read_pos, write_pos}

  -- the pipe with another read position
  at_pos : ℕ → Pipe
  at_pos r = record p { read_pos = r }

  at_pos-IsValid : (r : ℕ) → r ≤ buffer_size → IsValid (at_pos r)
  unfolding at_pos
  at_pos-IsValid r h = record {
    storage = v.storage;
    positive = v.positive;
    small = v.small;
    read_in = h;
    write_in = v.write_in;
  }

  read_rest_none : (r : ℕ) (got : List ℕ) → read_rest p r 0 got ≡ some (true, got, at_pos r)
  unfolding read_rest at_pos
  read_rest_none r got = refl

  read_rest_lem :
      (r n : ℕ) (got : List ℕ)
      → r + n < buffer_size
      → read_rest p r n got ≡ some (true, got ++ seg buffer r n, at_pos (r + n))
  unfolding read_rest at_pos
  read_rest_lem r zero got h = rw (append-nil, add-zero)
  read_rest_lem r (suc n) got h =
      let e : add32 r (suc n) ≡ r + suc n = omega (arith, v.small) in
      rw (
        lt→ltb 0 (suc n) (omega arith),
        load_lem buffer r (suc n) (omega (arith, v.storage)),
        e,
        ne→==_false (r + suc n) buffer_size (omega arith),
      )

  module _ (n : ℕ) (enough : n ≤ bytes_used p) where
    not_short : ltb (available_bytes p) n ≡ false
    not_short = le→ltb_false _ n (rw (available_bytes-used v) enough)

    -- all bytes before the end of the storage, with the write position behind the wrap
    exact_before_end :
        write_pos < read_pos
        → n ≤ buffer_size - read_pos
        → read_exact p n ≡ some (true, seg buffer read_pos n, at_pos (read_pos + n))
    unfolding read_exact
    exact_before_end w h =
        let es : sub32 buffer_size read_pos ≡ buffer_size - read_pos =
          omega (arith, v.small, v.read_in) in
        let e : add32 read_pos n ≡ read_pos + n = omega (arith, v.small, v.read_in) in
        rw (
          not_short,
          lt→ltb write_pos read_pos w,
          es,
          le→leb n (buffer_size - read_pos) h,
          load_lem buffer read_pos n (omega (arith, v.storage, v.read_in)),
          e,
          read_rest_none (read_pos + n) (seg buffer read_pos n),
        )

    exact_round_end :
        write_pos < read_pos
        → buffer_size - read_pos < n
        → let m = buffer_size - read_pos in
          read_exact p n
          ≡ some (true, seg buffer read_pos m ++ seg buffer 0 (n - m), at_pos (n - m))
    unfolding read_exact
    exact_round_end w h =
        let m : ℕ = buffer_size - read_pos in
        let es : sub32 buffer_size read_pos ≡ m = omega (arith, v.small, v.read_in) in
        let en : sub32 n m ≡ n - m = ground (arith, v.small, v.read_in, v.write_in) in
        let rest = read_rest_lem 0 (n - m) (seg buffer read_pos m) (ground (arith, v.write_in)) in
        rw (
          not_short,
          lt→ltb write_pos read_pos w,
          es,
          lt→leb_false n m h,
          load_lem buffer read_pos m (omega (arith, v.storage, v.read_in)),
          en,
          rest,
          zero-add,
        )

    exact_straight :
        read_pos ≤ write_pos
        → read_exact p n ≡ some (true, seg buffer read_pos n, at_pos (read_pos + n))
    unfolding read_exact
    exact_straight w = rw (
      not_short,
      le→ltb_false write_pos read_pos w,
      read_rest_lem read_pos n [] (ground (arith, v.write_in)),
    )

    one_piece :
        read_pos + n ≤ buffer_size → Takes p n (true, seg buffer read_pos n, at_pos (read_pos + n))
    unfolding at_pos
    one_piece h = record {
      success = refl;
      bytes = live_prefix buffer buffer_size read_pos write_pos n v.storage enough h;
      rest = live_advance buffer buffer_size read_pos write_pos n v.storage enough h;
      valid = at_pos-IsValid (read_pos + n) h;
    }

    two_pieces :
        write_pos < read_pos
        → buffer_size - read_pos < n
        → let m = buffer_size - read_pos in
          Takes p n (true, seg buffer read_pos m ++ seg buffer 0 (n - m), at_pos (n - m))
    unfolding at_pos
    two_pieces w h =
        let m : ℕ = buffer_size - read_pos in
        let xs : List ℕ = seg buffer read_pos m in
        let ys : List ℕ = seg buffer 0 write_pos in
        let lx : length xs ≡ m =
          length-seg buffer read_pos m (omega (arith, v.storage, v.read_in)) in
        let below : n - m ≤ write_pos = ground arith in
        record {
          success = refl;
          bytes = rw (live_wrapped buffer buffer_size read_pos write_pos w) (
              sym (
                take-append_ge n xs ys (omega arith)
                ∙ ap (λ k. xs ++ take k ys) (ap (λ k. n - k) lx)
                ∙ ap (λ l. xs ++ l) (take-take (n - m) write_pos buffer below)));
          rest =
              live_straight buffer buffer_size (n - m) write_pos below
              ∙ sym (
                  ap (drop n) (live_wrapped buffer buffer_size read_pos write_pos w)
                  ∙ drop-append_past n xs ys (omega arith)
                  ∙ ap (λ k. drop (n - k) ys) lx
                  ∙ drop-take (n - m) write_pos buffer);
          valid = at_pos-IsValid (n - m) (omega (arith, v.write_in));
        }

-- In a valid state with at least `count` bytes, `ReadExact` succeeds without a fault: it returns
-- the first `count` bytes, round the end of the storage too, and removes exactly those.
pub read_exact_lem :
    {p : Pipe} (count : ℕ)
    → IsValid p
    → count ≤ length (contents p)
    → Returns (read_exact p count) (λ r. Takes p count r)
read_exact_lem {p} count v h =
    let enough : count ≤ bytes_used p = omega (arith, length-contents v) in
    elim (dec_lt p.write_pos p.read_pos) [
      | yes w ↦ elim (dec_le count (p.buffer_size - p.read_pos)) [
        | yes k ↦
            Returns_of_eq _ (exact_before_end v count enough w k)
              (one_piece v count enough (omega (arith, v.read_in)))
        | no k ↦
            Returns_of_eq _ (exact_round_end v count enough w (omega arith))
              (two_pieces v count enough w (omega arith))
      ]
      | no w ↦
          Returns_of_eq _ (exact_straight v count enough (omega arith))
            (one_piece v count enough (ground (arith, v.write_in)))
    ]

-- In a valid state with fewer than `count` bytes, `ReadExact` returns false and changes nothing.
read_exact_short :
    {p : Pipe} (count : ℕ)
    → IsValid p
    → length (contents p) < count
    → read_exact p count ≡ some (false, [], p)
unfolding read_exact
read_exact_short {p} count v h =
    let short : available_bytes p < count =
      omega (arith, length-contents v, available_bytes-used v) in
    rw (lt→ltb (available_bytes p) count short)

-- one round of `Clear`
abbrev round : Pipe → Pipe
round p = read_end (read_start p).2

module _ {p : Pipe} (v : IsValid p) where
  round-contents : (contents (round p) ≡ drop (offered p) (contents p)) × IsValid (round p)
  round-contents =
      let (size, _, same, valid, out) = read_start_lem v in
      let (rest, valid', _) = read_end_lem (read_start p).1 valid out in
      (rest ∙ ap₂ drop size same, valid')

  -- a round that does not reach the start of the storage takes everything
  round_position : (offered p ≡ bytes_used p) ⊎ ((round p).read_pos ≡ 0)
  unfolding read_start read_end
  round_position = ground (arith, v.read_in, v.write_in, v.small)

  round_takes_all : offered p ≡ bytes_used p → contents (round p) ≡ []
  round_takes_all e =
      round-contents.0 ∙ drop_all (offered p) (contents p) (omega (arith, length-contents v))

-- `Clear` empties every valid pipe: two rounds are enough, whatever the positions are.
contents-clear : {p : Pipe} → IsValid p → (contents (clear p) ≡ []) × IsValid (clear p)
unfolding clear
contents-clear {p} v =
    let q : Pipe = round p in
    let w : IsValid q = (round-contents v).1 in
    let all : offered q ≡ bytes_used q = elim (round_position v) [
      | inl e ↦
          let gone : bytes_used q ≡ 0 = sym (length-contents w) ∙ ap length (round_takes_all v e) in
          omega arith
      | inr start ↦ omega (arith, bytes_used-lt w, w.write_in)
    ] in
    (round_takes_all w all, (round-contents w).1)
