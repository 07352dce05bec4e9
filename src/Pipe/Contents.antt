-- ===== src/Pipe/Contents.antt =====
-- The bytes of a ring between two positions, and what a write behind them makes of them.
use kendryte_k210_base_proje.Prelude.{
  ℕ, ◌+◌, ◌-◌, ◌≤◌, ◌<◌, ◌≡◌, sym, ap, ap₂, ◌∙◌, List, ◌++◌, append-nil, append_assoc, arith, ltb,
  lt→ltb, if◌then◌else◌, length, length-append,
}
use kendryte_k210_base_proje.Memory.{
  seg, put, length-seg, seg-put_above, seg-put_extend, seg-put_self,
}

-- from `r` up to `w`, going round at `size`
unfoldable pub live : List ℕ → ℕ → ℕ → ℕ → List ℕ
live buf size r w = if ltb w r then seg buf r (size - r) ++ seg buf 0 w else seg buf r (w - r)

-- their number
abbrev pub used : ℕ → ℕ → ℕ → ℕ
used size r w = if ltb w r then size - r + w else w - r

module _ (buf : List ℕ) (size r w : ℕ) where
  pub live_wrapped : w < r → live buf size r w ≡ seg buf r (size - r) ++ seg buf 0 w
  unfolding live
  live_wrapped h = rw (lt→ltb w r h)

  pub live_straight : r ≤ w → live buf size r w ≡ seg buf r (w - r)
  unfolding live
  live_straight h = ground arith

  pub length-live :
      length buf ≡ size → r ≤ size → w < size → length (live buf size r w) ≡ used size r w
  unfolding live
  length-live e hr hw = ground (
    arith,
    length-append (seg buf r (size - r)) (seg buf 0 w),
    length-seg buf r (size - r),
    length-seg buf 0 w,
    length-seg buf r (w - r),
  )

module _ (buf : List ℕ) (size r w : ℕ) (xs : List ℕ) (e : length buf ≡ size) where
  -- a write below the read position
  pub live-put_wrapped :
      r ≤ size
      → w + length xs < r
      → live (put buf w xs) size r (w + length xs) ≡ live buf size r w ++ xs
  live-put_wrapped hr h =
      live_wrapped (put buf w xs) size r (w + length xs) h
      ∙ ap₂ ◌++◌ (seg-put_above buf w r (size - r) xs (omega arith))
          (seg-put_extend buf 0 w w xs (omega arith) (omega arith))
      ∙ sym (append_assoc (seg buf r (size - r)) (seg buf 0 w) xs)
      ∙ ap (λ l. l ++ xs) (sym (live_wrapped buf size r w (omega arith)))

  -- the segment from `r` to the end of such a write
  straight_segment :
      r ≤ w
      → w ≤ size
      → (n : ℕ) → n ≡ w - r + length xs
      → seg (put buf w xs) r n ≡ live buf size r w ++ xs
  straight_segment h hw n en =
      ap (seg (put buf w xs) r) en
      ∙ seg-put_extend buf r (w - r) w xs (omega arith) (omega arith)
      ∙ ap (λ l. l ++ xs) (sym (live_straight buf size r w h))

  -- a write that ends before the end of the storage
  pub live-put_straight :
      r ≤ w
      → w + length xs < size
      → live (put buf w xs) size r (w + length xs) ≡ live buf size r w ++ xs
  live-put_straight h hw =
      live_straight (put buf w xs) size r (w + length xs) (omega arith)
      ∙ straight_segment h (omega arith) (w + length xs - r) (omega arith)

  -- a write that ends at the end of the storage
  pub live-put_to_end :
      r ≤ w → 0 < r → w + length xs ≡ size → live (put buf w xs) size r 0 ≡ live buf size r w ++ xs
  live-put_to_end h hr hw =
      live_wrapped (put buf w xs) size r 0 hr
      ∙ append-nil (seg (put buf w xs) r (size - r))
      ∙ straight_segment h (omega arith) (size - r) (omega arith)

  -- a write in two parts, the second from the start of the storage
  pub live-put_split :
      (ys : List ℕ)
      → r ≤ w
      → w + length xs ≡ size
      → length ys < r
      → live (put (put buf w xs) 0 ys) size r (length ys) ≡ live buf size r w ++ (xs ++ ys)
  live-put_split ys h hw hy =
      live_wrapped (put (put buf w xs) 0 ys) size r (length ys) hy
      ∙ ap₂ ◌++◌
          (seg-put_above (put buf w xs) 0 r (size - r) ys (omega arith)
            ∙ straight_segment h (omega arith) (size - r) (omega arith))
          (seg-put_self (put buf w xs) 0 ys (omega arith))
      ∙ append_assoc (live buf size r w) xs ys
