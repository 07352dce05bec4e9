-- ===== src/Memory.antt =====
-- Byte buffers behind pointers: blocks read and written at an offset. What C leaves undefined, an
-- access outside the buffer, is the fault `none`.
use kendryte_k210_base_proje.Prelude.{
  ℕ, zero, suc, ◌+◌, ◌-◌, ◌≤◌, ◌≡◌, refl, sym, ap, ap₂, ◌∙◌, Option, none, some, List, [], ◌∷◌,
  ◌++◌, arith, leb, if◌then◌else◌, length, take, drop, length-append, length-take, length-drop,
  take-append, drop-append_ge, take-nil, drop-drop, ◌>>=◌,
}

module _ {ℓ} {A : Type ℓ} where
  -- the `n` elements from offset `i` on
  abbrev pub seg : List A → ℕ → ℕ → List A
  seg buf i n = take n (drop i buf)

  -- `xs` written over the elements from offset `i` on
  abbrev pub put : List A → ℕ → List A → List A
  put buf zero xs = xs ++ drop (length xs) buf
  put [] (suc i) xs = []
  put (b ∷ buf) (suc i) xs = b ∷ put buf i xs

  unfoldable pub load : List A → ℕ → ℕ → Option (List A)
  load buf i n = if leb (i + n) (length buf) then some (seg buf i n) else none

  unfoldable pub store : List A → ℕ → List A → Option (List A)
  store buf i xs = if leb (i + length xs) (length buf) then some (put buf i xs) else none

  -- `memcpy(dst + i, src + j, n)`; with `src` the buffer `dst` itself it is `memmove`
  unfoldable pub memcpy : List A → ℕ → List A → ℕ → ℕ → Option (List A)
  unfolding load store
  memcpy dst i src j n = do xs ← load src j n; store dst i xs

module _ {ℓ} {A : Type ℓ} where
  pub length-seg : (buf : List A) (i n : ℕ) → i + n ≤ length buf → length (seg buf i n) ≡ n
  length-seg buf i n h = omega (arith, length-take n (drop i buf), length-drop i buf)

  pub length-put :
      (buf : List A) (i : ℕ) (xs : List A)
      → i + length xs ≤ length buf
      → length (put buf i xs) ≡ length buf
  length-put buf zero xs h =
      omega (arith, length-append xs (drop (length xs) buf), length-drop (length xs) buf)
  length-put [] (suc i) xs h = refl
  length-put (b ∷ buf) (suc i) xs h = ap suc (length-put buf i xs (omega arith))

  pub load_lem : (buf : List A) (i n : ℕ) → i + n ≤ length buf → load buf i n ≡ some (seg buf i n)
  unfolding load
  load_lem buf i n h = ground arith

  pub store_lem :
      (buf : List A) (i : ℕ) (xs : List A)
      → i + length xs ≤ length buf
      → store buf i xs ≡ some (put buf i xs)
  unfolding store
  store_lem buf i xs h = ground arith

  pub memcpy_lem :
      (dst : List A) (i : ℕ) (src : List A) (j n : ℕ)
      → i + n ≤ length dst
      → j + n ≤ length src
      → memcpy dst i src j n ≡ some (put dst i (seg src j n))
  unfolding memcpy
  memcpy_lem dst i src j n hd hs = ground (arith, length-seg src j n)

  pub take-add : (m n : ℕ) (xs : List A) → take (m + n) xs ≡ take m xs ++ take n (drop m xs)
  take-add zero n xs = ap (λ k. take k xs) (omega arith)
  take-add (suc m) n [] = take-nil (suc m + n) ∙ sym (take-nil n)
  take-add (suc m) n (x ∷ xs) = ap (λ k. take k (x ∷ xs)) e ∙ ap (◌∷◌ x) (take-add m n xs)
    where
      e : suc m + n ≡ suc (m + n)
      e = omega arith

  -- A segment is cut in two at any place.
  pub seg-add : (buf : List A) (i m n : ℕ) → seg buf i (m + n) ≡ seg buf i m ++ seg buf (i + m) n
  seg-add buf i m n =
      take-add m n (drop i buf) ∙ ap (λ r. seg buf i m ++ take n r) (drop-drop m i buf)

  -- What lies below a write is not touched by it.
  pub seg-put_below :
      (buf : List A) (i a m : ℕ) (xs : List A) → a + m ≤ i → seg (put buf i xs) a m ≡ seg buf a m
  seg-put_below buf zero zero zero xs h = refl
  seg-put_below buf zero zero (suc m) xs h = absurd (omega arith)
  seg-put_below buf zero (suc a) m xs h = absurd (omega arith)
  seg-put_below [] (suc i) a m xs h = refl
  seg-put_below (b ∷ buf) (suc i) zero zero xs h = refl
  seg-put_below (b ∷ buf) (suc i) zero (suc m) xs h =
      ap (◌∷◌ b) (seg-put_below buf i zero m xs (omega arith))
  seg-put_below (b ∷ buf) (suc i) (suc a) m xs h = seg-put_below buf i a m xs (omega arith)

  -- Nor is what lies above it.
  pub drop-put_above :
      (buf : List A) (i a : ℕ) (xs : List A)
      → i + length xs ≤ a
      → drop a (put buf i xs) ≡ drop a buf
  drop-put_above buf zero a xs h =
      let e : length xs + (a - length xs) ≡ a = omega arith in
      ap (λ k. drop k (xs ++ drop (length xs) buf)) (sym e)
      ∙ drop-append_ge (a - length xs) xs (drop (length xs) buf)
      ∙ drop-drop (a - length xs) (length xs) buf
      ∙ ap (λ k. drop k buf) e
  drop-put_above [] (suc i) a xs h = refl
  drop-put_above (b ∷ buf) (suc i) zero xs h = absurd (omega arith)
  drop-put_above (b ∷ buf) (suc i) (suc a) xs h = drop-put_above buf i a xs (omega arith)

  pub seg-put_above :
      (buf : List A) (i a m : ℕ) (xs : List A)
      → i + length xs ≤ a
      → seg (put buf i xs) a m ≡ seg buf a m
  seg-put_above buf i a m xs h = ap (take m) (drop-put_above buf i a xs h)

  -- What was written is read back.
  pub seg-put_self :
      (buf : List A) (i : ℕ) (xs : List A) → i ≤ length buf → seg (put buf i xs) i (length xs) ≡ xs
  seg-put_self buf zero xs h = take-append xs (drop (length xs) buf)
  seg-put_self [] (suc i) xs h = absurd (omega arith)
  seg-put_self (b ∷ buf) (suc i) xs h = seg-put_self buf i xs (omega arith)

  -- A write just behind a segment extends the segment by what was written.
  pub seg-put_extend :
      (buf : List A) (a n i : ℕ) (xs : List A)
      → a + n ≡ i
      → i ≤ length buf
      → seg (put buf i xs) a (n + length xs) ≡ seg buf a n ++ xs
  seg-put_extend buf a n i xs e h =
      seg-add (put buf i xs) a n (length xs)
      ∙ ap₂ ◌++◌ (seg-put_below buf i a n xs (omega arith))
          (ap (λ k. seg (put buf i xs) k (length xs)) e ∙ seg-put_self buf i xs h)
