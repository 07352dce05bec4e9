-- ===== src/Esp32/Link/Receive.antt =====
-- drivers/esp32/spi2_slave.cpp: the words that the receiving loop gets, and the bytes they become.
use kendryte_k210_base_proje.Prelude.{
  ℕ, zero, suc, ◌+◌, ◌*◌, ◌^◌, ◌≤◌, ◌<◌, none, some, List, [], ◌∷◌, ◌++◌, ◌≡◌, refl, sym, ap, ◌∙◌,
  arith, length, drop, take, length-append, append_assoc, take-append, drop-append,
}
use kendryte_k210_base_proje.Memory.{
  load_lem, store_lem, put, seg, length-put, seg-put_above, seg-add, length-seg,
}
use kendryte_k210_base_proje.Bytes.{All, word_of, bytes_of, length-bytes_of, word_of-bytes_of}
use kendryte_k210_base_proje.Esp32.Link.{
  Link, M, ◌>>=◌, ◌>>◌, fetch, set_rx_with, read, rx, set_rx, read_words, swap_words, bswap32,
}

-- the link with other reads to come, and another receive buffer
abbrev pub on : Link → List ℕ → List ℕ → Link
on l rs buf = record l { reads = rs; rx_buffer = buf }

-- the bytes of words in memory, and those of the words with their bytes swapped
abbrev pub flat : List ℕ → List ℕ
flat [] = []
flat (w ∷ ws) = bytes_of 4 w ++ flat ws

abbrev pub swapped : List ℕ → List ℕ
swapped [] = []
swapped (w ∷ ws) = bytes_of 4 (bswap32 w) ++ swapped ws

pub length-flat : (ws : List ℕ) → length (flat ws) ≡ 4 * length ws
length-flat [] = refl
length-flat (w ∷ ws) =
    omega (arith, length-append (bytes_of 4 w) (flat ws), length-bytes_of 4 w, length-flat ws)

pub length-swapped : (ws : List ℕ) → length (swapped ws) ≡ 4 * length ws
length-swapped [] = refl
length-swapped (w ∷ ws) = omega (
  arith,
  length-append (bytes_of 4 (bswap32 w)) (swapped ws),
  length-bytes_of 4 (bswap32 w),
  length-swapped ws,
)

pub flat-append : (xs ys : List ℕ) → flat (xs ++ ys) ≡ flat xs ++ flat ys
flat-append [] ys = refl
flat-append (x ∷ xs) ys =
    ap (◌++◌ (bytes_of 4 x)) (flat-append xs ys)
    ∙ sym (append_assoc (bytes_of 4 x) (flat xs) (flat ys))

module _ {ℓ} {A : Type ℓ} where
  -- Two writes side by side are one.
  pub put-put_next :
      (buf : List A) (i j : ℕ) (xs ys : List A)
      → i + length xs ≡ j
      → j ≤ length buf
      → put (put buf i xs) j ys ≡ put buf i (xs ++ ys)
  put-put_next buf zero j [] ys e h = let z : j ≡ 0 = omega (arith, e) in ap (λ k. put buf k ys) z
  put-put_next [] zero zero (x ∷ xs) ys e h = absurd (omega arith)
  put-put_next (b ∷ buf) zero zero (x ∷ xs) ys e h = absurd (omega arith)
  put-put_next [] zero (suc j) (x ∷ xs) ys e h = absurd (omega arith)
  put-put_next (b ∷ buf) zero (suc j) (x ∷ xs) ys e h =
      ap (◌∷◌ x) (put-put_next buf zero j xs ys (omega (arith, e)) (omega arith))
  put-put_next [] (suc i) j xs ys e h = absurd (omega (arith, e))
  put-put_next (b ∷ buf) (suc i) zero xs ys e h = absurd (omega (arith, e))
  put-put_next (b ∷ buf) (suc i) (suc j) xs ys e h =
      ap (◌∷◌ b) (put-put_next buf i j xs ys (omega (arith, e)) (omega arith))

  pub put_nil : (buf : List A) (i : ℕ) → put buf i [] ≡ buf
  put_nil buf zero = refl
  put_nil [] (suc i) = refl
  put_nil (b ∷ buf) (suc i) = ap (◌∷◌ b) (put_nil buf i)

-- A write over another of the same length replaces it.
pub put-put_same :
    (buf xs ys : List ℕ)
    → length xs ≡ length ys
    → length xs ≤ length buf
    → put (put buf 0 xs) 0 ys ≡ put buf 0 ys
put-put_same buf xs ys e h =
    ap (λ (k : ℕ). ys ++ drop k (xs ++ drop (length xs) buf)) (sym e)
    ∙ ap (◌++◌ ys) (drop-append xs (drop (length xs) buf))
    ∙ ap (λ (k : ℕ). ys ++ drop k buf) e

pub read_lem :
    (l : Link) (v : ℕ) (rs : List ℕ)
    → read (record l { reads = v ∷ rs }) ≡ some (v, record l { reads = rs })
unfolding read
read_lem l v rs = refl

set_rx_lem :
    (l : Link) (i : ℕ) (bs : List ℕ)
    → i + length bs ≤ length l.rx_buffer
    → set_rx i bs l ≡ some (tt, record l { rx_buffer = put l.rx_buffer i bs })
unfolding set_rx set_rx_with
set_rx_lem l i bs h = ap (λ o. set_rx_with o l) (store_lem l.rx_buffer i bs h)

pub rx_lem :
    (l : Link) (i n : ℕ) → i + n ≤ length l.rx_buffer → rx i n l ≡ some (seg l.rx_buffer i n, l)
unfolding rx fetch
rx_lem l i n h = ap (λ o. fetch o l) (load_lem l.rx_buffer i n h)

-- A step that is known is left out of a sequence of steps.
pub after :
    {A B : Type 0} (m : M A) (k : A → M B) {l l' : Link} {a : A}
    → m l ≡ some (a, l')
    → (m >>= k) l ≡ k a l'
unfolding ◌>>=◌
after m k e = ap (λ o. elim o [ none ↦ none | some (a, l') ↦ k a l' ]) e

module _ (l : Link) where
  -- The inner loop stores the words that it reads.
  pub read_words_lem :
      (ws r : List ℕ) (i : ℕ) (buf : List ℕ)
      → 4 * (i + length ws) ≤ length buf
      → read_words (length ws) i (on l (ws ++ r) buf)
        ≡ some (tt, on l r (put buf (4 * i) (flat ws)))
  unfolding read_words
  read_words_lem [] r i buf h = ap (λ b. some (tt, on l r b)) (sym (put_nil buf (4 * i)))
  read_words_lem (w ∷ ws) r i buf h =
      let four = bytes_of 4 w in
      let fits : 4 * i + length four ≤ length buf = omega (arith, length-bytes_of 4 w) in
      let len = length-put buf (4 * i) four fits in
      after read _ (read_lem (on l [] buf) w (ws ++ r))
      ∙ after (set_rx (4 * i) four) _ (set_rx_lem (on l (ws ++ r) buf) (4 * i) four fits)
      ∙ read_words_lem ws r (i + 1) (put buf (4 * i) four) (omega (arith, len))
      ∙ ap (λ b. some (tt, on l r b))
          (put-put_next buf (4 * i) (4 * (i + 1)) four (flat ws)
            (omega (arith, length-bytes_of 4 w)) (omega arith))

  -- The words in the buffer are swapped in their place.
  pub swap_words_lem :
      (ws : List ℕ) (i : ℕ) (buf : List ℕ) (rs : List ℕ)
      → 4 * (i + length ws) ≤ length buf
      → All (λ w. w < 2 ^ 32) ws
      → seg buf (4 * i) (4 * length ws) ≡ flat ws
      → swap_words (length ws) i (on l rs buf) ≡ some (tt, on l rs (put buf (4 * i) (swapped ws)))
  unfolding swap_words
  swap_words_lem [] i buf rs h small e = ap (λ b. some (tt, on l rs b)) (sym (put_nil buf (4 * i)))
  swap_words_lem (w ∷ ws) i buf rs h small e =
      let four = bytes_of 4 (bswap32 w) in
      let fits : 4 * i + length four ≤ length buf = omega (arith, length-bytes_of 4 (bswap32 w)) in
      let cut : seg buf (4 * i) 4 ++ seg buf (4 * i + 4) (4 * length ws) ≡ bytes_of 4 w ++ flat ws =
        sym (seg-add buf (4 * i) 4 (4 * length ws)) ∙ ap (seg buf (4 * i)) (omega arith) ∙ e in
      let long : length (seg buf (4 * i) 4) ≡ 4 = length-seg buf (4 * i) 4 (omega arith) in
      let rest = seg buf (4 * i + 4) (4 * length ws) in
      let front : seg buf (4 * i) 4 ≡ bytes_of 4 w =
        sym (take-append (seg buf (4 * i) 4) rest)
        ∙ ap (λ n. take n (seg buf (4 * i) 4 ++ rest)) long
        ∙ ap (take 4) cut in
      let back : seg buf (4 * i + 4) (4 * length ws) ≡ flat ws =
        sym (drop-append (seg buf (4 * i) 4) rest)
        ∙ ap (λ n. drop n (seg buf (4 * i) 4 ++ rest)) long
        ∙ ap (drop 4) cut in
      let word : word_of (seg buf (4 * i) 4) ≡ w =
        ap word_of front ∙ word_of-bytes_of 4 w (omega (arith, small.0)) in
      let len = length-put buf (4 * i) four fits in
      let next : seg (put buf (4 * i) four) (4 * (i + 1)) (4 * length ws) ≡ flat ws =
        seg-put_above buf (4 * i) (4 * (i + 1)) (4 * length ws) four (omega arith)
        ∙ ap (λ k. seg buf k (4 * length ws)) (omega arith)
        ∙ back in
      after (rx (4 * i) 4) _ (rx_lem (on l rs buf) (4 * i) 4 (omega arith))
      ∙ ap
          (λ v.
            (set_rx (4 * i) (bytes_of 4 (bswap32 v)) >> swap_words (length ws) (i + 1))
              (on l rs buf))
          word
      ∙ after (set_rx (4 * i) four) _ (set_rx_lem (on l rs buf) (4 * i) four fits)
      ∙ swap_words_lem ws (i + 1) (put buf (4 * i) four) rs (omega (arith, len)) small.1 next
      ∙ ap (λ b. some (tt, on l rs b))
          (put-put_next buf (4 * i) (4 * (i + 1)) four (swapped ws)
            (omega (arith, length-bytes_of 4 (bswap32 w))) (omega arith))
