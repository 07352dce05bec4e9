-- ===== src/Esp32/Link/Deliver.antt =====
-- drivers/esp32/spi2_slave.cpp: `spi2_slave_receive4` on the words that a device delivers.
use kendryte_k210_base_proje.Prelude.{
  ℕ, zero, suc, ◌+◌, ◌-◌, ◌*◌, ◌/◌, ◌%◌, ◌^◌, ◌≤◌, ◌<◌, true, false, some, List, [], ◌∷◌, ◌++◌, ◌≡◌,
  ◌≢◌, refl, sym, ap, ap₂, ◌∙◌, arith, ltb, if◌then◌else◌, length, length-append, ne→==_false,
}
use kendryte_k210_base_proje.Memory.{put, seg, length-put, seg-put_self}
use kendryte_k210_base_proje.Bytes.{All, Octets, bytes_of}
use kendryte_k210_base_proje.Esp32.Link.{
  Link, read, read_words, swap_words, receive_loop, bswap32, sub64, with_fuel, spi2_slave_receive4,
}
use kendryte_k210_base_proje.Esp32.Link.Receive.{
  on, flat, swapped, after, read_lem, read_words_lem, swap_words_lem, length-flat, length-swapped,
  put_nil, flat-append, put-put_next, put-put_same,
}

-- Reads by which a device delivers words: in each round any level of the FIFO, that many of the
-- words, as far as there are so many, and a clock that is in time. Then `rest` is still to be read.
pub data Delivers (start cycles : ℕ) (rest : List ℕ) : List ℕ → List ℕ → Type 0 where
  done : Delivers start cycles rest [] rest
  round :
      (level now : ℕ) (ws : List ℕ) {words more reads r : List ℕ}
      → Delivers start cycles rest more r
      → words ≡ ws ++ more
      → words ≢ []
      → length ws ≡ (if ltb level (length words) then level else length words)
      → ltb cycles (sub64 now start) ≡ false
      → reads ≡ level ∷ (ws ++ now ∷ r)
      → Delivers start cycles rest words reads

module _ (l : Link) (start cycles : ℕ) where
  receive_loop_round :
      (fuel left i level now : ℕ) (ws r buf : List ℕ)
      → left ≢ 0
      → length ws ≡ (if ltb level left then level else left)
      → ltb cycles (sub64 now start) ≡ false
      → 4 * (i + length ws) ≤ length buf
      → receive_loop (suc fuel) start cycles left i (on l (level ∷ (ws ++ now ∷ r)) buf)
        ≡ receive_loop fuel start cycles
            (left - length ws)
            (i + length ws)
            (on l r (put buf (4 * i) (flat ws)))
  unfolding receive_loop
  receive_loop_round fuel left i level now ws r buf ne n in_time fits = rw (ne→==_false left 0 ne) (
      after read _ (read_lem (on l [] buf) level (ws ++ now ∷ r))
      ∙ rw (sym n) (
          after (read_words (length ws) i) _ (read_words_lem l ws (now ∷ r) i buf fits)
          ∙ after read _ (read_lem (on l [] (put buf (4 * i) (flat ws))) now r)
          ∙ rw in_time))

  length-zero : (xs : List ℕ) → length xs ≡ 0 → xs ≡ []
  length-zero [] e = refl
  length-zero (x ∷ xs) e = absurd (omega arith)

  receive_loop_lem :
      {rest words reads : List ℕ} (fuel : ℕ)
      → Delivers start cycles rest words reads
      → (i : ℕ) (buf : List ℕ) → length reads < fuel
      → 4 * (i + length words) ≤ length buf
      → receive_loop fuel start cycles (length words) i (on l reads buf)
        ≡ some (true, on l rest (put buf (4 * i) (flat words)))
  unfolding receive_loop
  receive_loop_lem zero d i buf enough fits = absurd (omega arith)
  receive_loop_lem {rest} (suc fuel) done i buf enough fits =
      ap (λ b. some (true, on l rest b)) (sym (put_nil buf (4 * i)))
  receive_loop_lem {rest} {words} {reads} (suc fuel)
        (round level now ws {more} {r} d cut ne n in_time seen) i buf enough fits =
      let sum : length words ≡ length ws + length more = ap length cut ∙ length-append ws more in
      let ws_fits : 4 * (i + length ws) ≤ length buf = omega (arith, sum) in
      let len = length-put buf (4 * i) (flat ws) (omega (arith, length-flat ws)) in
      let count : length reads ≡ suc (length ws + suc (length r)) =
        ap length seen ∙ ap suc (length-append ws (now ∷ r)) in
      ap (λ rs. receive_loop (suc fuel) start cycles (length words) i (on l rs buf)) seen
      ∙ receive_loop_round fuel (length words) i level now ws r buf (λ e. ne (length-zero words e))
          n in_time ws_fits
      ∙ ap
          (λ left.
            receive_loop fuel start cycles left (i + length ws)
              (on l r (put buf (4 * i) (flat ws))))
          (omega (arith, sum))
      ∙ receive_loop_lem fuel d (i + length ws) (put buf (4 * i) (flat ws)) (omega (arith, count))
          (omega (arith, sum, len))
      ∙ ap (λ b. some (true, on l rest b))
          (put-put_next buf (4 * i) (4 * (i + length ws)) (flat ws) (flat more)
              (omega (arith, length-flat ws)) (omega arith)
            ∙ ap (put buf (4 * i)) (sym (ap flat cut ∙ flat-append ws more)))

-- the words that carry bytes: the first byte of four on top
abbrev pub words_of : List ℕ → List ℕ
words_of (a ∷ b ∷ c ∷ d ∷ bs) = (a * 2 ^ 24 + b * 2 ^ 16 + c * 2 ^ 8 + d) ∷ words_of bs
words_of _ = []

length-words_of : (n : ℕ) (bs : List ℕ) → length bs ≡ 4 * n → length (words_of bs) ≡ n
length-words_of zero [] e = refl
length-words_of zero (b ∷ bs) e = absurd (omega arith)
length-words_of (suc n) (a ∷ b ∷ c ∷ d ∷ bs) e = ap suc (length-words_of n bs (omega arith))
length-words_of (suc n) [] e = absurd (omega arith)
length-words_of (suc n) (a ∷ []) e = absurd (omega arith)
length-words_of (suc n) (a ∷ b ∷ []) e = absurd (omega arith)
length-words_of (suc n) (a ∷ b ∷ c ∷ []) e = absurd (omega arith)

words_of-All : (bs : List ℕ) → Octets bs → All (λ w. w < 2 ^ 32) (words_of bs)
words_of-All (a ∷ b ∷ c ∷ d ∷ bs) h = (omega arith, words_of-All bs h.1.1.1.1)
words_of-All [] h = tt
words_of-All (a ∷ []) h = tt
words_of-All (a ∷ b ∷ []) h = tt
words_of-All (a ∷ b ∷ c ∷ []) h = tt

bytes-bswap32 :
    (a b c d : ℕ)
    → a < 256
    → b < 256
    → c < 256
    → d < 256
    → bytes_of 4 (bswap32 (a * 2 ^ 24 + b * 2 ^ 16 + c * 2 ^ 8 + d)) ≡ a ∷ b ∷ c ∷ d ∷ []
unfolding bswap32
bytes-bswap32 a b c d ha hb hc hd = ground arith

-- Swapped, the words are the bytes again.
swapped-words_of :
    (n : ℕ) (bs : List ℕ) → Octets bs → length bs ≡ 4 * n → swapped (words_of bs) ≡ bs
swapped-words_of zero [] h e = refl
swapped-words_of zero (b ∷ bs) h e = absurd (omega arith)
swapped-words_of (suc n) (a ∷ b ∷ c ∷ d ∷ bs) h e =
    ap₂ ◌++◌ (bytes-bswap32 a b c d h.0 h.1.0 h.1.1.0 h.1.1.1.0)
      (swapped-words_of n bs h.1.1.1.1 (omega arith))
swapped-words_of (suc n) [] h e = absurd (omega arith)
swapped-words_of (suc n) (a ∷ []) h e = absurd (omega arith)
swapped-words_of (suc n) (a ∷ b ∷ []) h e = absurd (omega arith)
swapped-words_of (suc n) (a ∷ b ∷ c ∷ []) h e = absurd (omega arith)

-- When a device delivers the words that carry a reply in time, the call returns true, with the
-- reply at the start of the buffer and the rest of the buffer as it was.
pub spi2_slave_receive4_lem :
    (l : Link) (n start freq timeout_us : ℕ) (reply rest reads buf : List ℕ)
    → Octets reply
    → length reply ≡ 4 * n
    → 4 * n ≤ length buf
    → Delivers start (timeout_us * (freq / 1000000) % 2 ^ 64) rest (words_of reply) reads
    → spi2_slave_receive4 (4 * n) timeout_us (on l (start ∷ freq ∷ reads) buf)
      ≡ some (true, on l rest (put buf 0 reply))
unfolding spi2_slave_receive4
spi2_slave_receive4_lem l n start freq timeout_us reply rest reads buf octets len fits d =
    let cycles = timeout_us * (freq / 1000000) % 2 ^ 64 in
    let words = words_of reply in
    let count : length words ≡ n = length-words_of n reply len in
    let quarter : 4 * n / 4 ≡ length words = omega (arith, count) in
    let stored = put buf 0 (flat words) in
    let stored_len = length-put buf 0 (flat words) (omega (arith, length-flat words, count)) in
    let there : seg stored 0 (4 * length words) ≡ flat words =
      ap (seg stored 0) (sym (length-flat words)) ∙ seg-put_self buf 0 (flat words) (omega arith) in
    let whole : put stored 0 (swapped words) ≡ put buf 0 reply =
      put-put_same buf (flat words) (swapped words) (length-flat words ∙ sym (length-swapped words))
        (omega (arith, length-flat words, count))
      ∙ ap (put buf 0) (swapped-words_of n reply octets len) in
    after read _ (read_lem (on l [] buf) start (freq ∷ reads))
    ∙ after read _ (read_lem (on l [] buf) freq reads)
    ∙ after (with_fuel (λ k. receive_loop k start cycles (4 * n / 4) 0)) _ (
        ap (λ k. receive_loop (suc (length reads)) start cycles k 0 (on l reads buf)) quarter
        ∙ receive_loop_lem l start cycles (suc (length reads)) d 0 buf (omega arith)
            (omega (arith, count)))
    ∙ after (swap_words (4 * n / 4) 0) _ (
        ap (λ k. swap_words k 0 (on l rest stored)) quarter
        ∙ swap_words_lem l words 0 stored rest (omega (arith, stored_len, count))
            (words_of-All reply octets) there)
    ∙ ap (λ b. some (true, on l rest b)) whole
