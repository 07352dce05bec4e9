-- ===== src/TextParse/Timeout.antt =====
-- drivers/TBPipe/TBParse.cpp: a timeout in TBParse::Append before all lines were taken.
use kendryte_k210_base_proje.Prelude.{
  ℕ, suc, ◌+◌, ◌^◌, ◌≤◌, ◌<◌, ◌≡◌, ap, ◌∙◌, true, false, Option, none, some, List, ltb, leb, ◌==◌,
  if◌then◌else◌, add32, sub32, length, ne→==_false, le→ltb_false, arith, ◌>>=◌,
}
use kendryte_k210_base_proje.Memory.{seg, put, load, memcpy, memcpy_lem, length-put, length-seg}
use kendryte_k210_base_proje.TextParse.{
  PrefixParser, TextMessage, TextParser, binary_message, append, append_to, is_expired, compact,
  round, scan, next_message, Round, returns, leaves, continues,
}
use kendryte_k210_base_proje.TextParse.Inv.{IsSound}

module _ {S : Type 0} where
  compact_outside :
      (p : TextParser S)
      → p.buffer_amount < p.buffer_pos
      → p.buffer_pos ≤ length p.buffer
      → length p.buffer < 2 ^ 31
      → compact p.buffer_pos p ≡ none
  unfolding compact memcpy load
  compact_outside p h hp hs =
      let n : ℕ = sub32 p.buffer_amount p.buffer_pos in
      let outside : leb (p.buffer_pos + n) (length p.buffer) ≡ false = ground arith in rw outside

  scan_outside :
      (prefixes : PrefixParser S) (fuel : ℕ) (p : TextParser S)
      → p.buffer_amount < p.buffer_pos
      → p.buffer_pos ≤ length p.buffer
      → length p.buffer < 2 ^ 31
      → scan prefixes (suc fuel) p.buffer_pos p ≡ none
  unfolding scan
  scan_outside prefixes fuel p h hp hs =
      let next : Round S → Option (TextMessage × TextParser S) = λ r. elim r [
        | returns message q ↦ some (message, q)
        | leaves from q ↦ compact from q
        | continues from q ↦ scan prefixes fuel from q
      ] in
      ap (λ b. if b then round prefixes p.buffer_pos p >>= next else compact p.buffer_pos p)
        (le→ltb_false p.buffer_pos p.buffer_amount (omega arith))
      ∙ compact_outside p h hp hs

  -- In a valid state with no packet pending and a read position that is not 0, because not all
  -- lines were taken: if `Append` comes after the timeout with a block that is shorter than that
  -- position, it succeeds, and the next `NextMessage` accesses memory outside the buffer.
  pub next_message-append_expired :
      (prefixes : PrefixParser S) (p : TextParser S) (cur_time : ℕ) (bytes : List ℕ) (size : ℕ)
      → IsSound p
      → p.bin_message_size ≡ 0
      → is_expired p cur_time ≡ true
      → 0 < size
      → size ≤ length bytes
      → size < p.buffer_pos
      → (q : TextParser S) × (append p cur_time bytes size ≡ some q)
        × (next_message prefixes q ≡ none)
  unfolding append append_to next_message
  next_message-append_expired prefixes p cur_time bytes size v idle expired nonempty enough short =
      let copied : (if ltb p.buffer_size (add32 0 size) then sub32 p.buffer_size 0 else size)
          ≡ size =
        ground (arith, v.amount_in, v.pos_in, v.small) in
      let block : List ℕ = seg bytes 0 size in
      let block_length : length block ≡ size = length-seg bytes 0 size (omega arith) in
      let buf : List ℕ = put p.buffer 0 block in
      let kept : length buf ≡ p.buffer_size =
        length-put p.buffer 0 block (omega (arith, v.storage, v.amount_in, v.pos_in, block_length))
        ∙ v.storage in
      let state : ℕ → List ℕ → TextParser S =
        λ k l. record p { buffer = l; buffer_amount = add32 0 k; last_append_time = cur_time } in
      let q : TextParser S = state size buf in
      let count : q.buffer_amount ≡ size = omega (arith, v.pos_in, v.amount_in, v.small) in
      let otherwise : Option (TextMessage × TextParser S) =
        if leb (add32 q.buffer_pos q.bin_message_size) q.buffer_amount
        then some (binary_message q)
        else compact q.buffer_pos q in
      (
        q,
        ap
              (λ b.
                if b
                then some p
                else append_to (if is_expired p cur_time then 0 else p.buffer_amount) p cur_time
                    bytes size)
              (ne→==_false size 0 (omega arith))
            ∙ ap (λ b. append_to (if b then 0 else p.buffer_amount) p cur_time bytes size) expired
            ∙ ap (λ k. memcpy p.buffer 0 bytes 0 k >>= λ l. some (state k l)) copied
            ∙ ap (λ o. o >>= λ l. some (state size l))
                (memcpy_lem p.buffer 0 bytes 0 size
                  (omega (arith, v.storage, v.pos_in, v.amount_in)) (omega arith)),
        ap
              (λ b.
                if b
                then scan prefixes (suc (sub32 q.buffer_amount q.buffer_pos)) q.buffer_pos q
                else otherwise)
              (ap (λ k. k == 0) idle)
            ∙ scan_outside prefixes (sub32 q.buffer_amount q.buffer_pos) q (omega (arith, count))
                (omega (arith, kept, v.pos_in, v.amount_in)) (omega (arith, kept, v.small)),
      )
