-- ===== src/TextParse/Append.antt =====
-- drivers/TBPipe/TBParse.cpp: TBParse::Append against the bytes not yet parsed.
use kendryte_k210_base_proje.Prelude.{
  ℕ, ◌+◌, ◌-◌, ◌^◌, ◌≤◌, ◌<◌, min, ◌≡◌, refl, ap, ◌∙◌, false, some, List, ◌++◌, ltb, if◌then◌else◌,
  add32, sub32, length, take, length-take, ne→==_false, arith, ◌>>=◌,
}
use kendryte_k210_base_proje.Memory.{seg, put, memcpy, memcpy_lem, length-put, seg-put_extend}
use kendryte_k210_base_proje.TextParse.{TextParser, append, append_to, is_expired}
use kendryte_k210_base_proje.TextParse.Inv.{IsSound}

module _ {S : Type 0} where
  -- the abstract view: the bytes in the buffer that are not yet parsed
  abbrev pub unread : TextParser S → List ℕ
  unread p = seg p.buffer p.buffer_pos (p.buffer_amount - p.buffer_pos)

  -- how many bytes of a block there is room for
  abbrev pub room : TextParser S → ℕ → ℕ
  room p size = min size (p.buffer_size - p.buffer_amount)

  -- `Append` of a block that is not empty and below 2 ^ 31 bytes, in a valid state and before the
  -- timeout, returns without a fault and keeps the invariant. It adds the first bytes of the block, as many as fit, behind
  -- the bytes not yet parsed, and drops the others.
  pub append-unread :
      (p : TextParser S) (cur_time : ℕ) (bytes : List ℕ) (size : ℕ)
      → IsSound p
      → is_expired p cur_time ≡ false
      → 0 < size
      → size ≤ length bytes
      → size < 2 ^ 31
      → (q : TextParser S) × (append p cur_time bytes size ≡ some q)
        × IsSound q
        × (unread q ≡ unread p ++ take (room p size) bytes)
        × (q.buffer_pos ≡ p.buffer_pos)
  unfolding append append_to
  append-unread p cur_time bytes size v live nonempty enough small =
      let amount : ℕ = p.buffer_amount in
      let n : ℕ = room p size in
      let n_in : (n ≤ size) × (amount + n ≤ p.buffer_size) = omega (arith, v.amount_in) in
      let copied : (if ltb p.buffer_size (add32 amount size)
            then sub32 p.buffer_size amount
            else size)
          ≡ n =
        ground (arith, v.amount_in, v.small) in
      let block : List ℕ = take n bytes in
      let block_length : length block ≡ n = omega (arith, length-take n bytes) in
      let buf : List ℕ = put p.buffer amount block in
      let kept : length buf ≡ length p.buffer =
        length-put p.buffer amount block (omega (arith, v.storage, block_length)) in
      let state : ℕ → List ℕ → TextParser S = λ k l. record p {
        buffer = l;
        buffer_amount = add32 amount k;
        last_append_time = cur_time;
      } in
      let end : add32 amount n ≡ amount + n = omega (arith, v.small) in
      let count : amount + n - p.buffer_pos ≡ (amount - p.buffer_pos) + length block =
        omega (arith, v.pos_in, block_length) in
      let joined : p.buffer_pos + (amount - p.buffer_pos) ≡ amount = omega (arith, v.pos_in) in
      (
        state n buf,
        ap
              (λ b.
                if b
                then some p
                else append_to (if is_expired p cur_time then 0 else amount) p cur_time bytes size)
              (ne→==_false size 0 (omega arith))
            ∙ ap (λ b. append_to (if b then 0 else amount) p cur_time bytes size) live
            ∙ ap (λ k. memcpy p.buffer amount bytes 0 k >>= λ l. some (state k l)) copied
            ∙ ap (λ o. o >>= λ l. some (state n l))
                (memcpy_lem p.buffer amount bytes 0 n (omega (arith, v.storage)) (omega arith)),
        record {
          storage = kept ∙ v.storage;
          small = v.small;
          pos_in = omega (arith, v.pos_in);
          amount_in = omega arith;
          packet_small = v.packet_small;
        },
        ap (λ k. seg buf p.buffer_pos (k - p.buffer_pos)) end
            ∙ ap (seg buf p.buffer_pos) count
            ∙ seg-put_extend p.buffer p.buffer_pos (amount - p.buffer_pos) amount block joined
                (omega (arith, v.storage)),
        refl,
      )
