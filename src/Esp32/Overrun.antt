-- ===== src/Esp32/Overrun.antt =====
-- drivers/esp32/esp32_spi.cpp: a write of the greatest size that `esp32_spi_max_write_size` allows.
use kendryte_k210_base_proje.Prelude.{
  ℕ, ◌+◌, ◌*◌, ◌≤◌, ◌<◌, none, some, List, [], ◌∷◌, ◌++◌, ◌≡◌, ap, ◌∙◌, arith, u8, length,
  length-take, lt→leb_false,
}
use kendryte_k210_base_proje.Memory.{load, put, seg, load_lem, length-put}
use kendryte_k210_base_proje.Bytes.{bytes_of}
use kendryte_k210_base_proje.Esp32.Commands.{cesp_send_socket_data, cesp_resp}
use kendryte_k210_base_proje.Esp32.Link.{
  Link, chip_select, M, ◌>>=◌, fetch, out, tx, set_tx, wait_for_ready, esp32_transfer, round_up4,
}
use kendryte_k210_base_proje.Esp32.Link.Receive.{after}
use kendryte_k210_base_proje.Esp32.Link.Exchange.{Polled, wait_for_ready_lem, out_lem}
use kendryte_k210_base_proje.Esp32.Sock.{max_write_size, cut_length, socket_write}
use kendryte_k210_base_proje.Esp32.Session.{HasBuffers, set_tx_lem, fetch_lem}

-- Reads on which both waits of a transfer end.
pub data Ready (reads : List ℕ) : Type 0 where
  ready :
      (tm tm' : ℕ) (waited waited' rest : List ℕ)
      → reads ≡ tm ∷ waited
      → Polled 0 (10 * 1000000) tm (tm' ∷ waited') waited
      → Polled 1 1000000 tm' rest waited'
      → Ready reads

stop : {A B : Type 0} (m : M A) (k : A → M B) (l : Link) → m l ≡ none → (m >>= k) l ≡ none
unfolding ◌>>=◌
stop m k l e = ap (λ o. elim o [ none ↦ none | some (a, l') ↦ k a l' ]) e

tx_out : (l : Link) (n : ℕ) → length l.tx_buffer < n → tx 0 n l ≡ none
unfolding tx fetch load
tx_out l n h = rw (lt→leb_false (0 + n) (length l.tx_buffer) (omega arith))

-- A frame that does not fit is read from behind the buffer.
esp32_transfer_overrun :
    (l : Link) (tx_len rx_len : ℕ)
    → Ready l.reads
    → length l.tx_buffer < round_up4 tx_len
    → esp32_transfer tx_len rx_len l ≡ none
unfolding esp32_transfer
esp32_transfer_overrun l tx_len rx_len (ready tm tm' waited waited' rest seen polled polled') h =
    let l1 = record l { outs = l.outs ++ chip_select 0 ∷ []; reads = rest } in
    let (b, first) = wait_for_ready_lem l 0 (10 * 1000000) tm waited (tm' ∷ waited') polled in
    let (b', second) = wait_for_ready_lem l1 1 1000000 tm' waited' rest polled' in
    ap (λ rs. esp32_transfer tx_len rx_len (record l { reads = rs })) seen
    ∙ after (wait_for_ready 0 (10 * 1000000)) _ first
    ∙ after (out (chip_select 0)) _ (out_lem (record l { reads = tm' ∷ waited' }) (chip_select 0))
    ∙ after (wait_for_ready 1 1000000) _ second
    ∙ stop (tx 0 (round_up4 tx_len)) _ l1 (tx_out l1 (round_up4 tx_len) h)

cut_length-gt : (n : ℕ) → 4084 < n → 4084 < cut_length n
unfolding max_write_size
cut_length-gt n h = ground arith

cut_length-le : (n : ℕ) → (cut_length n ≤ n) × (cut_length n ≤ 4086)
unfolding max_write_size
cut_length-le n = ground arith

-- A write of more than 4084 bytes, which `esp32_spi_max_write_size` allows up to 4086, reads behind
-- the end of the transmit buffer once the waits for the ready pin have ended: cut to 4086 bytes or
-- not, the frame takes 4092 bytes of a buffer of 4090.
pub socket_write_overrun :
    (l : Link) (sn len : ℕ) (buffer : List ℕ)
    → HasBuffers l
    → Ready l.reads
    → 4084 < len
    → len ≤ length buffer
    → socket_write sn buffer len l ≡ none
unfolding socket_write
socket_write_overrun l sn len buffer buffers ok long room =
    let n = cut_length len in
    let gt = cut_length-gt len long in
    let (le, le_max) = cut_length-le len in
    let head : List ℕ = cesp_send_socket_data ∷ u8 sn ∷ [] in
    let data_ = seg buffer 0 n in
    let count : length data_ ≡ n = omega (arith, length-take n buffer, le) in
    let b1 = put l.tx_buffer 0 head in
    let n1 = length-put l.tx_buffer 0 head (omega (arith, buffers.0)) in
    let b2 = put b1 2 (bytes_of 2 n) in
    let n2 = length-put b1 2 (bytes_of 2 n) (omega (arith, buffers.0, n1)) in
    let fits : 4 + length data_ ≤ length b2 = omega (arith, buffers.0, n1, n2, count, le_max) in
    let n3 = length-put b2 4 data_ fits in
    let up : 4090 < round_up4 (n + 4) = unfold round_up4 in omega (arith, gt) in
    let l' = record l { tx_buffer = put b2 4 data_ } in
    after (set_tx 0 head) _ (set_tx_lem l 0 head (omega (arith, buffers.0)))
    ∙ after (set_tx 2 (bytes_of 2 n)) _
        (set_tx_lem (record l { tx_buffer = b1 }) 2 (bytes_of 2 n) (omega (arith, buffers.0, n1)))
    ∙ after (fetch (load buffer 0 n)) _
        (fetch_lem (record l { tx_buffer = b2 }) (load_lem buffer 0 n (omega (arith, le))))
    ∙ after (set_tx 4 data_) _ (set_tx_lem (record l { tx_buffer = b2 }) 4 data_ fits)
    ∙ stop (esp32_transfer (n + 4) cesp_resp) _ l'
        (esp32_transfer_overrun l' (n + 4) cesp_resp ok (omega (arith, buffers.0, n1, n2, n3, up)))
