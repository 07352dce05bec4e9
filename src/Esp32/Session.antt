-- ===== src/Esp32/Session.antt =====
-- The driver of drivers/esp32 and the firmware of Maixduino_esp32/main together: a call of the
-- driver, its frame served by `loop`, and the reply that comes back.
use kendryte_k210_base_proje.Prelude.{
  ℕ, suc, ◌+◌, ◌-◌, ◌*◌, ◌/◌, ◌%◌, ◌≤◌, ◌<◌, Bool, true, false, Option, some, List, [], ◌∷◌, ◌++◌,
  ◌≡◌, refl, sym, ap, ap₂, ◌∙◌, arith, u8, u16, length, take, drop, get_elem?, take-append_ge,
  take_all, le→ltb_false,
}
use kendryte_k210_base_proje.Memory.{load, put, seg, load_lem, store_lem, length-put}
use kendryte_k210_base_proje.Bytes.{Octets, word_of, bytes_of, word_of-bytes_of}
use kendryte_k210_base_proje.Esp32.Commands.{cesp_send_socket_data, cesp_resp}
use kendryte_k210_base_proje.Esp32.Link.{
  Link, fetch, rx, set_tx, set_tx_with, buffer_size, esp32_transfer, round_up4,
}
use kendryte_k210_base_proje.Esp32.Link.Receive.{after, rx_lem, put-put_next}
use kendryte_k210_base_proje.Esp32.Link.Exchange.{Exchange, exchanged, esp32_transfer_lem}
use kendryte_k210_base_proje.Esp32.Client.{rx_byte, to_bool}
use kendryte_k210_base_proje.Esp32.Sock.{max_write_size, socket_write}
use kendryte_k210_base_proje.Esp32.Net.{Net, Client}
use kendryte_k210_base_proje.Esp32.Server.{Server, SocketType, max_sockets}
use kendryte_k210_base_proje.Esp32.Sockets.{flag, client_of}
use kendryte_k210_base_proje.Esp32.Handle.{loop}
use kendryte_k210_base_proje.Esp32.Moved.{wrote}
use kendryte_k210_base_proje.Esp32.Served.{
  write_request, write_reply, after_write, loop-write_request,
}

pub set_tx_lem :
    (l : Link) (i : ℕ) (bs : List ℕ)
    → i + length bs ≤ length l.tx_buffer
    → set_tx i bs l ≡ some (tt, record l { tx_buffer = put l.tx_buffer i bs })
unfolding set_tx set_tx_with
set_tx_lem l i bs h = ap (λ o. set_tx_with o l) (store_lem l.tx_buffer i bs h)

pub fetch_lem :
    {A : Type 0} {o : Option A} (l : Link) {a : A} → o ≡ some a → fetch o l ≡ some (a, l)
unfolding fetch
fetch_lem l e = ap (λ o. fetch o l) e

pub rx_byte_lem :
    (l : Link) (i : ℕ) {b : ℕ}
    → i + 1 ≤ length l.rx_buffer
    → seg l.rx_buffer i 1 ≡ b ∷ []
    → rx_byte i l ≡ some (b, l)
unfolding rx_byte
rx_byte_lem l i {b} h e =
    after (rx i 1) _ (rx_lem l i 1 h)
    ∙ ap (λ bs. some (word_of bs, l)) e
    ∙ ap (λ v. some (v, l)) (omega arith)

-- the driver has its buffers
abbrev pub HasBuffers : Link → Type 0
HasBuffers l = (length l.tx_buffer ≡ buffer_size) × (length l.rx_buffer ≡ buffer_size)

-- the link with a request written at the start of its transmit buffer
abbrev pub requested : Link → List ℕ → Link
requested l request = record l { tx_buffer = put l.tx_buffer 0 request }

module _ (l : Link) (sn : ℕ) (data_ : List ℕ) (buffers : HasBuffers l)
    (short : length data_ ≤ 4084) where
  write_request-put :
      put
        (put (put l.tx_buffer 0 (cesp_send_socket_data ∷ u8 sn ∷ [])) 2 (bytes_of 2 (length data_)))
        4
        data_
      ≡ put l.tx_buffer 0 (write_request sn data_)
  write_request-put =
      let head : List ℕ = cesp_send_socket_data ∷ u8 sn ∷ [] in
      ap (λ b. put b 4 data_)
        (put-put_next l.tx_buffer 0 2 head (bytes_of 2 (length data_)) (omega arith)
          (omega (arith, buffers.0)))
      ∙ put-put_next l.tx_buffer 0 4 (head ++ bytes_of 2 (length data_)) data_ (omega arith)
          (omega (arith, buffers.0))

  -- A write sends its request, and returns what the reply of four bytes says.
  socket_write_lem :
      (a b f z : ℕ) (rest : List ℕ)
      → Exchange (a ∷ b ∷ f ∷ z ∷ []) rest l.reads
      → Octets (a ∷ b ∷ f ∷ z ∷ [])
      → socket_write sn data_ (length data_) l
        ≡ some (
          (word_of (a ∷ b ∷ []), some (to_bool f)),
          exchanged
              (requested l (write_request sn data_))
              (length data_ + 4)
              (a ∷ b ∷ f ∷ z ∷ [])
              rest,
        )
  unfolding socket_write max_write_size
  socket_write_lem a b f z rest ex octets =
      let n = length data_ in
      let head : List ℕ = cesp_send_socket_data ∷ u8 sn ∷ [] in
      let b1 = put l.tx_buffer 0 head in
      let b2 = put b1 2 (bytes_of 2 n) in
      let len1 = length-put l.tx_buffer 0 head (omega (arith, buffers.0)) in
      let len2 = length-put b1 2 (bytes_of 2 n) (omega (arith, buffers.0, len1)) in
      let l' = requested l (write_request sn data_) in
      let len3 = length-put b2 4 data_ (omega (arith, buffers.0, len1, len2)) in
      let size : length l'.tx_buffer ≡ 4090 =
        ap length (sym write_request-put) ∙ len3 ∙ len2 ∙ len1 ∙ buffers.0 in
      let up : round_up4 (n + 4) ≤ 4088 = unfold round_up4 in omega arith in
      let reply : List ℕ = a ∷ b ∷ f ∷ z ∷ [] in
      let word : round_up4 cesp_resp ≡ 4 * suc 0 = unfold round_up4 in refl in
      let done = exchanged l' (n + 4) reply rest in
      let rx_size = length-put l.rx_buffer 0 reply (omega (arith, buffers.1)) in
      rw (le→ltb_false max_write_size n (omega arith)) (
        after (set_tx 0 head) _ (set_tx_lem l 0 head (omega (arith, buffers.0)))
        ∙ after (set_tx 2 (bytes_of 2 n)) _ (
            set_tx_lem (record l { tx_buffer = b1 }) 2 (bytes_of 2 n)
              (omega (arith, buffers.0, len1)))
        ∙ after (fetch (load data_ 0 n)) _ (
            fetch_lem (record l { tx_buffer = b2 })
              (load_lem data_ 0 n (omega arith) ∙ ap some (take_all n data_ (omega arith))))
        ∙ after (set_tx 4 data_) _ (
            set_tx_lem (record l { tx_buffer = b2 }) 4 data_ (omega (arith, buffers.0, len1, len2))
            ∙ ap (λ t. some (tt, record l { tx_buffer = t })) write_request-put)
        ∙ after (esp32_transfer (n + 4) cesp_resp) _ (
            esp32_transfer_lem l' (n + 4) cesp_resp 0 reply rest word ex (omega (arith, size, up))
              octets refl (omega (arith, buffers.1)))
        ∙ after (rx_byte 2) _ (rx_byte_lem done 2 (omega (arith, rx_size, buffers.1)) refl)
        ∙ after (rx 0 2) _ (rx_lem done 0 2 (omega (arith, rx_size, buffers.1))))

pub flag-to_bool : (b : Bool) → to_bool (flag b) ≡ b
flag-to_bool true = refl
flag-to_bool false = refl

pub flag-octet : (b : Bool) → flag b < 256
flag-octet true = omega arith
flag-octet false = omega arith

-- What is sent of a transmit buffer that begins with a request begins with it.
pub frame-request :
    (buf request : List ℕ) (n : ℕ)
    → length request ≤ n
    → (pad : List ℕ) × (seg (put buf 0 request) 0 n ≡ request ++ pad)
frame-request buf request n h =
    let rest = drop (length request) buf in
    (take (n - length request) rest, take-append_ge n request rest h)

-- the frame that a write sends
abbrev pub write_frame : Link → ℕ → List ℕ → List ℕ
write_frame l i data_ =
    seg (requested l (write_request i data_)).tx_buffer 0 (round_up4 (length data_ + 4))

-- A write of at most 4084 bytes on an open socket, end to end: the firmware, given the frame that
-- the driver sends, hands exactly these bytes to the client of that socket and answers; and the
-- driver, given that answer on any schedule of polls in time, sends this frame and returns the
-- client's count, as a 16-bit number, and whether the client is alive.
pub socket_write-loop :
    {W : Type 0} (net : Net W) (s : Server W) (i : ℕ) (t : SocketType) {c : Client W} (l : Link)
    (data_ rest : List ℕ)
    → i < max_sockets
    → get_elem? s.socket_types i ≡ some t
    → client_of net t ≡ some c
    → HasBuffers l
    → length data_ ≤ 4084
    → length data_ + 4 ≤ net.spi_max_dma_len
    → Exchange (write_reply c i data_ s.world) rest l.reads
    → (loop net (write_frame l i data_) s
        ≡ some (write_reply c i data_ s.world, after_write net c i data_ s))
      × (socket_write i data_ (length data_) l
          ≡ some (
            (u16 (wrote c i data_ s.world).0, some (wrote c i data_ s.world).1),
            exchanged
                (requested l (write_request i data_))
                (length data_ + 4)
                (write_reply c i data_ s.world)
                rest,
          ))
socket_write-loop net s i t {c} l data_ rest lt at client buffers short room ex =
    let n = length data_ in
    let up : n + 4 ≤ round_up4 (n + 4) = unfold round_up4 in omega arith in
    let (pad, sent) =
      frame-request l.tx_buffer (write_request i data_) (round_up4 (n + 4)) (omega (arith, up)) in
    let (count, alive, w) = wrote c i data_ s.world in
    let reply = write_reply c i data_ s.world in
    let octets : Octets reply =
      (omega arith, (omega arith, (flag-octet alive, (omega arith, tt)))) in
    (
      ap (λ f. loop net f s) sent
          ∙ loop-write_request net s i t lt at client data_ pad room (omega arith),
      socket_write_lem l i data_ buffers short (u16 count % 256) (u16 count / 256 % 256)
            (flag alive) 0 rest ex octets
          ∙ ap₂
              (λ k v.
                some
                  ((k, some v), exchanged (requested l (write_request i data_)) (n + 4) reply rest))
              (word_of-bytes_of 2 (u16 count) (omega arith)) (flag-to_bool alive),
    )
