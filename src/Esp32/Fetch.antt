-- ===== src/Esp32/Fetch.antt =====
-- The driver of drivers/esp32 and the firmware of Maixduino_esp32/main together: a read of a
-- socket, its frame served by `loop`, and the reply that comes back.
use kendryte_k210_base_proje.Prelude.{
  ℕ, zero, suc, ◌+◌, ◌-◌, ◌*◌, ◌/◌, ◌%◌, ◌^◌, ◌≤◌, ◌<◌, Bool, some, List, [], ◌∷◌, ◌++◌, ◌≡◌, refl,
  sym, ap, ap₂, ◌∙◌, arith, u8, u16, length, take, drop, get_elem?, replicate, length-append,
  length-replicate, take-append_ge, take-append_le, le→ltb_false,
}
use kendryte_k210_base_proje.Memory.{put, seg, load_lem, length-put}
use kendryte_k210_base_proje.Bytes.{Octets, All-append, word_of, bytes_of, word_of-bytes_of}
use kendryte_k210_base_proje.Esp32.Commands.{cesp_read_socket_data}
use kendryte_k210_base_proje.Esp32.Net.{Net, Client}
use kendryte_k210_base_proje.Esp32.Server.{Server, SocketType, max_sockets}
use kendryte_k210_base_proje.Esp32.Sockets.{flag, client_of}
use kendryte_k210_base_proje.Esp32.Handle.{
  Handler, handler_of, run, handle, received, round_up4, loop,
}
use kendryte_k210_base_proje.Esp32.Moved.{fetched, read_socket_data_lem}
use kendryte_k210_base_proje.Esp32.Served.{cleared, handle_lem, loop_lem, received-append}
use kendryte_k210_base_proje.Esp32.Link
use kendryte_k210_base_proje.Esp32.Link.{Link, ◌>>=◌, set_tx, rx, esp32_transfer}
use kendryte_k210_base_proje.Esp32.Link.Receive.{after, rx_lem, put-put_next}
use kendryte_k210_base_proje.Esp32.Link.Exchange.{Exchange, exchanged, esp32_transfer_lem}
use kendryte_k210_base_proje.Esp32.Client.{rx_byte, to_bool}
use kendryte_k210_base_proje.Esp32.Sock.{max_write_size, socket_read}
use kendryte_k210_base_proje.Esp32.Session.{
  HasBuffers, requested, set_tx_lem, rx_byte_lem, flag-to_bool, flag-octet, frame-request,
}

module _ {ℓ} {A : Type ℓ} where
  take-replicate : (m n : ℕ) (a : A) → m ≤ n → take m (replicate n a) ≡ replicate m a
  take-replicate zero n a h = refl
  take-replicate (suc m) zero a h = absurd (omega arith)
  take-replicate (suc m) (suc n) a h = ap (◌∷◌ a) (take-replicate m n a (omega arith))

  drop-replicate : (m n : ℕ) (a : A) → drop m (replicate n a) ≡ replicate (n - m) a
  drop-replicate zero n a = let e : n ≡ n - 0 = omega arith in ap (λ k. replicate k a) e
  drop-replicate (suc m) zero a = let e : 0 ≡ 0 - suc m = omega arith in ap (λ k. replicate k a) e
  drop-replicate (suc m) (suc n) a =
      let e : n - m ≡ suc n - suc m = omega arith in
      drop-replicate m n a ∙ ap (λ k. replicate k a) e

-- the frame of `esp32_spi_socket_read`
abbrev pub read_request : ℕ → ℕ → List ℕ
read_request i n = cesp_read_socket_data ∷ u8 i ∷ bytes_of 2 n

-- the head of the answer to a read, and what follows it: the bytes, and zeros up to a word's end
abbrev pub read_head : List ℕ → Bool → List ℕ
read_head bs alive = bytes_of 2 (u16 (length bs)) ++ flag alive ∷ 0 ∷ []

abbrev pub read_body : ℕ → List ℕ → List ℕ
read_body n bs = bs ++ replicate (round_up4 (4 + n) - 4 - length bs) 0

abbrev pub read_reply : {W : Type 0} → Client W → ℕ → ℕ → W → List ℕ
read_reply c i n w =
    read_head (fetched c i n w).0 (fetched c i n w).1 ++ read_body n (fetched c i n w).0

-- the server after a read
abbrev pub after_read : {W : Type 0} → Net W → Client W → ℕ → ℕ → Server W → Server W
after_read net c i n s = record s {
  response =
      put (put (replicate net.spi_max_dma_len 0) 4 (fetched c i n s.world).0) 0
        (read_head (fetched c i n s.world).0 (fetched c i n s.world).1);
  world = (fetched c i n s.world).2;
}

-- The answer that stands in a buffer of zeros.
seg-read_reply :
    (size n : ℕ) (bs : List ℕ) (alive : Bool)
    → length bs ≤ n
    → round_up4 (4 + n) ≤ size
    → seg (put (put (replicate size 0) 4 bs) 0 (read_head bs alive)) 0 (round_up4 (4 + n))
      ≡ read_head bs alive ++ read_body n bs
seg-read_reply size n bs alive short fits =
    let more : size ≡ suc (suc (suc (suc (size - 4)))) = omega arith in
    let zeros = replicate {A = ℕ} (size - 4) 0 in
    let head = read_head bs alive in
    ap (λ k. seg (put (put (replicate k 0) 4 bs) 0 head) 0 (round_up4 (4 + n))) more
    ∙ take-append_ge (round_up4 (4 + n)) head (bs ++ drop (length bs) zeros) (omega arith)
    ∙ ap (◌++◌ head) (
        take-append_ge (round_up4 (4 + n) - 4) bs (drop (length bs) zeros) (omega arith)
        ∙ ap (◌++◌ bs) (
            ap (take (round_up4 (4 + n) - 4 - length bs)) (drop-replicate (length bs) (size - 4) 0)
            ∙ take-replicate (round_up4 (4 + n) - 4 - length bs) (size - 4 - length bs) 0
                (omega arith)))

module _ {W : Type 0} (net : Net W) (s : Server W) (i : ℕ) (t : SocketType) {c : Client W}
    (lt : i < max_sockets) (at : get_elem? s.socket_types i ≡ some t)
    (client : client_of net t ≡ some c) (n : ℕ) (short : length (fetched c i n s.world).0 ≤ n)
    (fits : round_up4 (4 + n) ≤ net.spi_max_dma_len) (small : n < 2 ^ 16) where
  loop-read_request :
      (pad : List ℕ)
      → loop net (read_request i n ++ pad) s
        ≡ some (read_reply c i n s.world, after_read net c i n s)
  unfolding handler_of run
  loop-read_request pad =
      let (bs, alive, w) = fetched c i n s.world in
      let size = net.spi_max_dma_len in
      let (tail, seen) = received-append net (read_request i n) pad (omega arith) in
      let command = read_request i n ++ tail in
      let zeros = length-replicate {A = ℕ} size 0 in
      let room : n + 4 ≤ length (replicate {A = ℕ} size 0) = omega (arith, zeros) in
      let id : u8 i ≡ i = omega (arith, lt) in
      let got =
        read_socket_data_lem net (cleared net s) i t lt at client command n (ap some id)
          (load_lem command 2 2 (omega arith)) small (omega arith) short room in
      let handled : handle net (received net (read_request i n ++ pad)) (cleared net s)
          ≡ some (round_up4 (4 + n), after_read net c i n s) =
        ap (λ r. handle net r (cleared net s)) seen
        ∙ handle_lem net command cesp_read_socket_data (4 + n) Handler.read_socket_data
            (cleared net s) (after_read net c i n s) refl refl got in
      let filled = length-put (replicate {A = ℕ} size 0) 4 bs (omega (arith, zeros)) in
      let whole =
        length-put (put (replicate size 0) 4 bs) 0 (read_head bs alive)
          (omega (arith, zeros, filled)) in
      loop_lem net cesp_read_socket_data (round_up4 (4 + n)) (u8 i ∷ bytes_of 2 n ++ pad) s
        (after_read net c i n s) handled (omega (arith, zeros, filled, whole))
      ∙ ap (λ r. some (r, after_read net c i n s)) (seg-read_reply size n bs alive short fits)

replicate-Octets : (n : ℕ) → Octets (replicate n 0)
replicate-Octets zero = tt
replicate-Octets (suc n) = (omega arith, replicate-Octets n)

module _ (l : Link) (sn n : ℕ) (buffers : HasBuffers l) (short : n ≤ 4084) where
  -- A read sends its request, and returns what the reply says: its first two bytes are the count,
  -- the third tells whether the client is alive, and `n` bytes behind the fourth are the data.
  socket_read_lem :
      (a b f z : ℕ) (body rest : List ℕ)
      → Exchange (a ∷ b ∷ f ∷ z ∷ body) rest l.reads
      → Octets (a ∷ b ∷ f ∷ z ∷ body)
      → length body ≡ round_up4 (4 + n) - 4
      → socket_read sn n l
        ≡ some (
          (word_of (a ∷ b ∷ []), some (to_bool f, take n body)),
          exchanged (requested l (read_request sn n)) 4 (a ∷ b ∷ f ∷ z ∷ body) rest,
        )
  unfolding socket_read max_write_size
  socket_read_lem a b f z body rest ex octets long =
      let head : List ℕ = cesp_read_socket_data ∷ u8 sn ∷ [] in
      let b1 = put l.tx_buffer 0 head in
      let len1 = length-put l.tx_buffer 0 head (omega (arith, buffers.0)) in
      let b2 = put b1 2 (bytes_of 2 n) in
      let len2 = length-put b1 2 (bytes_of 2 n) (omega (arith, buffers.0, len1)) in
      let joined : b2 ≡ put l.tx_buffer 0 (read_request sn n) =
        put-put_next l.tx_buffer 0 2 head (bytes_of 2 n) (omega arith) (omega (arith, buffers.0)) in
      let l' = requested l (read_request sn n) in
      let size : length l'.tx_buffer ≡ 4090 = ap length (sym joined) ∙ len2 ∙ len1 ∙ buffers.0 in
      let reply : List ℕ = a ∷ b ∷ f ∷ z ∷ body in
      let words = (4 + n + 3) / 4 - 1 in
      let word : Link.round_up4 (n + 4) ≡ 4 * suc words = unfold Link.round_up4 in omega arith in
      let four : Link.round_up4 4 ≤ 4090 = unfold Link.round_up4 in omega arith in
      let done = exchanged l' 4 reply rest in
      let rx_size = length-put l.rx_buffer 0 reply (omega (arith, buffers.1, long)) in
      rw (le→ltb_false max_write_size n (omega arith)) (
        after (set_tx 0 head) _ (set_tx_lem l 0 head (omega (arith, buffers.0)))
        ∙ after (set_tx 2 (bytes_of 2 n)) _ (
            set_tx_lem (record l { tx_buffer = b1 }) 2 (bytes_of 2 n)
              (omega (arith, buffers.0, len1))
            ∙ ap (λ t. some (tt, record l { tx_buffer = t })) joined)
        ∙ after (esp32_transfer 4 (n + 4)) _ (
            esp32_transfer_lem l' 4 (n + 4) words reply rest word ex (omega (arith, size, four))
              octets (omega (arith, long)) (omega (arith, buffers.1, long)))
        ∙ after (rx 4 n) _ (rx_lem done 4 n (omega (arith, rx_size, buffers.1)))
        ∙ after (rx_byte 2) _ (rx_byte_lem done 2 (omega (arith, rx_size, buffers.1)) refl)
        ∙ after (rx 0 2) _ (rx_lem done 0 2 (omega (arith, rx_size, buffers.1)))
        ∙ ap (λ bs. some ((word_of (a ∷ b ∷ []), some (to_bool f, bs)), done))
            (take-append_le n body _ (omega (arith, long))))

-- the frame that a read sends
abbrev pub read_frame : Link → ℕ → ℕ → List ℕ
read_frame l i n = seg (requested l (read_request i n)).tx_buffer 0 (Link.round_up4 4)

-- A read of at most 4084 bytes of an open socket, end to end. The library is relied on to give no
-- more bytes than it is asked for. The firmware, given the frame that the driver sends, asks the
-- client of that socket once and answers; and the driver, given that answer on any schedule of
-- polls in time, sends this frame, puts the client's bytes into the caller's buffer, with zeros
-- up to the length asked for, and returns their number and whether the client is alive.
pub socket_read-loop :
    {W : Type 0} (net : Net W) (s : Server W) (i : ℕ) (t : SocketType) {c : Client W} (l : Link)
    (n : ℕ) (rest : List ℕ)
    → i < max_sockets
    → get_elem? s.socket_types i ≡ some t
    → client_of net t ≡ some c
    → HasBuffers l
    → n ≤ 4084
    → round_up4 (4 + n) ≤ net.spi_max_dma_len
    → length (fetched c i n s.world).0 ≤ n
    → Octets (fetched c i n s.world).0
    → Exchange (read_reply c i n s.world) rest l.reads
    → (loop net (read_frame l i n) s ≡ some (read_reply c i n s.world, after_read net c i n s))
      × (socket_read i n l
          ≡ some (
            (
              length (fetched c i n s.world).0,
              some (
                (fetched c i n s.world).1,
                (fetched c i n s.world).0 ++ replicate (n - length (fetched c i n s.world).0) 0,
              ),
            ),
            exchanged (requested l (read_request i n)) 4 (read_reply c i n s.world) rest,
          ))
unfolding Link.round_up4
socket_read-loop net s i t {c} l n rest lt at client buffers short fits law octets ex =
    let (bs, alive, w) = fetched c i n s.world in
    let (pad, sent) = frame-request l.tx_buffer (read_request i n) 4 (omega arith) in
    let reply = read_reply c i n s.world in
    let count = u16 (length bs) in
    let end = exchanged (requested l (read_request i n)) 4 reply rest in
    let pad_len = round_up4 (4 + n) - 4 - length bs in
    let body_len : length (read_body n bs) ≡ round_up4 (4 + n) - 4 =
      omega (arith, length-append bs (replicate pad_len 0), length-replicate {A = ℕ} pad_len 0) in
    let body_octets =
      All-append (λ b. b < 256) bs (replicate pad_len 0) octets (replicate-Octets pad_len) in
    let got : take n (read_body n bs) ≡ bs ++ replicate (n - length bs) 0 =
      take-append_ge n bs (replicate pad_len 0) law
      ∙ ap (◌++◌ bs) (take-replicate (n - length bs) pad_len 0 (omega arith)) in
    let number : word_of (bytes_of 2 count) ≡ length bs =
      word_of-bytes_of 2 count (omega arith) ∙ omega arith in
    (
      ap (λ f. loop net f s) sent
          ∙ loop-read_request net s i t lt at client n law fits (omega arith) pad,
      socket_read_lem l i n buffers short (count % 256) (count / 256 % 256) (flag alive) 0
            (read_body n bs) rest ex
            (omega arith, (omega arith, (flag-octet alive, (omega arith, body_octets)))) body_len
          ∙ ap (λ k. some ((k, some (to_bool (flag alive), take n (read_body n bs))), end)) number
          ∙ ap₂ (λ v d. some ((length bs, some (v, d)), end)) (flag-to_bool alive) got,
    )
