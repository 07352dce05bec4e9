-- ===== src/Esp32/Served.antt =====
-- Maixduino_esp32/main: `loop` on the frames that the driver of drivers/esp32 sends.
use kendryte_k210_base_proje.Prelude.{
  ℕ, ◌+◌, ◌-◌, ◌^◌, ◌≤◌, ◌<◌, some, List, [], ◌∷◌, ◌++◌, ◌≡◌, refl, ap, ◌∙◌, arith, u8, u16, length,
  take, get_elem?, replicate, length-replicate, append_assoc, take-append_ge, take-append,
  length-append,
}
use kendryte_k210_base_proje.Memory.{put, seg, load_lem}
use kendryte_k210_base_proje.Bytes.{bytes_of}
use kendryte_k210_base_proje.Esp32.Commands.{cesp_send_socket_data}
use kendryte_k210_base_proje.Esp32.Net.{Net, Client}
use kendryte_k210_base_proje.Esp32.Server.{
  Server, SocketType, pure, ◌>>=◌, fetch, gets, byte, max_sockets,
}
use kendryte_k210_base_proje.Esp32.Sockets.{flag, client_of}
use kendryte_k210_base_proje.Esp32.Handle.{
  Handler, handler_of, run, run_entry, handle, round_up4, received, clear_response, loop,
}
use kendryte_k210_base_proje.Esp32.Moved.{wrote, send_socket_data_lem}
use kendryte_k210_base_proje.Esp32.Steps.{after, byte_lem}

-- the server with its answer buffer cleared
abbrev pub cleared : {W : Type 0} → Net W → Server W → Server W
cleared net s = record s { response = replicate net.spi_max_dma_len 0 }

module _ {W : Type 0} (net : Net W) where
  pub handle_lem :
      (command : List ℕ) (code n : ℕ) (h : Handler) (s s' : Server W)
      → get_elem? command 0 ≡ some code
      → handler_of code ≡ some h
      → run net command h s ≡ some (n, s')
      → handle net command s ≡ some (round_up4 n, s')
  unfolding handle run_entry
  handle_lem command code n h s s' at e r =
      after (byte command 0) _ (byte_lem command 0 s at)
      ∙ ap (λ o. (run_entry net command o >>= λ k. pure (round_up4 k)) s) e
      ∙ after (run net command h) _ r

  pub loop_lem :
      (b n : ℕ) (bs : List ℕ) (s s' : Server W)
      → handle net (received net (b ∷ bs)) (cleared net s) ≡ some (n, s')
      → n ≤ length s'.response
      → loop net (b ∷ bs) s ≡ some (seg s'.response 0 n, s')
  unfolding loop clear_response gets fetch
  loop_lem b n bs s s' e h =
      after (clear_response net) _ refl
      ∙ after (handle net (received net (b ∷ bs))) _ e
      ∙ after (gets (λ s. s.response)) _ refl
      ∙ ap (λ o. fetch o s') (load_lem s'.response 0 n (omega arith))

  -- What the server receives begins with what was sent.
  pub received-append :
      (request pad : List ℕ)
      → length request ≤ net.spi_max_dma_len
      → (tail : List ℕ) × (received net (request ++ pad) ≡ request ++ tail)
  received-append request pad h =
      let zeros = replicate net.spi_max_dma_len 0 in
      (
        take (net.spi_max_dma_len - length request) (pad ++ zeros),
        ap (take net.spi_max_dma_len) (append_assoc request pad zeros)
            ∙ take-append_ge net.spi_max_dma_len request (pad ++ zeros) h,
      )

-- the frame of `esp32_spi_socket_write`, without what fills it up to a word
abbrev pub write_request : ℕ → List ℕ → List ℕ
write_request i data_ = cesp_send_socket_data ∷ u8 i ∷ bytes_of 2 (length data_) ++ data_

-- the answer to a write, and the server after it
abbrev pub write_reply : {W : Type 0} → Client W → ℕ → List ℕ → W → List ℕ
write_reply c i data_ w =
    bytes_of 2 (u16 (wrote c i data_ w).0) ++ flag (wrote c i data_ w).1 ∷ 0 ∷ []

abbrev pub after_write : {W : Type 0} → Net W → Client W → ℕ → List ℕ → Server W → Server W
after_write net c i data_ s = record s {
  response = put (replicate net.spi_max_dma_len 0) 0 (write_reply c i data_ s.world);
  world = (wrote c i data_ s.world).2;
}

module _ {W : Type 0} (net : Net W) (s : Server W) (i : ℕ) (t : SocketType) {c : Client W}
    (lt : i < max_sockets) (at : get_elem? s.socket_types i ≡ some t)
    (client : client_of net t ≡ some c) where
  pub loop-write_request :
      (data_ pad : List ℕ)
      → length data_ + 4 ≤ net.spi_max_dma_len
      → length data_ < 2 ^ 16
      → loop net (write_request i data_ ++ pad) s
        ≡ some (write_reply c i data_ s.world, after_write net c i data_ s)
  unfolding handler_of run
  loop-write_request data_ pad fits small =
      let n = length data_ in
      let (tail, seen) = received-append net (write_request i data_) pad (omega arith) in
      let command = write_request i data_ ++ tail in
      let room : 4 ≤ length (replicate {A = ℕ} net.spi_max_dma_len 0) =
        omega (arith, length-replicate {A = ℕ} net.spi_max_dma_len 0) in
      let id : u8 i ≡ i = omega (arith, lt) in
      let size : length command ≡ 4 + (n + length tail) = omega (arith, length-append data_ tail) in
      let whole : seg command 4 n ≡ data_ = take-append data_ tail in
      let sent =
        send_socket_data_lem net (cleared net s) i t lt at client command data_ n (ap some id)
          (load_lem command 2 2 (omega (arith, size))) small
          (load_lem command 4 n (omega (arith, size)) ∙ ap some whole) room in
      let handled : handle net (received net (write_request i data_ ++ pad)) (cleared net s)
          ≡ some (4, after_write net c i data_ s) =
        ap (λ r. handle net r (cleared net s)) seen
        ∙ handle_lem net command cesp_send_socket_data 4 Handler.send_socket_data (cleared net s)
            (after_write net c i data_ s) refl refl sent in
      loop_lem net cesp_send_socket_data 4 (u8 i ∷ bytes_of 2 n ++ data_ ++ pad) s
        (after_write net c i data_ s) handled (omega arith)
