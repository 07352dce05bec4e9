-- ===== src/Esp32/Connect.antt =====
-- Maixduino_esp32/main: `loop` on the command that opens a TCP connection to an address.
use kendryte_k210_base_proje.Prelude.{
  ℕ, ◌^◌, ◌≤◌, ◌<◌, some, List, [], ◌∷◌, ◌++◌, ◌≡◌, ◌≢◌, refl, ap, ◌∙◌, arith, length, get_elem?,
  replicate, ◌==◌, if◌then◌else◌, ne→==_false, length-replicate, Bool-cases, inl, inr,
}
use kendryte_k210_base_proje.Memory.{load, put, load_lem}
use kendryte_k210_base_proje.Bytes.{word_of, bytes_of, word_of-bytes_of}
use kendryte_k210_base_proje.Esp32.Commands.{cesp_start_socket_client}
use kendryte_k210_base_proje.Esp32.Net.{Net, addressed}
use kendryte_k210_base_proje.Esp32.Server.{
  Server, SocketType, tcp, ask, gets, respond, set_socket_type, byte, bytes, bad_socket_idx,
}
use kendryte_k210_base_proje.Esp32.Sockets.{
  first_empty, free_socket, answer, target, connect_client, start_socket_client,
}
use kendryte_k210_base_proje.Esp32.Handle.{Handler, handler_of, run, handle, received, loop}
use kendryte_k210_base_proje.Esp32.Steps.{after, byte_lem, bytes_lem, respond_lem}
use kendryte_k210_base_proje.Esp32.Served.{cleared, handle_lem, loop_lem, received-append}

-- the table after an attempt to open TCP socket `i`, by what `connect` gave
abbrev pub attempted : ℕ → ℕ → List SocketType → List SocketType
attempted result i ts = if result == 0 then ts else put ts i (tcp ∷ [])

-- what `connect` gives for an address, and the world then
abbrev pub connects : {W : Type 0} → Net W → ℕ → List ℕ → ℕ → W → ℕ × W
connects net i ip port w = net.tcp.connect i (addressed (word_of ip)) port w

module _ {W : Type 0} (net : Net W) where
  answer_lem :
      (x : ℕ) (s : Server W)
      → 4 ≤ length s.response
      → answer x s ≡ some (4, record s { response = put s.response 0 (bytes_of 4 x) })
  unfolding answer
  answer_lem x s h =
      after (respond 0 (bytes_of 4 x)) _ (respond_lem 0 (bytes_of 4 x) s (omega arith))

  target_lem :
      (command ip : List ℕ) (s : Server W)
      → get_elem? command 1 ≡ some 0
      → load command 8 4 ≡ some ip
      → target command s ≡ some (addressed (word_of ip), s)
  unfolding target
  target_lem command ip s e1 e2 =
      after (byte command 1) _ (byte_lem command 1 s e1)
      ∙ after (bytes command 8 4) _ (bytes_lem command 8 4 s e2)

  connect_client_lem :
      (command ip : List ℕ) (i port : ℕ) (s : Server W)
      → get_elem? command 1 ≡ some 0
      → load command 8 4 ≡ some ip
      → connect_client net 0 i (target command) port s
        ≡ some (
          tt,
          record s {
            socket_types = attempted (connects net i ip port s.world).0 i s.socket_types;
            world = (connects net i ip port s.world).1;
          },
        )
  unfolding connect_client ask set_socket_type
  connect_client_lem command ip i port s e1 e2 =
      let (result, w) = connects net i ip port s.world in
      after (target command) _ (target_lem command ip s e1 e2)
      ∙ after (ask (net.tcp.connect i (addressed (word_of ip)) port)) _ refl
      ∙ elim (Bool-cases (result == 0)) [ inl e ↦ rw e | inr e ↦ rw e ]

  start_socket_client_lem :
      (command ip : List ℕ) (port : ℕ) (s : Server W)
      → first_empty 0 s.socket_types ≢ bad_socket_idx
      → get_elem? command 1 ≡ some 0
      → load command 2 2 ≡ some (bytes_of 2 port)
      → port < 2 ^ 16
      → get_elem? command 4 ≡ some 0
      → load command 8 4 ≡ some ip
      → 4 ≤ length s.response
      → start_socket_client net command s
        ≡ some (
          4,
          record s {
            socket_types =
                attempted
                  (connects net (first_empty 0 s.socket_types) ip port s.world).0
                  (first_empty 0 s.socket_types)
                  s.socket_types;
            response = put s.response 0 (bytes_of 4 (first_empty 0 s.socket_types));
            world = (connects net (first_empty 0 s.socket_types) ip port s.world).1;
          },
        )
  unfolding start_socket_client free_socket gets
  start_socket_client_lem command ip port s free e1 e2 small e4 e8 room =
      let i = first_empty 0 s.socket_types in
      let (result, w) = connects net i ip port s.world in
      let s' = record s { socket_types = attempted result i s.socket_types; world = w } in
      let size : word_of (bytes_of 2 port) ≡ port = word_of-bytes_of 2 port (omega arith) in
      after free_socket _ refl
      ∙ rw (ne→==_false i bad_socket_idx free) (
          after (bytes command 2 2) _ (bytes_lem command 2 2 s e2)
          ∙ after (byte command 4) _ (byte_lem command 4 s e4)
          ∙ after (connect_client net 0 i (target command) (word_of (bytes_of 2 port))) _ (
              ap (λ p. connect_client net 0 i (target command) p s) size
              ∙ connect_client_lem command ip i port s e1 e8)
          ∙ answer_lem i s' room)

-- the frame of `esp32_spi_socket_open_ip` in TCP_MODE
abbrev pub open_request : List ℕ → ℕ → List ℕ
open_request ip port = cesp_start_socket_client ∷ 0 ∷ bytes_of 2 port ++ 0 ∷ 0 ∷ 0 ∷ 0 ∷ ip

-- the server after the attempt
abbrev pub after_open : {W : Type 0} → Net W → List ℕ → ℕ → Server W → Server W
after_open net ip port s = record s {
  socket_types =
      attempted (connects net (first_empty 0 s.socket_types) ip port s.world).0
        (first_empty 0 s.socket_types) s.socket_types;
  response = put (replicate net.spi_max_dma_len 0) 0 (bytes_of 4 (first_empty 0 s.socket_types));
  world = (connects net (first_empty 0 s.socket_types) ip port s.world).1;
}

module _ {W : Type 0} (net : Net W) (s : Server W) (a b c d port : ℕ) where
  abbrev ip : List ℕ
  ip = a ∷ b ∷ c ∷ d ∷ []

  pub loop-open_request :
      (pad : List ℕ)
      → first_empty 0 s.socket_types ≢ bad_socket_idx
      → port < 2 ^ 16
      → 12 ≤ net.spi_max_dma_len
      → loop net (open_request ip port ++ pad) s
        ≡ some (bytes_of 4 (first_empty 0 s.socket_types), after_open net ip port s)
  unfolding handler_of run
  loop-open_request pad free small fits =
      let size = net.spi_max_dma_len in
      let (tail, seen) = received-append net (open_request ip port) pad (omega arith) in
      let command = open_request ip port ++ tail in
      let zeros = length-replicate {A = ℕ} size 0 in
      let room : 4 ≤ length (replicate {A = ℕ} size 0) = omega (arith, zeros) in
      let opened =
        start_socket_client_lem net command ip port (cleared net s) free refl
          (load_lem command 2 2 (omega arith)) small refl (load_lem command 8 4 (omega arith))
          room in
      let handled : handle net (received net (open_request ip port ++ pad)) (cleared net s)
          ≡ some (4, after_open net ip port s) =
        ap (λ r. handle net r (cleared net s)) seen
        ∙ handle_lem net command cesp_start_socket_client 4 Handler.start_socket_client
            (cleared net s) (after_open net ip port s) refl refl opened in
      loop_lem net cesp_start_socket_client 4 (0 ∷ bytes_of 2 port ++ 0 ∷ 0 ∷ 0 ∷ 0 ∷ ip ++ pad) s
        (after_open net ip port s) handled (omega arith)
