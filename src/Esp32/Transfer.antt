-- ===== src/Esp32/Transfer.antt =====
-- Maixduino_esp32/main/CommandHandler.cpp: the handlers that move data over a socket, and those
-- of the server.
use kendryte_k210_base_proje.Prelude.{
  ℕ, ◌+◌, ◌-◌, ◌/◌, ◌^◌, Bool, false, Option, none, some, List, [], ◌∷◌, ltb, ◌==◌, if◌then◌else◌,
  u8, u16, length,
}
use kendryte_k210_base_proje.Bytes.{word_of, bytes_of}
use kendryte_k210_base_proje.Esp32.Commands.{cesp_resp}
use kendryte_k210_base_proje.Esp32.Net.{Net, Client}
use kendryte_k210_base_proje.Esp32.Server.{
  tcp, M, pure, ◌>>=◌, ◌>>◌, call, ask, gets, respond, socket_type, set_socket_type, byte, bytes,
  bad_socket_idx,
}
use kendryte_k210_base_proje.Esp32.Sockets.{free_socket, flag, answer, on_socket, with_client}

module _ {W : Type 0} where
  -- `written = ….write(data, length); valid = …;`
  unfoldable pub write_client : List ℕ → ℕ → ℕ → Client W → M W (ℕ × Bool)
  write_client command socket len c = do
    data_ ← bytes command 4 len
    written ← ask (c.write socket data_)
    valid ← ask (c.alive socket)
    pure (u16 written, valid)

  -- the answer of the two handlers that move data: a length and whether the client is alive
  unfoldable pub respond_moved : ℕ → Bool → M W (Unit {0})
  respond_moved n valid = do
    respond 0 (bytes_of 2 n)
    respond 2 (flag valid ∷ [])
    respond 3 (0 ∷ [])

  unfoldable pub send_socket_data : Net W → List ℕ → M W ℕ
  send_socket_data net command = do
    socket ← byte command 1
    len ← bytes command 2 2
    (written, valid) ←
        on_socket socket (0, false)
          (with_client net (0, false) (write_client command socket (word_of len)))
    respond_moved written valid
    pure cesp_resp

  -- `read = ….read(out, length); valid = …;` with what a negative `read` becomes
  unfoldable pub store_read : Option (List ℕ) → M W ℕ
  store_read none = pure 0
  store_read (some bs) = do respond 4 bs; pure (length bs)

  unfoldable pub read_client : ℕ → ℕ → Client W → M W (ℕ × Bool)
  read_client socket len c = do
    got ← ask (c.read socket len)
    read ← store_read got
    valid ← ask (c.alive socket)
    pure (u16 read, valid)

  -- `length`, cut to what the buffer has room for
  abbrev pub read_length : Net W → ℕ → ℕ
  read_length net len = if ltb (net.spi_max_dma_len - 4) len then net.spi_max_dma_len - 4 else len

  -- the text of `if(debug) printf(…)` reads the table
  unfoldable pub debug_read : ℕ → M W (Unit {0})
  debug_read socket = do
    debug ← gets (λ s. s.debug)
    if debug then (do t ← socket_type socket; pure tt) else pure tt

  unfoldable pub read_socket_data : Net W → List ℕ → M W ℕ
  read_socket_data net command = do
    socket ← byte command 1
    asked ← bytes command 2 2
    let len = read_length net (word_of asked)
    debug_read socket
    (read, valid) ←
        on_socket socket (0, false) (with_client net (0, false) (read_client socket len))
    respond_moved read valid
    pure (4 + len)

  unfoldable pub get_remote_data : Net W → List ℕ → M W ℕ
  get_remote_data net command = do
    socket ← byte command 4
    t ← socket_type socket
    ip ← with_client net 0 (λ c. ask (c.remote_ip socket)) t
    port ← with_client net 0 (λ c. ask (c.remote_port socket)) t
    respond 0 (bytes_of 4 ip)
    respond 4 (u8 (u16 port / 2 ^ 8) ∷ u8 port ∷ [])
    pure 8

  unfoldable pub tcp_server_create : Net W → List ℕ → M W ℕ
  tcp_server_create net command = do
    port ← bytes command 2 2
    call net.server_stop
    call (net.server_new (word_of port))
    begun ← ask net.server_begin
    answer (flag (ltb 0 begun))

  unfoldable pub tcp_server_stop : Net W → M W ℕ
  tcp_server_stop net = do call net.server_stop; answer 1

  -- `if(client) { … }`: the socket that the accepted client gets
  unfoldable pub accept_client : Net W → M W ℕ
  accept_client net = do
    socket ← free_socket
    if socket == bad_socket_idx
        then (do call net.accepted_stop; pure socket)
        else (do call (net.accepted_assign socket); set_socket_type socket tcp; pure socket)

  unfoldable pub tcp_server_accept : Net W → M W ℕ
  tcp_server_accept net = do
    client ← ask net.server_accept
    socket ← (if client then accept_client net else pure bad_socket_idx)
    alive ← ask net.server_alive
    respond 0 (socket ∷ flag alive ∷ 0 ∷ 0 ∷ [])
    pure cesp_resp
