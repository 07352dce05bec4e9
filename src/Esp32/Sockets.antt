-- ===== src/Esp32/Sockets.antt =====
-- Maixduino_esp32/main/CommandHandler.cpp: the table of sockets, and the handlers that use it. A
-- handler returns the length of its answer.
use kendryte_k210_base_proje.Prelude.{
  ℕ, suc, Bool, true, false, ◌&&◌, Option, none, some, List, [], ◌∷◌, ltb, leb, ◌==◌, if◌then◌else◌,
  u16,
}
use kendryte_k210_base_proje.Bytes.{word_of, bytes_of}
use kendryte_k210_base_proje.Esp32.Commands.{cesp_resp}
use kendryte_k210_base_proje.Esp32.Net.{Net, Client, Host, named, addressed}
use kendryte_k210_base_proje.Esp32.Server.{
  SocketType, tcp, udp, tls, empty, M, pure, ◌>>=◌, ◌>>◌, call, ask, gets, respond, socket_type,
  set_socket_type, byte, bytes, text, max_sockets, bad_socket_idx,
}

-- the loop of `freeSocket` from index `i` on
unfoldable pub first_empty : ℕ → List SocketType → ℕ
first_empty i [] = bad_socket_idx
first_empty i (empty ∷ ts) = i
first_empty i (tcp ∷ ts) = first_empty (suc i) ts
first_empty i (udp ∷ ts) = first_empty (suc i) ts
first_empty i (tls ∷ ts) = first_empty (suc i) ts

-- `ok ? 1 : 0`
abbrev pub flag : Bool → ℕ
flag true = 1
flag false = 0

-- the client array of a socket that is open, by its type
abbrev pub client_of : {W : Type 0} → Net W → SocketType → Option (Client W)
client_of net tcp = some net.tcp
client_of net tls = some net.tls
client_of net udp = none
client_of net empty = none

module _ {W : Type 0} where
  -- `freeSocket`
  unfoldable pub free_socket : M W ℕ
  free_socket = gets (λ s. first_empty 0 s.socket_types)

  -- `*(uint32_t*)response = x; return …`, four bytes long
  unfoldable pub answer : ℕ → M W ℕ
  answer x = do respond 0 (bytes_of 4 x); pure cesp_resp

  -- `if (setCert && setPSK) { … }`
  unfoldable pub set_keys : Net W → ℕ → M W (Unit {0})
  set_keys net socket = do
    ready ← gets (λ s. s.set_cert && s.set_psk)
    cert ← gets (λ s. s.cert_buf)
    key ← gets (λ s. s.pk_buff)
    if ready
        then (do call (net.set_certificate socket cert); call (net.set_private_key socket key))
        else pure tt

  -- the address of `command[8]` on, or the text there
  unfoldable pub target : List ℕ → M W Host
  target command = do
    by_name ← byte command 1
    if by_name == 0
        then (do ip ← bytes command 8 4; pure (addressed (word_of ip)))
        else (do name ← text command 8; pure (named name))

  -- the branches of `startSocketClient` on the mode; the library reads the target's text
  unfoldable pub connect_client : Net W → ℕ → ℕ → M W Host → ℕ → M W (Unit {0})
  connect_client net mode socket target_host port =
      if mode == 0
      then (do
        host ← target_host
        result ← ask (net.tcp.connect socket host port)
        if result == 0 then pure tt else set_socket_type socket tcp)
      else if mode == 2
      then (do
        set_keys net socket
        host ← target_host
        result ← ask (net.tls.connect socket host port)
        if result == 0 then pure tt else set_socket_type socket tls)
      else pure tt

  unfoldable pub start_socket_client : Net W → List ℕ → M W ℕ
  start_socket_client net command = do
    socket ← free_socket
    if socket == bad_socket_idx then answer bad_socket_idx else (do
      port ← bytes command 2 2
      mode ← byte command 4
      connect_client net mode socket (target command) (word_of port)
      answer socket)

  -- the branches on `socketTypes[socket]` of `closeSocket`: what is returned is `ok`
  unfoldable pub stop_client : Net W → ℕ → SocketType → M W Bool
  stop_client net socket tcp = do
    call (net.tcp.stop socket)
    set_socket_type socket empty
    pure true
  stop_client net socket tls = do
    call (net.tls.stop socket)
    set_socket_type socket empty
    pure true
  stop_client net socket udp = pure false
  stop_client net socket empty = pure false

  -- `if (socket >= MAX_SOCKETS) { } else if (socketTypes[socket] == …) …`
  unfoldable pub on_socket : {A : Type 0} → ℕ → A → (SocketType → M W A) → M W A
  on_socket socket out k =
      if leb max_sockets socket then pure out else (do t ← socket_type socket; k t)

  unfoldable pub close_socket : Net W → List ℕ → M W ℕ
  close_socket net command = do
    socket ← byte command 1
    ok ← on_socket socket false (stop_client net socket)
    answer (flag ok)

  -- a call of the open socket's client, and what a socket that is not open gives
  unfoldable pub with_client : {A : Type 0} → Net W → A → (Client W → M W A) → SocketType → M W A
  with_client net out k tcp = k net.tcp
  with_client net out k tls = k net.tls
  with_client net out k udp = pure out
  with_client net out k empty = pure out

  unfoldable pub get_socket_state : Net W → List ℕ → M W ℕ
  get_socket_state net command = do
    socket ← byte command 1
    connected ← on_socket socket 0 (with_client net 0 (λ c. ask (c.connected socket)))
    answer (flag (ltb 0 connected))

  unfoldable pub avail_socket_data : Net W → List ℕ → M W ℕ
  avail_socket_data net command = do
    socket ← byte command 1
    available ← on_socket socket 0 (with_client net 0 (λ c. ask (c.available socket)))
    answer (u16 available)
