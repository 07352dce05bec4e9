-- ===== src/Esp32/Sock.antt =====
-- drivers/esp32/esp32_spi.cpp: the commands of sockets and of the server.
use kendryte_k210_base_proje.Prelude.{
  ℕ, ◌+◌, ◌-◌, Bool, false, Option, none, some, List, [], ◌∷◌, ltb, ◌==◌, if◌then◌else◌, u8,
}
use kendryte_k210_base_proje.Memory.{load}
use kendryte_k210_base_proje.Bytes.{word_of, bytes_of}
use kendryte_k210_base_proje.Esp32.Commands
use kendryte_k210_base_proje.Esp32.Link.{
  M, pure, ◌>>=◌, ◌>>◌, fetch, rx, set_tx, buffer_size, esp32_transfer, esp32_transfer_no_param,
}
use kendryte_k210_base_proje.Esp32.Client.{
  put_text, rx_byte, to_bool, with_socket, with_port, bad_socket, get_host_by_name, with_ip,
}

-- `esp32_spi_max_write_size`
unfoldable pub max_write_size : ℕ
max_write_size = buffer_size - 4

-- the address or the name behind the head of the command; what is returned is `len`
unfoldable pub put_target : ℕ → List ℕ → M ℕ
put_target dest_type dest =
    if dest_type == 0
    then (do ip ← fetch (load dest 0 4); set_tx 8 ip; pure 12)
    else put_text 8 dest

-- `esp32_spi_socket_open_internal`
unfoldable pub socket_open_internal : List ℕ → ℕ → ℕ → ℕ → M ℕ
socket_open_internal dest dest_type port conn_mode = do
  set_tx 0 (Commands.cesp_start_socket_client ∷ dest_type ∷ [])
  set_tx 2 (bytes_of 2 port)
  set_tx 4 (conn_mode ∷ 0 ∷ 0 ∷ 0 ∷ [])
  len ← put_target dest_type dest
  ok ← esp32_transfer len Commands.cesp_resp
  if ok then rx_byte 0 else pure bad_socket

unfoldable pub socket_open_ip : List ℕ → ℕ → ℕ → M ℕ
socket_open_ip ip port conn_mode = socket_open_internal ip 0 port conn_mode

unfoldable pub socket_open : List ℕ → ℕ → ℕ → M ℕ
socket_open hostname port conn_mode = socket_open_internal hostname 1 port conn_mode

unfoldable pub socket_connected : ℕ → M Bool
socket_connected sn = do
  ok ← esp32_transfer_no_param (with_socket Commands.cesp_get_socket_state sn) Commands.cesp_resp
  if ok then (do b ← rx_byte 0; pure (to_bool b)) else pure false

unfoldable pub socket_available : ℕ → M ℕ
socket_available sn = do
  ok ← esp32_transfer_no_param (with_socket Commands.cesp_avail_socket_data sn) Commands.cesp_resp
  if ok then (do bs ← rx 0 2; pure (word_of bs)) else pure 0

-- `if(len > esp32_spi_max_write_size()) len = …;`
abbrev pub cut_length : ℕ → ℕ
cut_length len = if ltb max_write_size len then max_write_size else len

-- `esp32_spi_socket_write` of the `len` bytes at `buffer`: the count, and whether the client is
-- alive if the transfer succeeds
unfoldable pub socket_write : ℕ → List ℕ → ℕ → M (ℕ × Option Bool)
socket_write sn buffer len = do
  let n = cut_length len
  set_tx 0 (Commands.cesp_send_socket_data ∷ u8 sn ∷ [])
  set_tx 2 (bytes_of 2 n)
  bs ← fetch (load buffer 0 n)
  set_tx 4 bs
  ok ← esp32_transfer (n + 4) Commands.cesp_resp
  if ok
      then (do alive ← rx_byte 2; count ← rx 0 2; pure (word_of count, some (to_bool alive)))
      else pure (0, none)

-- `esp32_spi_socket_read`: the count, whether the client is alive, and what is put into `buff`
unfoldable pub socket_read : ℕ → ℕ → M (ℕ × Option (Bool × List ℕ))
socket_read sn size = do
  let n = cut_length size
  set_tx 0 (Commands.cesp_read_socket_data ∷ u8 sn ∷ [])
  set_tx 2 (bytes_of 2 n)
  ok ← esp32_transfer 4 (n + 4)
  if ok
      then (do
        bs ← rx 4 n
        alive ← rx_byte 2
        count ← rx 0 2
        pure (word_of count, some (to_bool alive, bs)))
      else pure (0, none)

unfoldable pub socket_close : ℕ → M Bool
socket_close sn = do
  ok ← esp32_transfer_no_param (with_socket Commands.cesp_close_socket sn) Commands.cesp_resp
  if ok then (do b ← rx_byte 0; pure (to_bool b)) else pure false

unfoldable pub connect_server_port_tcp : List ℕ → ℕ → M ℕ
connect_server_port_tcp host port = do
  r ← get_host_by_name host
  with_ip bad_socket (λ ip. socket_open_ip ip port 0) r

unfoldable pub server_create : ℕ → M Bool
server_create port = do
  ok ← esp32_transfer_no_param (with_port Commands.cesp_tcp_server_create port) Commands.cesp_resp
  if ok then (do b ← rx_byte 0; pure (to_bool b)) else pure false

unfoldable pub server_stop : M (Unit {0})
server_stop = do
  ok ← esp32_transfer_no_param Commands.cesp_tcp_server_stop Commands.cesp_resp
  pure tt

-- `esp32_spi_server_accept`: the socket, and whether the server is alive
unfoldable pub server_accept : M (ℕ × Option Bool)
server_accept = do
  ok ← esp32_transfer_no_param Commands.cesp_tcp_server_accept Commands.cesp_resp
  if ok
      then (do alive ← rx_byte 1; sn ← rx_byte 0; pure (sn, some (to_bool alive)))
      else pure (bad_socket, none)
