-- ===== src/Esp32/Client.antt =====
-- drivers/esp32/esp32_spi.cpp: the commands of the network. An output through a pointer is part of
-- the result; the pauses leave no trace.
use kendryte_k210_base_proje.Prelude.{
  ℕ, zero, suc, ◌+◌, ◌-◌, ◌*◌, Bool, true, false, not, Option, none, some, List, [], ◌∷◌, ltb, ◌==◌,
  if◌then◌else◌, length, u8, shl, bit_and, bit_or, bit_xor,
}
use kendryte_k210_base_proje.Bytes.{word_of, bytes_of}
use kendryte_k210_base_proje.Esp32.Commands
use kendryte_k210_base_proje.Esp32.Link.{
  chip_select, drive_mode, reset_pin, M, pure, fault, ◌>>=◌, ◌>>◌, out, rx, set_rx, set_tx,
  buffer_size, esp32_transfer, esp32_transfer_no_param,
}

-- `strncpy_s`: the bytes that it writes, of a text without its NUL
unfoldable pub strncpy_s : List ℕ → ℕ → List ℕ
strncpy_s src zero = []
strncpy_s [] (suc n) = 0 ∷ []
strncpy_s (b ∷ src) (suc zero) = 0 ∷ []
strncpy_s (b ∷ src) (suc (suc n)) = b ∷ strncpy_s src (suc n)

-- `strncpy_s(cbuf+len, src, BUFFER_SIZE-len); len += strlen(cbuf+len)+1;` gives the new `len`. With
-- no room left `strlen` reads behind the buffer.
unfoldable pub put_text : ℕ → List ℕ → M ℕ
unfolding strncpy_s
put_text len src = do
  let text = strncpy_s src (buffer_size - len)
  set_tx len text
  if length text == 0 then fault else pure (len + length text)

-- the byte at `rx_buffer[i]`
unfoldable pub rx_byte : ℕ → M ℕ
rx_byte i = do bs ← rx i 1; pure (word_of bs)

-- `… ? true : false`
abbrev pub to_bool : ℕ → Bool
to_bool b = not (b == 0)

-- a command with a parameter in its second byte, and one with a port in its upper half
abbrev pub with_socket : ℕ → ℕ → ℕ
with_socket code sn = bit_or code (shl sn 8)

abbrev pub with_port : ℕ → ℕ → ℕ
with_port code port = bit_or code (shl port 16)

abbrev pub bad_socket : ℕ
bad_socket = 0xFF

-- `esp32_test_invert`: `none` is -1, and the `false` for a length that is not made of words is 0
module _ where
  -- the loop that compares, from index `i` on: the first byte that differs, or the length
  unfoldable pub first_wrong : ℕ → List ℕ → List ℕ → ℕ
  first_wrong i [] got = i
  first_wrong i (d ∷ ds) [] = i
  first_wrong i (d ∷ ds) (g ∷ gs) =
      let rest = first_wrong (i + 1) ds gs in if bit_xor d 0xFF == g then rest else i

  unfoldable pub test_invert : List ℕ → M (Option ℕ)
  test_invert bytes =
      let run = (do
        set_tx 0 (bytes_of 4 (bit_or (shl (length bytes) 16) Commands.cesp_invert_bytes))
        set_tx 4 bytes
        ok ← esp32_transfer (length bytes + 4) (length bytes)
        if ok
            then (do got ← rx 0 (length bytes); pure (some (first_wrong 0 bytes got)))
            else pure none) in
      if bit_and (length bytes) 3 == 0 then run else pure (some 0)

unfoldable pub set_debug : Bool → M (Unit {0})
set_debug enable = do
  ok ←
      esp32_transfer_no_param (bit_or Commands.cesp_set_debug (if enable then 0x100 else 0))
        Commands.cesp_resp
  pure tt

-- `esp32_spi_firmware_version`: the text is in `rx_buffer`
unfoldable pub firmware_version : M (Unit {0})
firmware_version = do
  ok ← esp32_transfer_no_param Commands.cesp_get_fw_version Commands.cesp_resp_fw_version
  set_rx Commands.cesp_resp_fw_version (0 ∷ [])

-- the bytes of the `float`; the length that is asked for is that of the version
unfoldable pub get_temperature : M (List ℕ)
get_temperature = do
  ok ← esp32_transfer_no_param Commands.cesp_get_temperature Commands.cesp_resp_fw_version
  rx 0 4

-- `sizeof(esp32_spi_ap_t)` and `sizeof(esp32_spi_aps_list_t)`
abbrev pub aps_size : ℕ → ℕ
aps_size num = 35 * num + 1

-- `esp32_spi_scan_networks`: false is NULL, else the list is in `rx_buffer`
unfoldable pub scan_networks : M Bool
scan_networks = do
  ok ← esp32_transfer_no_param Commands.cesp_scan_networks Commands.cesp_resp
  let found = (do
    num ← rx_byte 1
    set_rx 0 (0 ∷ [])
    if num == 0
        then pure true
        else esp32_transfer_no_param Commands.cesp_scan_networks_result (aps_size num))
  if ok then found else pure false

-- `esp32_spi_status`; WL_IDLE_STATUS is 0
unfoldable pub status : M ℕ
status = do
  ok ← esp32_transfer_no_param Commands.cesp_get_conn_status Commands.cesp_resp
  if ok then rx_byte 1 else pure 0

unfoldable pub wifi_set_ssid_and_pass : List ℕ → List ℕ → M Bool
wifi_set_ssid_and_pass ssid passphrase = do
  set_tx 0 (Commands.cesp_set_ssid_and_pass ∷ [])
  len ← put_text 1 ssid
  len' ← put_text len passphrase
  esp32_transfer len' Commands.cesp_resp

unfoldable pub wifi_starting_ap : List ℕ → List ℕ → ℕ → M Bool
wifi_starting_ap ssid passphrase channel = do
  set_tx 0 (Commands.cesp_starting_ap ∷ [])
  set_tx 1 (u8 channel ∷ [])
  len ← put_text 2 ssid
  len' ← put_text len passphrase
  esp32_transfer len' Commands.cesp_resp

-- `esp32_spi_reset`; `(int8_t)rst_num > 0`
unfoldable pub reset : M (Unit {0})
reset l =
    (do
      out (chip_select 1)
      if ltb 0 l.rst_num
          then (do out (drive_mode 1); out (reset_pin 0); out (reset_pin 1); out (drive_mode 0))
          else (do ok ← esp32_transfer_no_param Commands.cesp_soft_reset 0; pure tt))
      l

-- WL_CONNECTED, and the byte that is -1 as an `int8_t`
abbrev pub wl_connected : ℕ
wl_connected = 2

-- the loop of `esp32_spi_connect_AP`: what it returns, or `none` when the tries are used up
unfoldable pub connect_loop : ℕ → M (Option Bool)
connect_loop zero = pure none
connect_loop (suc tries) = do
  stat ← status
  let again = connect_loop tries
  if u8 stat == 0xFF
      then (do reset; pure (some false))
      else if u8 stat == wl_connected
      then pure (some true)
      else again

-- what is left when the tries are used up: both ends return false
unfoldable pub connect_end : Option Bool → M Bool
connect_end none = do stat ← status; pure false
connect_end (some b) = pure b

unfoldable pub connect_ap : List ℕ → List ℕ → ℕ → M Bool
connect_ap ssid password retry_times = do
  ok ← wifi_set_ssid_and_pass ssid password
  let tries = (do result ← connect_loop retry_times; connect_end result)
  if ok then tries else pure false

-- `esp32_spi_get_host_by_name`: what it returns, and `ip` when the transfer succeeds
unfoldable pub get_host_by_name : List ℕ → M (Bool × Option (List ℕ))
get_host_by_name hostname = do
  set_tx 0 (Commands.cesp_req_host_by_name ∷ [])
  len ← put_text 1 hostname
  ok ← esp32_transfer len Commands.cesp_resp_req_host_by_name
  if ok
      then (do ip ← rx 4 4; found ← rx_byte 0; pure (to_bool found, some ip))
      else pure (false, none)

unfoldable pub ping_ip : List ℕ → ℕ → M ℕ
ping_ip ip ttl = do
  set_tx 0 (Commands.cesp_ping ∷ u8 ttl ∷ 0 ∷ 0 ∷ [])
  set_tx 4 ip
  ok ← esp32_transfer 8 Commands.cesp_resp
  if ok then (do bs ← rx 2 2; pure (word_of bs)) else pure 0xFFFF

-- the use of the address, when there is one
unfoldable pub with_ip : {A : Type 0} → A → (List ℕ → M A) → Bool × Option (List ℕ) → M A
with_ip failed k (true, some ip) = k ip
with_ip failed k (true, none) = pure failed
with_ip failed k (false, ip) = pure failed

unfoldable pub ping : List ℕ → ℕ → M ℕ
ping dest ttl = do r ← get_host_by_name dest; with_ip 0xFFFF (λ ip. ping_ip ip ttl) r

-- `esp32_get_ip_addr`, all three pointers given
unfoldable pub get_ip_addr : M (Option (List ℕ × List ℕ × List ℕ))
get_ip_addr = do
  ok ← esp32_transfer_no_param Commands.cesp_get_ip_addr Commands.cesp_resp_get_ip_addr
  if ok
      then (do
        local_ip ← rx 0 4
        subnet_mask ← rx 4 4
        gateway_ip ← rx 8 4
        pure (some (local_ip, subnet_mask, gateway_ip)))
      else pure none
