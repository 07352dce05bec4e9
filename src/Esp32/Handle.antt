-- ===== src/Esp32/Handle.antt =====
-- Maixduino_esp32/main/CommandHandler.cpp: the table of handlers and `handle`; sketch.ino.cpp:
-- `loop`, which serves one command.
use kendryte_k210_base_proje.Prelude.{
  ℕ, ◌+◌, ◌*◌, ◌/◌, Option, none, some, List, [], ◌∷◌, ◌++◌, take, get_elem?, replicate,
}
use kendryte_k210_base_proje.Memory.{load}
use kendryte_k210_base_proje.Esp32.Net.{Net}
use kendryte_k210_base_proje.Esp32.Server.{
  Server, M, pure, ◌>>=◌, ◌>>◌, fetch, gets, byte, empty, max_sockets,
}
use kendryte_k210_base_proje.Esp32.Sockets
use kendryte_k210_base_proje.Esp32.Transfer
use kendryte_k210_base_proje.Esp32.Wifi
use kendryte_k210_base_proje.Esp32.Device

-- the entries of `commandHandlers` that are not NULL
pub data Handler : Type 0 where
  invert_bytes set_debug get_fw_version get_temperature soft_reset set_pin_mode : Handler
  set_digital_write tcp_server_create tcp_server_stop tcp_server_accept disconnect_wifi : Handler
  set_ssid_and_pass scan_networks scan_networks_result set_ap_pass_phrase set_hostname : Handler
  set_power_mode get_conn_status get_ip_addr get_mac_addr get_curr_ssid get_curr_bssid : Handler
  get_curr_rssi get_curr_enct start_socket_client close_socket get_socket_state : Handler
  avail_socket_data send_socket_data read_socket_data get_idx_rssi get_idx_enct : Handler
  req_host_by_name get_remote_data get_time get_idx_bssid get_idx_channel ping : Handler
  set_client_cert set_cert_key wpa2_ent_set_identity wpa2_ent_set_username : Handler
  wpa2_ent_set_password wpa2_ent_set_ca_cert wpa2_ent_set_cert_key wpa2_ent_enable : Handler

-- `commandHandlers`, sixteen entries to a group
abbrev command_handlers_0 : List (Option Handler)
command_handlers_0 =
    some invert_bytes
    ∷ some set_debug
    ∷ some get_fw_version
    ∷ some get_temperature
    ∷ some soft_reset
    ∷ some set_pin_mode
    ∷ some set_digital_write
    ∷ none
    ∷ some tcp_server_create
    ∷ some tcp_server_stop
    ∷ some tcp_server_accept
    ∷ none
    ∷ none
    ∷ none
    ∷ none
    ∷ none
    ∷ []

abbrev command_handlers_1 : List (Option Handler)
command_handlers_1 =
    some disconnect_wifi
    ∷ some set_ssid_and_pass
    ∷ some scan_networks
    ∷ some scan_networks_result
    ∷ some set_ap_pass_phrase
    ∷ none
    ∷ some set_hostname
    ∷ some set_power_mode
    ∷ replicate 8 none

abbrev command_handlers_2 : List (Option Handler)
command_handlers_2 =
    some get_conn_status
    ∷ some get_ip_addr
    ∷ some get_mac_addr
    ∷ some get_curr_ssid
    ∷ some get_curr_bssid
    ∷ some get_curr_rssi
    ∷ some get_curr_enct
    ∷ none
    ∷ some start_socket_client
    ∷ some close_socket
    ∷ some get_socket_state
    ∷ some avail_socket_data
    ∷ some send_socket_data
    ∷ some read_socket_data
    ∷ none
    ∷ none
    ∷ []

abbrev command_handlers_3 : List (Option Handler)
command_handlers_3 =
    none
    ∷ none
    ∷ some get_idx_rssi
    ∷ some get_idx_enct
    ∷ some req_host_by_name
    ∷ none
    ∷ none
    ∷ some get_fw_version
    ∷ none
    ∷ none
    ∷ some get_remote_data
    ∷ some get_time
    ∷ some get_idx_bssid
    ∷ some get_idx_channel
    ∷ some ping
    ∷ none
    ∷ []

abbrev command_handlers_4 : List (Option Handler)
command_handlers_4 =
    some set_client_cert
    ∷ some set_cert_key
    ∷ none
    ∷ none
    ∷ none
    ∷ none
    ∷ none
    ∷ none
    ∷ none
    ∷ none
    ∷ some wpa2_ent_set_identity
    ∷ some wpa2_ent_set_username
    ∷ some wpa2_ent_set_password
    ∷ some wpa2_ent_set_ca_cert
    ∷ some wpa2_ent_set_cert_key
    ∷ some wpa2_ent_enable
    ∷ []

abbrev pub command_handlers : List (Option Handler)
command_handlers =
    command_handlers_0 ++ command_handlers_1 ++ command_handlers_2 ++ command_handlers_3
    ++ command_handlers_4

-- the entry of a code, `none` also for one behind the end of the table
unfoldable pub handler_of : ℕ → Option Handler
handler_of code = elim (get_elem? command_handlers code) [ none ↦ none | some h ↦ h ]

-- `(n + 3) & ~3`
abbrev pub round_up4 : ℕ → ℕ
round_up4 n = (n + 3) / 4 * 4

module _ {W : Type 0} (net : Net W) (command : List ℕ) where
  -- `commandHandlerType(command, response)`
  unfoldable pub run : Handler → M W ℕ
  run invert_bytes = Device.invert_bytes net command
  run set_debug = Wifi.set_debug net command
  run get_fw_version = Wifi.get_fw_version net command
  run get_temperature = Wifi.get_temperature net command
  run soft_reset = Device.soft_reset net command
  run set_pin_mode = Device.set_pin_mode net command
  run set_digital_write = Device.set_digital_write net command
  run tcp_server_create = Transfer.tcp_server_create net command
  run tcp_server_stop = Transfer.tcp_server_stop net
  run tcp_server_accept = Transfer.tcp_server_accept net
  run disconnect_wifi = Wifi.disconnect_wifi net command
  run set_ssid_and_pass = Wifi.set_ssid_and_pass net command
  run scan_networks = Wifi.scan_networks net command
  run scan_networks_result = Wifi.scan_networks_result net command
  run set_ap_pass_phrase = Wifi.set_ap_pass_phrase net command
  run set_hostname = Wifi.set_hostname net command
  run set_power_mode = Wifi.set_power_mode net command
  run get_conn_status = Wifi.get_conn_status net command
  run get_ip_addr = Wifi.get_ip_addr net command
  run get_mac_addr = Wifi.get_mac_addr net command
  run get_curr_ssid = Wifi.get_curr_ssid net command
  run get_curr_bssid = Wifi.get_curr_bssid net command
  run get_curr_rssi = Wifi.get_curr_rssi net command
  run get_curr_enct = Wifi.get_curr_enct net command
  run start_socket_client = Sockets.start_socket_client net command
  run close_socket = Sockets.close_socket net command
  run get_socket_state = Sockets.get_socket_state net command
  run avail_socket_data = Sockets.avail_socket_data net command
  run send_socket_data = Transfer.send_socket_data net command
  run read_socket_data = Transfer.read_socket_data net command
  run get_idx_rssi = Wifi.get_idx_rssi net command
  run get_idx_enct = Wifi.get_idx_enct net command
  run req_host_by_name = Wifi.req_host_by_name net command
  run get_remote_data = Transfer.get_remote_data net command
  run get_time = Wifi.get_time net command
  run get_idx_bssid = Wifi.get_idx_bssid net command
  run get_idx_channel = Wifi.get_idx_channel net command
  run ping = Wifi.ping net command
  run set_client_cert = Device.set_client_cert net command
  run set_cert_key = Device.set_cert_key net command
  run wpa2_ent_set_identity = Device.wpa2_ent_set_identity net command
  run wpa2_ent_set_username = Device.wpa2_ent_set_username net command
  run wpa2_ent_set_password = Device.wpa2_ent_set_password net command
  run wpa2_ent_set_ca_cert = Device.wpa2_ent_set_ca_cert net command
  run wpa2_ent_set_cert_key = Device.wpa2_ent_set_cert_key net command
  run wpa2_ent_enable = Device.wpa2_ent_enable net command

  unfoldable pub run_entry : Option Handler → M W ℕ
  run_entry none = pure 0
  run_entry (some h) = run h

  -- `CommandHandlerClass::handle`
  unfoldable pub handle : M W ℕ
  handle = do code ← byte command 0; n ← run_entry (handler_of code); pure (round_up4 n)

module _ {W : Type 0} (net : Net W) where
  -- `CommandHandlerClass::begin`; `world` after `pinMode(0, OUTPUT)`
  unfoldable pub begin : Server W → Server W
  begin s = record s { socket_types = replicate max_sockets empty }

  unfoldable pub clear_response : M W (Unit {0})
  clear_response s = some (tt, record s { response = replicate net.spi_max_dma_len 0 })

  -- `commandBuffer`: zeros, and over them the bytes that `SPIS.transfer` gave
  abbrev pub received : List ℕ → List ℕ
  received bs = take net.spi_max_dma_len (bs ++ replicate net.spi_max_dma_len 0)

  -- `loop` on the bytes of one transfer: what it sends back
  unfoldable pub loop : List ℕ → M W (List ℕ)
  loop [] = pure []
  loop (b ∷ bs) = do
    clear_response
    n ← handle net (received (b ∷ bs))
    buf ← gets (λ s. s.response)
    fetch (load buf 0 n)

  -- `while (1) { loop(); }` of `arduino_main`, over the transfers that come
  unfoldable pub serve : List (List ℕ) → M W (List (List ℕ))
  serve [] = pure []
  serve (c ∷ cs) = do reply ← loop c; replies ← serve cs; pure (reply ∷ replies)
