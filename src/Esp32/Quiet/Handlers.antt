-- ===== src/Esp32/Quiet/Handlers.antt =====
-- Maixduino_esp32/main/CommandHandler.cpp: the handlers that do not write the table of sockets.
use kendryte_k210_base_proje.Prelude.{
  ℕ, zero, suc, ◌+◌, Bool, true, false, Option, none, some, List, ◌≡◌,
}
use kendryte_k210_base_proje.Esp32.Net.{Net, Client}
use kendryte_k210_base_proje.Esp32.Quiet.{
  Quiet, quiet, Quiet-bind, Quiet-pure, Quiet-answer, Quiet-on_socket, Quiet-with_client,
}
use kendryte_k210_base_proje.Esp32.Sockets
use kendryte_k210_base_proje.Esp32.Transfer
use kendryte_k210_base_proje.Esp32.Wifi
use kendryte_k210_base_proje.Esp32.Device
use kendryte_k210_base_proje.Esp32.Handle.{Handler, run}

-- the handlers that write the table
abbrev pub writes_table : Handler → Bool
writes_table Handler.start_socket_client = true
writes_table Handler.close_socket = true
writes_table Handler.tcp_server_accept = true
writes_table _ = false

module _ {W : Type 0} (net : Net W) (command : List ℕ) where
  Quiet-scan_result : (i at : ℕ) → Quiet (Wifi.scan_result net command i at)
  unfolding Wifi.scan_result
  Quiet-scan_result i at = search quiet depth 30

  Quiet-scan_results : (rounds i at : ℕ) → Quiet (Wifi.scan_results net command rounds i at)
  unfolding Wifi.scan_results
  Quiet-scan_results zero i at = Quiet-pure at
  Quiet-scan_results (suc rounds) i at =
      Quiet-bind _ _ (Quiet-scan_result i at)
        (λ _. Quiet-scan_results rounds (i + 1) (at + 2 + Wifi.ssid_max_len))

  Quiet-done : Quiet (Device.done net command)
  unfolding Device.done
  Quiet-done = search quiet depth 12

  Quiet-wpa2_text : Quiet (Device.wpa2_text net command)
  unfolding Device.wpa2_text
  Quiet-wpa2_text = search quiet depth 12

  Quiet-respond_moved : (n : ℕ) (valid : Bool) → Quiet {W = W} (Transfer.respond_moved n valid)
  unfolding Transfer.respond_moved
  Quiet-respond_moved n valid = search quiet depth 12

  Quiet-write_client :
      (socket len : ℕ) (c : Client W) → Quiet (Transfer.write_client command socket len c)
  unfolding Transfer.write_client
  Quiet-write_client socket len c = search quiet depth 12

  Quiet-store_read : (got : Option (List ℕ)) → Quiet {W = W} (Transfer.store_read got)
  unfolding Transfer.store_read
  Quiet-store_read none = search quiet
  Quiet-store_read (some bs) = search quiet

  Quiet-read_client : (socket len : ℕ) (c : Client W) → Quiet (Transfer.read_client socket len c)
  unfolding Transfer.read_client
  Quiet-read_client socket len c = search (quiet, Quiet-store_read) depth 12

  Quiet-debug_read : (socket : ℕ) → Quiet {W = W} (Transfer.debug_read socket)
  unfolding Transfer.debug_read
  Quiet-debug_read socket = search quiet depth 12

  ruleset parts = (
    quiet, Quiet-answer, Quiet-on_socket, Quiet-with_client, Quiet-scan_results, Quiet-done,
    Quiet-wpa2_text, Quiet-respond_moved, Quiet-write_client, Quiet-read_client, Quiet-debug_read,
  )

  pub run-Quiet : (h : Handler) → writes_table h ≡ false → Quiet (run net command h)
  unfolding run Wifi.set_debug Wifi.get_fw_version Wifi.get_temperature Wifi.disconnect_wifi
      Wifi.set_ssid_and_pass Wifi.scan_networks Wifi.scan_networks_result Wifi.set_ap_pass_phrase
      Wifi.set_hostname Wifi.set_power_mode Wifi.get_conn_status Wifi.get_ip_addr Wifi.get_mac_addr
      Wifi.get_curr_ssid Wifi.get_curr_bssid Wifi.get_curr_rssi Wifi.get_curr_enct Wifi.get_idx_rssi
      Wifi.get_idx_enct Wifi.req_host_by_name Wifi.get_time Wifi.get_idx_bssid Wifi.get_idx_channel
      Wifi.ping Device.invert_bytes Device.soft_reset Device.set_pin_mode Device.set_digital_write
      Device.set_client_cert Device.set_cert_key Device.wpa2_ent_set_identity
      Device.wpa2_ent_set_username Device.wpa2_ent_set_password Device.wpa2_ent_set_ca_cert
      Device.wpa2_ent_set_cert_key Device.wpa2_ent_enable Transfer.tcp_server_create
      Transfer.tcp_server_stop Transfer.send_socket_data Transfer.read_socket_data
      Transfer.get_remote_data Sockets.get_socket_state Sockets.avail_socket_data
  run-Quiet Handler.set_debug e = search parts depth 30 fits 2000
  run-Quiet Handler.get_fw_version e = search parts depth 30 fits 2000
  run-Quiet Handler.get_temperature e = search parts depth 30 fits 2000
  run-Quiet Handler.disconnect_wifi e = search parts depth 30 fits 2000
  run-Quiet Handler.set_ssid_and_pass e = search parts depth 30 fits 2000
  run-Quiet Handler.scan_networks e = search parts depth 30 fits 2000
  run-Quiet Handler.scan_networks_result e = search parts depth 30 fits 2000
  run-Quiet Handler.set_ap_pass_phrase e = search parts depth 30 fits 2000
  run-Quiet Handler.set_hostname e = search parts depth 30 fits 2000
  run-Quiet Handler.set_power_mode e = search parts depth 30 fits 2000
  run-Quiet Handler.get_conn_status e = search parts depth 30 fits 2000
  run-Quiet Handler.get_ip_addr e = search parts depth 30 fits 2000
  run-Quiet Handler.get_mac_addr e = search parts depth 30 fits 2000
  run-Quiet Handler.get_curr_ssid e = search parts depth 30 fits 2000
  run-Quiet Handler.get_curr_bssid e = search parts depth 30 fits 2000
  run-Quiet Handler.get_curr_rssi e = search parts depth 30 fits 2000
  run-Quiet Handler.get_curr_enct e = search parts depth 30 fits 2000
  run-Quiet Handler.get_idx_rssi e = search parts depth 30 fits 2000
  run-Quiet Handler.get_idx_enct e = search parts depth 30 fits 2000
  run-Quiet Handler.req_host_by_name e = search parts depth 30 fits 2000
  run-Quiet Handler.get_time e = search parts depth 30 fits 2000
  run-Quiet Handler.get_idx_bssid e = search parts depth 30 fits 2000
  run-Quiet Handler.get_idx_channel e = search parts depth 30 fits 2000
  run-Quiet Handler.ping e = search parts depth 30 fits 2000
  run-Quiet Handler.invert_bytes e = search parts depth 30 fits 2000
  run-Quiet Handler.soft_reset e = search parts depth 30 fits 2000
  run-Quiet Handler.set_pin_mode e = search parts depth 30 fits 2000
  run-Quiet Handler.set_digital_write e = search parts depth 30 fits 2000
  run-Quiet Handler.set_client_cert e = search parts depth 30 fits 2000
  run-Quiet Handler.set_cert_key e = search parts depth 30 fits 2000
  run-Quiet Handler.wpa2_ent_set_identity e = search parts depth 30 fits 2000
  run-Quiet Handler.wpa2_ent_set_username e = search parts depth 30 fits 2000
  run-Quiet Handler.wpa2_ent_set_password e = search parts depth 30 fits 2000
  run-Quiet Handler.wpa2_ent_set_ca_cert e = search parts depth 30 fits 2000
  run-Quiet Handler.wpa2_ent_set_cert_key e = search parts depth 30 fits 2000
  run-Quiet Handler.wpa2_ent_enable e = search parts depth 30 fits 2000
  run-Quiet Handler.tcp_server_create e = search parts depth 30 fits 2000
  run-Quiet Handler.tcp_server_stop e = search parts depth 30 fits 2000
  run-Quiet Handler.send_socket_data e = search parts depth 30 fits 2000
  run-Quiet Handler.read_socket_data e = search parts depth 30 fits 2000
  run-Quiet Handler.get_remote_data e = search parts depth 30 fits 2000
  run-Quiet Handler.get_socket_state e = search parts depth 30 fits 2000
  run-Quiet Handler.avail_socket_data e = search parts depth 30 fits 2000
  run-Quiet Handler.start_socket_client e = cc
  run-Quiet Handler.close_socket e = cc
  run-Quiet Handler.tcp_server_accept e = cc
