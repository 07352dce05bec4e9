-- ===== src/Esp32/Wifi.antt =====
-- Maixduino_esp32/main/CommandHandler.cpp: the handlers of the wireless network, and of names,
-- time and version.
use kendryte_k210_base_proje.Prelude.{
  ℕ, zero, suc, ◌+◌, List, [], ◌∷◌, ◌++◌, ◌==◌, not, u8, length, take, replicate, if◌then◌else◌,
}
use kendryte_k210_base_proje.Bytes.{word_of, bytes_of}
use kendryte_k210_base_proje.Esp32.Commands.{
  cesp_resp, cesp_resp_fw_version, cesp_resp_get_ip_addr, cesp_resp_req_host_by_name,
  cesp_get_conn_status, cesp_scan_networks, cesp_ping,
}
use kendryte_k210_base_proje.Esp32.Net.{Net}
use kendryte_k210_base_proje.Esp32.Server.{
  M, pure, ◌>>=◌, ◌>>◌, fetch, call, ask, respond, set_debug_flag, byte, bytes, text,
}
use kendryte_k210_base_proje.Memory.{load}
use kendryte_k210_base_proje.Esp32.Sockets.{flag, answer}

-- FIRMWARE_VERSION: "0.0.1" with its NUL
abbrev pub firmware_version : List ℕ
firmware_version = b'0' ∷ b'.' ∷ b'0' ∷ b'.' ∷ b'1' ∷ 0 ∷ []

-- `length` of a network in the answer of `scanNetworksResult`: `ssidMaxLen`
abbrev pub ssid_max_len : ℕ
ssid_max_len = 33

module _ {W : Type 0} (net : Net W) (command : List ℕ) where
  unfoldable pub set_ssid_and_pass : M W ℕ
  set_ssid_and_pass = do
    ssid ← text command 1
    pass ← text command (1 + length ssid + 1)
    call (net.begin ssid pass)
    code ← byte command 0
    answer code

  unfoldable pub set_ap_pass_phrase : M W ℕ
  set_ap_pass_phrase = do
    channel ← byte command 1
    ssid ← text command 2
    pass ← text command (2 + length ssid + 1)
    call (net.begin_ap ssid pass channel)
    code ← byte command 0
    answer code

  unfoldable pub set_hostname : M W ℕ
  set_hostname = do name ← text command 4; done ← ask (net.hostname name); answer (flag done)

  unfoldable pub set_power_mode : M W ℕ
  set_power_mode = do
    mode ← byte command 4
    call (if mode == 0 then net.no_low_power_mode else net.low_power_mode)
    answer 1

  unfoldable pub set_debug : M W ℕ
  set_debug = do on ← byte command 1; set_debug_flag (not (on == 0)); answer 1

  unfoldable pub get_temperature : M W ℕ
  get_temperature = do bs ← ask net.temperature; respond 0 bs; pure cesp_resp

  unfoldable pub get_conn_status : M W ℕ
  get_conn_status = do
    status ← ask net.status
    respond 0 (cesp_get_conn_status ∷ u8 status ∷ [])
    pure cesp_resp

  unfoldable pub get_ip_addr : M W ℕ
  get_ip_addr = do
    call net.update_ip_info
    ip ← ask net.local_ip
    mask ← ask net.subnet_mask
    gwip ← ask net.gateway_ip
    respond 0 (bytes_of 4 ip)
    respond 4 (bytes_of 4 mask)
    respond 8 (bytes_of 4 gwip)
    pure cesp_resp_get_ip_addr

  unfoldable pub get_mac_addr : M W ℕ
  get_mac_addr = do mac ← ask net.mac_address; respond 4 mac; pure 8

  -- `memset` to 0 and `strlcpy` of at most 35 bytes
  unfoldable pub get_curr_ssid : M W ℕ
  get_curr_ssid = do
    ssid ← ask net.current_ssid
    respond 0 (replicate 36 0)
    respond 0 (take 35 ssid ++ 0 ∷ [])
    pure 36

  unfoldable pub get_curr_bssid : M W ℕ
  get_curr_bssid = do bssid ← ask net.current_bssid; respond 0 bssid; pure 8

  unfoldable pub get_curr_rssi : M W ℕ
  get_curr_rssi = do rssi ← ask net.current_rssi; answer rssi

  unfoldable pub get_curr_enct : M W ℕ
  get_curr_enct = do kind ← ask net.current_encryption; answer (u8 kind)

  unfoldable pub scan_networks : M W ℕ
  scan_networks = do
    call net.scan_networks
    found ← ask net.scan_results_count
    respond 0 (cesp_scan_networks ∷ u8 found ∷ 0 ∷ 0 ∷ [])
    pure cesp_resp

  -- a round of the loop over the networks: network `i`, its entry at `at`
  unfoldable pub scan_result : ℕ → ℕ → M W (Unit {0})
  scan_result i at = do
    rssi ← ask (net.rssi i)
    respond at (u8 rssi ∷ [])
    kind ← ask (net.encryption_type i)
    respond (at + 1) (u8 kind ∷ [])
    memory ← ask (net.ssid i)
    ssid ← fetch (load memory 0 ssid_max_len)
    respond (at + 2) ssid

  unfoldable pub scan_results : ℕ → ℕ → ℕ → M W ℕ
  scan_results zero i at = pure at
  scan_results (suc rounds) i at = do
    scan_result i at
    scan_results rounds (i + 1) (at + 2 + ssid_max_len)

  unfoldable pub scan_networks_result : M W ℕ
  scan_networks_result = do
    found ← ask net.scan_results_count
    respond 0 (u8 found ∷ [])
    scan_results (u8 found) 0 1

  unfoldable pub disconnect_wifi : M W ℕ
  disconnect_wifi = do call net.disconnect; answer 1

  unfoldable pub get_idx_rssi : M W ℕ
  get_idx_rssi = do i ← byte command 1; rssi ← ask (net.rssi i); answer rssi

  unfoldable pub get_idx_enct : M W ℕ
  get_idx_enct = do i ← byte command 4; kind ← ask (net.encryption_type i); answer (u8 kind)

  unfoldable pub get_idx_bssid : M W ℕ
  get_idx_bssid = do i ← byte command 1; bssid ← ask (net.bssid i); respond 0 bssid; pure 4

  unfoldable pub get_idx_channel : M W ℕ
  get_idx_channel = do i ← byte command 4; channel ← ask (net.channel i); answer (u8 channel)

  unfoldable pub req_host_by_name : M W ℕ
  req_host_by_name = do
    host ← text command 1
    (done, ip) ← ask (net.host_by_name host 0xffffffff)
    respond 0 (bytes_of 4 (flag done))
    respond 4 (bytes_of 4 ip)
    pure cesp_resp_req_host_by_name

  unfoldable pub get_fw_version : M W ℕ
  get_fw_version = do
    respond 0 (replicate cesp_resp_fw_version 0)
    respond 0 firmware_version
    pure cesp_resp_fw_version

  unfoldable pub get_time : M W ℕ
  get_time = do now ← ask net.get_time; answer now

  unfoldable pub ping : M W ℕ
  ping = do
    ttl ← byte command 1
    ip ← bytes command 4 4
    result ← ask (net.ping (word_of ip) ttl)
    respond 0 (cesp_ping ∷ 0 ∷ [])
    respond 2 (bytes_of 2 result)
    pure cesp_resp
