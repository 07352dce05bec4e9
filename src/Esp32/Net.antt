-- ===== src/Esp32/Net.antt =====
-- What the firmware calls and does not implement: the Arduino WiFi library, ESP-IDF and the pins.
-- `W` is all that they have done so far. A negative `int` is its two's complement word.
use kendryte_k210_base_proje.Prelude.{ℕ, Bool, Option, List}

-- where a client connects to: a name as text without its NUL, or an address
pub data Host : Type 0 where
  named : List ℕ → Host
  addressed : ℕ → Host

-- `tcpClients[socket]` or `tlsClients[socket]`, an array of `WiFiClient` or `WiFiSSLClient`
pub record Client (W : Type 0) : Type 0 where
  -- socket, host and port; 0 is a failure
  pub connect : ℕ → Host → ℕ → W → ℕ × W
  pub stop : ℕ → W → W
  pub available : ℕ → W → ℕ × W
  pub connected : ℕ → W → ℕ × W
  pub write : ℕ → List ℕ → W → ℕ × W
  -- socket and length: the bytes put into the buffer, whose number is returned; `none`: negative
  pub read : ℕ → ℕ → W → Option (List ℕ) × W
  -- `operator bool`
  pub alive : ℕ → W → Bool × W
  pub remote_ip : ℕ → W → ℕ × W
  pub remote_port : ℕ → W → ℕ × W

pub record Net (W : Type 0) : Type 0 where
  -- SPI_MAX_DMA_LEN of ESP-IDF, the length of both buffers
  pub spi_max_dma_len : ℕ
  pub tcp : Client W
  pub tls : Client W
  pub set_certificate : ℕ → List ℕ → W → W
  pub set_private_key : ℕ → List ℕ → W → W
  -- `tcpServer`, and the client that it has accepted last
  pub server_new : ℕ → W → W
  pub server_begin : W → ℕ × W
  pub server_stop : W → W
  pub server_alive : W → Bool × W
  pub server_accept : W → Bool × W
  pub accepted_stop : W → W
  pub accepted_assign : ℕ → W → W
  -- `WiFi`
  pub begin : List ℕ → List ℕ → W → W
  pub begin_ap : List ℕ → List ℕ → ℕ → W → W
  pub disconnect : W → W
  pub hostname : List ℕ → W → Bool × W
  pub low_power_mode : W → W
  pub no_low_power_mode : W → W
  pub status : W → ℕ × W
  pub update_ip_info : W → W
  pub local_ip : W → ℕ × W
  pub subnet_mask : W → ℕ × W
  pub gateway_ip : W → ℕ × W
  pub mac_address : W → List ℕ × W
  pub current_ssid : W → List ℕ × W
  pub current_bssid : W → List ℕ × W
  pub current_rssi : W → ℕ × W
  pub current_encryption : W → ℕ × W
  pub scan_networks : W → W
  pub scan_results_count : W → ℕ × W
  pub rssi : ℕ → W → ℕ × W
  pub encryption_type : ℕ → W → ℕ × W
  -- the memory that the pointer leads to
  pub ssid : ℕ → W → List ℕ × W
  pub bssid : ℕ → W → List ℕ × W
  pub channel : ℕ → W → ℕ × W
  -- what is in the address before; the result, and the address after
  pub host_by_name : List ℕ → ℕ → W → (Bool × ℕ) × W
  pub ping : ℕ → ℕ → W → ℕ × W
  pub get_time : W → ℕ × W
  -- the bytes of the `float` (temprature_sens_read() - 32) / 1.8
  pub temperature : W → List ℕ × W
  pub pin_mode : ℕ → ℕ → W → W
  pub digital_write : ℕ → ℕ → W → W
  pub wpa2_identity : List ℕ → W → W
  pub wpa2_username : List ℕ → W → W
  pub wpa2_password : List ℕ → W → W
  pub wpa2_enable : W → W
  pub esp_restart : W → W
