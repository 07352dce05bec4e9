-- ===== src/Esp32/Demo.antt =====
-- A network library that always succeeds, and a driver on a line that answers at once: the data of
-- the tests of Maixduino_esp32/main and drivers/esp32.
use kendryte_k210_base_proje.Prelude.{
  ℕ, ◌+◌, true, false, some, List, [], ◌∷◌, ◌++◌, ◌≢◌, refl, sym, arith, replicate, length,
  append-nil, length-replicate, le→ltb_false,
}
use kendryte_k210_base_proje.Esp32.Net.{Net, Client}
use kendryte_k210_base_proje.Esp32.Server.{Server, tcp, empty}
use kendryte_k210_base_proje.Esp32.Link.{Link}
use kendryte_k210_base_proje.Esp32.Link.Deliver.{Delivers, round, done, words_of}
use kendryte_k210_base_proje.Esp32.Link.Exchange.{Exchange, exchange, ready}
use kendryte_k210_base_proje.Esp32.Session.{HasBuffers}

-- the world counts the calls; a read gives as many 7s as are asked for, three at most
abbrev pub clients : Client ℕ
clients = record {
  connect = λ socket host port w. (1, w + 1);
  stop = λ socket w. w + 1;
  available = λ socket w. (3, w);
  connected = λ socket w. (1, w);
  write = λ socket bs w. (length bs, w + 1);
  read = λ socket n w. (some (7 ∷ 7 ∷ 7 ∷ []), w + 1);
  alive = λ socket w. (true, w);
  remote_ip = λ socket w. (0x0100007F, w);
  remote_port = λ socket w. (80, w);
}

abbrev pub network : Net ℕ
network = record {
  spi_max_dma_len = 40;
  tcp = clients;
  tls = clients;
  set_certificate = λ socket bs w. w;
  set_private_key = λ socket bs w. w;
  server_new = λ port w. w;
  server_begin = λ w. (1, w);
  server_stop = λ w. w;
  server_alive = λ w. (true, w);
  server_accept = λ w. (true, w);
  accepted_stop = λ w. w;
  accepted_assign = λ socket w. w + 1;
  begin = λ ssid pass w. w;
  begin_ap = λ ssid pass channel w. w;
  disconnect = λ w. w;
  hostname = λ name w. (true, w);
  low_power_mode = λ w. w;
  no_low_power_mode = λ w. w;
  status = λ w. (2, w);
  update_ip_info = λ w. w;
  local_ip = λ w. (1, w);
  subnet_mask = λ w. (2, w);
  gateway_ip = λ w. (3, w);
  mac_address = λ w. (replicate 6 1, w);
  current_ssid = λ w. (b'a' ∷ [], w);
  current_bssid = λ w. (replicate 6 2, w);
  current_rssi = λ w. (5, w);
  current_encryption = λ w. (1, w);
  scan_networks = λ w. w;
  scan_results_count = λ w. (0, w);
  rssi = λ i w. (5, w);
  encryption_type = λ i w. (1, w);
  ssid = λ i w. (replicate 33 0, w);
  bssid = λ i w. (replicate 6 2, w);
  channel = λ i w. (1, w);
  host_by_name = λ name before w. ((true, 0x0100007F), w);
  ping = λ ip ttl w. (12, w);
  get_time = λ w. (0, w);
  temperature = λ w. (replicate 4 0, w);
  pin_mode = λ pin mode w. w;
  digital_write = λ pin value w. w;
  wpa2_identity = λ name w. w;
  wpa2_username = λ name w. w;
  wpa2_password = λ name w. w;
  wpa2_enable = λ w. w;
  esp_restart = λ w. w;
}

abbrev pub power_on : Server ℕ
power_on = record {
  debug = false;
  socket_types = [];
  set_cert = false;
  set_psk = false;
  cert_buf = [];
  pk_buff = [];
  response = replicate 40 0;
  world = 0;
}

-- a server whose first socket is open
abbrev pub one_open : Server ℕ
one_open = record power_on { socket_types = tcp ∷ replicate 9 empty }

-- reads on which both waits end at once, and a device that delivers all words in one round
abbrev pub reads_of : List ℕ → List ℕ
reads_of reply =
    0 ∷ 0 ∷ 0 ∷ 0 ∷ 0 ∷ 1 ∷ 0 ∷ 1000000 ∷ length (words_of reply) ∷ (words_of reply ++ 0 ∷ [])

delivered_at_once :
    (words : List ℕ) → words ≢ [] → Delivers 0 10000000 [] words (length words ∷ (words ++ 0 ∷ []))
delivered_at_once words ne =
    round (length words) 0 words done (sym (append-nil words)) ne
      (rw (le→ltb_false (length words) (length words) (omega arith))) refl refl

pub exchanged_at_once : (reply : List ℕ) → words_of reply ≢ [] → Exchange reply [] (reads_of reply)
exchanged_at_once reply ne =
    exchange 0 0 0 1000000 (0 ∷ 0 ∷ 0 ∷ 0 ∷ 1 ∷ 0 ∷ 1000000 ∷ rounds) (0 ∷ 1 ∷ 0 ∷ 1000000 ∷ rounds)
      rounds refl (ready 0 refl refl) (ready 0 refl refl) (delivered_at_once (words_of reply) ne)
  where
    rounds : List ℕ
    rounds = length (words_of reply) ∷ (words_of reply ++ 0 ∷ [])

pub cons-ne-nil : (x : ℕ) (xs : List ℕ) → x ∷ xs ≢ []
cons-ne-nil x xs e = cc

abbrev pub link_with : List ℕ → Link
link_with reads = record {
  tx_buffer = replicate 4090 9;
  rx_buffer = replicate 4090 9;
  rst_num = 11;
  outs = [];
  reads = reads;
}

pub link-HasBuffers : (reads : List ℕ) → HasBuffers (link_with reads)
link-HasBuffers reads = (length-replicate {A = ℕ} 4090 9, length-replicate {A = ℕ} 4090 9)
