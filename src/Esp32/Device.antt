-- ===== src/Esp32/Device.antt =====
-- Maixduino_esp32/main/CommandHandler.cpp: the handlers of pins, certificates, enterprise
-- networks, of the reset, and the test of the line.
use kendryte_k210_base_proje.Prelude.{
  ℕ, ◌/◌, ◌^◌, List, [], ◌∷◌, map, leb, bit_xor, replicate, if◌then◌else◌,
}
use kendryte_k210_base_proje.Memory.{store}
use kendryte_k210_base_proje.Bytes.{word_of, bytes_of}
use kendryte_k210_base_proje.Esp32.Net.{Net}
use kendryte_k210_base_proje.Esp32.Server.{
  M, pure, ◌>>=◌, ◌>>◌, fetch, call, respond, set_cert_buf, set_pk_buff, cstr, byte, bytes,
}

-- sizeof(CERT_BUF) and sizeof(PK_BUFF)
abbrev pub cert_len : ℕ
cert_len = 1300

abbrev pub pk_len : ℕ
pk_len = 1700

module _ {W : Type 0} (net : Net W) (command : List ℕ) where
  -- `invertBytes`; the size is in the upper half of the first word
  unfoldable pub invert_bytes : M W ℕ
  invert_bytes = do
    cmd ← bytes command 0 4
    let size = word_of cmd / 2 ^ 16
    if leb net.spi_max_dma_len size
        then (do respond 0 (bytes_of 4 size); pure 4)
        else (do bs ← bytes command 4 size; respond 0 (map (λ b. bit_xor b 0xFF) bs); pure size)

  -- `response[2] = 1; response[3] = 1; response[4] = 1; return 6;`
  unfoldable pub done : M W ℕ
  done = do respond 2 (1 ∷ 1 ∷ 1 ∷ []); pure 6

  unfoldable pub set_pin_mode : M W ℕ
  set_pin_mode = do pin ← byte command 4; mode ← byte command 6; call (net.pin_mode pin mode); done

  unfoldable pub set_digital_write : M W ℕ
  set_digital_write = do
    pin ← byte command 4
    value ← byte command 6
    call (net.digital_write pin value)
    done

  -- `memset(a, 0, 33); memcpy(a, &command[4], command[3]); strlen(a)`: the text that is set
  unfoldable pub wpa2_text : M W (List ℕ)
  wpa2_text = do
    n ← byte command 3
    bs ← bytes command 4 n
    buf ← fetch (store (replicate 33 0) 0 bs)
    fetch (cstr buf)

  unfoldable pub wpa2_ent_set_identity : M W ℕ
  wpa2_ent_set_identity = do name ← wpa2_text; call (net.wpa2_identity name); done

  unfoldable pub wpa2_ent_set_username : M W ℕ
  wpa2_ent_set_username = do name ← wpa2_text; call (net.wpa2_username name); done

  unfoldable pub wpa2_ent_set_password : M W ℕ
  wpa2_ent_set_password = do name ← wpa2_text; call (net.wpa2_password name); done

  unfoldable pub wpa2_ent_set_ca_cert : M W ℕ
  wpa2_ent_set_ca_cert = pure 0

  unfoldable pub wpa2_ent_set_cert_key : M W ℕ
  wpa2_ent_set_cert_key = pure 0

  unfoldable pub wpa2_ent_enable : M W ℕ
  wpa2_ent_enable = do call net.wpa2_enable; done

  unfoldable pub set_client_cert : M W ℕ
  set_client_cert = do bs ← bytes command 4 cert_len; set_cert_buf bs; done

  unfoldable pub set_cert_key : M W ℕ
  set_cert_key = do bs ← bytes command 4 pk_len; set_pk_buff bs; done

  unfoldable pub soft_reset : M W ℕ
  soft_reset = do call net.esp_restart; pure 0
