-- ===== src/I2c/Master.antt =====
-- drivers/camera/gc0328/src/sipeed_i2c.c: maix_i2c_send_data and maix_i2c_recv_data.
use kendryte_k210_base_proje.Prelude.{
  ℕ, sub32, zero, suc, ◌-◌, ◌/◌, Bool, true, not, ◌&&◌, List, [], ◌∷◌, ◌++◌, ltb, ◌==◌,
  if◌then◌else◌, length, take, drop, u8, u16, bit_and,
}
use kendryte_k210_base_proje.I2c.{
  enable, tar, data_cmd, clr_tx_abrt, write, clear, usleep, M, pure, fault, minus, sub64, read, out,
  ◌>>=◌, ◌>>◌, config_assert, at, set_addr,
}

-- a round of a polling loop takes at least one read
abbrev pub with_fuel : {A : Type 0} → (ℕ → M A) → M A
with_fuel m d = m (suc (length d.reads)) d

-- `time_ms()`: the cycle counter and the frequency of the CPU
unfoldable pub time_ms : M ℕ
unfolding ◌>>=◌ read
time_ms = do
  cycles ← read
  freq ← read
  if freq / 1000 == 0 then fault else pure (cycles / (freq / 1000))

-- `time_ms() - time_start > timeout_ms`
unfoldable pub is_late : ℕ → ℕ → M Bool
unfolding ◌>>=◌ time_ms
is_late time_start timeout_ms = do now ← time_ms; pure (ltb timeout_ms (sub64 now time_start))

-- the four lines before each `return` of an error
unfoldable pub give_up : ℕ → ℕ → M ℕ
unfolding ◌>>=◌ out
give_up n code = do
  out (clear n clr_tx_abrt)
  out (write n enable 0)
  out (write n enable 1)
  out (usleep 10)
  pure code

-- `if(is_master_mode[i2c_num] && slaves_addr[i2c_num] != slave_address) { … }`
unfoldable pub select_slave : ℕ → ℕ → M (Unit {0})
unfolding ◌>>=◌ out at set_addr
select_slave n slave_address = do
  master ← at (λ d. d.is_master_mode) n
  addr ← at (λ d. d.slaves_addr) n
  let select = (do
    out (write n enable 0)
    out (write n tar slave_address)
    set_addr n (u16 slave_address)
    out (write n enable 1))
  if master && not (addr == slave_address) then select else pure tt

-- a loop that writes `data_cmd`
unfoldable pub write_cmds : ℕ → List ℕ → M (Unit {0})
unfolding ◌>>=◌ out
write_cmds n [] = pure tt
write_cmds n (v ∷ vs) = do out (write n data_cmd v); write_cmds n vs

-- a loop that reads `data_cmd`
unfoldable pub read_cmds : ℕ → M (List ℕ)
unfolding ◌>>=◌ read
read_cmds zero = pure []
read_cmds (suc k) = do v ← read; vs ← read_cmds k; pure (u8 v ∷ vs)

-- `fifo_len`: what is left, or what the queue of eight places takes
abbrev pub fifo_len : ℕ → ℕ → ℕ
fifo_len left level = if ltb left (sub32 8 level) then left else sub32 8 level

-- `while (send_buf_len) { … }` over the bytes that are left; the code 0 goes on after the loop
unfoldable pub send_loop : ℕ → ℕ → ℕ → ℕ → List ℕ → M ℕ
unfolding ◌>>=◌ read is_late give_up write_cmds
send_loop zero n time_start timeout_ms bytes = fault
send_loop (suc fuel) n time_start timeout_ms [] = pure 0
send_loop (suc fuel) n time_start timeout_ms (b ∷ bs) = do
  late ← is_late time_start timeout_ms
  let round = (do
    level ← read
    let k = fifo_len (length (b ∷ bs)) level
    write_cmds n (take k (b ∷ bs))
    abrt_source ← read
    let rest = send_loop fuel n time_start timeout_ms (drop k (b ∷ bs))
    if abrt_source == 0 then rest else give_up n (minus 1))
  if late then give_up n (minus 3) else round

-- the condition of the last loop of `maix_i2c_send_data`: I2C_STATUS_ACTIVITY is 1, I2C_STATUS_TFE 4
unfoldable pub is_busy : M Bool
unfolding ◌>>=◌ read
is_busy = do
  status ← read
  let full = (do status' ← read; pure (bit_and status' 4 == 0))
  if bit_and status 1 == 0 then full else pure true

-- the last loop of `maix_i2c_send_data`
unfoldable pub idle_loop : ℕ → ℕ → ℕ → ℕ → M ℕ
unfolding ◌>>=◌ read is_late give_up is_busy
idle_loop zero n time_start timeout_ms = fault
idle_loop (suc fuel) n time_start timeout_ms = do
  busy ← is_busy
  let round = (do
    late ← is_late time_start timeout_ms
    let check = (do
      abrt_source ← read
      let rest = idle_loop fuel n time_start timeout_ms
      if abrt_source == 0 then rest else give_up n (minus 2))
    if late then give_up n (minus 3) else check)
  if busy then round else pure 0

-- `maix_i2c_send_data` of the bytes of `send_buf`
unfoldable pub maix_i2c_send_data : ℕ → ℕ → List ℕ → ℕ → M ℕ
unfolding ◌>>=◌ config_assert time_ms select_slave send_loop idle_loop
maix_i2c_send_data n slave_address bytes timeout_ms = do
  config_assert (ltb n 3)
  time_start ← time_ms
  select_slave n slave_address
  code ← with_fuel (λ fuel. send_loop fuel n time_start timeout_ms bytes)
  let wait = with_fuel (λ fuel. idle_loop fuel n time_start timeout_ms)
  if code == 0 then wait else pure code

-- I2C_DATA_CMD_CMD, as often as a byte is asked for
abbrev pub requests : ℕ → List ℕ
requests zero = []
requests (suc k) = 0x100 ∷ requests k

-- `while (receive_buf_len || rx_len) { … }`: the code, and the bytes stored from `receive_buf` on
unfoldable pub recv_loop : ℕ → ℕ → ℕ → ℕ → ℕ → ℕ → M (ℕ × List ℕ)
unfolding ◌>>=◌ read is_late give_up write_cmds read_cmds
recv_loop zero n time_start timeout_ms receive_buf_len rx_len = fault
recv_loop (suc fuel) n time_start timeout_ms receive_buf_len rx_len =
    let round = (do
      rxflr ← read
      got ← read_cmds (if ltb rx_len rxflr then rx_len else rxflr)
      level ← read
      let k = fifo_len receive_buf_len level
      write_cmds n (requests k)
      abrt_source ← read
      let rest = (do
        (code, more) ←
            recv_loop fuel n time_start timeout_ms (receive_buf_len - k) (rx_len - length got)
        pure (code, got ++ more))
      if abrt_source == 0 then rest else (do code ← give_up n (minus 2); pure (code, got))) in
    let timed = (do
      late ← is_late time_start timeout_ms
      if late then (do code ← give_up n (minus 3); pure (code, [])) else round) in
    if (receive_buf_len == 0) && (rx_len == 0) then pure (0, []) else timed

-- `maix_i2c_recv_data`
unfoldable pub maix_i2c_recv_data : ℕ → ℕ → List ℕ → ℕ → ℕ → M (ℕ × List ℕ)
unfolding ◌>>=◌ config_assert time_ms select_slave send_loop recv_loop
maix_i2c_recv_data n slave_address bytes receive_buf_len timeout_ms = do
  config_assert (ltb n 3)
  time_start ← time_ms
  select_slave n slave_address
  code ← with_fuel (λ fuel. send_loop fuel n time_start timeout_ms bytes)
  let receive =
      with_fuel (λ fuel. recv_loop fuel n time_start timeout_ms receive_buf_len receive_buf_len)
  if code == 0 then receive else pure (code, [])
