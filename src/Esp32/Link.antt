-- ===== src/Esp32/Link.antt =====
-- drivers/esp32/esp32_spi.cpp, `esp32_transfer`, and spi2_slave.cpp. What the volatile registers,
-- the pins and the clocks give, in order, is an input; the calls that reach the device are
-- recorded. `none` is an access outside a buffer, or that the input has ended: the code still polls.
pub mod Receive
pub mod Deliver
pub mod Exchange
use kendryte_k210_base_proje.Prelude.{
  ℕ, zero, suc, ◌+◌, ◌-◌, ◌*◌, ◌/◌, ◌%◌, ◌^◌, Bool, true, false, Option, none, some, List, [], ◌∷◌,
  ◌++◌, ltb, leb, ◌==◌, if◌then◌else◌, length,
}
use kendryte_k210_base_proje.Memory.{load, store}
use kendryte_k210_base_proje.Bytes.{word_of, bytes_of}

-- what the code does to the device: the level of the chip select, and a frame sent
pub data Out : Type 0 where
  chip_select : ℕ → Out
  frame : List ℕ → Out
  drive_mode : ℕ → Out
  reset_pin : ℕ → Out

pub record Link : Type 0 where
  pub tx_buffer : List ℕ
  pub rx_buffer : List ℕ
  -- 0 before `esp32_spi_init`
  pub rst_num : ℕ
  pub outs : List Out
  pub reads : List ℕ

abbrev pub M : Type 0 → Type 0
M A = Link → Option (A × Link)

abbrev pub pure : {A : Type 0} → A → M A
pure a l = some (a, l)

abbrev pub fault : {A : Type 0} → M A
fault l = none

-- BUFFER_SIZE
abbrev pub buffer_size : ℕ
buffer_size = 4090

abbrev pub sub64 : ℕ → ℕ → ℕ
sub64 a b = (a + 2 ^ 64 - b) % 2 ^ 64

-- `esp32_round_up4`
unfoldable pub round_up4 : ℕ → ℕ
round_up4 s = (s + 3) / 4 * 4

unfoldable pub fetch : {A : Type 0} → Option A → M A
fetch none l = none
fetch (some a) l = some (a, l)

pub next_read : List ℕ → M ℕ
next_read [] l = none
next_read (v ∷ vs) l = some (v, record l { reads = vs })

unfoldable pub read : M ℕ
unfolding next_read
read l = next_read l.reads l

unfoldable pub out : Out → M (Unit {0})
out o l = some (tt, record l { outs = l.outs ++ o ∷ [] })

-- `n` bytes of a buffer, and a write into it
unfoldable pub rx : ℕ → ℕ → M (List ℕ)
unfolding fetch load
rx i n l = fetch (load l.rx_buffer i n) l

unfoldable pub tx : ℕ → ℕ → M (List ℕ)
unfolding fetch load
tx i n l = fetch (load l.tx_buffer i n) l

pub set_rx_with : Option (List ℕ) → M (Unit {0})
set_rx_with none l = none
set_rx_with (some buf) l = some (tt, record l { rx_buffer = buf })

unfoldable pub set_rx : ℕ → List ℕ → M (Unit {0})
unfolding set_rx_with store
set_rx i bs l = set_rx_with (store l.rx_buffer i bs) l

unfoldable pub set_tx_with : Option (List ℕ) → M (Unit {0})
set_tx_with none l = none
set_tx_with (some buf) l = some (tt, record l { tx_buffer = buf })

unfoldable pub set_tx : ℕ → List ℕ → M (Unit {0})
unfolding set_tx_with store
set_tx i bs l = set_tx_with (store l.tx_buffer i bs) l

infixl 5 ◌>>=◌ ◌>>◌
-- opening this opens the primitives too
unfoldable pub ◌>>=◌ : {A B : Type 0} → M A → (A → M B) → M B
unfolding fetch read out rx tx set_rx set_tx
◌>>=◌ m k l = elim (m l) [ none ↦ none | some (a, l') ↦ k a l' ]

abbrev pub ◌>>◌ : {A B : Type 0} → M A → M B → M B
m >> k = m >>= λ _. k

-- a round of a polling loop takes at least one read
abbrev pub with_fuel : {A : Type 0} → (ℕ → M A) → M A
with_fuel m l = m (suc (length l.reads)) l

-- the loop of `esp32_spi_wait_for_ready`, started at `tm`; the pauses of 30 us leave no trace
unfoldable pub wait_loop : ℕ → ℕ → ℕ → ℕ → M Bool
wait_loop zero value timeout tm = fault
wait_loop (suc fuel) value timeout tm = do
  now ← read
  let again = wait_loop fuel value timeout tm
  if ltb (sub64 now tm) timeout
      then (do pin ← read; if pin == value then pure true else again)
      else pure false

unfoldable pub wait_for_ready : ℕ → ℕ → M Bool
wait_for_ready value timeout = do tm ← read; with_fuel (λ n. wait_loop n value timeout tm)

-- `for (…; index < fifo_len; …) rx_buff32[i++] = spi_handle->dr[0];`
unfoldable pub read_words : ℕ → ℕ → M (Unit {0})
read_words zero i = pure tt
read_words (suc n) i = do w ← read; set_rx (4 * i) (bytes_of 4 w); read_words n (i + 1)

-- `while(v_rx_len) { … }`; `false` when the time is over
unfoldable pub receive_loop : ℕ → ℕ → ℕ → ℕ → ℕ → M Bool
receive_loop zero start cycles left i = fault
receive_loop (suc fuel) start cycles left i =
    let round = (do
      level ← read
      let fifo_len = if ltb level left then level else left
      read_words fifo_len i
      now ← read
      let rest = receive_loop fuel start cycles (left - fifo_len) (i + fifo_len)
      if ltb cycles (sub64 now start) then pure false else rest) in
    if left == 0 then pure true else round

-- `__builtin_bswap32`
unfoldable pub bswap32 : ℕ → ℕ
bswap32 w =
    w % 2 ^ 8 * 2 ^ 24
    + w / 2 ^ 8 % 2 ^ 8 * 2 ^ 16
    + w / 2 ^ 16 % 2 ^ 8 * 2 ^ 8
    + w / 2 ^ 24 % 2 ^ 8

unfoldable pub swap_words : ℕ → ℕ → M (Unit {0})
swap_words zero i = pure tt
swap_words (suc n) i = do
  bs ← rx (4 * i) 4
  set_rx (4 * i) (bytes_of 4 (bswap32 (word_of bs)))
  swap_words n (i + 1)

-- `spi2_slave_receive4`; `sysctl_clock_get_freq` is an input too
unfoldable pub spi2_slave_receive4 : ℕ → ℕ → M Bool
spi2_slave_receive4 rx_len timeout_us = do
  start ← read
  freq ← read
  let cycles = timeout_us * (freq / 1000000) % 2 ^ 64
  in_time ← with_fuel (λ n. receive_loop n start cycles (rx_len / 4) 0)
  if in_time then (do swap_words (rx_len / 4) 0; pure true) else pure false

-- `esp32_transfer` from `tx_buffer` to `rx_buffer`. `ready` is a `bool` in an `int8_t`, so that
-- `ready < 0` is false, and neither failure of the waits is seen.
unfoldable pub esp32_transfer : ℕ → ℕ → M Bool
esp32_transfer tx_len rx_len = do
  let tx_len4 = round_up4 tx_len
  let rx_len4 = round_up4 rx_len
  ready ← wait_for_ready 0 (10 * 1000000)
  out (chip_select 0)
  ready' ← wait_for_ready 1 1000000
  bs ← tx 0 tx_len4
  out (frame bs)
  out (chip_select 1)
  if rx_len4 == 0 then pure true else spi2_slave_receive4 rx_len4 (10 * 1000000)

-- `esp32_transfer_no_param`
unfoldable pub esp32_transfer_no_param : ℕ → ℕ → M Bool
esp32_transfer_no_param command rx_len = do set_tx 0 (bytes_of 4 command); esp32_transfer 4 rx_len
