-- ===== src/I2c.antt =====
-- drivers/camera/gc0328/src/sipeed_i2c.c: the I2C controllers, as a master and as a slave. What the
-- registers, the cycle counter and the handler of a slave give, in order, is an input; the calls
-- that reach the hardware and the handler are recorded. `none` is a failed assertion, a division by
-- zero, an access outside an array, or that the input has ended: the code still polls.
pub mod Master
pub mod Slave
pub mod Effects
pub mod Outcome
pub mod Select
pub mod Receive
pub mod Transfer
pub mod Progress
pub mod Answer
pub mod Polling
pub mod Ready
pub mod Period
pub mod Answered
mod Tests
use kendryte_k210_base_proje.Prelude.{
  ℕ, zero, suc, ◌+◌, ◌-◌, ◌*◌, ◌/◌, ◌%◌, ◌^◌, Bool, true, false, not, ◌&&◌, ◌||◌, Option, none,
  some, List, [], ◌∷◌, ◌++◌, ltb, leb, ◌==◌, if◌then◌else◌, length, bit_or, u8, u16, get_elem?,
}
use kendryte_k210_base_proje.Memory.{store}

pub data Reg : Type 0 where
  enable : Reg
  con : Reg
  tar : Reg
  sar : Reg
  data_cmd : Reg
  ss_scl_hcnt : Reg
  ss_scl_lcnt : Reg
  intr_mask : Reg
  rx_tl : Reg
  tx_tl : Reg
  dma_cr : Reg
  dma_tdlr : Reg
  dma_rdlr : Reg
  clr_tx_abrt : Reg
  clr_start_det : Reg
  clr_stop_det : Reg
  clr_rd_req : Reg

-- the number of a controller is the first argument
pub data Out : Type 0 where
  write : ℕ → Reg → ℕ → Out
  -- the read of a register that clears a condition; its value is not used
  clear : ℕ → Reg → Out
  usleep : ℕ → Out
  clock_enable : ℕ → Out
  clock_set_threshold : ℕ → ℕ → Out
  clock_disable : ℕ → Out
  plic_set_priority : ℕ → ℕ → Out
  -- the interrupt calls `maix_i2c_slave_irq` with this context
  plic_irq_register : ℕ → ℕ → Out
  plic_irq_enable : ℕ → Out
  plic_irq_deregister : ℕ → Out
  plic_irq_disable : ℕ → Out
  -- the handler that is called first, and the event or the byte
  on_event : ℕ → ℕ → Out
  on_receive : ℕ → ℕ → Out
  on_transmit : ℕ → Out

-- `i2c_slave_context_t`; a handler is known by a number, and `none` is the null pointer
pub record SlaveContext : Type 0 where
  pub i2c_num : ℕ
  pub slave_handler : Option ℕ

-- the arrays of the file, what has been done, and what will be read
pub record I2c : Type 0 where
  pub is_master_mode : List Bool
  pub slaves_addr : List ℕ
  pub maix_slave_context : List SlaveContext
  pub outs : List Out
  pub reads : List ℕ

abbrev pub initial : List ℕ → I2c
initial rs = record {
  is_master_mode = false ∷ false ∷ false ∷ [];
  slaves_addr = 0 ∷ 0 ∷ 0 ∷ [];
  maix_slave_context =
      record { i2c_num = 0; slave_handler = none }
      ∷ record { i2c_num = 0; slave_handler = none }
      ∷ record { i2c_num = 0; slave_handler = none }
      ∷ [];
  outs = [];
  reads = rs;
}

abbrev pub M : Type 0 → Type 0
M A = I2c → Option (A × I2c)

abbrev pub pure : {A : Type 0} → A → M A
pure a d = some (a, d)

abbrev pub fault : {A : Type 0} → M A
fault d = none

-- the code `-k` as an `int`
abbrev pub minus : ℕ → ℕ
minus k = 2 ^ 32 - k

abbrev pub sub64 : ℕ → ℕ → ℕ
sub64 a b = (a + 2 ^ 64 - b) % 2 ^ 64

unfoldable pub fetch : {A : Type 0} → Option A → M A
fetch none d = none
fetch (some a) d = some (a, d)

pub next_read : List ℕ → M ℕ
next_read [] d = none
next_read (v ∷ vs) d = some (v, record d { reads = vs })

unfoldable pub read : M ℕ
unfolding next_read
read d = next_read d.reads d

unfoldable pub out : Out → M (Unit {0})
out o d = some (tt, record d { outs = d.outs ++ o ∷ [] })

infixl 5 ◌>>=◌ ◌>>◌
unfoldable pub ◌>>=◌ : {A B : Type 0} → M A → (A → M B) → M B
◌>>=◌ m k d = elim (m d) [ none ↦ none | some (a, d') ↦ k a d' ]

abbrev pub ◌>>◌ : {A B : Type 0} → M A → M B → M B
m >> k = m >>= λ _. k

-- `configASSERT`, I2C_MAX_NUM being 3
unfoldable pub config_assert : Bool → M (Unit {0})
config_assert true = pure tt
config_assert false = fault

-- the element of an array, and a write to it
unfoldable pub at : {A : Type 0} → (I2c → List A) → ℕ → M A
unfolding fetch
at array n d = fetch (get_elem? (array d) n) d

pub set_master_with : Option (List Bool) → M (Unit {0})
set_master_with none d = none
set_master_with (some bs) d = some (tt, record d { is_master_mode = bs })

unfoldable pub set_master : ℕ → Bool → M (Unit {0})
unfolding set_master_with store
set_master n b d = set_master_with (store d.is_master_mode n (b ∷ [])) d

pub set_addr_with : Option (List ℕ) → M (Unit {0})
set_addr_with none d = none
set_addr_with (some addrs) d = some (tt, record d { slaves_addr = addrs })

unfoldable pub set_addr : ℕ → ℕ → M (Unit {0})
unfolding set_addr_with store
set_addr n addr d = set_addr_with (store d.slaves_addr n (addr ∷ [])) d

pub set_context_with : Option (List SlaveContext) → M (Unit {0})
set_context_with none d = none
set_context_with (some cs) d = some (tt, record d { maix_slave_context = cs })

unfoldable pub set_context : ℕ → SlaveContext → M (Unit {0})
unfolding set_context_with store
set_context n c d = set_context_with (store d.maix_slave_context n (c ∷ [])) d

-- `i2c_clk_init`
unfoldable pub i2c_clk_init : ℕ → M (Unit {0})
unfolding ◌>>=◌ config_assert out
i2c_clk_init n = do config_assert (ltb n 3); out (clock_enable n); out (clock_set_threshold n 3)

-- `floor(freq * 1.0 / i2c_clk / 2 + 0.5)`, which is exact here; a conversion to `uint16_t` out of
-- range is undefined
unfoldable pub period_of : ℕ → ℕ → ℕ
period_of freq i2c_clk =
    let period = (freq + i2c_clk) / (2 * i2c_clk) in
    if leb period 6 then 6 else if leb 65525 period then 65525 else period

-- I2C_CON_SPEED_FAST is 2 and I2C_CON_SPEED_HIGH is 3
unfoldable pub speed_of : ℕ → ℕ
speed_of i2c_clk = if ltb 100000 i2c_clk && leb i2c_clk 1000000 then 2 else 3

-- I2C_CON_10BITADDR_SLAVE
unfoldable pub ten_bits : ℕ → ℕ
ten_bits address_width = if address_width == 10 then 8 else 0

-- `maix_i2c_init`; the frequency of the controller's clock is an input
unfoldable pub maix_i2c_init : ℕ → ℕ → ℕ → M (Unit {0})
unfolding ◌>>=◌ config_assert read out set_master i2c_clk_init
maix_i2c_init n address_width i2c_clk = do
  config_assert (ltb n 3)
  config_assert (address_width == 7 || address_width == 10)
  i2c_clk_init n
  freq ← read
  config_assert (not (i2c_clk == 0) && ltb ((freq + i2c_clk) / (2 * i2c_clk)) (2 ^ 16))
  out (write n enable 0)
  out (
      write n con (
        bit_or (bit_or (bit_or (bit_or 0x01 0x40) 0x20) (ten_bits address_width))
          (speed_of i2c_clk * 2)))
  out (write n ss_scl_hcnt (period_of freq i2c_clk))
  out (write n ss_scl_lcnt (period_of freq i2c_clk))
  out (write n intr_mask 0)
  out (write n dma_cr 0x3)
  out (write n dma_rdlr 0)
  out (write n dma_tdlr 4)
  out (write n enable 1)
  set_master n true

-- `maix_i2c_deinit`; IRQN_I2C0_INTERRUPT is 8
unfoldable pub maix_i2c_deinit : ℕ → M (Unit {0})
unfolding ◌>>=◌ config_assert out at
maix_i2c_deinit n = do
  config_assert (ltb n 3)
  out (write n enable 0)
  out (clock_disable n)
  master ← at (λ d. d.is_master_mode) n
  let release = (do out (plic_irq_deregister (8 + n)); out (plic_irq_disable (8 + n)))
  if master then pure tt else release
