-- ===== src/I2c/Slave.antt =====
-- drivers/camera/gc0328/src/sipeed_i2c.c: maix_i2c_init_as_slave and maix_i2c_slave_irq.
use kendryte_k210_base_proje.Prelude.{
  ℕ, ◌+◌, ◌*◌, Bool, false, not, ◌||◌, ◌==◌, if◌then◌else◌, bit_and, bit_or, Option,
}
use kendryte_k210_base_proje.I2c.{
  enable, con, sar, data_cmd, ss_scl_hcnt, ss_scl_lcnt, intr_mask, rx_tl, tx_tl, clr_start_det,
  clr_stop_det, clr_rd_req, write, clear, plic_set_priority, plic_irq_register, plic_irq_enable,
  on_event, on_receive, on_transmit, M, pure, read, out, ◌>>=◌, ◌>>◌, config_assert, fetch, at,
  set_master, set_context, i2c_clk_init, ten_bits,
}

-- `maix_i2c_init_as_slave`; IRQN_I2C0_INTERRUPT is 8
unfoldable pub maix_i2c_init_as_slave : ℕ → ℕ → ℕ → Option ℕ → M (Unit {0})
unfolding ◌>>=◌ config_assert out set_context set_master i2c_clk_init
maix_i2c_init_as_slave n slave_address address_width handler = do
  config_assert (address_width == 7 || address_width == 10)
  set_context n (record { i2c_num = n; slave_handler = handler })
  i2c_clk_init n
  out (write n enable 0)
  out (write n con (bit_or (bit_or (ten_bits address_width) (1 * 2)) 0x80))
  out (write n ss_scl_hcnt 37)
  out (write n ss_scl_lcnt 40)
  out (write n sar slave_address)
  out (write n rx_tl 0)
  out (write n tx_tl 0)
  out (write n intr_mask (bit_or (bit_or (bit_or 0x04 0x400) 0x200) 0x20))
  out (plic_set_priority (8 + n) 1)
  out (plic_irq_register (8 + n) n)
  out (plic_irq_enable (8 + n))
  out (write n enable 1)
  set_master n false

-- one `if` of the interrupt
abbrev when : Bool → M (Unit {0}) → M (Unit {0})
when b m = if b then m else pure tt

-- `maix_i2c_slave_irq` with `maix_slave_context + k`; a handler reads the byte it is given from
-- the register, and `on_transmit` gives a byte as the next input. I2C_EV_START is 0, I2C_EV_STOP 2.
unfoldable pub maix_i2c_slave_irq : ℕ → M ℕ
unfolding ◌>>=◌ read out fetch at
maix_i2c_slave_irq k = do
  context ← at (λ d. d.maix_slave_context) k
  let n = context.i2c_num
  status ← read
  when (not (bit_and status 0x400 == 0)) (do
    handler ← fetch context.slave_handler
    out (on_event handler 0)
    out (clear n clr_start_det))
  when (not (bit_and status 0x04 == 0))
      (do handler ← fetch context.slave_handler; v ← read; out (on_receive handler v))
  when (not (bit_and status 0x20 == 0)) (do
    handler ← fetch context.slave_handler
    out (on_transmit handler)
    v ← read
    out (write n data_cmd v)
    out (clear n clr_rd_req))
  when (not (bit_and status 0x200 == 0)) (do
    handler ← fetch context.slave_handler
    out (on_event handler 2)
    out (clear n clr_stop_det))
  pure 0
