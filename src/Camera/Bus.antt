-- ===== src/Camera/Bus.antt =====
-- drivers/camera/gc0328/src/cambus.c: registers of the sensor read and written over SCCB or I2C.
-- A signed byte or a return code is its two's complement word: -1 is 0xFF or 2 ^ 32 - 1.
use kendryte_k210_base_proje.Prelude.{
  ℕ, zero, suc, ◌+◌, ◌*◌, ◌-◌, ◌^◌, Bool, not, ◌&&◌, ◌||◌, List, [], ◌∷◌, ltb, leb, ◌==◌,
  if◌then◌else◌, u8, u16, shl, shr, bit_or,
}

-- What the file calls: the SDK, and maix_i2c of sipeed_i2c.c. `W` is what they have done so far.
pub record Sdk (W : Type 0) : Type 0 where
  -- pin and function
  pub fpioa_set_function : ℕ → ℕ → W → W
  -- device, register, data
  pub dvp_sccb_send_data : ℕ → ℕ → ℕ → W → W
  pub dvp_sccb_receive_data : ℕ → ℕ → W → ℕ × W
  pub dvp_set_image_size : ℕ → ℕ → W → W
  pub msleep : ℕ → W → W
  -- controller, address width, clock
  pub maix_i2c_init : ℕ → ℕ → ℕ → W → W
  -- controller, device, bytes, timeout
  pub maix_i2c_send_data : ℕ → ℕ → List ℕ → ℕ → W → ℕ × W
  -- controller, device, what the byte to be filled holds, timeout: the return code and the byte
  pub maix_i2c_recv_data : ℕ → ℕ → ℕ → ℕ → W → (ℕ × ℕ) × W

-- the statics of the file
pub record Cambus (W : Type 0) : Type 0 where
  pub write_bus_delay : ℕ
  pub sccb_reg_width : ℕ
  pub i2c_device : ℕ
  pub world : W

abbrev pub initial : {W : Type 0} → W → Cambus W
initial w = record { write_bus_delay = 10; sccb_reg_width = 8; i2c_device = 0xFE; world = w }

-- the statics with SCCB as the bus
abbrev pub on_sccb : {W : Type 0} → ℕ → ℕ → W → Cambus W
on_sccb delay width w = record {
  write_bus_delay = delay;
  sccb_reg_width = width;
  i2c_device = 0xFE;
  world = w;
}

abbrev pub minus_one : ℕ
minus_one = 2 ^ 32 - 1

-- `-2` and `-1`
abbrev pub is_sccb : ℕ → Bool
is_sccb i2c = i2c == 0xFE

abbrev pub is_soft : ℕ → Bool
is_soft i2c = i2c == 0xFF

-- `v < 0` and `i2c > 2 || i2c < 0` of a signed byte
abbrev pub is_negative : ℕ → Bool
is_negative v = leb 0x80 v

abbrev pub no_controller : ℕ → Bool
no_controller i2c = (ltb 2 i2c && not (is_negative i2c)) || is_negative i2c

abbrev pub M : Type 0 → Type 0 → Type 0
M W A = Cambus W → A × Cambus W

module _ {W : Type 0} where
  abbrev pub pure : {A : Type 0} → A → M W A
  pure a c = (a, c)

  infixl 5 ◌>>=◌ ◌>>◌
  abbrev pub ◌>>=◌ : {A B : Type 0} → M W A → (A → M W B) → M W B
  ◌>>=◌ m k c = let (a, c') = m c in k a c'

  abbrev pub ◌>>◌ : {A B : Type 0} → M W A → M W B → M W B
  m >> k = m >>= λ _. k

  -- a call that returns nothing, and one that returns a value
  abbrev pub call : (W → W) → M W (Unit {0})
  call f c = (tt, record c { world = f c.world })

  abbrev pub ask : {A : Type 0} → (W → A × W) → M W A
  ask f c = let (a, w) = f c.world in (a, record c { world = w })

  abbrev pub device : M W ℕ
  device c = (c.i2c_device, c)

  abbrev pub reg_width : M W ℕ
  reg_width c = (c.sccb_reg_width, c)

  abbrev pub set_reg_width : ℕ → M W (Unit {0})
  set_reg_width width c = (tt, record c { sccb_reg_width = width })

  abbrev pub set_device : ℕ → M W (Unit {0})
  set_device i2c c = (tt, record c { i2c_device = i2c })

  -- `cambus_set_writeb_delay` and `cambus_reg_width`
  unfoldable pub set_writeb_delay : ℕ → M W (Unit {0})
  set_writeb_delay delay c = (tt, record c { write_bus_delay = delay })

  unfoldable pub cambus_reg_width : M W ℕ
  cambus_reg_width = reg_width

module _ {W : Type 0} (sdk : Sdk W) where
  -- `sccb_i2c_init`; FUNC_SCCB_SCLK, FUNC_SCCB_SDA, FUNC_I2C0_SCLK and FUNC_I2C0_SDA are numbers of
  -- the SDK
  unfoldable pub sccb_i2c_init : (ℕ → ℕ) → ℕ → ℕ → ℕ → ℕ → M W ℕ
  sccb_i2c_init pin_func i2c pin_clk pin_sda freq =
      if is_sccb i2c
      then (do
        call (sdk.fpioa_set_function pin_clk (pin_func 0))
        call (sdk.fpioa_set_function pin_sda (pin_func 1))
        pure 0)
      else if is_soft i2c
      then pure 0
      else if no_controller i2c
      then pure minus_one
      else (do
        call (sdk.fpioa_set_function pin_clk (pin_func 2 + i2c * 2))
        call (sdk.fpioa_set_function pin_sda (pin_func 3 + i2c * 2))
        call (sdk.maix_i2c_init i2c 7 freq)
        pure 0)

  -- `sccb_i2c_write_byte`; its timeout is not used
  unfoldable pub sccb_i2c_write_byte : ℕ → ℕ → ℕ → ℕ → ℕ → M W ℕ
  sccb_i2c_write_byte i2c addr reg reg_len data_byte =
      if is_sccb i2c
      then (do call (sdk.dvp_sccb_send_data addr reg data_byte); pure 0)
      else if is_soft i2c
      then pure 0
      else if no_controller i2c
      then pure minus_one
      else if reg_len == 8
      then ask (sdk.maix_i2c_send_data i2c addr (u8 reg ∷ data_byte ∷ []) 10)
      else ask (sdk.maix_i2c_send_data i2c addr (u8 (shr reg 8) ∷ u8 reg ∷ data_byte ∷ []) 10)

  -- `sccb_i2c_read_byte`: the return code and `*data`
  unfoldable pub sccb_i2c_read_byte : ℕ → ℕ → ℕ → ℕ → M W (ℕ × ℕ)
  sccb_i2c_read_byte i2c addr reg reg_len =
      if is_sccb i2c
      then (do v ← ask (sdk.dvp_sccb_receive_data addr reg); pure (0, v))
      else if is_soft i2c
      then pure (0, 0)
      else if no_controller i2c
      then pure (minus_one, 0)
      else if reg_len == 8
      then (do
        ask (sdk.maix_i2c_send_data i2c addr (u8 reg ∷ []) 10)
        ask (sdk.maix_i2c_recv_data i2c addr 0 10))
      else (do
        ret ← ask (sdk.maix_i2c_send_data i2c addr (u8 (shr reg 8) ∷ u8 reg ∷ []) 10)
        let receive = ask (sdk.maix_i2c_recv_data i2c addr 0 10)
        if ret == 0 then receive else pure (ret, 0))

  -- `sccb_i2c_recieve_byte`, with what `*data` holds before
  unfoldable pub sccb_i2c_recieve_byte : ℕ → ℕ → ℕ → M W (ℕ × ℕ)
  sccb_i2c_recieve_byte i2c addr old =
      if is_sccb i2c
      then (do v ← ask (sdk.dvp_sccb_receive_data addr 0x00); pure (v, v))
      else if is_soft i2c
      then pure (0, old)
      else if no_controller i2c
      then pure (minus_one, old)
      else ask (sdk.maix_i2c_recv_data i2c addr old 10)

  -- `cambus_init`; it does not look at what `sccb_i2c_init` returns
  unfoldable pub cambus_init : (ℕ → ℕ) → ℕ → ℕ → ℕ → ℕ → M W ℕ
  unfolding sccb_i2c_init
  cambus_init pin_func reg_wid i2c pin_clk pin_sda =
      let start = (do set_device i2c; sccb_i2c_init pin_func i2c pin_clk pin_sda 100000; pure 0) in
      (do
        set_reg_width reg_wid
        if is_negative pin_clk || is_negative pin_sda then pure minus_one else start)

  -- a register of the device at `addr`, through the statics
  abbrev pub read_static : ℕ → ℕ → M W (ℕ × ℕ)
  read_static addr reg = do i2c ← device; width ← reg_width; sccb_i2c_read_byte i2c addr reg width

  -- `cambus_read_id`: the return code, `*manuf_id` and `*device_id`
  unfoldable pub cambus_read_id : ℕ → M W (ℕ × ℕ × ℕ)
  cambus_read_id addr = do
    (r1, t1) ← read_static addr 0x1C
    (r2, t2) ← read_static addr 0x1D
    (r3, t3) ← read_static addr 0x0A
    (r4, t4) ← read_static addr 0x0B
    pure (
      bit_or (bit_or (bit_or r1 r2) r3) r4,
      bit_or (u16 (shl t1 8)) t2,
      bit_or (u16 (shl t3 8)) t4,
    )

  -- `cambus_read16_id`
  unfoldable pub cambus_read16_id : ℕ → M W (ℕ × ℕ × ℕ)
  cambus_read16_id addr = do
    (r1, t1) ← read_static addr 0x300A
    let low = (do
      (r2, t2) ← read_static addr 0x300B
      pure (bit_or r1 r2, 0, bit_or (u16 (shl t1 8)) t2))
    if r1 == 0 then low else pure (r1, 0, 0)

  -- the `for` loops of `cambus_scan` from `addr` on, over the function that reads the two numbers;
  -- `rest` is what follows the loop
  unfoldable pub scan_loop : (ℕ → M W (ℕ × ℕ × ℕ)) → ℕ → ℕ → M W ℕ → M W ℕ
  scan_loop read_numbers zero addr rest = rest
  scan_loop read_numbers (suc left) addr rest = do
    (ret, manuf_id, device_id) ← read_numbers addr
    let next = scan_loop read_numbers left (u8 (suc addr)) rest
    let found = not (device_id == 0) && not (device_id == 0xFFFF)
    if ret == 0 && found then pure addr else next

  -- `cambus_scan`: 0x08 to 0x77 are 112 addresses
  unfoldable pub cambus_scan : M W ℕ
  cambus_scan = do
    set_reg_width 8
    scan_loop cambus_read_id 112 0x08
        (do set_reg_width 16; scan_loop cambus_read16_id 112 0x08 (pure 0))

  -- `cambus_scan_gc0328`; GC0328_ADDR is 0x21
  unfoldable pub cambus_scan_gc0328 : M W ℕ
  unfolding sccb_i2c_write_byte sccb_i2c_read_byte
  cambus_scan_gc0328 = do
    set_reg_width 8
    i2c ← device
    sccb_i2c_write_byte i2c 0x21 0xFE 8 0x00
    (ret, id) ← sccb_i2c_read_byte i2c 0x21 0xF0 8
    pure (if id == 0x9D then id else 0)

  -- `cambus_readb`: the return code and `*reg_data`
  unfoldable pub cambus_readb : ℕ → ℕ → M W (ℕ × ℕ)
  cambus_readb slv_addr reg_addr = do
    (ret, v) ← read_static slv_addr reg_addr
    pure (if v == 0xFF then minus_one else 0, v)

  abbrev bus_delay : M W (Unit {0})
  bus_delay c = (tt, record c { world = sdk.msleep c.write_bus_delay c.world })

  -- `cambus_writeb`
  unfoldable pub cambus_writeb : ℕ → ℕ → ℕ → M W ℕ
  unfolding sccb_i2c_write_byte
  cambus_writeb slv_addr reg_addr reg_data = do
    i2c ← device
    width ← reg_width
    sccb_i2c_write_byte i2c slv_addr reg_addr width reg_data
    bus_delay
    pure 0
