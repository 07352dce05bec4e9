-- ===== src/FlashBus.antt =====
-- drivers/flash/flash.c, the four transfer functions over the registers of SPI3. A write of a
-- register is recorded; the values that the volatile reads give, in order, are an input, which the
-- device chooses. `none` means that the input has ended: the code is still polling.
pub mod Receive
pub mod Send
use kendryte_k210_base_proje.Prelude.{
  ℕ, zero, suc, ◌+◌, ◌-◌, ◌^◌, min, Bool, true, false, not, Option, none, some, List, [], ◌∷◌, ◌++◌,
  ltb, leb, ◌==◌, if◌then◌else◌, sub32, u8, shl, bit_and, bit_or, length, take, drop,
}

-- the registers of `spi_t` that the driver uses
pub data Reg : Type 0 where
  ctrlr0 ctrlr1 ssienr ser dr baudr imr spi_ctrlr0 : Reg

-- `enum flash_status_t`
pub data Status : Type 0 where
  flash_ok flash_busy : Status

-- what `flash_page_program_fun` and `flash_read_fun` can point to
pub data ProgramFun : Type 0 where
  flash_page_program flash_quad_page_program : ProgramFun

pub data ReadFun : Type 0 where
  flash_stand_read_data flash_quad_read_data : ReadFun

-- the statics of the file, the register writes so far, and the reads to come
pub record Flash : Type 0 where
  pub dfs_offset : ℕ
  pub tmod_offset : ℕ
  pub frf_offset : ℕ
  pub page_program_fun : Option ProgramFun
  pub read_fun : Option ReadFun
  pub writes : List (Reg × ℕ)
  pub reads : List ℕ

abbrev pub M : Type 0 → Type 0
M A = Flash → Option (A × Flash)

abbrev pub pure : {A : Type 0} → A → M A
pure a f = some (a, f)

abbrev pub fault : {A : Type 0} → M A
fault f = none

infixl 5 ◌>>=◌ ◌>>◌
abbrev pub ◌>>=◌ : {A B : Type 0} → M A → (A → M B) → M B
◌>>=◌ m k f = elim (m f) [ none ↦ none | some (a, f') ↦ k a f' ]

abbrev pub ◌>>◌ : {A B : Type 0} → M A → M B → M B
m >> k = m >>= λ _. k

abbrev pub set_reg : Reg → ℕ → M (Unit {0})
set_reg r v f = some (tt, record f { writes = f.writes ++ (r, v) ∷ [] })

next_read : List ℕ → M ℕ
next_read [] f = none
next_read (v ∷ vs) f = some (v, record f { reads = vs })

-- a read of a volatile register
unfoldable pub get_reg : M ℕ
unfolding next_read
get_reg f = next_read f.reads f

-- `while (len--) spi_handle->dr[0] = *buff++;`, also the `for` loops that fill the FIFO
unfoldable pub send_all : List ℕ → M (Unit {0})
send_all [] = pure tt
send_all (b ∷ bs) = do set_reg dr b; send_all bs

-- `for (index = 0; index < n; index++) *rx_buff++ = spi_handle->dr[0];`
unfoldable pub receive_all : ℕ → M (List ℕ)
receive_all zero = pure []
receive_all (suc n) = do b ← get_reg; bs ← receive_all n; pure (u8 b ∷ bs)

-- `while (rx_len) { … }`; a round reads the register at least once, so `fuel` is the reads left
unfoldable pub receive_loop : ℕ → ℕ → M (List ℕ)
receive_loop zero rx_len = fault
receive_loop (suc fuel) rx_len =
    let rounds = do
      level ← get_reg
      let fifo_len = if ltb level rx_len then level else rx_len
      bs ← receive_all fifo_len
      rest ← receive_loop fuel (sub32 rx_len fifo_len)
      pure (bs ++ rest)
    in if rx_len == 0 then pure [] else rounds

-- one filling of the transmit FIFO: the number of bytes sent
unfoldable pub fill_fifo : List ℕ → M ℕ
unfolding get_reg send_all
fill_fifo tx = do
  level ← get_reg
  let room = sub32 32 level
  let fifo_len = if ltb room (length tx) then room else length tx
  send_all (take fifo_len tx)
  pure fifo_len

-- `while (tx_len) { … }`
unfoldable pub send_loop : ℕ → List ℕ → M (Unit {0})
send_loop zero tx = fault
send_loop (suc fuel) tx =
    let rounds = (do fifo_len ← fill_fifo tx; send_loop fuel (drop fifo_len tx)) in
    if length tx == 0 then pure tt else rounds

-- `while ((spi_handle->sr & 0x05) != 0x04) ;`
unfoldable pub wait_sent : ℕ → M (Unit {0})
wait_sent zero = fault
wait_sent (suc fuel) = do
  sr ← get_reg
  let again = wait_sent fuel
  if bit_and sr 0x05 == 0x04 then pure tt else again

-- a round of each loop takes at least one read
abbrev pub with_fuel : {A : Type 0} → (ℕ → M A) → M A
with_fuel m f = m (suc (length f.reads)) f

-- `(0x07 << dfs_offset) | (mode << tmod_offset)`
abbrev pub ctrlr0_value : Flash → ℕ → ℕ
ctrlr0_value f mode = bit_or (shl 0x07 f.dfs_offset) (shl mode f.tmod_offset)

-- `flash_receive_data_enhanced`, and the common end of `flash_receive_data`
unfoldable pub receive_data_enhanced : List ℕ → ℕ → M (List ℕ)
receive_data_enhanced cmd rx_len = do
  set_reg ctrlr1 (sub32 rx_len 1)
  set_reg ssienr 0x01
  send_all cmd
  set_reg ser 0x01
  bs ← with_fuel (λ n. receive_loop n rx_len)
  set_reg ser 0x00
  set_reg ssienr 0x00
  pure bs

-- `flash_receive_data`: the bytes put into `rx_buff`
unfoldable pub receive_data : List ℕ → ℕ → M (List ℕ)
receive_data cmd rx_len f =
    (do set_reg ctrlr0 (ctrlr0_value f 0x03); receive_data_enhanced cmd rx_len) f

-- `flash_send_data_enhanced`, and the common end of `flash_send_data`
unfoldable pub send_data_enhanced : List ℕ → List ℕ → M (Unit {0})
send_data_enhanced cmd tx = do
  set_reg ssienr 0x01
  send_all cmd
  n ← fill_fifo tx
  set_reg ser 0x01
  with_fuel (λ k. send_loop k (drop n tx))
  with_fuel wait_sent
  set_reg ser 0x00
  set_reg ssienr 0x00

-- `flash_send_data`
unfoldable pub send_data : List ℕ → List ℕ → M (Unit {0})
send_data cmd tx f = (do set_reg ctrlr0 (ctrlr0_value f 0x01); send_data_enhanced cmd tx) f
