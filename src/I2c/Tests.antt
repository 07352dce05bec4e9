-- ===== src/I2c/Tests.antt =====
-- Runs of the I2C controller 0 with a device at address 0x21, a CPU of 400 MHz.
use kendryte_k210_base_proje.Prelude.{
  ℕ, Returns, arith, true, false, none, some, List, [], ◌∷◌, ◌++◌, ◌≡◌, refl,
}
use kendryte_k210_base_proje.I2c.{
  enable, con, tar, data_cmd, ss_scl_hcnt, ss_scl_lcnt, intr_mask, dma_cr, dma_rdlr, dma_tdlr,
  clr_start_det, Out, write, clear, clock_enable, clock_set_threshold, on_event, on_receive, I2c,
  initial, maix_i2c_init, ten_bits, period_of, speed_of,
}
use kendryte_k210_base_proje.I2c.Master.{maix_i2c_send_data, maix_i2c_recv_data}
use kendryte_k210_base_proje.I2c.Slave.{maix_i2c_slave_irq}
use kendryte_k210_base_proje.I2c.Effects.{Between}
use kendryte_k210_base_proje.I2c.Outcome.{Sent, writes}
use kendryte_k210_base_proje.I2c.Receive.{asks}
use kendryte_k210_base_proje.I2c.Answer.{Clock}
use kendryte_k210_base_proje.I2c.Polling.{active}
use kendryte_k210_base_proje.I2c.Ready.{Ready}
use kendryte_k210_base_proje.I2c.Answered.{maix_i2c_send_data-Takes, maix_i2c_recv_data-Brings}
use kendryte_k210_base_proje.I2c.Select.{selecting, Follows}
use kendryte_k210_base_proje.I2c.Transfer.{
  Transferred, maix_i2c_send_data_lem, maix_i2c_recv_data_lem,
}

abbrev init_calls : List Out
init_calls =
    clock_enable 0
    ∷ clock_set_threshold 0 3
    ∷ write 0 enable 0
    ∷ write 0 con 0x67
    ∷ write 0 ss_scl_hcnt 1950
    ∷ write 0 ss_scl_lcnt 1950
    ∷ write 0 intr_mask 0
    ∷ write 0 dma_cr 3
    ∷ write 0 dma_rdlr 0
    ∷ write 0 dma_tdlr 4
    ∷ write 0 enable 1
    ∷ []

-- a controller that is a master, and what it reads
abbrev master : List ℕ → I2c
master rs = record (initial rs) { is_master_mode = true ∷ false ∷ false ∷ []; outs = init_calls }

-- 100 kHz from 390 MHz
init_run : maix_i2c_init 0 7 100000 (initial (390000000 ∷ [])) ≡ some (tt, master [])
unfolding maix_i2c_init ten_bits period_of speed_of
init_run = refl

abbrev time : List ℕ
time = 8000000 ∷ 400000000 ∷ []

-- the bus is free after one round
abbrev send_inputs : List ℕ
send_inputs = time ++ time ++ 0 ∷ 0 ∷ 4 ∷ 4 ∷ []

-- the byte is there in the second round
abbrev recv_inputs : List ℕ
recv_inputs = time ++ time ++ 0 ∷ 0 ∷ time ++ 0 ∷ 0 ∷ 0 ∷ time ++ 1 ∷ 0x9D ∷ 1 ∷ 0 ∷ []

abbrev select_calls : List Out
select_calls = write 0 enable 0 ∷ write 0 tar 0x21 ∷ write 0 enable 1 ∷ []

abbrev selected : List Out → I2c
selected os = record (master []) {
  slaves_addr = 0x21 ∷ 0 ∷ 0 ∷ [];
  outs = init_calls ++ select_calls ++ os;
}

send_run :
    maix_i2c_send_data 0 0x21 (0xFE ∷ 0x00 ∷ []) 10 (master send_inputs)
    ≡ some (0, selected (write 0 data_cmd 0xFE ∷ write 0 data_cmd 0x00 ∷ []))
unfolding maix_i2c_send_data
send_run = refl

recv_run :
    maix_i2c_recv_data 0 0x21 (0xF0 ∷ []) 1 10 (master recv_inputs)
    ≡ some ((0, 0x9D ∷ []), selected (write 0 data_cmd 0xF0 ∷ write 0 data_cmd 0x100 ∷ []))
unfolding maix_i2c_recv_data
recv_run = refl

maix_i2c_send_data_lem_example :
    Between
      (master send_inputs)
      (selected (write 0 data_cmd 0xFE ∷ write 0 data_cmd 0x00 ∷ []))
      (Follows (selecting (master send_inputs) 0 0x21) (Sent 0 (0xFE ∷ 0x00 ∷ []) 0))
maix_i2c_send_data_lem_example = maix_i2c_send_data_lem 0 0x21 (0xFE ∷ 0x00 ∷ []) 10 send_run

maix_i2c_recv_data_lem_example :
    Between
      (master recv_inputs)
      (selected (write 0 data_cmd 0xF0 ∷ write 0 data_cmd 0x100 ∷ []))
      (Follows (selecting (master recv_inputs) 0 0x21) (Transferred 0 (0xF0 ∷ []) 1 (0, 0x9D ∷ [])))
maix_i2c_recv_data_lem_example = maix_i2c_recv_data_lem 0 0x21 (0xF0 ∷ []) 10 1 recv_run

-- the time of the CPU: 20 ms
abbrev clock : Clock
clock = record { cycles = 8000000; freq = 400000000 }

abbrev busy_inputs : List ℕ
busy_inputs = time ++ time ++ 0 ∷ 0 ∷ 1 ∷ time ++ 0 ∷ 4 ∷ 4 ∷ 7 ∷ []

master-Ready : (rs : List ℕ) → Ready (master rs) 0
master-Ready rs = record { in_range = omega arith; masters = refl; addrs = refl }

maix_i2c_send_data-Takes_example :
    Returns (maix_i2c_send_data 0 0x21 (0xFE ∷ 0x00 ∷ []) 10 (master busy_inputs)) (λ (code, d').
      (code ≡ 0)
      × (d'.reads ≡ 7 ∷ [])
      × (d'.outs ≡ init_calls ++ (select_calls ++ writes 0 (0xFE ∷ 0x00 ∷ []))))
maix_i2c_send_data-Takes_example =
    maix_i2c_send_data-Takes 0 0x21 (0xFE ∷ 0x00 ∷ []) 10 (master busy_inputs)
      (master-Ready busy_inputs) clock refl (record { clock = clock; level = 0 } ∷ []) (7 ∷ [])
      ((refl, refl), tt) (record { statuses = 1 ∷ []; clock = clock } ∷ []) {s = 4} {s' = 4}
      (active 1 refl, (refl, refl), tt) (record { quiet = refl; empty = refl }) refl

maix_i2c_recv_data-Brings_example :
    Returns (maix_i2c_recv_data 0 0x21 (0xF0 ∷ []) 1 10 (master recv_inputs)) (λ (result, d').
      (result ≡ (0, 0x9D ∷ []))
      × (d'.reads ≡ [])
      × (d'.outs ≡ init_calls ++ (select_calls ++ (writes 0 (0xF0 ∷ []) ++ asks 0 1))))
maix_i2c_recv_data-Brings_example =
    maix_i2c_recv_data-Brings 0 0x21 (0xF0 ∷ []) 10 (master recv_inputs) (master-Ready recv_inputs)
      clock refl (record { clock = clock; level = 0 } ∷ []) [] ((refl, refl), tt) 1
      (record { clock = clock; got = []; level = 0 }
        ∷ record { clock = clock; got = 0x9D ∷ []; level = 1 }
        ∷ [])
      (refl, (refl, refl), omega arith, (refl, (refl, refl), omega arith, (refl, refl))) refl

-- a slave that is selected and gets a byte
abbrev slave : List ℕ → List Out → I2c
slave rs os = record (initial rs) {
  maix_slave_context =
      record { i2c_num = 0; slave_handler = some 7 }
      ∷ record { i2c_num = 0; slave_handler = none }
      ∷ [];
  outs = os;
}

irq_run :
    maix_i2c_slave_irq 0 (slave (0x404 ∷ 0x55 ∷ []) [])
    ≡ some (0, slave [] (on_event 7 0 ∷ clear 0 clr_start_det ∷ on_receive 7 0x55 ∷ []))
unfolding maix_i2c_slave_irq
irq_run = refl

abbrev off : I2c
off = initial (390000000 ∷ [])
