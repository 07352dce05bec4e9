-- ===== src/I2c/Answer.antt =====
-- drivers/camera/gc0328/src/sipeed_i2c.c: the loops of the master with a device that answers in time.
use kendryte_k210_base_proje.Prelude.{
  ℕ, zero, suc, ◌/◌, ◌<◌, false, List, [], ◌∷◌, ◌++◌, ◌≡◌, ltb, ◌==◌, length, take, drop, u8, subst,
  arith, map, append-nil,
}
use kendryte_k210_base_proje.I2c.{data_cmd, write, sub64, M, pure, ◌>>=◌}
use kendryte_k210_base_proje.I2c.Master.{
  time_ms, is_late, write_cmds, read_cmds, fifo_len, send_loop,
}
use kendryte_k210_base_proje.I2c.Progress.{
  Gives, pure-Gives, read-Gives, out-Gives, bind-Gives, else-Gives,
}

-- a reading of the clock: the cycles and the frequency
pub record Clock : Type 0 where
  pub cycles : ℕ
  pub freq : ℕ

abbrev pub ticks : Clock → List ℕ
ticks c = c.cycles ∷ c.freq ∷ []

abbrev pub ms : Clock → ℕ
ms c = c.cycles / (c.freq / 1000)

-- the frequency is 1 kHz or more, and the time is not over
abbrev pub Runs : Clock → Type 0
Runs c = (c.freq / 1000 == 0) ≡ false

abbrev pub InTime : ℕ → ℕ → Clock → Type 0
InTime start timeout c = Runs c × (ltb timeout (sub64 (ms c) start) ≡ false)

-- a round of sending: the time, and how full the queue is
pub record SendRound : Type 0 where
  pub clock : Clock
  pub level : ℕ

abbrev pub send_inputs : List SendRound → List ℕ
send_inputs [] = []
send_inputs (r ∷ rs) = ticks r.clock ++ (r.level ∷ 0 ∷ send_inputs rs)

-- the rounds free the queue for all the bytes, in time
abbrev pub Takes : ℕ → ℕ → List ℕ → List SendRound → Type 0
Takes start timeout [] [] = Unit {0}
Takes start timeout [] (r ∷ rs) = ⊥
Takes start timeout (b ∷ bs) [] = ⊥
Takes start timeout (b ∷ bs) (r ∷ rs) =
    InTime start timeout r.clock
    × Takes start timeout (drop (fifo_len (length (b ∷ bs)) r.level) (b ∷ bs)) rs

pub time_ms-Gives : (c : Clock) → Runs c → Gives time_ms (ticks c) (ms c)
unfolding time_ms
time_ms-Gives c h =
    bind-Gives _ (read-Gives c.cycles)
      (bind-Gives _ (read-Gives c.freq) (else-Gives _ h pure-Gives))

pub is_late-Gives :
    (start timeout : ℕ) (c : Clock)
    → InTime start timeout c
    → Gives (is_late start timeout) (ticks c) false
unfolding is_late
is_late-Gives start timeout c (h, t) =
    bind-Gives _ (time_ms-Gives c h)
      (subst (λ b. Gives (pure (ltb timeout (sub64 (ms c) start))) [] b) t pure-Gives)

pub write_cmds-Gives : (n : ℕ) (vs : List ℕ) → Gives (write_cmds n vs) [] tt
unfolding write_cmds
write_cmds-Gives n [] = pure-Gives
write_cmds-Gives n (v ∷ vs) =
    bind-Gives (λ u. write_cmds n vs) (out-Gives (write n data_cmd v)) (write_cmds-Gives n vs)

pub read_cmds-Gives : (vs : List ℕ) → Gives (read_cmds (length vs)) vs (map u8 vs)
unfolding read_cmds
read_cmds-Gives [] = pure-Gives
read_cmds-Gives (v ∷ vs) =
    let store : List ℕ → M (List ℕ) = λ xs. pure (u8 v ∷ xs) in
    let rest =
      subst (λ xs. Gives (read_cmds (length vs) >>= store) xs (map u8 (v ∷ vs))) (append-nil vs)
        (bind-Gives store (read_cmds-Gives vs) pure-Gives) in
    bind-Gives (λ w. read_cmds (length vs) >>= λ xs. pure (u8 w ∷ xs)) (read-Gives v) rest

module _ (n start timeout : ℕ) where
  pub send_loop-Gives :
      (fuel : ℕ) (bytes : List ℕ) (rs : List SendRound)
      → Takes start timeout bytes rs
      → length rs < fuel
      → Gives (send_loop fuel n start timeout bytes) (send_inputs rs) 0
  unfolding send_loop
  send_loop-Gives zero bytes rs t h = absurd (omega arith)
  send_loop-Gives (suc fuel) [] [] t h = pure-Gives
  send_loop-Gives (suc fuel) [] (r ∷ rs) t h = absurd t
  send_loop-Gives (suc fuel) (b ∷ bs) [] t h = absurd t
  send_loop-Gives (suc fuel) (b ∷ bs) (r ∷ rs) (now, t) h =
      let k = fifo_len (length (b ∷ bs)) r.level in
      bind-Gives _ (is_late-Gives start timeout r.clock now) (
        bind-Gives _ (read-Gives r.level) (
          bind-Gives _ (write_cmds-Gives n (take k (b ∷ bs))) (
            bind-Gives _ (read-Gives 0)
              (send_loop-Gives fuel (drop k (b ∷ bs)) rs t (omega arith)))))
