-- ===== src/I2c/Polling.antt =====
-- drivers/camera/gc0328/src/sipeed_i2c.c: the loops that wait for the bus and that receive, with a
-- device that answers in time.
use kendryte_k210_base_proje.Prelude.{
  ℕ, zero, suc, ◌-◌, ◌<◌, ◌≤◌, true, false, ◌&&◌, List, [], ◌∷◌, ◌++◌, ◌≡◌, refl, sym, ap, ltb,
  ◌==◌, if◌then◌else◌, length, u8, bit_and, subst, arith, map, append-nil, append_assoc,
}
use kendryte_k210_base_proje.I2c.{M, pure, ◌>>=◌}
use kendryte_k210_base_proje.I2c.Master.{
  read_cmds, fifo_len, requests, is_busy, idle_loop, recv_loop,
}
use kendryte_k210_base_proje.I2c.Progress.{
  Gives, pure-Gives, read-Gives, bind-Gives, then-Gives, else-Gives,
}
use kendryte_k210_base_proje.I2c.Answer.{
  Clock, ticks, InTime, is_late-Gives, write_cmds-Gives, read_cmds-Gives,
}

-- the reads of the status register in one round: the bus is active, or the queue is not empty
pub data Busy : List ℕ → Type 0 where
  active : (s : ℕ) → (bit_and s 1 == 0) ≡ false → Busy (s ∷ [])
  not_empty :
      (s s' : ℕ) → (bit_and s 1 == 0) ≡ true → (bit_and s' 4 == 0) ≡ true → Busy (s ∷ s' ∷ [])

pub record IdleRound : Type 0 where
  pub statuses : List ℕ
  pub clock : Clock

abbrev pub idle_inputs : List IdleRound → List ℕ
idle_inputs [] = []
idle_inputs (r ∷ rs) = r.statuses ++ (ticks r.clock ++ (0 ∷ idle_inputs rs))

abbrev pub Waits : ℕ → ℕ → List IdleRound → Type 0
Waits start timeout [] = Unit {0}
Waits start timeout (r ∷ rs) =
    Busy r.statuses × InTime start timeout r.clock × Waits start timeout rs

-- the status of a bus that is free, with an empty queue
pub record Free (s s' : ℕ) : Type 0 where
  pub quiet : (bit_and s 1 == 0) ≡ true
  pub empty : (bit_and s' 4 == 0) ≡ false

is_busy-Gives : (ss : List ℕ) → Busy ss → Gives is_busy ss true
unfolding is_busy
is_busy-Gives _ (active s a) = bind-Gives _ (read-Gives s) (else-Gives _ a pure-Gives)
is_busy-Gives _ (not_empty s s' q e) = bind-Gives _ (read-Gives s) (
    then-Gives _ q (
      bind-Gives _ (read-Gives s')
        (subst (λ b. Gives (pure (bit_and s' 4 == 0)) [] b) e pure-Gives)))

Free-Gives : (s s' : ℕ) → Free s s' → Gives is_busy (s ∷ s' ∷ []) false
unfolding is_busy
Free-Gives s s' f = bind-Gives _ (read-Gives s) (
    then-Gives _ f.quiet (
      bind-Gives _ (read-Gives s')
        (subst (λ b. Gives (pure (bit_and s' 4 == 0)) [] b) f.empty pure-Gives)))

-- a round of receiving: the time, what the device has sent, and how full the queue is
pub record RecvRound : Type 0 where
  pub clock : Clock
  pub got : List ℕ
  pub level : ℕ

abbrev pub recv_inputs : List RecvRound → List ℕ
recv_inputs [] = []
recv_inputs (r ∷ rs) = ticks r.clock ++ (length r.got ∷ (r.got ++ (r.level ∷ 0 ∷ recv_inputs rs)))

-- the bytes that the device sends, as they are stored
abbrev pub arrived : List RecvRound → List ℕ
arrived [] = []
arrived (r ∷ rs) = map u8 r.got ++ arrived rs

-- the rounds ask for `want` bytes and bring `rx`, in time
abbrev pub Brings : ℕ → ℕ → ℕ → ℕ → List RecvRound → Type 0
Brings start timeout want rx [] = (want ≡ 0) × (rx ≡ 0)
Brings start timeout want rx (r ∷ rs) =
    (((want == 0) && (rx == 0)) ≡ false)
    × InTime start timeout r.clock
    × (length r.got ≤ rx)
    × Brings start timeout (want - fifo_len want r.level) (rx - length r.got) rs

length-map : (xs : List ℕ) → length (map u8 xs) ≡ length xs
length-map [] = refl
length-map (x ∷ xs) = ap suc (length-map xs)

all_there : (a b : ℕ) → a ≤ b → (if ltb b a then b else a) ≡ a
all_there a b h = ground arith

nothing : (a b : ℕ) → a ≡ 0 → b ≡ 0 → ((a == 0) && (b == 0)) ≡ true
nothing a b ha hb = ground arith

module _ (n start timeout : ℕ) where
  pub idle_loop-Gives :
      (fuel : ℕ) (rs : List IdleRound) {s s' : ℕ}
      → Waits start timeout rs
      → Free s s'
      → length rs < fuel
      → Gives (idle_loop fuel n start timeout) (idle_inputs rs ++ (s ∷ s' ∷ [])) 0
  unfolding idle_loop
  idle_loop-Gives zero rs w f h = absurd (omega arith)
  idle_loop-Gives (suc fuel) [] {s} {s'} w f h = bind-Gives _ (Free-Gives s s' f) pure-Gives
  idle_loop-Gives (suc fuel) (r ∷ rs) {s} {s'} (busy, now, w) f h =
      subst (λ xs. Gives (idle_loop (suc fuel) n start timeout) xs 0)
        (sym (append_assoc r.statuses (ticks r.clock ++ (0 ∷ idle_inputs rs)) (s ∷ s' ∷ [])))
        (bind-Gives _ (is_busy-Gives r.statuses busy) (
          bind-Gives _ (is_late-Gives start timeout r.clock now)
            (bind-Gives _ (read-Gives 0) (idle_loop-Gives fuel rs w f (omega arith)))))

  pub recv_loop-Gives :
      (fuel want rx : ℕ) (rs : List RecvRound)
      → Brings start timeout want rx rs
      → length rs < fuel
      → Gives (recv_loop fuel n start timeout want rx) (recv_inputs rs) (0, arrived rs)
  unfolding recv_loop
  recv_loop-Gives zero want rx rs b h = absurd (omega arith)
  recv_loop-Gives (suc fuel) want rx [] (w, x) h = then-Gives _ (nothing want rx w x) pure-Gives
  recv_loop-Gives (suc fuel) want rx (r ∷ rs) (go, now, few, b) h = else-Gives _ go (
      bind-Gives _ (is_late-Gives start timeout r.clock now) (
        bind-Gives _ (read-Gives (length r.got)) (
          bind-Gives _ got_all (
            bind-Gives _ (read-Gives r.level) (
              bind-Gives _ (write_cmds-Gives n (requests (fifo_len want r.level))) (
                bind-Gives _ (read-Gives 0) (
                  later (
                    recv_loop-Gives fuel (want - fifo_len want r.level) (rx - length (map u8 r.got))
                      rs
                      (subst (λ k. Brings start timeout (want - fifo_len want r.level) (rx - k) rs)
                        (sym (length-map r.got)) b)
                      (omega arith)))))))))
    where
      got_all :
          Gives
            (read_cmds (if ltb rx (length r.got) then rx else length r.got))
            r.got
            (map u8 r.got)
      got_all =
          subst (λ k. Gives (read_cmds k) r.got (map u8 r.got))
            (sym (all_there (length r.got) rx few)) (read_cmds-Gives r.got)

      store : ℕ × List ℕ → M (ℕ × List ℕ)
      store z = pure (z.0, map u8 r.got ++ z.1)

      loop : M (ℕ × List ℕ)
      loop =
          recv_loop fuel n start timeout (want - fifo_len want r.level) (rx - length (map u8 r.got))

      later :
          Gives loop (recv_inputs rs) (0, arrived rs)
          → Gives (loop >>= store) (recv_inputs rs) (0, map u8 r.got ++ arrived rs)
      later g =
          subst (λ xs. Gives (loop >>= store) xs (0, map u8 r.got ++ arrived rs))
            (append-nil (recv_inputs rs)) (bind-Gives store g pure-Gives)
