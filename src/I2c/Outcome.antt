-- ===== src/I2c/Outcome.antt =====
-- drivers/camera/gc0328/src/sipeed_i2c.c: the ways in which a transfer of the master ends.
use kendryte_k210_base_proje.Prelude.{
  ℕ, zero, suc, ◌+◌, List, [], ◌∷◌, ◌++◌, ◌≡◌, refl, sym, ap, ◌∙◌, ◌⊎◌, inl, inr, ◌==◌, length,
  take, drop, append_assoc, append-nil, take-nil, take_all, arith, bit_and, ◌/◌,
}
use kendryte_k210_base_proje.I2c.{
  enable, data_cmd, clr_tx_abrt, Out, write, clear, usleep, M, minus,
}
use kendryte_k210_base_proje.I2c.Master.{
  time_ms, is_late, give_up, write_cmds, fifo_len, send_loop, is_busy, idle_loop, with_fuel,
}
use kendryte_k210_base_proje.I2c.Effects.{
  Does, pure-Does, fault-Does, read-Does, out-Does, if-Does, after_quiet, after_calls, weaken,
}

abbrev pub writes : ℕ → List ℕ → List Out
writes n [] = []
writes n (v ∷ vs) = write n data_cmd v ∷ writes n vs

-- the calls of an error's end
abbrev pub reset : ℕ → List Out
reset n = clear n clr_tx_abrt ∷ write n enable 0 ∷ write n enable 1 ∷ usleep 10 ∷ []

-- the loop over the bytes ends: with all of them written, or after the first `k`
pub data Written (n : ℕ) (bytes : List ℕ) (code : ℕ) (os : List Out) : Type 0 where
  written_all : code ≡ 0 → os ≡ writes n bytes → Written n bytes code os
  stopped :
      (k : ℕ)
      → code ≡ minus 1 ⊎ code ≡ minus 3
      → os ≡ writes n (take k bytes) ++ reset n
      → Written n bytes code os

-- the bytes are written, as far as the code says
pub data Sent (n : ℕ) (bytes : List ℕ) (code : ℕ) (os : List Out) : Type 0 where
  sent_all : code ≡ 0 → os ≡ writes n bytes → Sent n bytes code os
  broken :
      (k : ℕ)
      → code ≡ minus 1 ⊎ code ≡ minus 3
      → os ≡ writes n (take k bytes) ++ reset n
      → Sent n bytes code os
  broken_idle : code ≡ minus 2 → os ≡ writes n bytes ++ reset n → Sent n bytes code os

writes-take-drop :
    (n k : ℕ) (bs : List ℕ) → writes n (take k bs) ++ writes n (drop k bs) ≡ writes n bs
writes-take-drop n zero bs = refl
writes-take-drop n (suc k) [] = refl
writes-take-drop n (suc k) (b ∷ bs) = ap (◌∷◌ (write n data_cmd b)) (writes-take-drop n k bs)

writes-take_add :
    (n k j : ℕ) (bs : List ℕ)
    → writes n (take k bs) ++ writes n (take j (drop k bs)) ≡ writes n (take (k + j) bs)
writes-take_add n zero j bs = ap (λ m. writes n (take m bs)) (omega arith)
writes-take_add n (suc k) j [] =
    ap (writes n) (take-nil j) ∙ sym (ap (writes n) (take-nil (suc k + j)))
writes-take_add n (suc k) j (b ∷ bs) =
    let next : suc (k + j) ≡ suc k + j = omega arith in
    ap (◌∷◌ (write n data_cmd b)) (writes-take_add n k j bs)
    ∙ ap (λ m. writes n (take m (b ∷ bs))) next

time_ms-Does : Does time_ms (λ a os. os ≡ [])
unfolding time_ms
time_ms-Does =
    after_quiet read-Does
      (λ c. after_quiet read-Does (λ f. if-Does (f / 1000 == 0) fault-Does (pure-Does refl)))

pub is_late-Does : (start timeout : ℕ) → Does (is_late start timeout) (λ a os. os ≡ [])
unfolding is_late
is_late-Does start timeout = after_quiet time_ms-Does (λ now. pure-Does refl)

is_busy-Does : Does is_busy (λ a os. os ≡ [])
unfolding is_busy
is_busy-Does = after_quiet read-Does (λ s.
    if-Does (bit_and s 1 == 0) (after_quiet read-Does (λ s'. pure-Does refl)) (pure-Does refl))

pub give_up-Does : (n code : ℕ) → Does (give_up n code) (λ a os. (a ≡ code) × (os ≡ reset n))
unfolding give_up
give_up-Does n code = after_calls (out-Does _) (λ a.
    after_calls (out-Does _)
      (λ a. after_calls (out-Does _) (λ a. after_calls (out-Does _) (λ a. pure-Does (refl, refl)))))

pub write_cmds-Does : (n : ℕ) (vs : List ℕ) → Does (write_cmds n vs) (λ a os. os ≡ writes n vs)
unfolding write_cmds
write_cmds-Does n [] = pure-Does refl
write_cmds-Does n (v ∷ vs) =
    after_calls (out-Does _)
      (λ a. weaken (write_cmds-Does n vs) (λ a os e. ap (◌∷◌ (write n data_cmd v)) e))

-- a round that has written `k` bytes, and the rest of the bytes
Written-cons :
    (n k : ℕ) (bs : List ℕ) (code : ℕ) (os : List Out)
    → Written n (drop k bs) code os
    → Written n bs code (writes n (take k bs) ++ os)
Written-cons n k bs code os (written_all c e) =
    written_all c (ap (◌++◌ (writes n (take k bs))) e ∙ writes-take-drop n k bs)
Written-cons n k bs code os (stopped j c e) = stopped (k + j) c (
    ap (◌++◌ (writes n (take k bs))) e
    ∙ sym (append_assoc (writes n (take k bs)) (writes n (take j (drop k bs))) (reset n))
    ∙ ap (λ xs. xs ++ reset n) (writes-take_add n k j bs))

pub send_loop-Does :
    (fuel n start timeout : ℕ) (bytes : List ℕ)
    → Does (send_loop fuel n start timeout bytes) (Written n bytes)
unfolding send_loop
send_loop-Does zero n start timeout bytes = fault-Does
send_loop-Does (suc fuel) n start timeout [] = pure-Does (written_all refl refl)
send_loop-Does (suc fuel) n start timeout (b ∷ bs) =
    after_quiet (is_late-Does start timeout) (λ late.
      if-Does late (weaken (give_up-Does n (minus 3)) (λ a os (c, e). stopped 0 (inr c) e)) (
        after_quiet read-Does (λ level.
          let k = fifo_len (length (b ∷ bs)) level in
          after_calls (write_cmds-Does n (take k (b ∷ bs))) (λ u. after_quiet read-Does (λ source.
            if-Does (source == 0)
              (weaken (send_loop-Does fuel n start timeout (drop k (b ∷ bs)))
                (λ a os. Written-cons n k (b ∷ bs) a os))
              (weaken (give_up-Does n (minus 1))
                (λ a os (c, e). stopped k (inl c) (ap (◌++◌ (writes n (take k (b ∷ bs)))) e))))))))

-- nothing is left to write, so that only the end counts
pub Sent-nil :
    (n code : ℕ) (bytes : List ℕ) (os : List Out)
    → Sent n [] code os
    → Sent n bytes code (writes n bytes ++ os)
Sent-nil n code bytes os (sent_all c e) =
    sent_all c (ap (◌++◌ (writes n bytes)) e ∙ append-nil (writes n bytes))
Sent-nil n code bytes os (broken k c e) = broken (length bytes) c (
    ap (◌++◌ (writes n bytes)) (e ∙ ap (λ xs. writes n xs ++ reset n) (take-nil k))
    ∙ ap (λ xs. writes n xs ++ reset n) (sym (take_all (length bytes) bytes (omega arith))))
Sent-nil n code bytes os (broken_idle c e) = broken_idle c (ap (◌++◌ (writes n bytes)) e)

pub idle_loop-Does : (fuel n start timeout : ℕ) → Does (idle_loop fuel n start timeout) (Sent n [])
unfolding idle_loop
idle_loop-Does zero n start timeout = fault-Does
idle_loop-Does (suc fuel) n start timeout = after_quiet is_busy-Does (λ busy.
    if-Does busy
      (after_quiet (is_late-Does start timeout) (λ late.
        if-Does late (weaken (give_up-Does n (minus 3)) (λ a os (c, e). broken 0 (inr c) e)) (
          after_quiet read-Does (λ source.
            if-Does (source == 0) (idle_loop-Does fuel n start timeout)
              (weaken (give_up-Does n (minus 2)) (λ a os (c, e). broken_idle c e))))))
      (pure-Does (sent_all refl refl)))

-- a loop on its fuel, whatever the fuel is
pub fueled-Does :
    {A : Type 0} {P : A → List Out → Type 0} {m : ℕ → M A}
    → ((fuel : ℕ) → Does (m fuel) P)
    → Does (with_fuel m) P
fueled-Does h = record { run = λ d. (h (suc (length d.reads))).run d }
