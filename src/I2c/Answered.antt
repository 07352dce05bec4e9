-- ===== src/I2c/Answered.antt =====
-- drivers/camera/gc0328/src/sipeed_i2c.c: whole transfers of the master with a device that answers
-- in time.
use kendryte_k210_base_proje.Prelude.{
  ℕ, ◌≤◌, Option, none, some, List, [], ◌∷◌, ◌++◌, ◌≡◌, refl, sym, ap, ◌∙◌, inl, inr, ltb, length,
  subst, arith, Returns, lt→ltb, length-append,
}
use kendryte_k210_base_proje.I2c.{Out, I2c, M, ◌>>=◌, ◌>>◌, config_assert}
use kendryte_k210_base_proje.I2c.Master.{
  time_ms, select_slave, maix_i2c_send_data, maix_i2c_recv_data,
}
use kendryte_k210_base_proje.I2c.Effects.{Between}
use kendryte_k210_base_proje.I2c.Outcome.{writes, Sent, sent_all, broken, broken_idle}
use kendryte_k210_base_proje.I2c.Select.{selecting, Follows, SameBut, time_ms-Safe}
use kendryte_k210_base_proje.I2c.Receive.{Received, received_all, cut_off, asks}
use kendryte_k210_base_proje.I2c.Transfer.{
  Transferred, not_sent, then_received, maix_i2c_send_data_lem, maix_i2c_recv_data_lem,
}
use kendryte_k210_base_proje.I2c.Progress.{Gives, bind-Gives, with_fuel-Gives}
use kendryte_k210_base_proje.I2c.Answer.{
  Clock, ticks, ms, Runs, SendRound, send_inputs, Takes, time_ms-Gives, send_loop-Gives,
}
use kendryte_k210_base_proje.I2c.Polling.{
  IdleRound, idle_inputs, Waits, Free, RecvRound, recv_inputs, arrived, Brings, idle_loop-Gives,
  recv_loop-Gives,
}
use kendryte_k210_base_proje.I2c.Ready.{
  Ready, Returns-bind, both, assert-Returns, select_slave-Returns,
}

length-send_inputs : (rs : List SendRound) → length rs ≤ length (send_inputs rs)
length-send_inputs [] = omega arith
length-send_inputs (r ∷ rs) = omega (arith, length-send_inputs rs)

length-idle_inputs : (rs : List IdleRound) → length rs ≤ length (idle_inputs rs)
length-idle_inputs [] = omega arith
length-idle_inputs (r ∷ rs) =
    omega (
      arith,
      length-idle_inputs rs,
      length-append r.statuses (ticks r.clock ++ (0 ∷ idle_inputs rs)),
    )

length-recv_inputs : (rs : List RecvRound) → length rs ≤ length (recv_inputs rs)
length-recv_inputs [] = omega arith
length-recv_inputs (r ∷ rs) =
    omega (arith, length-recv_inputs rs, length-append r.got (r.level ∷ 0 ∷ recv_inputs rs))

module _ (n slave : ℕ) (d : I2c) (ready : Ready d n) (c : Clock) (runs : Runs c)
    (rest : List ℕ) where
  -- The time and the device come first, and then the rest of a transfer.
  started-Returns :
      {B : Type 0} (k : ℕ → M B) (xs : List ℕ) (b : B)
      → Gives (k (ms c)) xs b
      → d.reads ≡ ticks c ++ (xs ++ rest)
      → Returns
          ((do config_assert (ltb n 3); start ← time_ms; select_slave n slave; k start) d)
          (λ z. (z.0 ≡ b) × (z.1.reads ≡ rest))
  started-Returns {B} k xs b g e =
      let Post : B × I2c → Type 0 = λ z. (z.0 ≡ b) × (z.1.reads ≡ rest) in
      let Timed : ℕ × I2c → Type 0 = λ z. (z.0 ≡ ms c) × (z.1.reads ≡ xs ++ rest) in
      Returns-bind _ Post (config_assert (ltb n 3)) _ d
        (assert-Returns (ltb n 3) d (lt→ltb n 3 ready.in_range))
        (λ u d0 e0.
          Returns-bind (λ z. Timed z × SameBut d z.1) Post time_ms _ d0
            (subst (λ e. Returns (time_ms e) (λ z. Timed z × SameBut d z.1)) (sym e0)
              (both Timed (λ z. SameBut d z.1) (time_ms d)
                ((time_ms-Gives c runs).run d (xs ++ rest) e) (time_ms-Safe d)))
            (λ start d1 ((at_start, left), s).
              let still : Ready d1 n =
                subst (λ d. Ready d n) (sym s.same)
                  (record {
                    in_range = ready.in_range;
                    masters = ready.masters;
                    addrs = ready.addrs;
                  }) in
              Returns-bind _ Post (select_slave n slave) _ d1
                (select_slave-Returns n slave d1 still)
                (λ v d2 same.
                  subst (λ t. Returns (k t d2) Post) (sym at_start) (g.run d2 rest (same ∙ left)))))

-- the calls that follow the selection, for a transfer that ends well
exact_bytes :
    (n : ℕ) (bytes : List ℕ) (code : ℕ) (os : List Out)
    → code ≡ 0
    → Sent n bytes code os
    → os ≡ writes n bytes
exact_bytes n bytes code os z (sent_all c e) = e
exact_bytes n bytes code os z (broken k (inl c) e) = absurd (omega (arith, z, c))
exact_bytes n bytes code os z (broken k (inr c) e) = absurd (omega (arith, z, c))
exact_bytes n bytes code os z (broken_idle c e) = absurd (omega (arith, z, c))

exact_asks :
    (n want rx : ℕ) (r : ℕ × List ℕ) (os : List Out)
    → r.0 ≡ 0
    → Received n want rx r os
    → os ≡ asks n want
exact_asks n want rx r os z (received_all c l e) = e
exact_asks n want rx r os z (cut_off k (inl c) l h e) = absurd (omega (arith, z, c))
exact_asks n want rx r os z (cut_off k (inr c) l h e) = absurd (omega (arith, z, c))

exact_all :
    (n : ℕ) (bytes : List ℕ) (len : ℕ) (r : ℕ × List ℕ) (os : List Out)
    → r.0 ≡ 0
    → Transferred n bytes len r os
    → os ≡ writes n bytes ++ asks n len
exact_all n bytes len r os z (not_sent k (inl c) g e) = absurd (omega (arith, z, c))
exact_all n bytes len r os z (not_sent k (inr c) g e) = absurd (omega (arith, z, c))
exact_all n bytes len r os z (then_received f) =
    f.split ∙ ap (◌++◌ (writes n bytes)) (exact_asks n len len r f.later z f.holds)

-- a result that is as it should be has made the calls that it should
module _ {A : Type 0} (a : A) (rest : List ℕ) (d : I2c) (P : A → List Out → Type 0)
    (first exact : List Out) (sure : (b : A) (os : List Out) → b ≡ a → P b os → os ≡ exact) where
  with_calls :
      (o : Option (A × I2c))
      → Returns o (λ z. (z.0 ≡ a) × (z.1.reads ≡ rest))
      → ((b : A) (d' : I2c) → o ≡ some (b, d') → Between d d' (Follows first (P b)))
      → Returns o (λ z. (z.0 ≡ a) × (z.1.reads ≡ rest) × (z.1.outs ≡ d.outs ++ (first ++ exact)))
  with_calls none r calls = r
  with_calls (some (b, d')) (same, left) calls =
      let w = calls b d' refl in
      let all = w.holds.split ∙ ap (◌++◌ first) (sure b w.holds.later same w.holds.holds) in
      (same, left, w.outs_at ∙ ap (◌++◌ d.outs) all)

module _ (n slave : ℕ) (bytes : List ℕ) (timeout : ℕ) (d : I2c) (ready : Ready d n) (c : Clock)
    (runs : Runs c) (rounds : List SendRound) (rest : List ℕ)
    (taken : Takes (ms c) timeout bytes rounds) where
  -- On a controller that the arrays have, with a CPU clock of 1 kHz or more at each reading:
  -- maix_i2c_send_data returns 0 with a device that takes the bytes in time, after any number of
  -- rounds in which the queue fills and empties and of rounds in which the bus is still busy. It
  -- takes no input more, and has selected the device, where necessary, and written the bytes.
  pub maix_i2c_send_data-Takes :
      (waits : List IdleRound) {s s' : ℕ}
      → Waits (ms c) timeout waits
      → Free s s'
      → d.reads ≡ ticks c ++ ((send_inputs rounds ++ (idle_inputs waits ++ (s ∷ s' ∷ []))) ++ rest)
      → Returns (maix_i2c_send_data n slave bytes timeout d) (λ (code, d').
        (code ≡ 0)
        × (d'.reads ≡ rest)
        × (d'.outs ≡ d.outs ++ (selecting d n slave ++ writes n bytes)))
  unfolding maix_i2c_send_data
  maix_i2c_send_data-Takes waits {s} {s'} w f e =
      let wait_inputs = idle_inputs waits ++ (s ∷ s' ∷ []) in
      let sending = with_fuel-Gives (λ fuel h.
        send_loop-Gives n (ms c) timeout fuel bytes rounds taken
          (omega (arith, length-send_inputs rounds))) in
      let waiting = with_fuel-Gives (λ fuel h. idle_loop-Gives n (ms c) timeout fuel waits w f (
        omega
          (arith, length-idle_inputs waits, length-append (idle_inputs waits) (s ∷ s' ∷ [])))) in
      with_calls 0 rest d (Sent n bytes) (selecting d n slave) (writes n bytes)
        (λ b os z sent. exact_bytes n bytes b os z sent)
        (maix_i2c_send_data n slave bytes timeout d)
        (started-Returns n slave d ready c runs rest _ (send_inputs rounds ++ wait_inputs) 0
          (bind-Gives _ sending waiting) e)
        (λ b d' o. maix_i2c_send_data_lem n slave bytes timeout o)

  -- On a controller that the arrays have, with a CPU clock of 1 kHz or more at each reading:
  -- maix_i2c_recv_data returns 0 with a device that takes the bytes and sends `len` bytes in time,
  -- in pieces of any size. It stores these, cut to bytes, in order, takes no input more, and has selected the
  -- device, where necessary, written the bytes, and asked for as many as it stores.
  pub maix_i2c_recv_data-Brings :
      (len : ℕ) (answers : List RecvRound)
      → Brings (ms c) timeout len len answers
      → d.reads ≡ ticks c ++ ((send_inputs rounds ++ recv_inputs answers) ++ rest)
      → Returns (maix_i2c_recv_data n slave bytes len timeout d) (λ (result, d').
        (result ≡ (0, arrived answers))
        × (d'.reads ≡ rest)
        × (d'.outs ≡ d.outs ++ (selecting d n slave ++ (writes n bytes ++ asks n len))))
  unfolding maix_i2c_recv_data
  maix_i2c_recv_data-Brings len answers brings e =
      let sending = with_fuel-Gives (λ fuel h.
        send_loop-Gives n (ms c) timeout fuel bytes rounds taken
          (omega (arith, length-send_inputs rounds))) in
      let receiving = with_fuel-Gives (λ fuel h.
        recv_loop-Gives n (ms c) timeout fuel len len answers brings
          (omega (arith, length-recv_inputs answers))) in
      with_calls (0, arrived answers) rest d (Transferred n bytes len) (selecting d n slave)
        (writes n bytes ++ asks n len)
        (λ b os z t. exact_all n bytes len b os (ap (λ (r : ℕ × List ℕ). r.0) z) t)
        (maix_i2c_recv_data n slave bytes len timeout d)
        (started-Returns n slave d ready c runs rest _ (send_inputs rounds ++ recv_inputs answers)
          (0, arrived answers) (bind-Gives _ sending receiving) e)
        (λ b d' o. maix_i2c_recv_data_lem n slave bytes timeout len o)
