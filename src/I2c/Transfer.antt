-- ===== src/I2c/Transfer.antt =====
-- drivers/camera/gc0328/src/sipeed_i2c.c: whole transfers of the master, from the selection of the
-- device on.
use kendryte_k210_base_proje.Prelude.{
  ℕ, false, Option, none, some, List, [], ◌++◌, ◌≡◌, refl, sym, ap, ◌∙◌, ◌⊎◌, inl, inr, ltb, ◌==◌,
  if◌then◌else◌, take, subst, append_assoc, append-nil,
}
use kendryte_k210_base_proje.I2c.{Out, I2c, M, pure, minus, ◌>>=◌, ◌>>◌, config_assert}
use kendryte_k210_base_proje.I2c.Master.{
  time_ms, select_slave, with_fuel, idle_loop, recv_loop, maix_i2c_send_data, maix_i2c_recv_data,
}
use kendryte_k210_base_proje.I2c.Effects.{
  Between, Safe, Does, pure-Does, then-Does, else-Does, bind-Does, weaken,
}
use kendryte_k210_base_proje.I2c.Outcome.{
  writes, reset, Written, written_all, stopped, Sent, broken, Sent-nil, send_loop-Does,
  idle_loop-Does, fueled-Does,
}
use kendryte_k210_base_proje.I2c.Select.{
  selecting, Follows, Safe-bind, SameBut, assert-Safe, time_ms-Safe, select_slave-Safe,
}
use kendryte_k210_base_proje.I2c.Receive.{Received, recv_loop-Does}

-- the code of an error is not 0
fails : {code : ℕ} → code ≡ minus 1 ⊎ code ≡ minus 3 → (code == 0) ≡ false
fails (inl e) = ap (λ c. c == 0) e
fails (inr e) = ap (λ c. c == 0) e

-- after the bytes: the wait for the bus, or nothing more
wait-Does :
    (n start timeout : ℕ) (bytes : List ℕ) (code : ℕ) (os : List Out)
    → Written n bytes code os
    → Does
        (if code == 0 then with_fuel (λ fuel. idle_loop fuel n start timeout) else pure code)
        (λ c os'. Sent n bytes c (os ++ os'))
wait-Does n start timeout bytes code os (written_all c e) = then-Does _ (ap (λ k. k == 0) c) (
    weaken (fueled-Does (λ fuel. idle_loop-Does fuel n start timeout))
      (λ k os' s. subst (λ xs. Sent n bytes k (xs ++ os')) (sym e) (Sent-nil n k bytes os' s)))
wait-Does n start timeout bytes code os (stopped k c e) =
    else-Does _ (fails c) (pure-Does (broken k c (append-nil os ∙ e)))

-- a transfer that is to send `bytes` and to receive `len` bytes
pub data Transferred (n : ℕ) (bytes : List ℕ) (len : ℕ) (result : ℕ × List ℕ) (os : List Out)
    : Type 0 where
  not_sent :
      (k : ℕ)
      → result.0 ≡ minus 1 ⊎ result.0 ≡ minus 3
      → result.1 ≡ []
      → os ≡ writes n (take k bytes) ++ reset n
      → Transferred n bytes len result os
  then_received :
      Follows (writes n bytes) (Received n len len result) os → Transferred n bytes len result os

-- after the bytes: those that are received, or nothing more
receive-Does :
    (n start timeout : ℕ) (bytes : List ℕ) (len code : ℕ) (os : List Out)
    → Written n bytes code os
    → Does
        (if code == 0
          then with_fuel (λ fuel. recv_loop fuel n start timeout len len)
          else pure (code, []))
        (λ r os'. Transferred n bytes len r (os ++ os'))
receive-Does n start timeout bytes len code os (written_all c e) =
    then-Does _ (ap (λ k. k == 0) c) (
      weaken (fueled-Does (λ fuel. recv_loop-Does n start timeout fuel len len)) (λ r os' s.
        then_received (record { later = os'; split = ap (λ xs. xs ++ os') e; holds = s })))
receive-Does n start timeout bytes len code os (stopped k c e) =
    else-Does _ (fails c) (pure-Does (not_sent k c refl (append-nil os ∙ e)))

module _ (n slave : ℕ) (d : I2c) where
  -- The time and the device come first, and then the rest of a transfer.
  pub started :
      {B : Type 0} (P : B → List Out → Type 0) (k : ℕ → M B)
      → ((start : ℕ) → Does (k start) P)
      → Safe
          ((do config_assert (ltb n 3); start ← time_ms; select_slave n slave; k start) d)
          (λ z. Between d z.1 (Follows (selecting d n slave) (P z.0)))
  started {B} P k h =
      let Post : B × I2c → Type 0 = λ z. Between d z.1 (Follows (selecting d n slave) (P z.0)) in
      Safe-bind _ Post (config_assert (ltb n 3)) _ d (assert-Safe (ltb n 3) d) (λ u d0 e0.
        Safe-bind (λ z. SameBut d z.1) Post time_ms _ d0
          (subst (λ e. Safe (time_ms e) (λ z. SameBut d z.1)) (sym e0) (time_ms-Safe d))
          (λ start d1 s.
            subst (λ e. Safe ((select_slave n slave >> k start) e) Post) (sym s.same)
              (let d1' = record d { reads = s.left } in
                Safe-bind _ Post (select_slave n slave) _ d1' (select_slave-Safe n slave d1')
                  (λ v d2 b.
                    ended d2 (record { os = b.os; outs_at = b.outs_at; holds = b.holds })
                      (k start d2) ((h start).run d2)))))
    where
      ended :
          (d2 : I2c)
          → Between d d2 (λ os. os ≡ selecting d n slave)
          → (o : Option (B × I2c)) → Safe o (λ z. Between d2 z.1 (P z.0))
          → Safe o (λ z. Between d z.1 (Follows (selecting d n slave) (P z.0)))
      ended d2 b none s = tt
      ended d2 b (some (c, d3)) s = record {
        os = selecting d n slave ++ s.os;
        outs_at =
            s.outs_at
            ∙ ap (λ xs. xs ++ s.os) (b.outs_at ∙ ap (◌++◌ d.outs) b.holds)
            ∙ append_assoc d.outs (selecting d n slave) s.os;
        holds = record { later = s.os; split = refl; holds = s.holds };
      }

module _ (n slave : ℕ) (bytes : List ℕ) (timeout : ℕ) {d d' : I2c} where
  -- maix_i2c_send_data, whatever the registers and the clock give: if it returns, it has first
  -- selected the device, where that is necessary. With the code 0 it has then written all the bytes
  -- in order, and nothing more; with -1 or -3 the first of them, and with -2 all of them, and after
  -- that it has reset the controller. No other code is returned.
  pub maix_i2c_send_data_lem :
      {code : ℕ}
      → maix_i2c_send_data n slave bytes timeout d ≡ some (code, d')
      → Between d d' (Follows (selecting d n slave) (Sent n bytes code))
  unfolding maix_i2c_send_data
  maix_i2c_send_data_lem e =
      subst (λ o. Safe o (λ z. Between d z.1 (Follows (selecting d n slave) (Sent n bytes z.0)))) e
        (started n slave d (Sent n bytes) _ (λ start.
          bind-Does (fueled-Does (λ fuel. send_loop-Does fuel n start timeout bytes))
            (wait-Does n start timeout bytes)))

  -- maix_i2c_recv_data, whatever the registers and the clock give: if it returns, it has first
  -- selected the device, where that is necessary. Either the bytes to be sent are written only in
  -- part, the controller is reset, the code is -1 or -3, and nothing is stored; or they are written
  -- in order. Then, with the code 0, as many bytes as asked for are stored, and as many read commands
  -- are written; with -2 or -3 at most so many, and the controller is reset.
  pub maix_i2c_recv_data_lem :
      (len : ℕ) {result : ℕ × List ℕ}
      → maix_i2c_recv_data n slave bytes len timeout d ≡ some (result, d')
      → Between d d' (Follows (selecting d n slave) (Transferred n bytes len result))
  unfolding maix_i2c_recv_data
  maix_i2c_recv_data_lem len e =
      subst
        (λ o.
          Safe o (λ z. Between d z.1 (Follows (selecting d n slave) (Transferred n bytes len z.0))))
        e
        (started n slave d (Transferred n bytes len) _ (λ start.
          bind-Does (fueled-Does (λ fuel. send_loop-Does fuel n start timeout bytes))
            (receive-Does n start timeout bytes len)))
