-- ===== src/I2c/Receive.antt =====
-- drivers/camera/gc0328/src/sipeed_i2c.c: the loop of maix_i2c_recv_data that receives.
use kendryte_k210_base_proje.Prelude.{
  ℕ, zero, suc, ◌+◌, ◌-◌, ◌≤◌, true, ◌&&◌, List, [], ◌∷◌, ◌++◌, ◌≡◌, refl, sym, ap, ◌∙◌, ◌⊎◌, inl,
  inr, ltb, ◌==◌, if◌then◌else◌, length, length-append, subst, append_assoc, append-nil, arith,
  Bool-cases,
}
use kendryte_k210_base_proje.I2c.{data_cmd, Out, write, pure, minus, ◌>>=◌}
use kendryte_k210_base_proje.I2c.Master.{give_up, read_cmds, fifo_len, requests, recv_loop}
use kendryte_k210_base_proje.I2c.Effects.{
  Does, pure-Does, fault-Does, read-Does, if-Does, then-Does, else-Does, bind-Does, after_quiet,
  after_quiet_fact, after_calls,
}
use kendryte_k210_base_proje.I2c.Outcome.{
  writes, reset, is_late-Does, give_up-Does, write_cmds-Does,
}

-- as many bytes are asked for
abbrev pub asks : ℕ → ℕ → List Out
asks n k = writes n (requests k)

-- `want` bytes are to be asked for, and `rx` to be received
pub data Received (n want rx : ℕ) (result : ℕ × List ℕ) (os : List Out) : Type 0 where
  received_all :
      result.0 ≡ 0 → length result.1 ≡ rx → os ≡ asks n want → Received n want rx result os
  cut_off :
      (k : ℕ)
      → result.0 ≡ minus 2 ⊎ result.0 ≡ minus 3
      → length result.1 ≤ rx
      → k ≤ want
      → os ≡ asks n k ++ reset n
      → Received n want rx result os

asks_add : (n k j : ℕ) → asks n k ++ asks n j ≡ asks n (k + j)
asks_add n zero j = ap (asks n) (omega arith)
asks_add n (suc k) j =
    let next : suc (k + j) ≡ suc k + j = omega arith in
    ap (◌∷◌ (write n data_cmd 0x100)) (asks_add n k j) ∙ ap (asks n) next

read_cmds-Does : (k : ℕ) → Does (read_cmds k) (λ vs os. (length vs ≡ k) × (os ≡ []))
unfolding read_cmds
read_cmds-Does zero = pure-Does (refl, refl)
read_cmds-Does (suc k) =
    after_quiet read-Does
      (λ v. bind-Does (read_cmds-Does k) (λ vs os (l, e). pure-Does (ap suc l, append-nil os ∙ e)))

fifo_len_le : (left level : ℕ) → fifo_len left level ≤ left
fifo_len_le left level = ground arith

least_le : (a b : ℕ) → (if ltb a b then a else b) ≤ a
least_le a b = ground arith

-- a round that has received some bytes and asked for others, before the rest of the transfer
Received-cons :
    (n want rx k : ℕ) (got : List ℕ) (result : ℕ × List ℕ) (os : List Out)
    → k ≤ want
    → length got ≤ rx
    → Received n (want - k) (rx - length got) result os
    → Received n want rx (result.0, got ++ result.1) (asks n k ++ os)
Received-cons n want rx k got result os hk hg (received_all c l e) =
    received_all c (length-append got result.1 ∙ omega (arith, l, hg))
      (ap (◌++◌ (asks n k)) e ∙ asks_add n k (want - k) ∙ ap (asks n) (omega arith))
Received-cons n want rx k got result os hk hg (cut_off j c l hj e) =
    cut_off (k + j) c (omega (arith, length-append got result.1, l, hg)) (omega arith) (
      ap (◌++◌ (asks n k)) e
      ∙ sym (append_assoc (asks n k) (asks n j) (reset n))
      ∙ ap (λ xs. xs ++ reset n) (asks_add n k j))

nothing_left : (a b : ℕ) → ((a == 0) && (b == 0)) ≡ true → (a ≡ 0) × (b ≡ 0)
nothing_left a b h = (ground arith, ground arith)

module _ (n start timeout : ℕ) where
  -- an error's end, after some bytes
  cut :
      (want rx code : ℕ) (got : List ℕ)
      → code ≡ minus 2 ⊎ code ≡ minus 3
      → length got ≤ rx
      → (k : ℕ) → k ≤ want
      → Does
          (do code' ← give_up n code; pure (code', got))
          (λ r os. Received n want rx r (asks n k ++ os))
  cut want rx code got c l k h = bind-Does (give_up-Does n code) (λ code' os (c', o). pure-Does (
      cut_off k (subst (λ c. (c ≡ minus 2) ⊎ (c ≡ minus 3)) (sym c') c) l h
        (ap (◌++◌ (asks n k)) (append-nil os ∙ o))))

  pub recv_loop-Does :
      (fuel want rx : ℕ) → Does (recv_loop fuel n start timeout want rx) (Received n want rx)
  unfolding recv_loop
  recv_loop-Does zero want rx = fault-Does
  recv_loop-Does (suc fuel) want rx = elim (Bool-cases ((want == 0) && (rx == 0))) [
    | inl e ↦
        let (w, r) = nothing_left want rx e in
        then-Does _ e (pure-Does (received_all refl (sym r) (ap (asks n) (sym w))))
    | inr e ↦ else-Does _ e (
        after_quiet (is_late-Does start timeout) (λ late.
          if-Does late (cut want rx (minus 3) [] (inr refl) (omega arith) 0 (omega arith)) (
            after_quiet read-Does (λ rxflr.
              let most = if ltb rx rxflr then rx else rxflr in
              after_quiet_fact (λ got. length got ≡ most) (read_cmds-Does most)
                (λ got l.
                  let few : length got ≤ rx = omega (arith, l, least_le rx rxflr) in
                  after_quiet read-Does (λ level.
                    let k = fifo_len want level in
                    let h = fifo_len_le want level in
                    after_calls (write_cmds-Does n (requests k)) (λ u.
                      after_quiet read-Does (λ source.
                        if-Does (source == 0)
                          (bind-Does (recv_loop-Does fuel (want - k) (rx - length got)) (λ r os p.
                            pure-Does (
                              subst (λ os. Received n want rx (r.0, got ++ r.1) (asks n k ++ os))
                                (sym (append-nil os))
                                (Received-cons n want rx k got r os h few p))))
                          (cut want rx (minus 2) got (inl refl) few k h)))))))))
  ]
