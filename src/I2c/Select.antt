-- ===== src/I2c/Select.antt =====
-- drivers/camera/gc0328/src/sipeed_i2c.c: the time and the device of a transfer, before the first byte.
use kendryte_k210_base_proje.Prelude.{
  ℕ, ◌/◌, Bool, true, false, not, ◌&&◌, Option, none, some, List, [], ◌∷◌, ◌++◌, ◌≡◌, refl, sym, ap,
  ap₂, ◌∙◌, ◌==◌, if◌then◌else◌, get_elem?, u16, subst, append-nil,
}
use kendryte_k210_base_proje.Memory.{store}
use kendryte_k210_base_proje.I2c.{
  enable, tar, Out, write, I2c, M, pure, fault, read, next_read, out, ◌>>=◌, config_assert, at,
  fetch, set_addr, set_addr_with, ◌>>◌,
}
use kendryte_k210_base_proje.I2c.Master.{time_ms, select_slave}
use kendryte_k210_base_proje.I2c.Effects.{
  Between, Safe, Does, weaken, out-Does, after_calls, after_quiet,
}

-- the calls that select a device: none if the controller has it already, or is no master
abbrev pub selects : Option Bool → Option ℕ → ℕ → ℕ → List Out
selects (some true) (some addr) n slave =
    if addr == slave then [] else write n enable 0 ∷ write n tar slave ∷ write n enable 1 ∷ []
selects _ _ n slave = []

abbrev pub selecting : I2c → ℕ → ℕ → List Out
selecting d n slave = selects (get_elem? d.is_master_mode n) (get_elem? d.slaves_addr n) n slave

-- first these calls, and then others
pub record Follows (first : List Out) (P : List Out → Type 0) (os : List Out) : Type 0 where
  pub later : List Out
  pub split : os ≡ first ++ later
  pub holds : P later

module _ {A B : Type 0} (P : A × I2c → Type 0) (Q : B × I2c → Type 0) where
  goes_on :
      (k : A → M B) (o : Option (A × I2c))
      → Safe o P
      → ((a : A) (d : I2c) → P (a, d) → Safe (k a d) Q)
      → Safe (elim o [ none ↦ none | some (a, d') ↦ k a d' ]) Q
  goes_on k none h rest = tt
  goes_on k (some (a, d)) h rest = rest a d h

  pub Safe-bind :
      (m : M A) (k : A → M B) (d : I2c)
      → Safe (m d) P
      → ((a : A) (d' : I2c) → P (a, d') → Safe (k a d') Q)
      → Safe ((m >>= k) d) Q
  unfolding ◌>>=◌
  Safe-bind m k d h rest = goes_on k (m d) h rest

-- the same state with other inputs
pub record SameBut (d d' : I2c) : Type 0 where
  pub left : List ℕ
  pub same : d' ≡ record d { reads = left }

pub assert-Safe : (b : Bool) (d : I2c) → Safe (config_assert b d) (λ z. z.1 ≡ d)
unfolding config_assert
assert-Safe true d = refl
assert-Safe false d = tt

next_read-Safe : (vs : List ℕ) (d : I2c) → Safe (next_read vs d) (λ z. SameBut d z.1)
unfolding next_read
next_read-Safe [] d = tt
next_read-Safe (v ∷ vs) d = record { left = vs; same = refl }

read-Safe : (d0 d : I2c) → SameBut d0 d → Safe (read d) (λ z. SameBut d0 z.1)
unfolding read
read-Safe d0 d s =
    subst (λ e. Safe (next_read e.reads e) (λ z. SameBut d0 z.1)) (sym s.same)
      (weaker (next_read s.left (record d0 { reads = s.left }))
        (next_read-Safe s.left (record d0 { reads = s.left })))
  where
    weaker :
        (o : Option (ℕ × I2c))
        → Safe o (λ z. SameBut (record d0 { reads = s.left }) z.1)
        → Safe o (λ z. SameBut d0 z.1)
    weaker none h = tt
    weaker (some (v, d')) h = record { left = h.left; same = h.same }

pub time_ms-Safe : (d : I2c) → Safe (time_ms d) (λ z. SameBut d z.1)
unfolding time_ms
time_ms-Safe d =
    Safe-bind (λ z. SameBut d z.1) (λ z. SameBut d z.1) read _ d
      (read-Safe d d (record { left = d.reads; same = refl }))
      (λ c d1 s1.
        Safe-bind (λ z. SameBut d z.1) (λ z. SameBut d z.1) read _ d1 (read-Safe d d1 s1)
          (λ f d2 s2. divide (f / 1000 == 0) (c / (f / 1000)) d2 s2))
  where
    divide :
        (b : Bool) (t : ℕ) (d2 : I2c)
        → SameBut d d2
        → Safe ((if b then fault else pure t) d2) (λ z. SameBut d z.1)
    divide true t d2 s = tt
    divide false t d2 s = s

at-Safe :
    {A : Type 0} (array : I2c → List A) (n : ℕ) (d : I2c)
    → Safe (at array n d) (λ z. (z.1 ≡ d) × (get_elem? (array d) n ≡ some z.0))
unfolding at fetch
at-Safe array n d = fetched (get_elem? (array d) n)
  where
    fetched : {A : Type 0} (o : Option A) → Safe (fetch o d) (λ z. (z.1 ≡ d) × (o ≡ some z.0))
    fetched none = tt
    fetched (some a) = (refl, refl)

set_addr-Does : (n addr : ℕ) → Does (set_addr n addr) (λ a os. os ≡ [])
unfolding set_addr set_addr_with
set_addr-Does n addr = record { run = λ d. stored d (store d.slaves_addr n (addr ∷ [])) }
  where
    stored :
        (d : I2c) (o : Option (List ℕ))
        → Safe (set_addr_with o d) (λ z. Between d z.1 (λ os. os ≡ []))
    stored d none = tt
    stored d (some addrs) = record { os = []; outs_at = sym (append-nil d.outs); holds = refl }

-- the two branches of `select_slave`, once the arrays are read
abbrev pub change : ℕ → ℕ → M (Unit {0})
change n slave = do
  out (write n enable 0)
  out (write n tar slave)
  set_addr n (u16 slave)
  out (write n enable 1)

abbrev pub decide : ℕ → ℕ → Bool → ℕ → M (Unit {0})
decide n slave master addr = if master && not (addr == slave) then change n slave else pure tt

change-Does :
    (n slave : ℕ)
    → Does
        (change n slave)
        (λ a os. os ≡ write n enable 0 ∷ write n tar slave ∷ write n enable 1 ∷ [])
change-Does n slave = after_calls (out-Does _) (λ a. after_calls (out-Does _) (λ b.
    after_quiet (set_addr-Does n (u16 slave)) (λ c.
      weaken (out-Does _) (λ u os e. ap (λ os. write n enable 0 ∷ write n tar slave ∷ os) e))))

-- what the test of `select_slave` decides, in one state
chosen :
    (n slave : ℕ) (master : Bool) (addr : ℕ) (d : I2c)
    → Safe
        ((decide n slave master addr) d)
        (λ z. Between d z.1 (λ os. os ≡ selects (some master) (some addr) n slave))
chosen n slave false addr d = record { os = []; outs_at = sym (append-nil d.outs); holds = refl }
chosen n slave true addr d = by_test (addr == slave)
  where
    by_test :
        (same : Bool)
        → Safe ((if not same then change n slave else pure tt) d) (λ z. Between d z.1 (λ os.
          os ≡ (if same then [] else write n enable 0 ∷ write n tar slave ∷ write n enable 1 ∷ [])))
    by_test true = record { os = []; outs_at = sym (append-nil d.outs); holds = refl }
    by_test false = (change-Does n slave).run d

pub select_slave-Safe :
    (n slave : ℕ) (d : I2c)
    → Safe (select_slave n slave d) (λ z. Between d z.1 (λ os. os ≡ selecting d n slave))
unfolding select_slave
select_slave-Safe n slave d =
    let Post : Unit {0} × I2c → Type 0 = λ z. Between d z.1 (λ os. os ≡ selecting d n slave) in
    Safe-bind _ Post (at (λ d. d.is_master_mode) n) _ d (at-Safe (λ d. d.is_master_mode) n d)
      (λ master d1 (e1, m).
        Safe-bind _ Post (at (λ d. d.slaves_addr) n) _ d1 (at-Safe (λ d. d.slaves_addr) n d1)
          (λ addr d2 (e2, a).
            subst (λ e. Safe ((decide n slave master addr) e) Post) (sym (e2 ∙ e1))
              (subst
                (λ xs. Safe ((decide n slave master addr) d) (λ z. Between d z.1 (λ os. os ≡ xs)))
                (sym (
                  ap₂ (λ o o'. selects o o' n slave) m
                    (ap (λ (e : I2c). get_elem? e.slaves_addr n) (sym e1) ∙ a)))
                (chosen n slave master addr d))))
