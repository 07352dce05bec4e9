-- ===== src/I2c/Ready.antt =====
-- drivers/camera/gc0328/src/sipeed_i2c.c: the beginning of a transfer returns.
use kendryte_k210_base_proje.Prelude.{
  ℕ, zero, suc, ◌<◌, Bool, true, false, not, ◌&&◌, Option, none, some, List, [], ◌∷◌, ◌++◌, ◌≡◌,
  refl, sym, ◌∙◌, ◌==◌, if◌then◌else◌, length, get_elem?, u16, subst, arith, Returns,
}
use kendryte_k210_base_proje.Memory.{store_lem}
use kendryte_k210_base_proje.I2c.{
  enable, tar, write, I2c, M, pure, out, ◌>>=◌, config_assert, at, fetch, set_addr, set_addr_with,
}
use kendryte_k210_base_proje.I2c.Master.{select_slave}
use kendryte_k210_base_proje.I2c.Effects.{Safe}
use kendryte_k210_base_proje.I2c.Select.{change, decide}

-- the controller has its places in the arrays
pub record Ready (d : I2c) (n : ℕ) : Type 0 where
  pub in_range : n < 3
  pub masters : length d.is_master_mode ≡ 3
  pub addrs : length d.slaves_addr ≡ 3

module _ {A B : Type 0} (P : A × I2c → Type 0) (Q : B × I2c → Type 0) where
  goes_on :
      (k : A → M B) (o : Option (A × I2c))
      → Returns o P
      → ((a : A) (d : I2c) → P (a, d) → Returns (k a d) Q)
      → Returns (elim o [ none ↦ none | some (a, d') ↦ k a d' ]) Q
  goes_on k none h rest = absurd h
  goes_on k (some (a, d)) h rest = rest a d h

  pub Returns-bind :
      (m : M A) (k : A → M B) (d : I2c)
      → Returns (m d) P
      → ((a : A) (d' : I2c) → P (a, d') → Returns (k a d') Q)
      → Returns ((m >>= k) d) Q
  unfolding ◌>>=◌
  Returns-bind m k d h rest = goes_on k (m d) h rest

pub both :
    {A : Type 0} (P Q : A → Type 0) (o : Option A)
    → Returns o P
    → Safe o Q
    → Returns o (λ a. P a × Q a)
both P Q none h s = h
both P Q (some a) h s = (h, s)

pub assert-Returns : (b : Bool) (d : I2c) → b ≡ true → Returns (config_assert b d) (λ z. z.1 ≡ d)
unfolding config_assert
assert-Returns b d e = subst (λ b. Returns (config_assert b d) (λ z. z.1 ≡ d)) (sym e) refl

found : {A : Type 0} (xs : List A) (n : ℕ) → n < length xs → (a : A) × (get_elem? xs n ≡ some a)
found [] n h = absurd (omega arith)
found (x ∷ xs) zero h = (x, refl)
found (x ∷ xs) (suc n) h = found xs n (omega (arith, h))

at-Returns :
    {A : Type 0} (array : I2c → List A) (n : ℕ) (d : I2c)
    → n < length (array d)
    → Returns (at array n d) (λ z. z.1 ≡ d)
unfolding at fetch
at-Returns array n d h =
    let (a, e) = found (array d) n h in subst (λ o. Returns (fetch o d) (λ z. z.1 ≡ d)) (sym e) refl

change-Returns :
    (n slave : ℕ) (d : I2c)
    → n < length d.slaves_addr
    → Returns (change n slave d) (λ z. z.1.reads ≡ d.reads)
unfolding ◌>>=◌ out set_addr set_addr_with
change-Returns n slave d h =
    let d1 = record d { outs = (d.outs ++ write n enable 0 ∷ []) ++ write n tar slave ∷ [] } in
    subst
      (λ o.
        Returns
          (elim (set_addr_with o d1) [ none ↦ none | some (a, d') ↦ out (write n enable 1) d' ])
          (λ z. z.1.reads ≡ d.reads))
      (sym (store_lem d.slaves_addr n (u16 slave ∷ []) (omega (arith, h)))) refl

decide-Returns :
    (n slave : ℕ) (master : Bool) (addr : ℕ) (d : I2c)
    → n < length d.slaves_addr
    → Returns (decide n slave master addr d) (λ z. z.1.reads ≡ d.reads)
decide-Returns n slave master addr d h = by_test (master && not (addr == slave))
  where
    by_test :
        (b : Bool) → Returns ((if b then change n slave else pure tt) d) (λ z. z.1.reads ≡ d.reads)
    by_test true = change-Returns n slave d h
    by_test false = refl

pub select_slave-Returns :
    (n slave : ℕ) (d : I2c)
    → Ready d n
    → Returns (select_slave n slave d) (λ z. z.1.reads ≡ d.reads)
unfolding select_slave
select_slave-Returns n slave d r =
    let Post : Unit {0} × I2c → Type 0 = λ z. z.1.reads ≡ d.reads in
    let low : n < length d.is_master_mode = omega (arith, r.in_range, r.masters) in
    let low' : n < length d.slaves_addr = omega (arith, r.in_range, r.addrs) in
    Returns-bind _ Post (at (λ d. d.is_master_mode) n) _ d
      (at-Returns (λ d. d.is_master_mode) n d low)
      (λ master d1 e1.
        Returns-bind _ Post (at (λ d. d.slaves_addr) n) _ d1
          (at-Returns (λ d. d.slaves_addr) n d1
            (subst (λ (e : I2c). n < length e.slaves_addr) (sym e1) low'))
          (λ addr d2 e2.
            subst (λ e. Returns (decide n slave master addr e) Post) (sym (e2 ∙ e1))
              (decide-Returns n slave master addr d low')))
