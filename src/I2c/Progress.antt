-- ===== src/I2c/Progress.antt =====
-- drivers/camera/gc0328/src/sipeed_i2c.c: what a part of the code reads, and the value that it then
-- gives, in whatever state it starts.
use kendryte_k210_base_proje.Prelude.{
  ℕ, suc, ◌<◌, Bool, true, false, Option, none, some, List, [], ◌∷◌, ◌++◌, ◌≡◌, refl, sym, ap, ◌∙◌,
  if◌then◌else◌, length, length-append, append_assoc, subst, Returns, arith,
}
use kendryte_k210_base_proje.I2c.{I2c, Out, M, pure, read, next_read, out, ◌>>=◌}
use kendryte_k210_base_proje.I2c.Master.{with_fuel}

-- with these inputs first, `m` takes exactly them, and gives `a`
pub record Gives {A : Type 0} (m : M A) (inputs : List ℕ) (a : A) : Type 0 where
  pub run :
      (d : I2c) (rest : List ℕ)
      → d.reads ≡ inputs ++ rest
      → Returns (m d) (λ z. (z.0 ≡ a) × (z.1.reads ≡ rest))

pub pure-Gives : {A : Type 0} {a : A} → Gives (pure a) [] a
pure-Gives = record { run = λ d rest e. (refl, e) }

pub read-Gives : (v : ℕ) → Gives read (v ∷ []) v
unfolding read next_read
read-Gives v = record {
  run = λ d rest e.
      subst (λ vs. Returns (next_read vs d) (λ z. (z.0 ≡ v) × (z.1.reads ≡ rest))) (sym e)
        (refl, refl);
}

pub out-Gives : (o : Out) → Gives (out o) [] tt
unfolding out
out-Gives o = record { run = λ d rest e. (refl, e) }

module _ {A B : Type 0} {ys : List ℕ} {a : A} {b : B} where
  goes_on :
      (k : A → M B) (o : Option (A × I2c)) (rest : List ℕ)
      → Returns o (λ z. (z.0 ≡ a) × (z.1.reads ≡ ys ++ rest))
      → Gives (k a) ys b
      → Returns
          (elim o [ none ↦ none | some (a', d') ↦ k a' d' ])
          (λ z. (z.0 ≡ b) × (z.1.reads ≡ rest))
  goes_on k none rest h next = h
  goes_on k (some (a', d')) rest (same, left) next =
      subst (λ a. Returns (k a d') (λ z. (z.0 ≡ b) × (z.1.reads ≡ rest))) (sym same)
        (next.run d' rest left)

  pub bind-Gives :
      {m : M A} (k : A → M B) {xs : List ℕ}
      → Gives m xs a
      → Gives (k a) ys b
      → Gives (m >>= k) (xs ++ ys) b
  unfolding ◌>>=◌
  bind-Gives {m} k {xs} first next = record {
    run = λ d rest e.
        goes_on k (m d) rest (first.run d (ys ++ rest) (e ∙ append_assoc xs ys rest)) next;
  }

module _ {A : Type 0} {b : Bool} {xs : List ℕ} {a : A} where
  pub then-Gives : {m : M A} (m' : M A) → b ≡ true → Gives m xs a → Gives (if b then m else m') xs a
  then-Gives {m} m' e h = subst (λ b. Gives (if b then m else m') xs a) (sym e) h

  pub else-Gives :
      (m : M A) {m' : M A} → b ≡ false → Gives m' xs a → Gives (if b then m else m') xs a
  else-Gives m {m'} e h = subst (λ b. Gives (if b then m else m') xs a) (sym e) h

-- The fuel of a polling loop is more than the inputs that it takes.
pub with_fuel-Gives :
    {A : Type 0} {m : ℕ → M A} {xs : List ℕ} {a : A}
    → ((fuel : ℕ) → length xs < fuel → Gives (m fuel) xs a)
    → Gives (with_fuel m) xs a
with_fuel-Gives {xs} h = record {
  run = λ d rest e.
      (h (suc (length d.reads)) (omega (arith, ap length e, length-append xs rest))).run d rest e;
}
