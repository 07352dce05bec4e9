-- ===== src/I2c/Effects.antt =====
-- drivers/camera/gc0328/src/sipeed_i2c.c: what a part of the code does to the hardware, whatever the
-- registers read as. The rules follow the way in which the parts are put together.
use kendryte_k210_base_proje.Prelude.{
  ℕ, Bool, true, false, Option, none, some, List, [], ◌∷◌, ◌++◌, ◌≡◌, refl, sym, ap, ◌∙◌,
  if◌then◌else◌, append_assoc, append-nil, subst,
}
use kendryte_k210_base_proje.I2c.{I2c, Out, M, pure, fault, read, next_read, out, ◌>>=◌}

-- the calls from one state to another
pub record Between (d d' : I2c) (P : List Out → Type 0) : Type 0 where
  pub os : List Out
  pub outs_at : d'.outs ≡ d.outs ++ os
  pub holds : P os

-- a result that is not a fault satisfies `P`
abbrev pub Safe : {A : Type 0} → Option A → (A → Type 0) → Type 0
Safe none P = Unit {0}
Safe (some a) P = P a

-- the calls that `m` makes, and the value that it gives
pub record Does {A : Type 0} (m : M A) (P : A → List Out → Type 0) : Type 0 where
  pub run : (d : I2c) → Safe (m d) (λ z. Between d z.1 (P z.0))

pub pure-Does : {A : Type 0} {P : A → List Out → Type 0} {a : A} → P a [] → Does (pure a) P
pure-Does p = record { run = λ d. record { os = []; outs_at = sym (append-nil d.outs); holds = p } }

pub fault-Does : {A : Type 0} {P : A → List Out → Type 0} → Does fault P
fault-Does = record { run = λ d. tt }

module _ (P : ℕ → List Out → Type 0) (p : (v : ℕ) → P v []) where
  next : (vs : List ℕ) (d : I2c) → Safe (next_read vs d) (λ z. Between d z.1 (P z.0))
  unfolding next_read
  next [] d = tt
  next (v ∷ vs) d = record { os = []; outs_at = sym (append-nil d.outs); holds = p v }

pub read-Does : Does read (λ v os. os ≡ [])
unfolding read
read-Does = record { run = λ d. next (λ v os. os ≡ []) (λ v. refl) d.reads d }

pub out-Does : (o : Out) → Does (out o) (λ a os. os ≡ o ∷ [])
unfolding out
out-Does o = record { run = λ d. record { os = o ∷ []; outs_at = refl; holds = refl } }

pub if-Does :
    {A : Type 0} {P : A → List Out → Type 0} {m m' : M A} (b : Bool)
    → Does m P
    → Does m' P
    → Does (if b then m else m') P
if-Does true h h' = h
if-Does false h h' = h'

module _ {A B : Type 0} (P : A → List Out → Type 0) (Q : B → List Out → Type 0) where
  ends :
      (o : Option (B × I2c)) (d d' : I2c) (os : List Out)
      → d'.outs ≡ d.outs ++ os
      → Safe o (λ z. Between d' z.1 (λ os'. Q z.0 (os ++ os')))
      → Safe o (λ z. Between d z.1 (Q z.0))
  ends none d d' os e h = tt
  ends (some (b, d'')) d d' os e h = record {
    os = os ++ h.os;
    outs_at = h.outs_at ∙ ap (λ xs. xs ++ h.os) e ∙ append_assoc d.outs os h.os;
    holds = h.holds;
  }

  goes_on :
      (k : A → M B) (o : Option (A × I2c)) (d : I2c)
      → Safe o (λ z. Between d z.1 (P z.0))
      → ((a : A) (os : List Out) → P a os → Does (k a) (λ b os'. Q b (os ++ os')))
      → Safe (elim o [ none ↦ none | some (a, d') ↦ k a d' ]) (λ z. Between d z.1 (Q z.0))
  goes_on k none d h rest = tt
  goes_on k (some (a, d')) d h rest =
      ends (k a d') d d' h.os h.outs_at ((rest a h.os h.holds).run d')

module _ {A B : Type 0} {P : A → List Out → Type 0} {Q : B → List Out → Type 0} where
  -- The calls of a sequence are those of its parts, one after the other.
  pub bind-Does :
      {m : M A} {k : A → M B}
      → Does m P
      → ((a : A) (os : List Out) → P a os → Does (k a) (λ b os'. Q b (os ++ os')))
      → Does (m >>= k) Q
  unfolding ◌>>=◌
  bind-Does {m} {k} h rest = record { run = λ d. goes_on P Q k (m d) d (h.run d) rest }

-- A part without calls adds nothing.
pub after_quiet :
    {A B : Type 0} {Q : B → List Out → Type 0} {m : M A} {k : A → M B}
    → Does m (λ a os. os ≡ [])
    → ((a : A) → Does (k a) Q)
    → Does (m >>= k) Q
after_quiet {Q} {k} h rest =
    bind-Does h (λ a os e. subst (λ os. Does (k a) (λ b os'. Q b (os ++ os'))) (sym e) (rest a))

pub after_quiet_fact :
    {A B : Type 0} (F : A → Type 0) {Q : B → List Out → Type 0} {m : M A} {k : A → M B}
    → Does m (λ a os. F a × (os ≡ []))
    → ((a : A) → F a → Does (k a) Q)
    → Does (m >>= k) Q
after_quiet_fact F {Q} {k} h rest =
    bind-Does h
      (λ a os (f, e). subst (λ os. Does (k a) (λ b os'. Q b (os ++ os'))) (sym e) (rest a f))

-- A part whose calls are known comes first.
pub after_calls :
    {A B : Type 0} {Q : B → List Out → Type 0} {m : M A} {k : A → M B} {xs : List Out}
    → Does m (λ a os. os ≡ xs)
    → ((a : A) → Does (k a) (λ b os'. Q b (xs ++ os')))
    → Does (m >>= k) Q
after_calls {Q} {k} h rest =
    bind-Does h (λ a os e. subst (λ os. Does (k a) (λ b os'. Q b (os ++ os'))) (sym e) (rest a))

-- Weaker statements follow.
module _ {A : Type 0} (P Q : A → List Out → Type 0)
    (imp : (a : A) (os : List Out) → P a os → Q a os) where
  weaker :
      (o : Option (A × I2c)) (d : I2c)
      → Safe o (λ z. Between d z.1 (P z.0))
      → Safe o (λ z. Between d z.1 (Q z.0))
  weaker none d h = tt
  weaker (some (a, d')) d h = record { os = h.os; outs_at = h.outs_at; holds = imp a h.os h.holds }

pub weaken :
    {A : Type 0} {P Q : A → List Out → Type 0} {m : M A}
    → Does m P
    → ((a : A) (os : List Out) → P a os → Q a os)
    → Does m Q
weaken {P} {Q} {m} h imp = record { run = λ d. weaker P Q imp (m d) d (h.run d) }

module _ {A : Type 0} {P : A → List Out → Type 0} {b : Bool} where
  pub then-Does : {m : M A} (m' : M A) → b ≡ true → Does m P → Does (if b then m else m') P
  then-Does {m} m' e h = subst (λ b. Does (if b then m else m') P) (sym e) h

  pub else-Does : (m : M A) {m' : M A} → b ≡ false → Does m' P → Does (if b then m else m') P
  else-Does m {m'} e h = subst (λ b. Does (if b then m else m') P) (sym e) h
