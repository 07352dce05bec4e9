-- ===== src/Prelude/Results.antt =====
-- Code that may fault: `none` is undefined behaviour, such as an access outside a buffer.
use mathlib.Core.Path.{◌≡◌, ap}
use mathlib.Core.Option.{Option, none, some}

infixl 5 ◌>>=◌
abbrev pub ◌>>=◌ {ℓ κ} : {A : Type ℓ} {B : Type κ} → Option A → (A → Option B) → Option B
none >>= f = none
some a >>= f = f a

-- The code does not fault, and its result satisfies `P`.
abbrev pub Returns {ℓ} : {A : Type ℓ} → Option A → (A → Type 0) → Type 0
Returns none P = ⊥
Returns (some a) P = P a

pub Returns_of_eq {ℓ} :
    {A : Type ℓ} (P : A → Type 0) {m : Option A} {a : A} → m ≡ some a → P a → Returns m P
Returns_of_eq P e h = rw e h

abbrev or_else {ℓ} : {A : Type ℓ} → A → Option A → A
or_else d none = d
or_else d (some x) = x

pub some_inj {ℓ} : {A : Type ℓ} {a b : A} → some a ≡ some b → a ≡ b
some_inj {a} p = ap (or_else a) p
