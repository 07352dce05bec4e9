-- ===== src/TextParse/Inv.antt =====
-- drivers/TBPipe/TBParse.cpp: the invariant of TBParse, and the ends of a round of its loop.
use kendryte_k210_base_proje.Prelude.{
  ℕ, zero, suc, ◌^◌, ◌≤◌, ◌<◌, ◌≡◌, refl, Bool, true, false, Option, none, some, List, [], ◌∷◌,
  if◌then◌else◌, add32, get_elem?, length, Returns, arith,
}
use kendryte_k210_base_proje.Memory.{put}
use kendryte_k210_base_proje.Prelude.{◌>>=◌}
use kendryte_k210_base_proje.TextParse.{TextParser}

pub get_elem?-put :
    (buf : List ℕ) (i : ℕ) → i < length buf → get_elem? (put buf i (0 ∷ [])) i ≡ some 0
get_elem?-put [] i h = absurd (omega arith)
get_elem?-put (b ∷ buf) zero h = refl
get_elem?-put (b ∷ buf) (suc i) h = get_elem?-put buf i (omega arith)

pub get_elem?_in_range :
    (buf : List ℕ) (i : ℕ) → i < length buf → (c : ℕ) × (get_elem? buf i ≡ some c)
get_elem?_in_range [] i h = absurd (omega arith)
get_elem?_in_range (b ∷ buf) zero h = (b, refl)
get_elem?_in_range (b ∷ buf) (suc i) h = get_elem?_in_range buf i (omega arith)

pub Returns-if :
    {A : Type 0} (P : A → Type 0) (b : Bool) (x y : Option A)
    → (b ≡ true → Returns x P)
    → (b ≡ false → Returns y P)
    → Returns (if b then x else y) P
Returns-if P true x y hx hy = hx refl
Returns-if P false x y hx hy = hy refl

pub Returns-bind :
    {A B : Type 0} (Q : A → Type 0) (P : B → Type 0) (m : Option A) (k : A → Option B)
    → Returns m Q
    → ((a : A) → Q a → Returns (k a) P)
    → Returns (m >>= k) P
Returns-bind Q P none k h hk = absurd h
Returns-bind Q P (some a) k h hk = hk a h

module _ {S : Type 0} where
  pub record IsSound (p : TextParser S) : Type 0 where
    pub storage : length p.buffer ≡ p.buffer_size
    pub small : p.buffer_size < 2 ^ 31
    pub pos_in : p.buffer_pos ≤ p.buffer_amount
    pub amount_in : p.buffer_amount ≤ p.buffer_size
    pub packet_small : p.bin_message_size < 2 ^ 31

  -- the state in a round behind the call of `Parse`
  abbrev pub advanced : TextParser S → S → TextParser S
  advanced p s = record p { buffer_pos = add32 p.buffer_pos 1; parser = s }

  pub advanced-IsSound :
      (p : TextParser S) (s : S)
      → IsSound p
      → p.buffer_pos < p.buffer_amount
      → IsSound (advanced p s)
  advanced-IsSound p s v h = record {
    storage = v.storage;
    small = v.small;
    pos_in = omega (arith, v.small, v.amount_in);
    amount_in = v.amount_in;
    packet_small = v.packet_small;
  }
