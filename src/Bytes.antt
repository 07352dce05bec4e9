-- ===== src/Bytes.antt =====
-- Octets, and little-endian words in memory: the byte order of both processors.
use native.Mathlib.Nat.{pow-suc}
use kendryte_k210_base_proje.Prelude.{
  ℕ, zero, suc, ◌+◌, ◌*◌, ◌/◌, ◌%◌, ◌^◌, ◌<◌, ◌≡◌, refl, ap, ap₂, ◌∙◌, List, [], ◌∷◌, ◌++◌, arith,
  length, take, drop,
}
use kendryte_k210_base_proje.Memory.{put}

abbrev pub All {ℓ} : {A : Type ℓ} → (A → Type 0) → List A → Type 0
All P [] = Unit
All P (x ∷ xs) = P x × All P xs

abbrev pub Octets : List ℕ → Type 0
Octets = All (λ b. b < 256)

-- the word that `memcpy` of the bytes into an integer gives
abbrev pub word_of : List ℕ → ℕ
word_of [] = 0
word_of (b ∷ bs) = b + 256 * word_of bs

-- the `n` bytes of a word in memory
abbrev pub bytes_of : ℕ → ℕ → List ℕ
bytes_of zero x = []
bytes_of (suc n) x = (x % 256) ∷ bytes_of n (x / 256)

pub length-bytes_of : (n x : ℕ) → length (bytes_of n x) ≡ n
length-bytes_of zero x = refl
length-bytes_of (suc n) x = ap suc (length-bytes_of n (x / 256))

pub word_of-bytes_of : (n x : ℕ) → x < 256 ^ n → word_of (bytes_of n x) ≡ x
word_of-bytes_of zero x h = omega arith
word_of-bytes_of (suc n) x h =
    omega (arith, pow-suc 256 n, word_of-bytes_of n (x / 256) (omega (arith, pow-suc 256 n)))

pub bytes_of-word_of : (bs : List ℕ) → Octets bs → bytes_of (length bs) (word_of bs) ≡ bs
bytes_of-word_of [] h = refl
bytes_of-word_of (b ∷ bs) (h, hs) =
    let low : word_of (b ∷ bs) % 256 ≡ b = omega arith in
    let high : word_of (b ∷ bs) / 256 ≡ word_of bs = omega arith in
    ap₂ ◌∷◌ low (ap (bytes_of (length bs)) high ∙ bytes_of-word_of bs hs)

pub word_of-lt : (bs : List ℕ) → Octets bs → word_of bs < 256 ^ length bs
word_of-lt [] h = omega arith
word_of-lt (b ∷ bs) (h, hs) = omega (arith, pow-suc 256 (length bs), word_of-lt bs hs)

bytes_of-Octets : (n x : ℕ) → Octets (bytes_of n x)
bytes_of-Octets zero x = tt
bytes_of-Octets (suc n) x = (omega arith, bytes_of-Octets n (x / 256))

module _ {ℓ} {A : Type ℓ} (P : A → Type 0) where
  pub All-append : (xs ys : List A) → All P xs → All P ys → All P (xs ++ ys)
  All-append [] ys h k = k
  All-append (x ∷ xs) ys h k = (h.0, All-append xs ys h.1 k)

  pub All-take : (n : ℕ) (xs : List A) → All P xs → All P (take n xs)
  All-take zero xs h = tt
  All-take (suc n) [] h = tt
  All-take (suc n) (x ∷ xs) h = (h.0, All-take n xs h.1)

  pub All-drop : (n : ℕ) (xs : List A) → All P xs → All P (drop n xs)
  All-drop zero xs h = h
  All-drop (suc n) [] h = tt
  All-drop (suc n) (x ∷ xs) h = All-drop n xs h.1

  pub All-put : (buf : List A) (i : ℕ) (xs : List A) → All P buf → All P xs → All P (put buf i xs)
  All-put buf zero xs h k = All-append xs (drop (length xs) buf) k (All-drop (length xs) buf h)
  All-put [] (suc i) xs h k = tt
  All-put (b ∷ buf) (suc i) xs h k = (h.0, All-put buf i xs h.1 k)
