-- ===== src/Bits.antt =====
-- Laws of `|` and `^` at variables: a field set above a narrower one, and a bound on exclusive or.
use Prim.Native.Nat.{digits, differ, max, bit_or-bitwise, bit_xor-bitwise}
use native.Mathlib.Nat.{pow-suc}
use kendryte_k210_base_proje.Prelude.{
  ℕ, zero, suc, ◌+◌, ◌*◌, ◌/◌, ◌%◌, ◌^◌, ◌≤◌, ◌<◌, bit_or, bit_xor, ◌≡◌, ap, arith,
}

-- Twice a multiple of a power of two is a multiple of the next.
double_shift : (high k : ℕ) → high * 2 ^ suc k ≡ high * 2 ^ k * 2
double_shift high k = omega (arith, ap (λ (t : ℕ). high * t) (pow-suc 2 k))

or_digits :
    (n k low high : ℕ)
    → low ≤ n
    → low < 2 ^ k
    → digits (λ b. b) max n low (high * 2 ^ k) ≡ low + high * 2 ^ k
or_digits zero k low high h fits = omega arith
or_digits (suc n) k zero high h fits = omega arith
or_digits (suc n) zero (suc low) high h fits = absurd (omega arith)
or_digits (suc n) (suc k) (suc low) high h fits =
    let half : (high * 2 ^ suc k) / 2 ≡ high * 2 ^ k = omega (arith, double_shift high k) in
    let even : (high * 2 ^ suc k) % 2 ≡ 0 = omega (arith, double_shift high k) in
    let ih = or_digits n k (suc low / 2) high (omega arith) (omega (arith, pow-suc 2 k)) in
    rw (half, even, ih) (omega (arith, double_shift high k))

-- A field put above the bits of another is added to it.
pub bit_or-shift : (k low high : ℕ) → low < 2 ^ k → bit_or low (high * 2 ^ k) ≡ low + high * 2 ^ k
bit_or-shift k low high fits = rw bit_or-bitwise (or_digits low k low high (omega arith) fits)

differ_bit : (x y : ℕ) → x < 2 → y < 2 → differ x y < 2
differ_bit zero y h k = k
differ_bit (suc x) zero h k = h
differ_bit (suc x) (suc y) h k = differ_bit x y (omega arith) (omega arith)

xor_digits : (n k a b : ℕ) → a < 2 ^ k → b < 2 ^ k → digits (λ b. b) differ n a b < 2 ^ k
xor_digits zero k a b h g = g
xor_digits (suc n) k zero b h g = g
xor_digits (suc n) zero (suc a) b h g = absurd (omega arith)
xor_digits (suc n) (suc k) (suc a) b h g = omega (
  arith,
  pow-suc 2 k,
  differ_bit (suc a % 2) (b % 2) (omega arith) (omega arith),
  xor_digits n k (suc a / 2) (b / 2) (omega (arith, pow-suc 2 k)) (omega (arith, pow-suc 2 k)),
)

-- Exclusive or needs no more bits than its arguments.
pub bit_xor-lt : (k a b : ℕ) → a < 2 ^ k → b < 2 ^ k → bit_xor a b < 2 ^ k
bit_xor-lt k a b h g = rw bit_xor-bitwise (xor_digits a k a b h g)
