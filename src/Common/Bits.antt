-- ===== src/Common/Bits.antt =====
-- `h & (n - 1)` for a power of two `n`, as arithmetic: how the program reduces a hash.
use Prim.Native.Nat.{
  ℕ, zero, suc, ◌+◌, ◌-◌, ◌*◌, ◌/◌, ◌%◌, ◌^◌, ◌≤◌, ◌<◌, min, max, bit_and, bit_or, digits,
  bit_and-bitwise, bit_or-bitwise,
}
use mathlib.Core.Path.{◌≡◌, refl, ap, sym, ◌∙◌}
use native.Mathlib.Nat.{pow-suc, one-le-pow, div-div-eq-div-mul, mod-eq_of_lt}
use native.Mathlib.Omega.{arith}

-- The recursion on binary digits that `bit_and` stands for.
abbrev conj : ℕ → ℕ → ℕ → ℕ
conj fuel a b = digits (λ y. 0) min fuel a b

-- More fuel than the number's size changes nothing.
conj_enough : (f a b : ℕ) → a ≤ f → conj f a b ≡ conj a a b
conj_enough f a b h = both f a a b h (omega arith)
  where
    both : (f g a b : ℕ) → a ≤ f → a ≤ g → conj f a b ≡ conj g a b
    both zero zero a b p q = refl
    both zero (suc g) zero b p q = refl
    both zero (suc g) (suc a) b p q = absurd (omega arith)
    both (suc f) zero zero b p q = refl
    both (suc f) zero (suc a) b p q = absurd (omega arith)
    both (suc f) (suc g) zero b p q = refl
    both (suc f) (suc g) (suc a) b p q =
        omega (arith, both f g (suc a / 2) (b / 2) (omega arith) (omega arith))

-- The lowest digit, and the rest.
bit_and-halves : (a b : ℕ) → bit_and a b ≡ bit_and (a / 2) (b / 2) * 2 + min (a % 2) (b % 2)
bit_and-halves zero b = omega (arith, bit_and-bitwise 0 b, bit_and-bitwise 0 (b / 2))
bit_and-halves (suc a) b = omega (
  arith,
  bit_and-bitwise (suc a) b,
  bit_and-bitwise (suc a / 2) (b / 2),
  conj_enough a (suc a / 2) (b / 2) (omega arith),
)

bit_and-zero_fuel : (f a : ℕ) → a ≤ f → bit_and a 0 ≡ 0
bit_and-zero_fuel f zero h = refl
bit_and-zero_fuel zero (suc a) h = absurd (omega arith)
bit_and-zero_fuel (suc f) (suc a) h =
    omega (arith, bit_and-halves (suc a) 0, bit_and-zero_fuel f (suc a / 2) (omega arith))

-- Masking with `2 ^ k - 1` keeps the remainder by `2 ^ k`.
pub bit_and-mask : (k a : ℕ) → bit_and a (2 ^ k - 1) ≡ a % 2 ^ k
bit_and-mask zero a = omega (arith, bit_and-zero_fuel a a (omega arith))
bit_and-mask (suc k) a =
    bit_and-halves a (2 ^ suc k - 1)
    ∙ rw (halved, bit_and-mask k (a / 2)) (omega (arith, pow-suc 2 k, one-le-pow k 2, split))
  where
    halved : (2 ^ suc k - 1) / 2 ≡ 2 ^ k - 1
    halved = omega (arith, pow-suc 2 k, one-le-pow k 2)

    split : a % 2 ^ suc k ≡ (a / 2 % 2 ^ k) * 2 + a % 2
    split = rw (pow-suc 2 k) (grind arith)

bit_and-one : (a : ℕ) → bit_and a 1 ≡ a % 2
bit_and-one a = omega (arith, bit_and-halves a 1, bit_and-zero_fuel (a / 2) (a / 2) (omega arith))

-- The bit of weight `2 ^ k`.
pub bit_and-flag : (k a : ℕ) → bit_and a (2 ^ k) ≡ (a / 2 ^ k % 2) * 2 ^ k
bit_and-flag zero a = omega (arith, bit_and-one a)
bit_and-flag (suc k) a =
    bit_and-halves a (2 ^ suc k)
    ∙ rw (halved, bit_and-flag k (a / 2), pow-suc 2 k, even, shifted) (grind arith)
  where
    halved : 2 ^ suc k / 2 ≡ 2 ^ k
    halved = omega (arith, pow-suc 2 k, one-le-pow k 2)

    even : (2 ^ k * 2) % 2 ≡ 0
    even = omega arith

    shifted : a / (2 ^ k * 2) ≡ a / 2 / 2 ^ k
    shifted = sym (div-div-eq-div-mul a 2 (2 ^ k) ∙ ap (λ x. a / x) (omega arith))

-- The recursion on binary digits that `bit_or` stands for.
abbrev disj : ℕ → ℕ → ℕ → ℕ
disj fuel a b = digits (λ y. y) max fuel a b

disj_enough : (f a b : ℕ) → a ≤ f → disj f a b ≡ disj a a b
disj_enough f a b h = both f a a b h (omega arith)
  where
    both : (f g a b : ℕ) → a ≤ f → a ≤ g → disj f a b ≡ disj g a b
    both zero zero a b p q = refl
    both zero (suc g) zero b p q = refl
    both zero (suc g) (suc a) b p q = absurd (omega arith)
    both (suc f) zero zero b p q = refl
    both (suc f) zero (suc a) b p q = absurd (omega arith)
    both (suc f) (suc g) zero b p q = refl
    both (suc f) (suc g) (suc a) b p q =
        omega (arith, both f g (suc a / 2) (b / 2) (omega arith) (omega arith))

bit_or-halves : (a b : ℕ) → bit_or a b ≡ bit_or (a / 2) (b / 2) * 2 + max (a % 2) (b % 2)
bit_or-halves zero b = omega (arith, bit_or-bitwise 0 b, bit_or-bitwise 0 (b / 2))
bit_or-halves (suc a) b = omega (
  arith,
  bit_or-bitwise (suc a) b,
  bit_or-bitwise (suc a / 2) (b / 2),
  disj_enough a (suc a / 2) (b / 2) (omega arith),
)

-- Setting a bit above all the others.
pub bit_or-flag : (k a : ℕ) → a < 2 ^ k → bit_or a (2 ^ k) ≡ a + 2 ^ k
bit_or-flag zero a h = omega (arith, bit_or-bitwise 0 1, ap (λ x. bit_or x 1) zero_a)
  where
    zero_a : a ≡ 0
    zero_a = omega (arith, h)
bit_or-flag (suc k) a h =
    bit_or-halves a (2 ^ suc k)
    ∙ rw (halved, bit_or-flag k (a / 2) (omega (arith, pow-suc 2 k)))
        (omega (arith, pow-suc 2 k, one-le-pow k 2))
  where
    halved : 2 ^ suc k / 2 ≡ 2 ^ k
    halved = omega (arith, pow-suc 2 k, one-le-pow k 2)

-- Masking with `2 ^ n - 2 ^ k`, the complement of `2 ^ k - 1`, clears the low bits.
pub bit_and-high : (k n a : ℕ) → k ≤ n → a < 2 ^ n → bit_and a (2 ^ n - 2 ^ k) ≡ a / 2 ^ k * 2 ^ k
bit_and-high zero n a h lt = bit_and-mask n a ∙ omega (arith, mod-eq_of_lt lt)
bit_and-high (suc k) zero a h lt = absurd (omega arith)
bit_and-high (suc k) (suc n) a h lt =
    bit_and-halves a (2 ^ suc n - 2 ^ suc k)
    ∙ rw
        (
          halved,
          bit_and-high k n (a / 2) (omega arith) (omega (arith, pow-suc 2 n)),
          even,
          pow-suc 2 k,
          shifted,
        )
        (grind arith)
  where
    halved : (2 ^ suc n - 2 ^ suc k) / 2 ≡ 2 ^ n - 2 ^ k
    halved = omega (arith, pow-suc 2 k, pow-suc 2 n)

    even : (2 ^ suc n - 2 ^ suc k) % 2 ≡ 0
    even = omega (arith, pow-suc 2 k, pow-suc 2 n)

    shifted : a / (2 ^ k * 2) ≡ a / 2 / 2 ^ k
    shifted = sym (div-div-eq-div-mul a 2 (2 ^ k) ∙ ap (λ x. a / x) (omega arith))

-- Low bits beside a number that has none.
pub bit_or-low : (k a b : ℕ) → a < 2 ^ k → bit_or a (b * 2 ^ k) ≡ a + b * 2 ^ k
bit_or-low zero a b h =
    let z : a ≡ 0 = omega (arith, h) in
    let whole : b * 1 ≡ b = omega arith in rw (z, whole) (omega (arith, bit_or-bitwise 0 b))
bit_or-low (suc k) a b h =
    bit_or-halves a (b * 2 ^ suc k)
    ∙ rw (halved, even, bit_or-low k (a / 2) b (omega (arith, pow-suc 2 k, h)))
        (rw (pow-suc 2 k) (grind arith))
  where
    twice : b * 2 ^ suc k ≡ (b * 2 ^ k) * 2
    twice = rw (pow-suc 2 k) (grind arith)

    halved : b * 2 ^ suc k / 2 ≡ b * 2 ^ k
    halved = omega (arith, twice)

    even : b * 2 ^ suc k % 2 ≡ 0
    even = omega (arith, twice)
