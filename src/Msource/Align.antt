-- ===== src/Msource/Align.antt =====
-- Alignment of addresses, as `MemSourceImpl` computes it with masks on 64-bit words.
use native.Mathlib.Nat.{one-le-pow, div-add-mod', mod-lt, mul-mod_left, mod-eq_of_lt}
use pgasus.Common.{
  sym, ==_iff, ℕ, ◌+◌, ◌-◌, ◌*◌, ◌/◌, ◌%◌, ◌^◌, ◌≤◌, ◌<◌, ◌≡◌, ◌∙◌, Bool, true, arith, ◌==◌,
  bit_and, bit_and-mask, bit_and-high,
}

abbrev pub word : ℕ
word = 2 ^ 64

unfoldable pub align_mask : ℕ → ℕ
align_mask s = s - 1

-- `~m` on a 64-bit word.
abbrev pub bit_not : ℕ → ℕ
bit_not m = word - 1 - m

unfoldable pub align_up : ℕ → ℕ → ℕ
align_up p s = bit_and ((p + align_mask s) % word) (bit_not (align_mask s))

unfoldable pub align_down : ℕ → ℕ → ℕ
align_down p s = bit_and p (bit_not (align_mask s))

unfoldable pub is_aligned : ℕ → ℕ → Bool
is_aligned p s = bit_and p (align_mask s) == 0

-- What the masks compute.
pub align_up-div :
    (k p : ℕ) → k ≤ 64 → p + 2 ^ k ≤ word → align_up p (2 ^ k) ≡ (p + (2 ^ k - 1)) / 2 ^ k * 2 ^ k
unfolding align_up align_mask
align_up-div k p h fits =
    rw (mod-eq_of_lt lt, complement) (bit_and-high k 64 (p + (2 ^ k - 1)) h lt)
  where
    lt : p + (2 ^ k - 1) < word
    lt = omega (arith, one-le-pow k 2)

    complement : word - 1 - (2 ^ k - 1) ≡ 2 ^ 64 - 2 ^ k
    complement = omega (arith, one-le-pow k 2)

pub align_down-div : (k p : ℕ) → k ≤ 64 → p < word → align_down p (2 ^ k) ≡ p / 2 ^ k * 2 ^ k
unfolding align_down align_mask
align_down-div k p h lt = rw complement (bit_and-high k 64 p h lt)
  where
    complement : word - 1 - (2 ^ k - 1) ≡ 2 ^ 64 - 2 ^ k
    complement = omega (arith, one-le-pow k 2)

pub multiple-is_aligned : (k d : ℕ) → is_aligned (d * 2 ^ k) (2 ^ k) ≡ true
unfolding is_aligned align_mask
multiple-is_aligned k d = (==_iff _ _).1 (bit_and-mask k (d * 2 ^ k) ∙ mul-mod_left d (2 ^ k))

-- Rounding an address that is far enough from the end of the address space up to a power of two: the
-- result is aligned, not below the address, and less than the power above it.
pub align_up-bounds :
    (k p : ℕ)
    → k ≤ 64
    → p + 2 ^ k ≤ word
    → (is_aligned (align_up p (2 ^ k)) (2 ^ k) ≡ true)
      × (p ≤ align_up p (2 ^ k))
      × (align_up p (2 ^ k) < p + 2 ^ k)
align_up-bounds k p h fits = rw (align_up-div k p h fits) (
  multiple-is_aligned k ((p + (2 ^ k - 1)) / 2 ^ k),
  omega (arith, divided, rest, one-le-pow k 2),
  omega (arith, divided, one-le-pow k 2),
)
  where
    divided : (p + (2 ^ k - 1)) / 2 ^ k * 2 ^ k + (p + (2 ^ k - 1)) % 2 ^ k ≡ p + (2 ^ k - 1)
    divided = div-add-mod' (p + (2 ^ k - 1)) (2 ^ k)

    rest : (p + (2 ^ k - 1)) % 2 ^ k < 2 ^ k
    rest = mod-lt (p + (2 ^ k - 1)) (one-le-pow k 2 (omega arith))

pub is_aligned-mod : (k p : ℕ) → is_aligned p (2 ^ k) ≡ true → p % 2 ^ k ≡ 0
unfolding is_aligned align_mask
is_aligned-mod k p h = sym (bit_and-mask k p) ∙ (==_iff _ _).0 h
