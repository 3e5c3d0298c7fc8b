-- ===== src/Paging/Masks.antt =====
-- The node mask that memory is bound by.
use native.Mathlib.Nat.{zero-div, one-le-pow}
use pgasus.Common.{
  ℕ, zero, suc, ◌+◌, ◌*◌, ◌/◌, ◌%◌, ◌^◌, ◌<◌, ◌≡◌, refl, ap, ◌∙◌, some, List, ◌==◌, lt→ltb, Bool,
  true, ◌&&◌, if◌then◌else◌, get_or, set, replicate, get_or-set, get_or-replicate, bit_or,
  bit_or-flag, Bool-cases, inl, inr, arith, ==_iff,
}
use pgasus.Paging.{node_mask}

-- Bit `n` of a mask in words of 64 bits.
abbrev pub bit_at : ℕ → List ℕ → ℕ
bit_at n words = get_or words (n / 64) 0 / 2 ^ (n % 64) % 2

all_below : ℕ → (ℕ → Bool) → Bool
all_below zero p = true
all_below (suc n) p = p n && all_below n p

all_below-at : (n : ℕ) (p : ℕ → Bool) (x : ℕ) → all_below n p ≡ true → x < n → p x ≡ true
unfolding all_below
all_below-at zero p x h lt = absurd (omega arith)
all_below-at (suc n) p x h lt = ground (arith, all_below-at n p x)

-- A power of two below 2 ^ 64 has one bit: all pairs of exponents.
abbrev one_bit : ℕ → Bool
one_bit x = 2 ^ (x / 64) / 2 ^ (x % 64) % 2 == (if x / 64 == x % 64 then 1 else 0)

one_bit_table : all_below 4096 one_bit ≡ true
unfolding all_below
one_bit_table = refl

pow_bit : (a b : ℕ) → a < 64 → b < 64 → 2 ^ a / 2 ^ b % 2 ≡ (if a == b then 1 else 0)
pow_bit a b h k =
    let x = a * 64 + b in
    let high : x / 64 ≡ a = omega (arith, k) in
    let low : x % 64 ≡ b = omega (arith, k) in
    let found = (==_iff _ _).0 (all_below-at 4096 one_bit x one_bit_table (omega (arith, h, k))) in
    rw (high, low) at found

-- The word of a mask at an index.
mask-words :
    (node i : ℕ)
    → node < 1024
    → get_or
        (set
          (replicate 16 0)
          (node / 64)
          (bit_or (get_or (replicate 16 0) (node / 64) 0) (2 ^ (node % 64))))
        i
        0
      ≡ (if node / 64 == i then 2 ^ (node % 64) else get_or (replicate 16 0) i 0)
mask-words node i h =
    let blank : get_or {A = ℕ} (replicate 16 0) (node / 64) 0 ≡ 0 =
      get_or-replicate 16 (node / 64) 0 0 (omega (arith, h)) in
    let only : bit_or 0 (2 ^ (node % 64)) ≡ 2 ^ (node % 64) =
      bit_or-flag (node % 64) 0 (one-le-pow (node % 64) 2 (omega arith)) ∙ omega arith in
    rw blank
      (rw only (get_or-set (replicate 16 0) (node / 64) i (2 ^ (node % 64)) 0 (omega (arith, h))))

-- bindMemory for a node below 1024 has a mask in which the bit of this node is set, and no other one.
pub node_mask-bit :
    (node n : ℕ)
    → node < 1024
    → n < 1024
    → (words : List ℕ) × (node_mask node ≡ some words)
      × (bit_at n words ≡ (if n == node then 1 else 0))
unfolding node_mask
node_mask-bit node n h k = (
  set (replicate 16 0) (node / 64)
      (bit_or (get_or (replicate 16 0) (node / 64) 0) (2 ^ (node % 64))),
  rw (lt→ltb node 1024 h) refl,
  ap (λ x. x / 2 ^ (n % 64) % 2) (mask-words node (n / 64) h)
      ∙ elim (Bool-cases (node / 64 == n / 64))
          as (λ _.
            (if node / 64 == n / 64 then 2 ^ (node % 64) else get_or (replicate 16 0) (n / 64) 0)
              / 2 ^ (n % 64)
              % 2
            ≡ (if n == node then 1 else 0)) [
              | inl same ↦
                  rw same (
                    pow_bit (node % 64) (n % 64) (omega arith) (omega arith) ∙ ground (arith, same))
              | inr other ↦
                  rw
                    (
                      other,
                      get_or-replicate {A = ℕ} 16 (n / 64) 0 0 (omega (arith, k)),
                      zero-div (2 ^ (n % 64)),
                    )
                    (ground (arith, other))
            ],
)
