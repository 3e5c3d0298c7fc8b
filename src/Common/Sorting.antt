-- ===== src/Common/Sorting.antt =====
-- `std::sort` by a test that orders two elements strictly, as an insertion sort.
use mathlib.Core.Path.{◌≡◌}
use mathlib.Core.Bool.{Bool, true, false}
use mathlib.Core.List.{List, [], ◌∷◌, Perm}
use mathlib.Core.List
use mathlib.Core.Logic.{inl, inr}
use pgasus.Common.Tests.{if◌then◌else◌, Bool-cases}
use pgasus.Common.Lists.{All, sum_by}
use Prim.Native.Nat.{ℕ, ◌+◌}
use native.Mathlib.Omega.{arith}
use mathlib.Core.Path.{refl}

module _ {A : Type 0} (before : A → A → Bool) where
  unfoldable pub insert : A → List A → List A
  insert a [] = a ∷ []
  insert a (b ∷ bs) = let rest = insert a bs in if before b a then b ∷ rest else a ∷ b ∷ bs

  unfoldable pub sort : List A → List A
  sort [] = []
  sort (a ∷ as_) = insert a (sort as_)

  -- No element stands behind one that it should stand before.
  abbrev pub Sorted : List A → Type 0
  Sorted [] = Unit
  Sorted (a ∷ as_) = All (λ b. before b a ≡ false) as_ × Sorted as_

  insert-perm : (a : A) (as_ : List A) → Perm (insert a as_) (a ∷ as_)
  unfolding insert
  insert-perm a [] = List.Perm.refl (a ∷ [])
  insert-perm a (b ∷ bs) = elim (Bool-cases (before b a)) [
    | inl swaps ↦
        rw swaps (List.Perm.trans (List.Perm.cons b (insert-perm a bs)) (List.Perm.swap a b bs))
    | inr stays ↦ rw stays (List.Perm.refl (a ∷ b ∷ bs))
  ]

  pub sort-perm : (as_ : List A) → Perm (sort as_) as_
  unfolding sort
  sort-perm [] = List.Perm.refl []
  sort-perm (a ∷ as_) =
      List.Perm.trans (insert-perm a (sort as_)) (List.Perm.cons a (sort-perm as_))

  All-insert : (P : A → Type 0) (a : A) (as_ : List A) → P a → All P as_ → All P (insert a as_)
  unfolding insert
  All-insert P a [] here others = (here, tt)
  All-insert P a (b ∷ bs) here others = elim (Bool-cases (before b a)) [
    | inl swaps ↦ rw swaps (others.0, All-insert P a bs here others.1)
    | inr stays ↦ rw stays (here, others)
  ]

  All-mono : {P Q : A → Type 0} (as_ : List A) → ((a : A) → P a → Q a) → All P as_ → All Q as_
  All-mono [] f h = tt
  All-mono (a ∷ as_) f h = (f a h.0, All-mono as_ f h.1)

  module _ (irrefl : (a b : A) → before a b ≡ true → before b a ≡ false)
      (trans : (a b c : A) → before b a ≡ false → before c b ≡ false → before c a ≡ false) where
    insert-Sorted : (a : A) (as_ : List A) → Sorted as_ → Sorted (insert a as_)
    unfolding insert
    insert-Sorted a [] h = (tt, tt)
    insert-Sorted a (b ∷ bs) h = elim (Bool-cases (before b a)) [
      | inl swaps ↦
          rw swaps (
            All-insert (λ c. before c b ≡ false) a bs (irrefl b a swaps) h.0,
            insert-Sorted a bs h.1,
          )
      | inr stays ↦ rw stays (
        (
          stays,
          All-mono {P = λ c. before c b ≡ false} {Q = λ c. before c a ≡ false} bs
              (λ c later. trans a b c stays later) h.0,
        ),
        h,
      )
    ]

    pub sort-Sorted : (as_ : List A) → Sorted (sort as_)
    unfolding sort
    sort-Sorted [] = tt
    sort-Sorted (a ∷ as_) = insert-Sorted a (sort as_) (sort-Sorted as_)

  pub All-sort : (P : A → Type 0) (as_ : List A) → All P as_ → All P (sort as_)
  unfolding sort
  All-sort P [] h = tt
  All-sort P (a ∷ as_) h = All-insert P a (sort as_) h.0 (All-sort P as_ h.1)

  sum_by-insert : (f : A → ℕ) (a : A) (as_ : List A) → sum_by f (insert a as_) ≡ f a + sum_by f as_
  unfolding insert sum_by
  sum_by-insert f a [] = refl
  sum_by-insert f a (b ∷ bs) = elim (Bool-cases (before b a)) [
    | inl swaps ↦ rw swaps (omega (arith, sum_by-insert f a bs))
    | inr stays ↦ rw stays refl
  ]

  -- Sorting changes no sum.
  pub sum_by-sort : (f : A → ℕ) (as_ : List A) → sum_by f (sort as_) ≡ sum_by f as_
  unfolding sort sum_by
  sum_by-sort f [] = refl
  sum_by-sort f (a ∷ as_) = omega (arith, sum_by-insert f a (sort as_), sum_by-sort f as_)
