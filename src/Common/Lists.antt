-- ===== src/Common/Lists.antt =====
-- Vectors and lists of the program, measured and indexed by native numbers (library names).
use Prim.Native.Nat.{ℕ, zero, suc, ◌+◌, ◌*◌, ◌≤◌, ◌<◌}
use mathlib.Core.Path.{◌≡◌, refl, ap}
use mathlib.Core.List.{List, [], ◌∷◌, ◌++◌, append_assoc}
use mathlib.Core.Logic.{◌⊎◌, inl, inr}
use mathlib.Core.Option.{Option, none, some}
use native.Mathlib.Omega.{arith}
use pgasus.Common.Tests.{◌==◌, if◌then◌else◌}

module _ {ℓ} {A : Type ℓ} where
  abbrev pub length : List A → ℕ
  length [] = 0
  length (x ∷ xs) = suc (length xs)

  abbrev pub get_elem? : List A → ℕ → Option A
  get_elem? [] i = none
  get_elem? (x ∷ xs) zero = some x
  get_elem? (x ∷ xs) (suc i) = get_elem? xs i

  abbrev pub get_or : List A → ℕ → A → A
  get_or [] i d = d
  get_or (x ∷ xs) zero d = x
  get_or (x ∷ xs) (suc i) d = get_or xs i d

  -- A write out of bounds changes nothing.
  abbrev pub set : List A → ℕ → A → List A
  set [] i v = []
  set (x ∷ xs) zero v = v ∷ xs
  set (x ∷ xs) (suc i) v = x ∷ set xs i v

  abbrev pub replicate : ℕ → A → List A
  replicate zero a = []
  replicate (suc n) a = a ∷ replicate n a

  abbrev pub All {κ} : (A → Type κ) → List A → Type κ
  All P [] = Unit
  All P (x ∷ xs) = P x × All P xs

  pub length-append : (xs ys : List A) → length (xs ++ ys) ≡ length xs + length ys
  length-append [] ys = omega arith
  length-append (x ∷ xs) ys = omega (arith, length-append xs ys)

  pub length-set : (xs : List A) (i : ℕ) (v : A) → length (set xs i v) ≡ length xs
  length-set [] i v = refl
  length-set (x ∷ xs) zero v = refl
  length-set (x ∷ xs) (suc i) v = ap suc (length-set xs i v)

  pub length-replicate : (n : ℕ) (a : A) → length (replicate n a) ≡ n
  length-replicate zero a = refl
  length-replicate (suc n) a = ap suc (length-replicate n a)

  pub get_or-replicate : (n i : ℕ) (a d : A) → i < n → get_or (replicate n a) i d ≡ a
  get_or-replicate zero i a d h = absurd (omega arith)
  get_or-replicate (suc n) zero a d h = refl
  get_or-replicate (suc n) (suc i) a d h = get_or-replicate n i a d (omega arith)

  pub get_or-set :
      (xs : List A) (i j : ℕ) (v d : A)
      → i < length xs
      → get_or (set xs i v) j d ≡ (if i == j then v else get_or xs j d)
  get_or-set [] i j v d h = absurd (omega arith)
  get_or-set (x ∷ xs) zero zero v d h = refl
  get_or-set (x ∷ xs) zero (suc j) v d h = ground arith
  get_or-set (x ∷ xs) (suc i) zero v d h = ground arith
  get_or-set (x ∷ xs) (suc i) (suc j) v d h = ground (arith, get_or-set xs i j v d)

  pub set-get_or : (xs : List A) (i : ℕ) (d : A) → set xs i (get_or xs i d) ≡ xs
  set-get_or [] i d = refl
  set-get_or (x ∷ xs) zero d = refl
  set-get_or (x ∷ xs) (suc i) d = ap (λ ys. x ∷ ys) (set-get_or xs i d)

  pub All-append {κ} : (P : A → Type κ) (xs ys : List A) → All P xs → All P ys → All P (xs ++ ys)
  All-append P [] ys hx hy = hy
  All-append P (x ∷ xs) ys hx hy = (hx.0, All-append P xs ys hx.1 hy)

-- Splitting off what stands at an index.
unfoldable pub drop {ℓ} : {A : Type ℓ} → ℕ → List A → List A
drop zero xs = xs
drop (suc n) [] = []
drop (suc n) (x ∷ xs) = drop n xs

pub drop-cases {ℓ} :
    {A : Type ℓ} (i : ℕ) (xs : List A)
    → ((get_elem? xs i ≡ none) × (drop i xs ≡ []))
      ⊎ ((x : A) × (get_elem? xs i ≡ some x) × (drop i xs ≡ x ∷ drop (suc i) xs))
unfolding drop
drop-cases zero [] = inl (refl, refl)
drop-cases zero (x ∷ xs) = inr (x, refl, refl)
drop-cases (suc i) [] = inl (refl, refl)
drop-cases (suc i) (x ∷ xs) = drop-cases i xs

-- The lists that the elements lead to, one after the other.
unfoldable pub concat_map {ℓ κ} : {A : Type ℓ} {B : Type κ} → (A → List B) → List A → List B
concat_map f [] = []
concat_map f (x ∷ xs) = f x ++ concat_map f xs

pub concat_map-append {ℓ κ} :
    {A : Type ℓ} {B : Type κ} (f : A → List B) (xs ys : List A)
    → concat_map f (xs ++ ys) ≡ concat_map f xs ++ concat_map f ys
unfolding concat_map
concat_map-append f [] ys = refl
concat_map-append f (x ∷ xs) ys = rw (concat_map-append f xs ys, append_assoc) refl

-- The sum of a measure of the elements.
unfoldable pub sum_by {ℓ} : {A : Type ℓ} → (A → ℕ) → List A → ℕ
sum_by f [] = 0
sum_by f (x ∷ xs) = f x + sum_by f xs

pub sum_by-set {ℓ} :
    {A : Type ℓ} (f : A → ℕ) (xs : List A) (i : ℕ) (v d : A)
    → i < length xs
    → sum_by f (set xs i v) + f (get_or xs i d) ≡ sum_by f xs + f v
unfolding sum_by
sum_by-set f [] i v d h = absurd (omega arith)
sum_by-set f (x ∷ xs) zero v d h = omega arith
sum_by-set f (x ∷ xs) (suc i) v d h = omega (arith, sum_by-set f xs i v d)

pub sum_by-le {ℓ} :
    {A : Type ℓ} (f g : A → ℕ) → ((a : A) → f a ≤ g a) → (xs : List A) → sum_by f xs ≤ sum_by g xs
unfolding sum_by
sum_by-le f g h [] = omega arith
sum_by-le f g h (x ∷ xs) = omega (arith, h x, sum_by-le f g h xs)

pub sum_by-replicate {ℓ} :
    {A : Type ℓ} (f : A → ℕ) (n : ℕ) (a : A) → sum_by f (replicate n a) ≡ n * f a
unfolding sum_by
sum_by-replicate f zero a = omega arith
sum_by-replicate f (suc n) a = grind (arith, sum_by-replicate f n a)

pub sum_by-one {ℓ} : {A : Type ℓ} (xs : List A) → sum_by (λ a. 1) xs ≡ length xs
unfolding sum_by
sum_by-one [] = refl
sum_by-one (x ∷ xs) = omega (arith, sum_by-one xs)

-- How often a number stands in a list.
unfoldable pub count : ℕ → List ℕ → ℕ
count a [] = 0
count a (x ∷ xs) = (if a == x then 1 else 0) + count a xs

pub count-append : (a : ℕ) (xs ys : List ℕ) → count a (xs ++ ys) ≡ count a xs + count a ys
unfolding count
count-append a [] ys = omega arith
count-append a (x ∷ xs) ys = omega (arith, count-append a xs ys)

pub count-snoc :
    (a x : ℕ) (xs : List ℕ) → count a (xs ++ x ∷ []) ≡ count a xs + (if a == x then 1 else 0)
unfolding count
count-snoc a x xs = omega (arith, count-append a xs (x ∷ []))

-- `std::list::remove`: deletes every element that is equal to the argument.
unfoldable pub remove_all : ℕ → List ℕ → List ℕ
remove_all a [] = []
remove_all a (x ∷ xs) = let rest = remove_all a xs in if x == a then rest else x ∷ rest

pub count-remove_all :
    (a b : ℕ) (xs : List ℕ) → count b (remove_all a xs) ≡ (if a == b then 0 else count b xs)
unfolding count remove_all
count-remove_all a b [] = ground arith
count-remove_all a b (x ∷ xs) = ground (arith, count-remove_all a b xs)

pub eq-nil_of_count : (xs : List ℕ) → ((a : ℕ) → count a xs ≡ 0) → xs ≡ []
unfolding count
eq-nil_of_count [] h = refl
eq-nil_of_count (x ∷ xs) h = absurd (ground (arith, h x))
