-- ===== src/Tasks/Levels.antt =====
-- Operations on the levels of a scheduling domain one by one, and on its list of active threads.
use pgasus.Common.{
  ℕ, zero, suc, ◌+◌, ◌<◌, ◌≡◌, refl, Option, some, List, [], ◌∷◌, arith, if◌then◌else◌, ◌==◌, ltb,
  length, get_or, count,
}
use pgasus.Tasks.Collection.{Queue, Collection}
use pgasus.Tasks.Content.{IsMeasure}
use pgasus.Tasks.Domain.{Level, no_level, on_level, on_levels, contains, erase}
use pgasus.Tasks.Valid.{in_level, in_levels, Fits}

-- `lv'` has the tasks of `lv`, and a queue for every listed thread.
pub record Kept (cpus : ℕ) (active : List ℕ) (lv lv' : Level) : Type 0 where
  pub counts : lv'.count ≡ lv.count
  pub content : (m : Queue → ℕ) → IsMeasure m → in_level m lv' ≡ in_level m lv
  pub fits : Fits cpus active lv'.tasks

pointwise :
    (R : Level → Level → Type 0) (x y : Level) (xs ys : List Level)
    → R x y
    → ((i : ℕ) → i < length xs → R (get_or xs i no_level) (get_or ys i no_level))
    → (i : ℕ) → i < suc (length xs)
    → R (get_or (x ∷ xs) i no_level) (get_or (y ∷ ys) i no_level)
pointwise R x y xs ys r rs zero lt = r
pointwise R x y xs ys r rs (suc i) lt = rs i (omega arith)

-- An operation on each collection succeeds if it does on each.
pub on_levels-each :
    (f : Collection → Option Collection) (R : Level → Level → Type 0) (lvs : List Level)
    → ((i : ℕ)
        → i < length lvs
        → (lv' : Level) × (on_level f (get_or lvs i no_level) ≡ some lv')
          × R (get_or lvs i no_level) lv')
    → (lvs' : List Level) × (on_levels f lvs ≡ some lvs')
      × (length lvs' ≡ length lvs)
      × ((i : ℕ) → i < length lvs → R (get_or lvs i no_level) (get_or lvs' i no_level))
unfolding on_levels
on_levels-each f R [] h = ([], refl, refl, λ i lt. absurd (omega arith))
on_levels-each f R (lv ∷ lvs) h =
    let (lv', e, r) = h 0 (omega arith) in
    let (lvs', es, l, rs) = on_levels-each f R lvs (λ i lt. h (suc i) (omega arith)) in
    (lv' ∷ lvs', rw (e, es) refl, omega (arith, l), pointwise R lv lv' lvs lvs' r rs)

pub in_levels-same :
    (m : Queue → ℕ) (lvs lvs' : List Level)
    → length lvs' ≡ length lvs
    → ((i : ℕ)
        → i < length lvs
        → in_level m (get_or lvs' i no_level) ≡ in_level m (get_or lvs i no_level))
    → in_levels m lvs' ≡ in_levels m lvs
unfolding in_levels
in_levels-same m [] [] l h = refl
in_levels-same m [] (y ∷ ys) l h = absurd (omega (arith, l))
in_levels-same m (x ∷ xs) [] l h = absurd (omega (arith, l))
in_levels-same m (x ∷ xs) (y ∷ ys) l h = omega (
  arith,
  h 0 (omega arith),
  in_levels-same m xs ys (omega (arith, l)) (λ i lt. h (suc i) (omega arith)),
)

pub count-erase :
    (i j : ℕ) (xs : List ℕ)
    → 0 < count i xs
    → count j (erase i xs) + (if i == j then 1 else 0) ≡ count j xs
unfolding count erase
count-erase i j [] h = absurd (omega arith)
count-erase i j (x ∷ xs) h = ground (arith, count-erase i j xs)

pub contains_iff : (i : ℕ) (xs : List ℕ) → contains i xs ≡ ltb 0 (count i xs)
unfolding count contains
contains_iff i [] = ground arith
contains_iff i (x ∷ xs) = ground (arith, contains_iff i xs)
