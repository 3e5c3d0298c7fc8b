-- ===== src/Iterating/Distributed.antt =====
-- `DistributedIteration::iterate` of include/PGASUS/hashtable/containers.hpp: a thread takes units of a parallel
-- iteration until there is none, and calls a function on each value of a unit.
use pgasus.Common.{
  ℕ, zero, suc, ◌+◌, ◌<◌, ◌≡◌, refl, ◌∙◌, Option, none, some, List, [], ◌∷◌, ◌++◌, ◌>>=◌, length,
  length-append, concat_map, All, arith, get_elem?, drop, drop-cases, inl, inr, sym,
}
use pgasus.Iterating.{Ops}
use pgasus.Iterating.Visits.{Walks, visit, visit-rest}

-- `get` hands out the units that are left, in order.
pub record Hands {P I : Type 0} (get : P → P × Option I) (left : P → List I) : Type 0 where
  pub over : (p : P) → left p ≡ [] → (get p).1 ≡ none
  pub unit :
      (p : P) (it : I) (its : List I)
      → left p ≡ it ∷ its
      → ((get p).1 ≡ some it) × (left (get p).0 ≡ its)

-- A counter over a list of units hands them out.
pub counter-Hands :
    {P I : Type 0} (get : P → P × Option I) (iters : P → List I) (counter : P → ℕ)
    → ((p : P) → (get p).1 ≡ get_elem? (iters p) (counter p))
    → ((p : P) → drop (counter (get p).0) (iters (get p).0) ≡ drop (suc (counter p)) (iters p))
    → Hands get (λ p. drop (counter p) (iters p))
counter-Hands get iters counter read step = record {
  over = λ p e. elim (drop-cases (counter p) (iters p)) [
    | inl (none_there, _) ↦ read p ∙ none_there
    | inr (it, found, more) ↦ cc
  ];
  unit = λ p it its e. elim (drop-cases (counter p) (iters p)) [
    | inl (none_there, over) ↦ cc
    | inr (first, found, more) ↦
        let whole : first ∷ drop (suc (counter p)) (iters p) ≡ it ∷ its = sym more ∙ e in
        let here : get_elem? (iters p) (counter p) ≡ some it = cc in
        let left : drop (suc (counter p)) (iters p) ≡ its = cc in (read p ∙ here, step p ∙ left)
  ];
}

length-concat_map :
    {A B : Type 0} (f : A → List B) (x : A) (xs : List A)
    → length (concat_map f (x ∷ xs)) ≡ length (f x) + length (concat_map f xs)
unfolding concat_map
length-concat_map f x xs = length-append (f x) (concat_map f xs)

module _ {P I V : Type 0} (ops : Ops I V) (get : P → P × Option I) where
  -- The loop over the units, with fuel for them and for the rounds in each.
  unfoldable pub take_units : (units rounds : ℕ) → P → Option (List V)
  take_units zero rounds p = none
  take_units (suc n) rounds p =
      let (p', unit) = get p in
      elim unit [
        | none ↦ some []
        | some it ↦ do vs ← visit ops rounds it; rest ← take_units n rounds p'; some (vs ++ rest)
      ]

  -- `iterate`, which does nothing for a null pointer.
  unfoldable pub iterate : (units rounds : ℕ) → Option P → Option (List V)
  iterate units rounds none = some []
  iterate units rounds (some p) = take_units units rounds p

  module _ (rest : I → List V) (Good : I → Type 0) (walks : Walks ops rest Good) (left : P → List I)
      (hands : Hands get left) where
    -- A thread sees what the units that are left visit, in order.
    pub take_units-rest :
        (n m : ℕ) (p : P) (its : List I)
        → left p ≡ its
        → All Good its
        → length its < n
        → length (concat_map rest its) < m
        → take_units n m p ≡ some (concat_map rest its)
    unfolding take_units concat_map
    take_units-rest zero m p its e on enough few = absurd (omega arith)
    take_units-rest (suc n) m p [] e on enough few = rw (take_units, hands.over p e) refl
    take_units-rest (suc n) m p (it ∷ its) e on enough few =
        let (found, later) = hands.unit p it its e in
        let sizes = length-concat_map rest it its in
        let seen =
          visit-rest ops rest Good walks m it (rest it) on.0 refl (omega (arith, few, sizes)) in
        let others =
          take_units-rest n m (get p).0 its later on.1 (omega arith) (omega (arith, few, sizes)) in
        rw (take_units, found, seen, others) refl
