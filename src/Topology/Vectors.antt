-- ===== src/Topology/Vectors.antt =====
-- Vectors that grow to the index that is written.
use pgasus.Common.{
  ℕ, zero, suc, ◌≤◌, ◌<◌, ◌≡◌, refl, ap, ◌∙◌, Option, none, some, List, [], ◌∷◌, ◌==◌, ltb,
  if◌then◌else◌, length, get_or, get_elem?, get_or-set, arith, ◌+◌, Bool-cases, inl, inr,
}
use pgasus.Topology.{resize, insert_into_vector, core_from, assign_cpus}

pub length-resize : {A : Type 0} (n : ℕ) (d : A) (xs : List A) → length (resize n d xs) ≡ n
unfolding resize
length-resize zero d xs = refl
length-resize (suc n) d [] = ap suc (length-resize n d [])
length-resize (suc n) d (x ∷ xs) = ap suc (length-resize n d xs)

get_or-resize :
    {A : Type 0} (n : ℕ) (d : A) (xs : List A) (j : ℕ)
    → length xs ≤ n
    → get_or (resize n d xs) j d ≡ get_or xs j d
unfolding resize
get_or-resize zero d [] j h = refl
get_or-resize zero d (x ∷ xs) j h = absurd (omega arith)
get_or-resize (suc n) d [] zero h = refl
get_or-resize (suc n) d [] (suc j) h = get_or-resize n d [] j (omega arith)
get_or-resize (suc n) d (x ∷ xs) zero h = refl
get_or-resize (suc n) d (x ∷ xs) (suc j) h = get_or-resize n d xs j (omega arith)

pub get_or-insert_into_vector :
    {A : Type 0} (vec : List (Option A)) (i : ℕ) (v : A) (j : ℕ)
    → get_or (insert_into_vector vec i v) j none ≡ (if i == j then some v else get_or vec j none)
unfolding insert_into_vector
get_or-insert_into_vector vec i v j =
    let wanted = if ltb (suc i) (length vec) then length vec else suc i in
    let room : i < wanted = ground arith in
    let enough : length vec ≤ wanted = ground arith in
    get_or-set (resize wanted none vec) i j (some v) none
      (omega (arith, room, length-resize wanted none vec))
    ∙ ap (λ o. if i == j then some v else o) (get_or-resize wanted none vec j enough)

pub get_elem?-get_or :
    {A : Type 0} (xs : List (Option A)) (i : ℕ) (v : A)
    → get_or xs i none ≡ some v
    → get_elem? xs i ≡ some (some v)
get_elem?-get_or [] i v h = cc
get_elem?-get_or (x ∷ xs) zero v h = cc
get_elem?-get_or (x ∷ xs) (suc i) v h = get_elem?-get_or xs i v h

assign_cpus-kept :
    (id : ℕ) (cs : List ℕ) (vec : List (Option ℕ)) (count cpu : ℕ)
    → get_or vec cpu none ≡ some id
    → get_or (assign_cpus id cs vec count).0 cpu none ≡ some id
unfolding assign_cpus
assign_cpus-kept id [] vec count cpu h = h
assign_cpus-kept id (c ∷ cs) vec count cpu h =
    assign_cpus-kept id cs (insert_into_vector vec c id) (suc count) cpu
      (ground (arith, get_or-insert_into_vector vec c id cpu))

-- The processors of a node lead to it, and no others change.
pub get_or-assign_cpus_in :
    (id : ℕ) (cs : List ℕ) (vec : List (Option ℕ)) (count cpu k i : ℕ)
    → core_from cpu k cs ≡ some i
    → get_or (assign_cpus id cs vec count).0 cpu none ≡ some id
unfolding assign_cpus core_from
get_or-assign_cpus_in id [] vec count cpu k i h = cc
get_or-assign_cpus_in id (c ∷ cs) vec count cpu k i h = elim (Bool-cases (c == cpu)) [
  | inl same ↦
      assign_cpus-kept id cs (insert_into_vector vec c id) (suc count) cpu
        (ground (arith, get_or-insert_into_vector vec c id cpu))
  | inr other ↦
      get_or-assign_cpus_in id cs (insert_into_vector vec c id) (suc count) cpu (suc k) i
        (ground (arith, h, other))
]

pub get_or-assign_cpus_out :
    (id : ℕ) (cs : List ℕ) (vec : List (Option ℕ)) (count cpu k : ℕ)
    → core_from cpu k cs ≡ none
    → get_or (assign_cpus id cs vec count).0 cpu none ≡ get_or vec cpu none
unfolding assign_cpus core_from
get_or-assign_cpus_out id [] vec count cpu k h = refl
get_or-assign_cpus_out id (c ∷ cs) vec count cpu k h = ground (
  arith,
  get_or-assign_cpus_out id cs (insert_into_vector vec c id) (suc count) cpu (suc k),
  get_or-insert_into_vector vec c id cpu,
)

pub assign_cpus-count :
    (id : ℕ) (cs : List ℕ) (vec : List (Option ℕ)) (count : ℕ)
    → (assign_cpus id cs vec count).1 ≡ length cs + count
unfolding assign_cpus
assign_cpus-count id [] vec count = omega arith
assign_cpus-count id (c ∷ cs) vec count =
    omega (arith, assign_cpus-count id cs (insert_into_vector vec c id) (suc count))

-- `core_of` gives a position at which the processor stands.
pub core_from-at :
    (cpu k i : ℕ) (cs : List ℕ)
    → core_from cpu k cs ≡ some i
    → (j : ℕ) × (i ≡ k + j) × (get_elem? cs j ≡ some cpu)
unfolding core_from
core_from-at cpu k i [] h = cc
core_from-at cpu k i (c ∷ cs) h = elim (Bool-cases (c == cpu)) [
  | inl same ↦ (0, ground (arith, h, same), ground (arith, same))
  | inr other ↦
      let (j, e, at) = core_from-at cpu (suc k) i cs (ground (arith, h, other)) in
      (suc j, omega (arith, e), at)
]
