-- ===== src/Replicated/Single.antt =====
-- One object for each node.
use pgasus.Common.{
  ℕ, zero, suc, ◌+◌, ◌≤◌, ◌≡◌, ◌≢◌, refl, sym, ap, ◌∙◌, none, some, List, [], ◌∷◌, ◌==◌, ltb,
  ltb→lt, length, get_or, set, count, replicate, get_or-set, sum_by, sum_by-set, sum_by-le,
  sum_by-replicate, arith, subst, Bool-cases, inl, inr,
}
use pgasus.Replicated.{Pc, step, System, start, move, run}
use pgasus.Replicated.Steps.{
  has, as_number, inside, building, storing, slot, Fits, Counts, Fits-Kept, step-Led,
}

-- The lock, the entries and the log fit together, and each thread can rely on what it has seen.
record IsSafe (s : System) : Type 0 where
  owned : sum_by inside s.threads ≡ as_number s.shared.locked
  single : (m : ℕ) → has (slot s.shared m) + sum_by (building m) s.threads ≤ 1
  once : (m : ℕ) → count m s.shared.log ≡ has (slot s.shared m) + sum_by (storing m) s.threads
  fits : (i : ℕ) → Fits s.shared (get_or s.threads i Pc.idle)

building-le : (m : ℕ) (p : Pc) → building m p ≤ inside p
building-le m (Pc.construct n) = ground arith
building-le m (Pc.store n p) = ground arith
building-le m _ = omega arith

storing-le : (m : ℕ) (p : Pc) → storing m p ≤ building m p
storing-le m (Pc.store n p) = ground arith
storing-le m _ = omega arith

move-IsSafe : (i t : ℕ) (s : System) → IsSafe s → IsSafe (move i t s)
unfolding move
move-IsSafe i t s v = elim (Bool-cases (ltb i (length s.threads))) [
  | inr e ↦ rw e v
  | inl e ↦
      let lt = ltb→lt i (length s.threads) e in
      let p = get_or s.threads i Pc.idle in
      let rest = set s.threads i Pc.idle in
      let before : (f : Pc → ℕ) → f Pc.idle ≡ 0 → sum_by f rest + f p ≡ sum_by f s.threads =
        λ f z. omega (arith, sum_by-set f s.threads i Pc.idle Pc.idle lt, z) in
      let counts : Counts s.shared (sum_by inside rest) (λ m. sum_by (building m) rest)
          (λ m. sum_by (storing m) rest) p =
        record {
          owned = before inside refl ∙ v.owned;
          single = λ m. omega (arith, before (building m) refl, v.single m);
          once = λ m. omega (arith, before (storing m) refl, v.once m);
        } in
      let (counts', fits', kept) =
        step-Led (sum_by inside rest) (λ m. sum_by (building m) rest) (λ m. sum_by (storing m) rest)
          (λ m. sum_by-le (building m) inside (building-le m) rest) t s.shared p counts
          (v.fits i) in
      let p' = (step t s.shared p).1 in
      let after : (f : Pc → ℕ)
          → f Pc.idle ≡ 0
          → sum_by f (set s.threads i p') ≡ sum_by f rest + f p' =
        λ f z. omega (arith, sum_by-set f s.threads i p' Pc.idle lt, before f z) in
      rw e (record {
        owned = after inside refl ∙ counts'.owned;
        single = λ m. omega (arith, after (building m) refl, counts'.single m);
        once = λ m. omega (arith, after (storing m) refl, counts'.once m);
        fits = λ j.
            subst (Fits (step t s.shared p).0) (sym (get_or-set s.threads i j p' Pc.idle lt))
              (elim (Bool-cases (i == j)) [
                | inl same ↦ rw same fits'
                | inr other ↦ rw other (
                    Fits-Kept s.shared (step t s.shared p).0 (get_or s.threads j Pc.idle) kept
                      (v.fits j))
              ]);
      })
]

run-IsSafe : (ms : List (ℕ × ℕ)) (s : System) → IsSafe s → IsSafe (run ms s)
unfolding run
run-IsSafe [] s v = v
run-IsSafe ((i, t) ∷ ms) s v = run-IsSafe ms (move i t s) (move-IsSafe i t s v)

get_or-all : {A : Type 0} (n i : ℕ) (a : A) → get_or (replicate n a) i a ≡ a
get_or-all zero i a = refl
get_or-all (suc n) zero a = refl
get_or-all (suc n) (suc i) a = get_or-all n i a

start-IsSafe : (threads nodes : ℕ) → IsSafe (start threads nodes)
unfolding start count
start-IsSafe threads nodes = record {
  owned = omega (arith, sum_by-replicate inside threads Pc.idle);
  single = λ m.
      omega
        (arith, ap has (get_or-all nodes m none), sum_by-replicate (building m) threads Pc.idle);
  once = λ m.
      omega (arith, ap has (get_or-all nodes m none), sum_by-replicate (storing m) threads Pc.idle);
  fits = λ i. rw (get_or-all threads i Pc.idle) tt;
}

-- Whatever the schedule of the threads that call `get`, where a thread has got the object of a node: exactly one
-- object was made for this node, it is this one, and no thread has followed a null pointer.
pub run-one_object :
    (threads nodes : ℕ) (ms : List (ℕ × ℕ)) (i j n p : ℕ)
    → get_or (run ms (start threads nodes)).threads i Pc.idle ≡ Pc.got n p
    → (count n (run ms (start threads nodes)).shared.log ≡ 1)
      × (get_or (run ms (start threads nodes)).shared.data_ n none ≡ some p)
      × (get_or (run ms (start threads nodes)).threads j Pc.idle ≢ Pc.null)
run-one_object threads nodes ms i j n p there =
    let s = run ms (start threads nodes) in
    let v = run-IsSafe ms (start threads nodes) (start-IsSafe threads nodes) in
    let found : slot s.shared n ≡ some p = subst (Fits s.shared) there (v.fits i) in
    let few = sum_by-le (storing n) (building n) (storing-le n) s.threads in
    (
      omega (arith, v.once n, v.single n, ap has found, few),
      found,
      λ e. subst (Fits s.shared) e (v.fits j),
    )
