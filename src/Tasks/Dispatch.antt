-- ===== src/Tasks/Dispatch.antt =====
-- Tasks come out of a scheduling domain, those of the highest priority first.
use pgasus.Common.{
  ℕ, zero, suc, ◌+◌, ◌-◌, ◌≤◌, ◌<◌, ◌≡◌, refl, ap, ◌∙◌, sym, subst, Option, none, some, List, [],
  ◌∷◌, arith, ltb, ltb→lt, length, get_or, count, Bool-cases, Option-cases, inl, inr,
}
use pgasus.Tasks.Collection.{Queue, Collection, try_get}
use pgasus.Tasks.Content.{
  IsMeasure, length-IsMeasure, count-IsMeasure, content, in_queue, in_threads,
}
use pgasus.Tasks.Taking.{in_option, Search, try_get-Search}
use pgasus.Tasks.Domain.{
  Level, Domain, no_level, max_index, set_level, settle, search, try_get_task,
}
use pgasus.Tasks.Valid.{
  in_level, in_levels, holds, level, in_levels-set, IsLevel, IsValid, set_level-IsValid,
}

count-le : (t : ℕ) (q : Queue) → count t q ≤ length q
unfolding count
count-le t [] = omega arith
count-le t (x ∷ q) = ground (arith, count-le t q)

in_threads-le : (t : ℕ) (qs : List (Option Queue)) → in_threads (count t) qs ≤ in_threads length qs
unfolding in_threads in_queue
in_threads-le t [] = omega arith
in_threads-le t (none ∷ qs) = omega (arith, in_threads-le t qs)
in_threads-le t (some q ∷ qs) = omega (arith, count-le t q, in_threads-le t qs)

-- A level that holds some task has a positive count of them.
in_level-le : (t : ℕ) (lv : Level) → in_level (count t) lv ≤ in_level length lv
unfolding in_level content
in_level-le t lv = elim (Option-cases lv.tasks) [
  | inl f ↦ rw (f, in_level) (omega arith)
  | inr (c, f) ↦ rw (f, in_level) (omega (arith, count-le t c.global, in_threads-le t c.threads))
]

in_levels-find :
    (m : Queue → ℕ) (lvs : List Level)
    → 0 < in_levels m lvs
    → (i : ℕ) × (i < length lvs) × (0 < in_level m (get_or lvs i no_level))
unfolding in_levels
in_levels-find m [] h = absurd (omega arith)
in_levels-find m (lv ∷ lvs) h = elim (Bool-cases (ltb 0 (in_level m lv))) [
  | inl e ↦ (0, omega arith, ltb→lt 0 _ e)
  | inr e ↦ let (i, lt, p) = in_levels-find m lvs (ground arith) in (suc i, omega arith, p)
]

module _ (cpus : ℕ) (priority : ℕ → ℕ) where
  -- What a search of the levels below `k` of `d` gives.
  record Dispatched (k : ℕ) (d d' : Domain) (r : Option ℕ) : Type 0 where
    pub valid : IsValid cpus priority d'
    pub takes :
        (m : Queue → ℕ) → IsMeasure m → in_levels m d.levels ≡ in_levels m d'.levels + in_option m r
    pub none_below : r ≡ none → (i : ℕ) → i < k → (level i d).count ≡ 0
    pub highest : (t : ℕ) → r ≡ some t → (i : ℕ) → priority t < i → i < k → (level i d).count ≡ 0

  -- The collection after a task was taken makes a sound level.
  taken-IsLevel :
      (active : List ℕ) (i n t : ℕ) (c c' : Collection)
      → IsLevel cpus priority active i (record { tasks = some c; count = n })
      → Search ((m : Queue → ℕ) → IsMeasure m → content m c ≡ 0) c (c', some t)
      → IsLevel cpus priority active i (record { tasks = some c'; count = n - 1 })
        × (priority t ≡ i)
  unfolding in_level in_option count
  taken-IsLevel active i n t c c' l s = (
    record {
      counted = omega (arith, l.counted, s.takes length length-IsMeasure);
      sorted = λ t' p. l.sorted t' (omega (arith, s.takes (count t') (count-IsMeasure t')));
      fits = (s.width ∙ l.fits.0, λ j p. let (q, f) = l.fits.1 j p in s.keeps j q f);
    },
    l.sorted t (ground (arith, s.takes (count t) (count-IsMeasure t))),
  )

  in_level-none : (m : Queue → ℕ) (lv : Level) → lv.tasks ≡ none → in_level m lv ≡ 0
  unfolding in_level
  in_level-none m lv f = rw (f, in_level) refl

  settle-Dispatched :
      (k n : ℕ) (c : Collection) (p : Collection × Option ℕ)
      (next : Domain → Option (Domain × Option ℕ)) (d : Domain)
      → IsValid cpus priority d
      → k ≤ max_index
      → level k d ≡ record { tasks = some c; count = n }
      → 0 < n
      → Search ((m : Queue → ℕ) → IsMeasure m → content m c ≡ 0) c p
      → (d' : Domain) × (r : Option ℕ) × (settle k n next d p ≡ some (d', r))
        × Dispatched (suc k) d d' r
  unfolding settle in_level
  settle-Dispatched k n c (c', none) next d v h e pos s =
      let l = subst (IsLevel cpus priority d.active k) e (v.levels k h) in
      absurd (omega (arith, l.counted, s.empty refl length length-IsMeasure))
  settle-Dispatched k n c (c', some t) next d v h e pos s =
      let l = subst (IsLevel cpus priority d.active k) e (v.levels k h) in
      let (l', pr) = taken-IsLevel d.active k n t c c' l s in
      let lv : Level = record { tasks = some c'; count = n - 1 } in
      (
        set_level k lv d,
        some t,
        refl,
        record {
          valid =
              set_level-IsValid cpus priority k lv d v h l'
                (λ p. omega (arith, v.above k p h, ap (λ x. x.count) e));
          takes = λ m is. omega (
            arith,
            s.takes m is,
            in_levels-set m d.levels k lv (omega (arith, v.size)),
            ap (in_level m) e,
          );
          none_below = λ q. ground arith;
          highest = λ t' q i lo hi. absurd (ground (arith, pr));
        },
      )

  search-Dispatched :
      (random : ℕ → ℕ) (thid k : ℕ) (d : Domain)
      → IsValid cpus priority d
      → k ≤ max_index + 1
      → (d' : Domain) × (r : Option ℕ) × (search random thid k d ≡ some (d', r))
        × Dispatched k d d' r
  unfolding search in_option
  search-Dispatched random thid zero d v h = (
    d,
    none,
    refl,
    record {
      valid = v;
      takes = λ m is. omega arith;
      none_below = λ n i lt. absurd (omega arith);
      highest = λ t e. ground arith;
    },
  )
  search-Dispatched random thid (suc k) d v h = elim (Bool-cases (ltb 0 (level k d).count)) [
    | inl e ↦ elim (Option-cases (level k d).tasks) [
      | inl f ↦ absurd (
          omega (
            arith,
            (v.levels k (omega arith)).counted,
            in_level-none length (level k d) f,
            ltb→lt 0 _ e,
          ))
      | inr (c, f) ↦
          let (d', r, g, s) =
            settle-Dispatched k (level k d).count c (try_get (random k) thid c)
              (search random thid k) d v (omega arith)
              (ap (λ o. record { tasks = o; count = (level k d).count }) f) (ltb→lt 0 _ e)
              (try_get-Search (random k) thid c) in
          (d', r, rw (e, f) g, s)
    ]
    | inr e ↦
        let (d', r, f, s) = search-Dispatched random thid k d v (omega arith) in
        (
          d',
          r,
          rw e f,
          record {
            valid = s.valid;
            takes = s.takes;
            none_below = λ n i lt. ground (arith, s.none_below n i);
            highest = λ t g i lo hi. ground (arith, s.highest t g i);
          },
        )
  ]

  -- A task of a valid domain stands in the level of its priority, which is not above the top one.
  held-level :
      (t : ℕ) (d : Domain)
      → IsValid cpus priority d
      → 0 < holds t d
      → (priority t < suc d.top) × (0 < (level (priority t) d).count)
  held-level t d v h =
      let (i, lt, p) = in_levels-find (count t) d.levels h in
      let l = v.levels i (omega (arith, v.size)) in
      let pos : 0 < (level i d).count = omega (arith, l.counted, in_level-le t (level i d)) in
      subst (λ x. (x < suc d.top) × (0 < (level x d).count)) (sym (l.sorted t p))
        (ground (arith, v.above i, pos, lt, v.size), pos)

  -- `try_get_task` on a valid domain succeeds and keeps it valid. If it returns a task, the domain
  -- held it and holds one less of it, and had no task of a higher priority; the other tasks stay. If
  -- it returns none, the domain held no task.
  pub try_get_task-highest :
      (random : ℕ → ℕ) (thid : ℕ) (d : Domain)
      → IsValid cpus priority d
      → (d' : Domain) × (r : Option ℕ) × (try_get_task random thid d ≡ some (d', r))
        × IsValid cpus priority d'
        × ((t : ℕ) → holds t d ≡ holds t d' + in_option (count t) r)
        × (r ≡ none → (t : ℕ) → holds t d ≡ 0)
        × ((t : ℕ) → r ≡ some t → (t' : ℕ) → 0 < holds t' d → priority t' ≤ priority t)
  unfolding try_get_task
  try_get_task-highest random thid d v =
      let (d', r, e, s) = search-Dispatched random thid (suc d.top) d v (omega (arith, v.top_le)) in
      (
        d',
        r,
        e,
        s.valid,
        (λ t. s.takes (count t) (count-IsMeasure t)),
        (λ n t. ground (arith, held-level t d v, s.none_below n (priority t))),
        λ t f t' p.
            let (lt, pos) = held-level t' d v p in
            ground (arith, pos, lt, s.highest t f (priority t')),
      )
