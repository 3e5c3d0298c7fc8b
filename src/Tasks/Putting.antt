-- ===== src/Tasks/Putting.antt =====
-- Tasks go into a scheduling domain.
use pgasus.Common.{
  ℕ, ◌+◌, ◌≤◌, ◌<◌, ◌≡◌, refl, ◌∙◌, sym, Option, none, some, List, arith, if◌then◌else◌, ◌==◌, ltb,
  lt→ltb, length, count,
}
use pgasus.Tasks.Collection.{Queue, Collection, put}
use pgasus.Tasks.Content.{IsMeasure, length-IsMeasure, count-IsMeasure, content, content-put}
use pgasus.Tasks.Threads.{create-Serves, put-Keeps, length-put}
use pgasus.Tasks.Domain.{Level, Domain, max_index, set_level, ready, put_task}
use pgasus.Tasks.Valid.{in_level, holds, level, in_levels-set, IsLevel, IsValid, set_level-IsValid}

module _ (cpus : ℕ) (priority : ℕ → ℕ) where
  -- The collection of a sound level is there or can be made, with the same tasks.
  ready-IsLevel :
      (active : List ℕ) (i n : ℕ) (o : Option Collection)
      → IsLevel cpus priority active i (record { tasks = o; count = n })
      → ((j : ℕ) → 0 < count j active → j < cpus)
      → (c : Collection) × (n' : ℕ) × (ready cpus active (record { tasks = o; count = n })
          ≡ some (c, n'))
        × IsLevel cpus priority active i (record { tasks = some c; count = n' })
        × ((m : Queue → ℕ)
            → IsMeasure m
            → content m c ≡ in_level m (record { tasks = o; count = n }))
  unfolding ready in_level
  ready-IsLevel active i n (some c) l h = (c, n, refl, l, λ m is. refl)
  ready-IsLevel active i n none l h =
      let (c, e, z, w, s) = create-Serves cpus active h in
      (
        c,
        0,
        rw e refl,
        record {
          counted = sym (z length length-IsMeasure);
          sorted = λ t p. absurd (omega (arith, z (count t) (count-IsMeasure t)));
          fits = (w, s);
        },
        λ m is. z m is,
      )

  put-IsLevel :
      (active : List ℕ) (t thid n : ℕ) (c : Collection)
      → IsLevel cpus priority active (priority t) (record { tasks = some c; count = n })
      → IsLevel cpus priority active
          (priority t)
          (record { tasks = some (put t thid c); count = n + 1 })
  unfolding in_level count
  put-IsLevel active t thid n c l = record {
    counted = omega (arith, l.counted, content-put length length-IsMeasure t thid c);
    sorted =
        λ t' p. ground (arith, l.sorted t', content-put (count t') (count-IsMeasure t') t thid c);
    fits = (
      length-put t thid c ∙ l.fits.0,
      λ j p. let (q, f) = l.fits.1 j p in put-Keeps t thid c j q f,
    );
  }

  raise_top :
      (top : ℕ) (d : Domain)
      → IsValid cpus priority d
      → d.top ≤ top
      → top ≤ max_index
      → IsValid cpus priority (record d { top = top })
  raise_top top d v lo hi = record {
    size = v.size;
    levels = v.levels;
    top_le = hi;
    above = λ i p h. v.above i (omega arith) h;
    once = v.once;
    here = v.here;
  }

  -- `put_task` on a valid domain with a task whose priority is in range succeeds, keeps the domain
  -- valid, and adds the task, once, and no other.
  pub put_task-holds :
      (t thid : ℕ) (d : Domain)
      → IsValid cpus priority d
      → priority t ≤ max_index
      → (d' : Domain) × (put_task cpus priority t thid d ≡ some d')
        × IsValid cpus priority d'
        × ((t' : ℕ) → holds t' d' ≡ holds t' d + (if t' == t then 1 else 0))
  unfolding put_task in_level count
  put_task-holds t thid d v h =
      let i = priority t in
      let lv = level i d in
      let (c, n, e, l, z) = ready-IsLevel d.active i lv.count lv.tasks (v.levels i h) v.here in
      let lv' : Level = record { tasks = some (put t thid c); count = n + 1 } in
      let top = if ltb d.top i then i else d.top in
      let (up, hi, reach) : (d.top ≤ top) × (top ≤ max_index) × (i ≤ top) =
        ground (arith, v.top_le, h) in
      rw (lt→ltb i (length d.levels) (omega (arith, v.size)), e)
        (
          set_level i lv' (record d { top = top }),
          refl,
          set_level-IsValid cpus priority i lv' (record d { top = top }) (raise_top top d v up hi) h
              (put-IsLevel d.active t thid n c l) (λ p. absurd (omega (arith, reach))),
          λ t'. omega (
            arith,
            in_levels-set (count t') d.levels i lv' (omega (arith, v.size)),
            content-put (count t') (count-IsMeasure t') t thid c,
            z (count t') (count-IsMeasure t'),
          ),
        )
