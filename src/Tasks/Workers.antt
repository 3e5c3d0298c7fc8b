-- ===== src/Tasks/Workers.antt =====
-- Worker threads enter a scheduling domain and leave it.
use pgasus.Common.{
  ℕ, ◌≤◌, ◌<◌, ◌≡◌, refl, ◌∙◌, sym, subst, Option, none, some, List, [], ◌∷◌, ◌++◌, arith,
  if◌then◌else◌, ◌==◌, ==_iff, lt→ltb, length, count, count-snoc, Bool-cases, inl, inr,
}
use pgasus.Tasks.Collection.{Collection, register_thread, deregister_thread}
use pgasus.Tasks.Content.{length-IsMeasure, count-IsMeasure}
use pgasus.Tasks.Threads.{HasQueue, register_thread-Registered, deregister_thread-others}
use pgasus.Tasks.Domain.{Level, Domain, on_level, on_levels, add_thread, erase, remove_thread}
use pgasus.Tasks.Valid.{in_level, in_levels, holds, level, Fits, IsValid}
use pgasus.Tasks.Levels.{Kept, on_levels-each, in_levels-same, count-erase, contains_iff}

module _ (cpus : ℕ) (priority : ℕ → ℕ) where
  -- A domain whose levels all keep their tasks for new active threads.
  on_levels-IsValid :
      (active : List ℕ) (f : Collection → Option Collection) (d : Domain)
      → IsValid cpus priority d
      → ((i : ℕ) → count i active ≤ 1)
      → ((i : ℕ) → 0 < count i active → i < cpus)
      → ((lv : Level)
          → Fits cpus d.active lv.tasks
          → (lv' : Level) × (on_level f lv ≡ some lv') × Kept cpus active lv lv')
      → (lvs : List Level) × (on_levels f d.levels ≡ some lvs)
        × IsValid cpus priority (record d { active = active; levels = lvs })
        × ((t : ℕ) → in_levels (count t) lvs ≡ holds t d)
  on_levels-IsValid active f d v once here each =
      let (lvs, e, l, ks) =
        on_levels-each f (Kept cpus active) d.levels
          (λ i lt. each (level i d) (v.levels i (omega (arith, v.size))).fits) in
      (
        lvs,
        e,
        record {
          size = l ∙ v.size;
          levels = λ i h.
              let k = ks i (omega (arith, v.size)) in
              let lv = v.levels i h in
              record {
                counted = k.counts ∙ lv.counted ∙ sym (k.content length length-IsMeasure);
                sorted =
                    λ t p. lv.sorted t (omega (arith, k.content (count t) (count-IsMeasure t)));
                fits = k.fits;
              };
          top_le = v.top_le;
          above = λ i p h. (ks i (omega (arith, v.size))).counts ∙ v.above i p h;
          once = once;
          here = here;
        },
        λ t.
            in_levels-same (count t) d.levels lvs l
              (λ i lt. (ks i lt).content (count t) (count-IsMeasure t)),
      )

  register-Kept :
      (active : List ℕ) (i : ℕ) (lv : Level)
      → i < cpus
      → Fits cpus active lv.tasks
      → (lv' : Level) × (on_level (register_thread i) lv ≡ some lv')
        × Kept cpus (active ++ i ∷ []) lv lv'
  unfolding in_level
  register-Kept active i lv h w = go lv.tasks lv.count w
    where
      go :
          (o : Option Collection) (n : ℕ)
          → Fits cpus active o
          → (lv' : Level) × (on_level (register_thread i) (record { tasks = o; count = n })
              ≡ some lv')
            × Kept cpus (active ++ i ∷ []) (record { tasks = o; count = n }) lv'
      go none n w = (
        record { tasks = none; count = n },
        refl,
        record { counts = refl; content = λ m is. refl; fits = tt },
      )
      go (some c) n w =
          let (c', e, r, own) = register_thread-Registered i c (omega (arith, w.0, h)) in
          (
            record { tasks = some c'; count = n },
            rw e refl,
            record {
              counts = refl;
              content = r.content;
              fits = (
                r.width ∙ w.0,
                λ j p. elim (Bool-cases (j == i)) [
                  | inl k ↦ subst (λ x. HasQueue x c') (sym ((==_iff j i).0 k)) own
                  | inr k ↦
                      let (q, g) = w.1 j (ground (arith, count-snoc j i active)) in r.keeps j q g
                ],
              );
            },
          )

  deregister-Kept :
      (active : List ℕ) (i : ℕ) (lv : Level)
      → i < cpus
      → 0 < count i active
      → count i active ≤ 1
      → Fits cpus active lv.tasks
      → (lv' : Level) × (on_level (deregister_thread i) lv ≡ some lv')
        × Kept cpus (erase i active) lv lv'
  unfolding in_level
  deregister-Kept active i lv h p one w = go lv.tasks lv.count w
    where
      go :
          (o : Option Collection) (n : ℕ)
          → Fits cpus active o
          → (lv' : Level) × (on_level (deregister_thread i) (record { tasks = o; count = n })
              ≡ some lv')
            × Kept cpus (erase i active) (record { tasks = o; count = n }) lv'
      go none n w = (
        record { tasks = none; count = n },
        refl,
        record { counts = refl; content = λ m is. refl; fits = tt },
      )
      go (some c) n w =
          let (c', e, z, l, others) =
            deregister_thread-others i c (omega (arith, w.0, h)) (w.1 i p) in
          (
            record { tasks = some c'; count = n },
            rw e refl,
            record {
              counts = refl;
              content = z;
              fits = (
                l ∙ w.0,
                λ j q.
                    others j
                      (λ same. ground (
                        arith,
                        count-erase i i active p,
                        subst (λ x. 0 < count x (erase i active)) same q,
                      ))
                      (w.1 j (ground (arith, count-erase i j active p))),
              );
            },
          )

  -- `add_thread` on a valid domain, with a processor of the node that has no active thread, succeeds
  -- and makes it active; the domain stays valid and keeps its tasks.
  pub add_thread-IsValid :
      (i : ℕ) (d : Domain)
      → IsValid cpus priority d
      → i < cpus
      → count i d.active ≡ 0
      → (d' : Domain) × (add_thread i d ≡ some d')
        × IsValid cpus priority d'
        × (d'.active ≡ d.active ++ i ∷ [])
        × ((t : ℕ) → holds t d' ≡ holds t d)
  unfolding add_thread
  add_thread-IsValid i d v h new =
      let (lvs, e, v', hs) =
        on_levels-IsValid (d.active ++ i ∷ []) (register_thread i) d v
          (λ j. ground (arith, count-snoc j i d.active, v.once j))
          (λ j p. ground (arith, count-snoc j i d.active, v.here j))
          (λ lv w. register-Kept d.active i lv h w) in
      (record d { active = d.active ++ i ∷ []; levels = lvs }, rw e refl, v', refl, hs)

  -- `remove_thread` on a valid domain with an active thread succeeds: neither assertion fails. The
  -- thread is not active any more, the other threads are as before, and the domain stays valid and
  -- keeps its tasks.
  pub remove_thread-IsValid :
      (i : ℕ) (d : Domain)
      → IsValid cpus priority d
      → 0 < count i d.active
      → (d' : Domain) × (remove_thread i d ≡ some d')
        × IsValid cpus priority d'
        × ((j : ℕ) → count j d'.active ≡ (if i == j then 0 else count j d.active))
        × ((t : ℕ) → holds t d' ≡ holds t d)
  unfolding remove_thread
  remove_thread-IsValid i d v p =
      let left = erase i d.active in
      let gone : count i left ≡ 0 = ground (arith, count-erase i i d.active p, v.once i) in
      let (lvs, e, v', hs) =
        on_levels-IsValid left (deregister_thread i) d v
          (λ j. ground (arith, count-erase i j d.active p, v.once j))
          (λ j q. v.here j (ground (arith, count-erase i j d.active p)))
          (λ lv w. deregister-Kept d.active i lv (v.here i p) p (v.once i) w) in
      (
        record d { active = left; levels = lvs },
        rw (e, contains_iff i d.active, contains_iff i left, gone, lt→ltb 0 _ p) refl,
        v',
        (λ j. ground (arith, count-erase i j d.active p, gone)),
        hs,
      )
