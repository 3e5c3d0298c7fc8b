-- ===== src/Tasks/Staff.antt =====
-- The workers of a scheduler are the active threads of its domain.
use pgasus.Common.{
  ℕ, zero, suc, ◌+◌, ◌≤◌, ◌<◌, ◌≡◌, refl, ap, ◌∙◌, sym, subst, Bool, true, false, some, List, arith,
  if◌then◌else◌, leb, lt→ltb, le→leb, length, length-set, get_or, get_or-set, set, set-get_or,
  count, count-snoc, Bool-cases, inl, inr,
}
use pgasus.Tasks.Valid.{holds, IsValid}
use pgasus.Tasks.Workers.{add_thread-IsValid, remove_thread-IsValid}
use pgasus.Tasks.Scheduler.{
  Scheduler, works, create_thread, stop_wait_thread, set_thread, set_threads_from, set_threads,
}

abbrev pub bit : Bool → ℕ
bit b = if b then 1 else 0

module _ (cpus : ℕ) (priority : ℕ → ℕ) where
  -- The domain is valid, and its active threads are the cores that have a worker.
  pub record IsStaffed (s : Scheduler) : Type 0 where
    pub valid : IsValid cpus priority s.domain
    pub room : length s.workers ≤ cpus
    pub staff : (c : ℕ) → count c s.domain.active ≡ bit (works c s)

  -- `s'` has the workers `ws`, and the tasks of `s`.
  pub record Restaffed (ws : List Bool) (s s' : Scheduler) : Type 0 where
    pub staffed : IsStaffed s'
    pub workers : s'.workers ≡ ws
    pub tasks : (t : ℕ) → holds t s'.domain ≡ holds t s.domain

  pub create_thread-Restaffed :
      (c : ℕ) (s : Scheduler)
      → IsStaffed s
      → c < length s.workers
      → works c s ≡ false
      → (s' : Scheduler) × (create_thread c s ≡ some s') × Restaffed (set s.workers c true) s s'
  unfolding create_thread
  create_thread-Restaffed c s v h e =
      let (d, f, v', a, hs) =
        add_thread-IsValid cpus priority c s.domain v.valid (omega (arith, v.room))
          (ground (arith, v.staff c, e)) in
      (
        record { workers = set s.workers c true; domain = d },
        rw (lt→ltb c _ h, e, f) refl,
        record {
          staffed = record {
            valid = v';
            room = omega (arith, length-set s.workers c true, v.room);
            staff = λ j. rw a (
                ground (
                  arith,
                  count-snoc j c s.domain.active,
                  v.staff j,
                  get_or-set s.workers c j true false h,
                ));
          };
          workers = refl;
          tasks = hs;
        },
      )

  pub stop_wait_thread-Restaffed :
      (c : ℕ) (s : Scheduler)
      → IsStaffed s
      → c < length s.workers
      → works c s ≡ true
      → (s' : Scheduler) × (stop_wait_thread c s ≡ some s') × Restaffed (set s.workers c false) s s'
  unfolding stop_wait_thread
  stop_wait_thread-Restaffed c s v h e =
      let (d, f, v', a, hs) =
        remove_thread-IsValid cpus priority c s.domain v.valid (ground (arith, v.staff c, e)) in
      (
        record { workers = set s.workers c false; domain = d },
        rw (lt→ltb c _ h, e, f) refl,
        record {
          staffed = record {
            valid = v';
            room = omega (arith, length-set s.workers c false, v.room);
            staff = λ j. ground (arith, a j, v.staff j, get_or-set s.workers c j false false h);
          };
          workers = refl;
          tasks = hs;
        },
      )

  set_thread-Restaffed :
      (wanted : Bool) (c : ℕ) (s : Scheduler)
      → IsStaffed s
      → c < length s.workers
      → (s' : Scheduler) × (set_thread wanted c s ≡ some s')
        × Restaffed (set s.workers c wanted) s s'
  set_thread-Restaffed true c s v h = elim (Bool-cases (works c s)) [
    | inl e ↦ rw e (
      s,
      refl,
      record {
        staffed = v;
        workers = subst (λ b. s.workers ≡ set s.workers c b) e (sym (set-get_or s.workers c false));
        tasks = λ t. refl;
      },
    )
    | inr e ↦ let (s', f, r) = create_thread-Restaffed c s v h e in (s', rw e f, r)
  ]
  set_thread-Restaffed false c s v h = elim (Bool-cases (works c s)) [
    | inl e ↦ let (s', f, r) = stop_wait_thread-Restaffed c s v h e in (s', rw e f, r)
    | inr e ↦ rw e (
      s,
      refl,
      record {
        staffed = v;
        workers = subst (λ b. s.workers ≡ set s.workers c b) e (sym (set-get_or s.workers c false));
        tasks = λ t. refl;
      },
    )
  ]

  set_threads_from-Restaffed :
      (n c : ℕ) (ids : List Bool) (s : Scheduler)
      → IsStaffed s
      → c + n ≡ length s.workers
      → (s' : Scheduler) × (set_threads_from n c ids s ≡ some s')
        × IsStaffed s'
        × (length s'.workers ≡ length s.workers)
        × ((i : ℕ) → i < c + n → works i s' ≡ (if leb c i then get_or ids i false else works i s))
        × ((t : ℕ) → holds t s'.domain ≡ holds t s.domain)
  unfolding set_threads_from
  set_threads_from-Restaffed zero c ids s v l = (s, refl, v, refl, (λ i h. ground arith), λ t. refl)
  set_threads_from-Restaffed (suc n) c ids s v l =
      let b = get_or ids c false in
      let (s₁, e₁, r₁) = set_thread-Restaffed b c s v (omega (arith, l)) in
      let w : length s₁.workers ≡ length s.workers =
        ap length r₁.workers ∙ length-set s.workers c b in
      let (s', e, v', w', sets, hs) =
        set_threads_from-Restaffed n (suc c) ids s₁ r₁.staffed (omega (arith, w, l)) in
      (
        s',
        rw e₁ e,
        v',
        w' ∙ w,
        (λ i h. ground (
          arith,
          sets i (omega arith),
          ap (λ ws. get_or ws i false) r₁.workers,
          get_or-set s.workers c i b false (omega (arith, l)),
        )),
        λ t. hs t ∙ r₁.tasks t,
      )

  -- `set_threads`, with a flag for each core, succeeds: then exactly the flagged cores have a worker,
  -- these are the active threads of a valid domain, and every task is kept.
  pub set_threads-works :
      (ids : List Bool) (s : Scheduler)
      → IsStaffed s
      → length s.workers ≤ length ids
      → (s' : Scheduler) × (set_threads ids s ≡ some s')
        × IsStaffed s'
        × ((i : ℕ) → i < length s.workers → works i s' ≡ get_or ids i false)
        × ((t : ℕ) → holds t s'.domain ≡ holds t s.domain)
  unfolding set_threads
  set_threads-works ids s v h =
      let (s', e, v', w, sets, hs) =
        set_threads_from-Restaffed (length s.workers) 0 ids s v (omega arith) in
      (s', rw (le→leb _ _ h) e, v', (λ i lt. ground (arith, sets i (omega arith))), hs)
