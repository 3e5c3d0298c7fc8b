-- ===== src/Tasks/Resizing.antt =====
-- A scheduler gets as many workers as asked for.
use pgasus.Common.{
  ℕ, zero, suc, ◌+◌, ◌-◌, ◌≤◌, ◌<◌, ◌≡◌, refl, ap, ◌∙◌, sym, Bool, true, false, some, List, [], ◌∷◌,
  arith, ltb, le→leb, length, length-set, get_or, get_or-set, set, count, Bool-cases, inl, inr,
}
use pgasus.Tasks.Valid.{holds}
use pgasus.Tasks.Scheduler.{Scheduler, works, employed, grow, shrink, set_thread_count}
use pgasus.Tasks.Staff.{
  bit, IsStaffed, Restaffed, create_thread-Restaffed, stop_wait_thread-Restaffed,
}

employed-set :
    (ws : List Bool) (c : ℕ) (b : Bool)
    → c < length ws
    → employed (set ws c b) + bit (get_or ws c false) ≡ employed ws + bit b
unfolding employed
employed-set [] c b h = absurd (omega arith)
employed-set (w ∷ ws) zero b h = omega arith
employed-set (w ∷ ws) (suc c) b h = omega (arith, employed-set ws c b)

employed-all :
    (ws : List Bool)
    → ((i : ℕ) → i < length ws → get_or ws i false ≡ true)
    → employed ws ≡ length ws
unfolding employed
employed-all [] h = refl
employed-all (w ∷ ws) h =
    rw (h 0 (omega arith)) (omega (arith, employed-all ws (λ i lt. h (suc i) (omega arith))))

employed-none :
    (ws : List Bool) → ((i : ℕ) → i < length ws → get_or ws i false ≡ false) → employed ws ≡ 0
unfolding employed
employed-none [] h = refl
employed-none (w ∷ ws) h =
    rw (h 0 (omega arith)) (omega (arith, employed-none ws (λ i lt. h (suc i) (omega arith))))

module _ (cpus : ℕ) (priority : ℕ → ℕ) where
  -- What a loop of `set_thread_count` gives.
  record Resized (s s' : Scheduler) (curr : ℕ) : Type 0 where
    pub staffed : IsStaffed cpus priority s'
    pub width : length s'.workers ≡ length s.workers
    pub counted : curr ≡ employed s'.workers
    pub tasks : (t : ℕ) → holds t s'.domain ≡ holds t s.domain

  moved :
      (s s₁ s' : Scheduler) (ws : List Bool) (curr : ℕ)
      → Restaffed cpus priority ws s s₁
      → length ws ≡ length s.workers
      → Resized s₁ s' curr
      → Resized s s' curr
  moved s s₁ s' ws curr r w z = record {
    staffed = z.staffed;
    width = z.width ∙ ap length r.workers ∙ w;
    counted = z.counted;
    tasks = λ t. z.tasks t ∙ r.tasks t;
  }

  grow-Resized :
      (n c curr count : ℕ) (s : Scheduler)
      → IsStaffed cpus priority s
      → c + n ≡ length s.workers
      → curr ≡ employed s.workers
      → count ≤ length s.workers
      → ((i : ℕ) → i < c → works i s ≡ true)
      → (s' : Scheduler) × (curr' : ℕ) × (grow n c curr count s ≡ some (s', curr'))
        × Resized s s' curr'
        × (count ≤ curr')
  unfolding grow
  grow-Resized zero c curr count s v l k h full = (
    s,
    curr,
    refl,
    record { staffed = v; width = refl; counted = k; tasks = λ t. refl },
    omega (arith, k, l, h, employed-all s.workers (λ i lt. full i (omega (arith, l)))),
  )
  grow-Resized (suc n) c curr count s v l k h full = elim (Bool-cases (ltb curr count)) [
    | inl e ↦ elim (Bool-cases (works c s)) [
      | inl f ↦
          let (s', curr', g, z, p) =
            grow-Resized n (suc c) curr count s v (omega (arith, l)) k h
              (λ i lt. ground (arith, full i, f)) in
          (s', curr', rw (e, f) g, z, p)
      | inr f ↦
          let here : c < length s.workers = omega (arith, l) in
          let (s₁, g₁, r) = create_thread-Restaffed cpus priority c s v here f in
          let w = length-set s.workers c true in
          let w₁ : length s₁.workers ≡ length s.workers = ap length r.workers ∙ w in
          let (s', curr', g, z, p) =
            grow-Resized n (suc c) (curr + 1) count s₁ r.staffed (omega (arith, l, w₁))
              (ground (arith, k, ap employed r.workers, employed-set s.workers c true here, f))
              (omega (arith, h, w₁))
              (λ i lt. ground (
                arith,
                full i,
                ap (λ ws. get_or ws i false) r.workers,
                get_or-set s.workers c i true false here,
              )) in
          (s', curr', rw (e, f, g₁) g, moved s s₁ s' _ curr' r w z, p)
    ]
    | inr e ↦ (
      s,
      curr,
      rw e refl,
      record { staffed = v; width = refl; counted = k; tasks = λ t. refl },
      ground arith,
    )
  ]

  shrink-Resized :
      (c curr count : ℕ) (s : Scheduler)
      → IsStaffed cpus priority s
      → c ≤ length s.workers
      → curr ≡ employed s.workers
      → count ≤ curr
      → ((i : ℕ) → c ≤ i → i < length s.workers → works i s ≡ false)
      → (s' : Scheduler) × (shrink c curr count s ≡ some (s', count)) × Resized s s' count
  unfolding shrink
  shrink-Resized zero curr count s v l k h idle =
      let e = employed-none s.workers (λ i lt. idle i (omega arith) lt) in
      let same : curr ≡ count = omega (arith, k, h, e) in
      (
        s,
        ap (λ x. some (s, x)) same,
        record { staffed = v; width = refl; counted = sym same ∙ k; tasks = λ t. refl },
      )
  shrink-Resized (suc c) curr count s v l k h idle = elim (Bool-cases (ltb count curr)) [
    | inl e ↦ elim (Bool-cases (works c s)) [
      | inl f ↦
          let (s₁, g₁, r) = stop_wait_thread-Restaffed cpus priority c s v l f in
          let w = length-set s.workers c false in
          let w₁ : length s₁.workers ≡ length s.workers = ap length r.workers ∙ w in
          let (s', g, z) =
            shrink-Resized c (curr - 1) count s₁ r.staffed (omega (arith, l, w₁))
              (ground (arith, k, ap employed r.workers, employed-set s.workers c false l, f))
              (ground arith)
              (λ i lo lt. ground (
                arith,
                idle i,
                w₁,
                ap (λ ws. get_or ws i false) r.workers,
                get_or-set s.workers c i false false l,
              )) in
          (s', rw (e, f, g₁) g, moved s s₁ s' _ count r w z)
      | inr f ↦
          let (s', g, z) =
            shrink-Resized c curr count s v (omega arith) k h
              (λ i lo lt. ground (arith, idle i, f)) in
          (s', rw (e, f) g, z)
    ]
    | inr e ↦
        let same : curr ≡ count = ground arith in
        (
          s,
          rw e (ap (λ x. some (s, x)) same),
          record { staffed = v; width = refl; counted = sym same ∙ k; tasks = λ t. refl },
        )
  ]

  -- `set_thread_count` with a count of at most the number of cores succeeds: then there are as many
  -- workers, these are the active threads of a valid domain, and every task is kept.
  pub set_thread_count-employed :
      (count : ℕ) (s : Scheduler)
      → IsStaffed cpus priority s
      → count ≤ length s.workers
      → (s' : Scheduler) × (set_thread_count count s ≡ some s')
        × IsStaffed cpus priority s'
        × (employed s'.workers ≡ count)
        × (length s'.workers ≡ length s.workers)
        × ((t : ℕ) → holds t s'.domain ≡ holds t s.domain)
  unfolding set_thread_count
  set_thread_count-employed count s v h =
      let (s₁, curr, e₁, z₁, p) =
        grow-Resized (length s.workers) 0 (employed s.workers) count s v (omega arith) refl h
          (λ i lt. absurd (omega arith)) in
      let (s', e, z) =
        shrink-Resized (length s.workers) curr count s₁ z₁.staffed (omega (arith, z₁.width))
          z₁.counted p (λ i lo lt. absurd (omega (arith, z₁.width))) in
      (
        s',
        rw (le→leb _ _ h, e₁, e) refl,
        z.staffed,
        sym z.counted,
        z.width ∙ z₁.width,
        λ t. z.tasks t ∙ z₁.tasks t,
      )
