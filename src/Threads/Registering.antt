-- ===== src/Threads/Registering.antt =====
-- Registering a thread, and ending all of them.
use pgasus.Common.{
  ℕ, suc, ◌+◌, ◌≤◌, ◌<◌, ◌≡◌, refl, sym, ap, subst, ◌∙◌, true, none, some, List, [], ◌∷◌, ◌++◌,
  ◌==◌, ==_iff, ltb, lt→ltb, if◌then◌else◌, length, get_or, get_or-set, set, arith, Bool-cases, inl,
  inr,
}
use pgasus.Threads.{
  State, Thread, associate, start, Manager, put_thread, best_spot, choose, register_thread,
}

below :
    (f : ℕ → ℕ) (n m : ℕ) → ((j : ℕ) → j < n → m ≤ f j) → m ≤ f n → (j : ℕ) → j < suc n → m ≤ f j
below f n m h e j lt = elim (Bool-cases (j == n)) [
  | inl b ↦ subst (λ k. m ≤ f k) (sym ((==_iff j n).0 b)) e
  | inr b ↦ h j (ground arith)
]

-- The loop ends with a core that is in range and whose list is a shortest one.
best_spot-least :
    (all ls : List (List ℕ)) (i core : ℕ)
    → core < i
    → i + length ls ≡ length all
    → ((j : ℕ) → get_or all (i + j) [] ≡ get_or ls j [])
    → ((j : ℕ) → j < i → length (get_or all core []) ≤ length (get_or all j []))
    → (best_spot all i core ls < length all)
      × ((j : ℕ)
          → j < length all
          → length (get_or all (best_spot all i core ls) []) ≤ length (get_or all j []))
unfolding best_spot
best_spot-least all [] i core c w e h = (omega (arith, w), λ j lt. h j (omega (arith, w)))
best_spot-least all (l ∷ ls) i core c w e h =
    let here : get_or all i [] ≡ l = ap (λ k. get_or all k []) (omega arith) ∙ e 0 in
    elim (Bool-cases (ltb (length l) (length (get_or all core [])))) [
      | inl b ↦ rw b (
          best_spot-least all ls (suc i) i (omega arith) (omega (arith, w))
            (λ j. ap (λ k. get_or all k []) (omega arith) ∙ e (suc j))
            (below (λ j. length (get_or all j [])) i (length (get_or all i []))
              (λ j lt. ground (arith, here, h j lt)) (omega arith)))
      | inr b ↦ rw b (
          best_spot-least all ls (suc i) core (omega arith) (omega (arith, w))
            (λ j. ap (λ k. get_or all k []) (omega arith) ∙ e (suc j))
            (below (λ j. length (get_or all j [])) i (length (get_or all core [])) h
              (ground (arith, here))))
    ]

choose-least :
    (ls : List (List ℕ))
    → 0 < length ls
    → (choose none ls < length ls)
      × ((j : ℕ) → j < length ls → length (get_or ls (choose none ls) []) ≤ length (get_or ls j []))
unfolding choose
choose-least [] h = absurd (omega arith)
choose-least (l ∷ ls) h =
    best_spot-least (l ∷ ls) ls 1 0 (omega arith) (omega arith)
      (λ j. let next : 1 + j ≡ suc j = omega arith in ap (λ k. get_or (l ∷ ls) k []) next)
      (λ j lt.
        let first : 0 ≡ j = omega (arith, lt) in
        subst (λ k. length l ≤ length (get_or (l ∷ ls) k [])) first (omega arith))

-- `register_thread` without a wish, of a thread that has just been created, with a manager of at least
-- one core, succeeds: the thread runs on the processor of its core, at the end of a list that was a
-- shortest one. The other lists and threads stay as they are.
pub register_thread-shortest :
    (t : ℕ) (m : Manager)
    → (m.store t).state ≡ State.created
    → 0 < length m.cpu_threads
    → (m' : Manager) × (core : ℕ) × (register_thread t none m ≡ some (m', core))
      × (core < length m.cpu_threads)
      × ((j : ℕ)
          → j < length m.cpu_threads
          → length (get_or m.cpu_threads core []) ≤ length (get_or m.cpu_threads j []))
      × ((j : ℕ)
          → get_or m'.cpu_threads j [] ≡ (
              if core == j
              then get_or m.cpu_threads core [] ++ t ∷ []
              else get_or m.cpu_threads j []))
      × ((u : ℕ)
          → m'.store u ≡ (
              if t == u
              then record { state = State.running; cpuid = get_or m.cpu_set core 0; managed = true }
              else m.store u))
unfolding register_thread start associate
register_thread-shortest t m e h =
    let ls = m.cpu_threads in
    let core = choose none ls in
    let (lt, least) = choose-least ls h in
    let th : Thread = record {
      state = State.running;
      cpuid = get_or m.cpu_set core 0;
      managed = true;
    } in
    let m' =
      put_thread t th (record m { cpu_threads = set ls core (get_or ls core [] ++ t ∷ []) }) in
    (
      m',
      core,
      rw (lt→ltb core _ lt, associate, e) refl,
      lt,
      least,
      (λ j. get_or-set ls core j (get_or ls core [] ++ t ∷ []) [] lt),
      λ u. refl,
    )
