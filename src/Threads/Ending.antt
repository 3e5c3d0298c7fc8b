-- ===== src/Threads/Ending.antt =====
-- Ending all threads of a manager.
use pgasus.Common.{
  Bool, get_or, get_or-set, set, remove_all, count-remove_all, zero, suc, ℕ, ◌+◌, ◌≤◌, ◌<◌, ◌≡◌,
  refl, sym, ap, ◌∙◌, true, false, some, List, [], ◌∷◌, ◌++◌, ◌==◌, ==_iff, ltb, if◌then◌else◌,
  ◌>>=◌, length, replicate, arith, count, Bool-cases, Option-cases, if_intro, inl, inr, ◌⊎◌,
}
use pgasus.Threads.{
  holds, in_lists, manages_thread, cpu_to_idx, deregister_thread, State, Thread, join, release,
  Manager, put_thread, end_threads, end_lists, deregister_all,
}

-- A thread that has been started: it runs, or its function has returned.
unfoldable pub Started : Thread → Type 0
Started th = (th.state ≡ State.running) ⊎ (th.state ≡ State.terminated)

-- The thread after `join` and `release`.
abbrev pub ended : Thread → Thread
ended th = record th { state = State.floating; managed = false }

-- All threads that are listed.
unfoldable pub all_threads : List (List ℕ) → List ℕ
all_threads [] = []
all_threads (l ∷ ls) = l ++ all_threads ls

join-ended :
    (th : Thread)
    → Started th
    → (th' : Thread) × (join th ≡ some th') × (release th' ≡ some (ended th))
unfolding Started join release
join-ended th (inl e) = (record th { state = State.terminated }, rw (e, join) refl, refl)
join-ended th (inr e) = (
  record th { state = State.terminated },
  rw (e, join) (ap (λ s. some (record th { state = s })) e),
  refl,
)

ended_once :
    (t u n : ℕ) (f : ℕ → Thread)
    → (if u == t then 1 else 0) + n ≤ 1
    → (if ltb 0 n
        then ended (if t == u then ended (f t) else f u)
        else (if t == u then ended (f t) else f u))
      ≡ (if ltb 0 ((if u == t then 1 else 0) + n) then ended (f u) else f u)
ended_once t u n f h = elim (Bool-cases (t == u)) [
  | inl b ↦
      let same = (==_iff t u).0 b in
      let back = (==_iff u t).1 (sym same) in
      let none : ltb 0 n ≡ false = ground arith in
      let some : ltb 0 (1 + n) ≡ true = ground arith in
      rw (b, back, none, some) (ap (λ k. ended (f k)) same)
  | inr b ↦
      let back : (u == t) ≡ false = ground arith in
      let same : ltb 0 (0 + n) ≡ ltb 0 n = ground arith in rw (b, back, same) refl
]

end_threads-ended :
    (ts : List ℕ) (m : Manager)
    → ((t : ℕ) → count t ts ≤ 1)
    → ((t : ℕ) → 0 < count t ts → Started (m.store t))
    → (m' : Manager) × (end_threads ts m ≡ some m')
      × ((t : ℕ) → m'.store t ≡ (if ltb 0 (count t ts) then ended (m.store t) else m.store t))
unfolding end_threads count
end_threads-ended [] m once started = (m, refl, λ t. refl)
end_threads-ended (t ∷ ts) m once started =
    let (th, e, f) = join-ended (m.store t) (started t (ground arith)) in
    let m₁ = put_thread t (ended (m.store t)) m in
    let (m', g, h) =
      end_threads-ended ts m₁ (λ u. ground (arith, once u))
        (λ u p.
          if_intro {A = Thread} Started (t == u) (λ b. absurd (ground (arith, once u, p)))
            (λ b. started u (ground arith))) in
    (m', rw (e, f) g, λ u. h u ∙ ended_once t u (count u ts) m.store (once u))

end_lists-all_threads :
    (ls : List (List ℕ)) (m : Manager) → end_lists ls m ≡ end_threads (all_threads ls) m
unfolding end_lists all_threads end_threads
end_lists-all_threads [] m = refl
end_lists-all_threads (l ∷ ls) m = go l m (end_lists-all_threads ls)
  where
    go :
        (ts : List ℕ) (m : Manager)
        → ((m : Manager) → end_lists ls m ≡ end_threads (all_threads ls) m)
        → (end_threads ts m >>= end_lists ls) ≡ end_threads (ts ++ all_threads ls) m
    go [] m e = e m
    go (t ∷ ts) m ih = elim (Option-cases (join (m.store t))) [
      | inl e ↦ rw e refl
      | inr (th, e) ↦ elim (Option-cases (release th)) [
        | inl f ↦ rw (e, f) refl
        | inr (th', f) ↦ rw (e, f) (go ts (put_thread t th' m) ih)
      ]
    ]

-- `deregister_all` of a manager whose threads stand in its lists once and have been started succeeds:
-- its lists are empty then, its threads float without a manager, and all others are as before.
pub deregister_all-ended :
    (m : Manager)
    → ((t : ℕ) → count t (all_threads m.cpu_threads) ≤ 1)
    → ((t : ℕ) → 0 < count t (all_threads m.cpu_threads) → Started (m.store t))
    → (m' : Manager) × (deregister_all m ≡ some m')
      × (m'.cpu_threads ≡ replicate (length m.cpu_threads) [])
      × ((t : ℕ)
          → m'.store t ≡ (
              if ltb 0 (count t (all_threads m.cpu_threads)) then ended (m.store t) else m.store t))
unfolding deregister_all
deregister_all-ended m once started =
    let (m', e, h) = end_threads-ended (all_threads m.cpu_threads) m once started in
    (
      record m' { cpu_threads = replicate (length m.cpu_threads) [] },
      rw (end_lists-all_threads m.cpu_threads m, e) refl,
      refl,
      h,
    )

holds-count : (t : ℕ) (l : List ℕ) → 0 < count t l → holds t l ≡ true
unfolding holds count
holds-count t [] h = absurd (omega arith)
holds-count t (x ∷ l) h = ground (arith, holds-count t l)

in_lists-count :
    (t core : ℕ) (ls : List (List ℕ)) → 0 < count t (get_or ls core []) → in_lists t ls ≡ true
unfolding in_lists count
in_lists-count t core [] h = absurd (omega arith)
in_lists-count t zero (l ∷ ls) h = rw (holds-count t l h) refl
in_lists-count t (suc core) (l ∷ ls) h = rw (in_lists-count t core ls h) (either (holds t l))
  where
    either : (b : Bool) → (if b then true else true) ≡ true
    either true = refl
    either false = refl

-- `deregister_thread` of a started thread that stands in the list of the core of its processor
-- succeeds: the list loses it, and it floats without a manager. The other lists and threads stay as
-- they are.
pub deregister_thread-ended :
    (t core : ℕ) (m : Manager)
    → cpu_to_idx (m.store t).cpuid 0 m.cpu_set ≡ some core
    → core < length m.cpu_threads
    → 0 < count t (get_or m.cpu_threads core [])
    → Started (m.store t)
    → (m' : Manager) × (deregister_thread t m ≡ some m')
      × ((j : ℕ)
          → get_or m'.cpu_threads j [] ≡ (
              if core == j
              then remove_all t (get_or m.cpu_threads core [])
              else get_or m.cpu_threads j []))
      × (count t (get_or m'.cpu_threads core []) ≡ 0)
      × ((u : ℕ) → m'.store u ≡ (if t == u then ended (m.store t) else m.store u))
unfolding deregister_thread manages_thread
deregister_thread-ended t core m e lt here s =
    let ls = m.cpu_threads in
    let left = remove_all t (get_or ls core []) in
    let (th, f, g) = join-ended (m.store t) s in
    let sets = λ (j : ℕ). get_or-set ls core j left [] lt in
    (
      put_thread t (ended (m.store t)) (record m { cpu_threads = set ls core left }),
      rw (in_lists-count t core ls here, e, f, g) refl,
      sets,
      ground (arith, sets core, count-remove_all t t (get_or ls core [])),
      λ u. refl,
    )
