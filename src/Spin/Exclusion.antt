-- ===== src/Spin/Exclusion.antt =====
-- The spin lock excludes.
use pgasus.Common.{
  ℕ, ◌+◌, ◌≤◌, ◌≡◌, Bool, List, [], ◌∷◌, ltb, ltb→lt, if◌then◌else◌, length, get_or, set, sum_by,
  sum_by-set, sum_by-le, sum_by-replicate, arith, Bool-cases, inl, inr,
}
use pgasus.Spin.{may_grow, Pc, Call, Flag, step, System, start, move, run}

-- Whether a thread has set the flag, and whether it is between a lock and its unlock.
abbrev pub owns : Pc → ℕ
owns Pc.lock_reset = 1
owns Pc.try_reset = 1
owns Pc.holding = 1
owns _ = 0

abbrev pub holds : Pc → ℕ
holds Pc.holding = 1
holds _ = 0

abbrev pub as_number : Bool → ℕ
as_number b = if b then 1 else 0

-- The flag says whether a thread owns the lock.
pub record IsSafe (s : System) : Type 0 where
  pub owned : sum_by owns s.threads ≡ as_number s.flag.locked

-- A step, where the other threads contribute `r` owners.
step-owned :
    (c : Call) (f : Flag) (p : Pc) (r : ℕ)
    → r + owns p ≡ as_number f.locked
    → r + owns (step c f p).1 ≡ as_number (step c f p).0.locked
unfolding step may_grow
step-owned Call.lock f Pc.idle r h = h
step-owned Call.try_lock f Pc.idle r h = h
step-owned c f p r h = ground (arith, h)

move-IsSafe : (i : ℕ) (c : Call) (s : System) → IsSafe s → IsSafe (move i c s)
unfolding move
move-IsSafe i c s v = elim (Bool-cases (ltb i (length s.threads))) [
  | inr e ↦ rw e v
  | inl e ↦
      let p = get_or s.threads i Pc.idle in
      let t = step c s.flag p in
      let sums = sum_by-set owns s.threads i t.1 Pc.idle (ltb→lt i _ e) in
      let r = sum_by owns (set s.threads i Pc.idle) in
      let before = sum_by-set owns s.threads i Pc.idle Pc.idle (ltb→lt i _ e) in
      let after = step-owned c s.flag p r (omega (arith, before, v.owned)) in
      rw e (record { owned = omega (arith, sums, before, after) })
]

run-IsSafe : (ms : List (ℕ × Call)) (s : System) → IsSafe s → IsSafe (run ms s)
unfolding run
run-IsSafe [] s v = v
run-IsSafe ((i, c) ∷ ms) s v = run-IsSafe ms (move i c s) (move-IsSafe i c s v)

start-IsSafe : (n : ℕ) → IsSafe (start n)
unfolding start
start-IsSafe n = record { owned = omega (arith, sum_by-replicate owns n Pc.idle) }

holds-le-owns : (p : Pc) → holds p ≤ owns p
holds-le-owns Pc.holding = omega arith
holds-le-owns _ = omega arith

-- Whatever the schedule of the threads that share a new spin lock, by `lock` and `try_lock`, with every access to
-- the flag and to the back-off a step of its own: the flag is set exactly if a thread has set it and not
-- yet cleared it, there is never more than one such thread, and at most this one is between a lock and its
-- unlock.
pub run-one_holder :
    (n : ℕ) (ms : List (ℕ × Call))
    → (sum_by owns (run ms (start n)).threads ≡ as_number (run ms (start n)).flag.locked)
      × (sum_by holds (run ms (start n)).threads ≤ sum_by owns (run ms (start n)).threads)
      × (sum_by owns (run ms (start n)).threads ≤ 1)
run-one_holder n ms =
    let s = run ms (start n) in
    let v = run-IsSafe ms (start n) (start-IsSafe n) in
    (v.owned, sum_by-le holds owns holds-le-owns s.threads, ground (arith, v.owned))
