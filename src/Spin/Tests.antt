-- ===== src/Spin/Tests.antt =====
-- Threads at one lock.
use pgasus.Common.{ℕ, ◌*◌, ◌≤◌, List, [], ◌∷◌, sum_by, ◌≡◌, refl, ◌++◌, replicate}
use pgasus.Spin.{max_backoff, may_grow, doubled, Call, step, start, move, run}
use pgasus.Spin.Exclusion.{owns, holds, as_number, run-one_holder}

-- Two threads, one of which gets the lock.
abbrev moves : List (ℕ × Call)
moves =
    (0, Call.lock)
    ∷ (1, Call.try_lock)
    ∷ (0, Call.lock)
    ∷ (1, Call.lock)
    ∷ (0, Call.lock)
    ∷ (1, Call.lock)
    ∷ []

run-one_holder_example :
    (sum_by owns (run moves (start 2)).threads ≡ as_number (run moves (start 2)).flag.locked)
    × (sum_by holds (run moves (start 2)).threads ≤ sum_by owns (run moves (start 2)).threads)
    × (sum_by owns (run moves (start 2)).threads ≤ 1)
run-one_holder_example = run-one_holder 2 moves

held : sum_by holds (run moves (start 2)).threads ≡ 1
unfolding run start move step sum_by may_grow
held = refl

-- While thread 0 has the lock, thread 1 doubles the back-off up to 512, and then both thread 1 and thread 2 pass the
-- test against the bound before either of them doubles it.
abbrev crossing : List (ℕ × Call)
crossing =
    replicate 2 (0, Call.lock)
    ++ replicate 23 (1, Call.lock)
    ++ replicate 3 (2, Call.lock)
    ++ replicate 2 (1, Call.lock)
    ++ replicate 2 (2, Call.lock)

overshot : (run crossing (start 3)).flag.curr ≡ 2 * max_backoff
unfolding run start move step may_grow doubled
overshot = refl
