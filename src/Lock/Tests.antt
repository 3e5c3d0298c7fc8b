-- ===== src/Lock/Tests.antt =====
-- The lock's theorem on a schedule of two threads.
use pgasus.Common.{ℕ, ◌≤◌, ◌<◌, ◌≡◌, refl, List, [], ◌∷◌, arith, sum_by}
use pgasus.Lock.{Choice, step, move, run, start}
use pgasus.Lock.Word.{is_reading, is_writing, broken}
use pgasus.Lock.Safety.{run-exclusive}

-- Thread 0 takes the lock for writing while thread 1 waits to read.
abbrev schedule : List (ℕ × Choice)
schedule =
    (0, Choice.to_write)
    ∷ (1, Choice.go_on)
    ∷ (0, Choice.go_on)
    ∷ (1, Choice.go_on)
    ∷ (0, Choice.go_on)
    ∷ (0, Choice.go_on)
    ∷ (1, Choice.spurious)
    ∷ []

run-exclusive_example :
    (sum_by is_writing (run schedule (start 2)).threads ≤ 1)
    × (0 < sum_by is_writing (run schedule (start 2)).threads
        → sum_by is_reading (run schedule (start 2)).threads ≡ 0)
    × (sum_by broken (run schedule (start 2)).threads ≡ 0)
run-exclusive_example = run-exclusive 2 schedule (omega arith)

-- The schedule does give thread 0 the lock.
one_writer : sum_by is_writing (run schedule (start 2)).threads ≡ 1
unfolding run start move step sum_by
one_writer = refl
