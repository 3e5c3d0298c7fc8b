-- ===== src/Replicated/Tests.antt =====
-- Two threads that ask for the object of node 1, of three nodes, at the same time.
use pgasus.Common.{ℕ, ◌≡◌, ◌≢◌, refl, none, some, List, [], ◌∷◌, get_or, count}
use pgasus.Replicated.{Pc, step, start, move, run, get_all_registered}
use pgasus.Replicated.Single.{run-one_object}

-- Both see that there is no object; thread 0 gets the lock first.
abbrev moves : List (ℕ × ℕ)
moves =
    (0, 1)
    ∷ (1, 1)
    ∷ (0, 1)
    ∷ (1, 1)
    ∷ (0, 1)
    ∷ (1, 1)
    ∷ (0, 1)
    ∷ (0, 1)
    ∷ (0, 1)
    ∷ (0, 1)
    ∷ (1, 1)
    ∷ (1, 1)
    ∷ (1, 1)
    ∷ (1, 1)
    ∷ (0, 1)
    ∷ []

first_got : get_or (run moves (start 2 3)).threads 0 Pc.idle ≡ Pc.got 1 0
unfolding run start move step
first_got = refl

second_got : get_or (run moves (start 2 3)).threads 1 Pc.idle ≡ Pc.got 1 0
unfolding run start move step
second_got = refl

registered : get_all_registered (run moves (start 2 3)).shared.data_ ≡ 0 ∷ []
unfolding run start move step get_all_registered
registered = refl

run-one_object_example :
    (count 1 (run moves (start 2 3)).shared.log ≡ 1)
    × (get_or (run moves (start 2 3)).shared.data_ 1 none ≡ some 0)
    × (get_or (run moves (start 2 3)).threads 1 Pc.idle ≢ Pc.null)
run-one_object_example = run-one_object 2 3 moves 0 1 1 0 first_got
