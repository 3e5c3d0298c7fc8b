-- ===== src/Containers/Tests.antt =====
-- A container of five elements, of which the third is on node 2 and the others on node 1.
use pgasus.Common.{
  ℕ, suc, ◌<◌, ◌≡◌, refl, true, some, [], ◌∷◌, ◌==◌, if◌then◌else◌, length, All, arith,
}
use pgasus.Iterating.Distributed.{iterate}
use pgasus.Containers.{adapter_ops, get, Iters, contains, create}
use pgasus.Containers.Chunks.{placed, chunks_of}
use pgasus.Containers.Cutting.{IsSized}
use pgasus.Containers.Reading.{iterate-create}

abbrev home : ℕ → ℕ
home i = if i == 2 then 2 else 1

on_first : placed home 1 0 5 ≡ 0 ∷ 1 ∷ 3 ∷ 4 ∷ []
unfolding placed
on_first = refl

home_known : (i : ℕ) → i < 5 → contains (home i) (1 ∷ 2 ∷ []) ≡ true
unfolding contains
home_known i lt = ground (arith, lt)

iterate-create_example :
    (iters : Iters) × (create home 1 5 (1 ∷ 2 ∷ []) ≡ some iters)
    × All (IsSized 1 5) (chunks_of (iters 1))
    × (iterate adapter_ops get (suc (length (chunks_of (iters 1)))) 6 (iters 1)
        ≡ some (placed home 1 0 5))
iterate-create_example = iterate-create home 1 5 1 6 (1 ∷ 2 ∷ []) home_known (omega arith)
