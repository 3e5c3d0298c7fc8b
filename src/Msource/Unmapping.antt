-- ===== src/Msource/Unmapping.antt =====
-- The loop of the destructor over the mapped blocks.
use pgasus.Common.{
  ℕ, zero, suc, ◌<◌, ◌≡◌, refl, false, some, List, [], ◌∷◌, ◌==◌, ==_iff, length, arith,
}
use pgasus.Msource.World.{World, Memory, Freed, munmap, size_of, next_of, give_back}
use pgasus.Msource.Release.{unmap_chunks}
use pgasus.Msource.Chunks.{Segment}
use pgasus.Msource.Linking.{first-Segment, empty-Segment}
use pgasus.Msource.Unlinking.{at-Segment}

-- The blocks given back one after the other, the last one first in the list.
unfoldable pub gone : Memory → List ℕ → List Freed → List Freed
gone m [] freed = freed
gone m (x ∷ xs) freed = gone m xs (munmap x (size_of m x) ∷ freed)

-- The loop over a list of mapped blocks ends after as many rounds as there are blocks, and gives each of them
-- back, in order and with its size; nothing else changes.
pub unmap_chunks-gone :
    (fuel ms p c : ℕ) (xs : List ℕ) (q : ℕ) (w : World)
    → Segment w.memory ms p c xs q 0
    → length xs < fuel
    → unmap_chunks fuel c w ≡ some (record w { freed = gone w.memory xs w.freed })
unfolding unmap_chunks gone
unmap_chunks-gone zero ms p c xs q w s h = absurd (omega arith)
unmap_chunks-gone (suc fuel) ms p c [] q w s h =
    rw ((==_iff c 0).1 (empty-Segment w.memory ms p c q 0 s)) refl
unmap_chunks-gone (suc fuel) ms p c (x ∷ xs) q w s h =
    let (e, valid) = first-Segment w.memory ms p c x xs q 0 s in
    let more : (c == 0) ≡ false = ground (arith, e, valid) in
    let (_, _, rest) = at-Segment w.memory ms p c x xs q s in
    rw (more, e)
      (unmap_chunks-gone fuel ms x (next_of w.memory x) xs q
        (give_back (munmap x (size_of w.memory x)) w) rest (omega arith))
