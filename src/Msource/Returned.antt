-- ===== src/Msource/Returned.antt =====
-- Release of a block of an arena.
use pgasus.Common.{
  ℕ, suc, ◌+◌, ◌≡◌, ◌≢◌, refl, subst, true, false, some, List, ◌==◌, ==_iff, ◌&&◌, length, arith,
}
use pgasus.Msource.Counter.{IsCount, remove_block, remove_block-IsCount}
use pgasus.Msource.World.{World, mspace_free, put_source, give_back}
use pgasus.Msource.Source.{free_impl, get_footer_for_mem}
use pgasus.Msource.Release.{free}
use pgasus.Msource.Mapped.{IsSource}
use pgasus.Msource.Ending.{Fate, last_use-Fate}
use pgasus.Msource.Small.{Footed}

-- The chunk is given back to the arena, and one block fewer is counted.
abbrev pub returned : (ms a ch : ℕ) → World → World
returned ms a ch w =
    give_back (mspace_free a ch)
      (put_source ms (record (w.sources ms) { count = (remove_block (w.sources ms).count).0 }) w)

returned-IsSource :
    (ms a ch : ℕ) (w : World) (xs : List ℕ) (n r : ℕ)
    → IsSource w ms xs (suc n) r
    → IsSource (returned ms a ch w) ms xs n r
      × ((remove_block (w.sources ms).count).1 ≡ (length xs + n == 0 && r == 0))
returned-IsSource ms a ch w xs n r i =
    let counted : IsCount (w.sources ms).count (suc (length xs + n), r) =
      subst (λ b. IsCount (w.sources ms).count (b, r)) (omega arith) i.counted in
    let (count, answer) = remove_block-IsCount (w.sources ms).count (length xs + n) r counted in
    let same : (ms == ms) ≡ true = (==_iff ms ms).1 refl in
    (
      record {
        valid = i.valid;
        spread = i.spread;
        chunks = rw same i.chunks;
        counted = rw same count;
      },
      answer,
    )

free_impl-small :
    (ms a p ch : ℕ) (w : World)
    → Footed ms a w.memory ch
    → a ≢ 0
    → free_impl ms p ch w ≡ (returned ms a ch w, (remove_block (w.sources ms).count).1)
unfolding free_impl
free_impl-small ms a p ch w footed valid =
    let small : (w.memory (ch + 8) == 0) ≡ false = ground (arith, footed.arena, valid) in
    rw (small, footed.arena) refl

-- Release of a block of an arena by a pointer from which its footer is found: the chunk goes back to
-- that arena, one block fewer is counted, and the source is destroyed if that was its last use.
pub free-returned :
    (fuel ms a p ch : ℕ) (w : World) (xs : List ℕ) (n r : ℕ)
    → IsSource w ms xs (suc n) r
    → p ≢ 0
    → get_footer_for_mem (suc fuel) p w.memory ≡ some ch
    → Footed ms a w.memory ch
    → a ≢ 0
    → (w' : World) × (free (suc fuel) p w ≡ some w') × Fate (returned ms a ch w) ms xs n r w'
unfolding free
free-returned fuel ms a p ch w xs n r i some_p found footed valid =
    let (i', answer) = returned-IsSource ms a ch w xs n r i in
    let given : (p == 0) ≡ false = ground (arith, some_p) in
    rw (given, found, footed.source, free_impl-small ms a p ch w footed valid, answer)
      (last_use-Fate fuel ms (returned ms a ch w) xs n r i')
