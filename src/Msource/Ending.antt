-- ===== src/Msource/Ending.antt =====
-- The end of a source: with the last block after the last reference, or the other way round.
use pgasus.Common.{
  All, ℕ, zero, ◌⊎◌, suc, ◌+◌, ◌<◌, ◌≡◌, ◌≢◌, refl, sym, subst, ◌∙◌, true, false, some, List, [],
  ◌∷◌, ◌++◌, ◌==◌, ==_iff, if◌then◌else◌, ◌&&◌, length, map, arith, Bool-cases, inl, inr,
}
use pgasus.Msource.Counter.{refs, blocks, deref, deref-IsCount, blocks-IsCount, refs-IsCount}
use pgasus.Msource.World.{World, Arena, munmap, give_back, put_source, remove_msource}
use pgasus.Msource.Release.{
  free, destroy, unref_source, end_arena, end_arenas, end_source, unmap_chunks,
}
use pgasus.Msource.Linking.{empty-Segment}
use pgasus.Msource.Mapped.{IsSource, without, without-IsSource, free-without}

-- What is left of a source that nothing uses: its arenas are ended, it is off the list of all sources,
-- and its memory is given back last.
pub record Ended (w : World) (ms : ℕ) (w' : World) : Type 0 where
  pub forgotten : All (λ x. x ≢ ms) w'.all
  pub freed :
      w'.freed
      ≡ munmap ms (w.sources ms).mem_size
        ∷ (end_arenas (w.sources ms).arenas (remove_msource ms w)).freed

remove_msource-forgotten :
    (ms : ℕ) (w : World) → ms ≢ 0 → All (λ x. x ≢ ms) (remove_msource ms w).all
unfolding remove_msource
remove_msource-forgotten ms w valid = each w.all
  where
    each : (xs : List ℕ) → All (λ x. x ≢ ms) (map (λ x. if x == ms then 0 else x) xs)
    each [] = tt
    each (x ∷ xs) = (ground (arith, valid), each xs)

end_arena-all : (a : Arena) (w : World) → (end_arena a w).all ≡ w.all
unfolding end_arena
end_arena-all a w = elim (Bool-cases a.native) [ inl e ↦ rw e refl | inr e ↦ rw e refl ]

end_arenas-all : (arenas : List Arena) (w : World) → (end_arenas arenas w).all ≡ w.all
unfolding end_arenas
end_arenas-all [] w = refl
end_arenas-all (a ∷ []) w = end_arena-all a w
end_arenas-all (a ∷ b ∷ rest) w =
    end_arenas-all (b ∷ rest) (give_back (munmap a.at a.size) (end_arena a w)) ∙ end_arena-all a w

destroy-Ended :
    (fuel ms : ℕ) (w : World)
    → IsSource w ms [] 0 0
    → (w' : World) × (destroy (suc fuel) ms w ≡ some w') × Ended w ms w'
unfolding destroy end_source unmap_chunks
destroy-Ended fuel ms w i =
    let no_blocks : (blocks (w.sources ms).count == 0) ≡ true =
      (==_iff _ _).1 (blocks-IsCount (w.sources ms).count 0 0 i.counted) in
    let no_refs : (refs (w.sources ms).count == 0) ≡ true =
      (==_iff _ _).1 (refs-IsCount (w.sources ms).count 0 0 i.counted) in
    let no_chunks : ((w.sources ms).mmapped_chunk_head == 0) ≡ true =
      (==_iff _ _).1
        (empty-Segment w.memory ms 0 (w.sources ms).mmapped_chunk_head i.chunks.0 0 i.chunks.1) in
    (
      give_back (munmap ms (w.sources ms).mem_size)
          (end_arenas (w.sources ms).arenas (remove_msource ms w)),
      rw (no_refs, no_blocks, no_chunks) refl,
      record {
        forgotten =
            subst (All (λ x. x ≢ ms))
              (sym (end_arenas-all (w.sources ms).arenas (remove_msource ms w)))
              (remove_msource-forgotten ms w i.valid);
        freed = refl;
      },
    )

abbrev pub counted_down : (ms : ℕ) → World → World
counted_down ms w =
    put_source ms (record (w.sources ms) { count = (deref (w.sources ms).count).0 }) w

counted_down-IsSource :
    (ms : ℕ) (w : World) (xs : List ℕ) (n r : ℕ)
    → IsSource w ms xs n (suc r)
    → IsSource (counted_down ms w) ms xs n r
      × ((deref (w.sources ms).count).1 ≡ (length xs + n == 0 && r == 0))
counted_down-IsSource ms w xs n r i =
    let (count, answer) = deref-IsCount (w.sources ms).count (length xs + n) r i.counted in
    (
      record {
        valid = i.valid;
        spread = i.spread;
        chunks = rw ((==_iff ms ms).1 refl) i.chunks;
        counted = rw ((==_iff ms ms).1 refl) count;
      },
      answer,
    )

-- What becomes of a source after a change of the world to `w`: it has another use and stays as it is there,
-- or it is ended.
abbrev pub Fate : World → (ms : ℕ) → List ℕ → (n r : ℕ) → World → Type 0
Fate w ms xs n r w' =
    ((0 < length xs + n + r) × (w' ≡ w) × IsSource w' ms xs n r)
    ⊎ ((length xs + n + r ≡ 0) × Ended w ms w')

-- The last use of a source destroys it, and any other does not.
pub last_use-Fate :
    (fuel ms : ℕ) (w : World) (xs : List ℕ) (n r : ℕ)
    → IsSource w ms xs n r
    → (w' : World) × ((if length xs + n == 0 && r == 0 then destroy (suc fuel) ms w else some w)
        ≡ some w')
      × Fate w ms xs n r w'
last_use-Fate fuel ms w [] zero zero i =
    let (w', ended, e) = destroy-Ended fuel ms w i in (w', ended, inr (refl, e))
last_use-Fate fuel ms w [] zero (suc r) i =
    let used : (suc r == 0) ≡ false = ground arith in (w, rw used refl, inl (omega arith, refl, i))
last_use-Fate fuel ms w [] (suc n) r i =
    let used : (0 + suc n == 0) ≡ false = ground arith in
    (w, rw used refl, inl (omega arith, refl, i))
last_use-Fate fuel ms w (x ∷ xs) n r i =
    let used : (suc (length xs) + n == 0) ≡ false = ground arith in
    (w, rw used refl, inl (omega arith, refl, i))

-- The end of a reference: the source lives on with its other references and blocks, and is destroyed
-- when there are none.
pub unref_source-Fate :
    (fuel ms : ℕ) (w : World) (xs : List ℕ) (n r : ℕ)
    → IsSource w ms xs n (suc r)
    → (w' : World) × (unref_source (suc fuel) ms w ≡ some w')
      × Fate (counted_down ms w) ms xs n r w'
unfolding unref_source
unref_source-Fate fuel ms w xs n r i =
    let (i', answer) = counted_down-IsSource ms w xs n r i in
    rw answer (last_use-Fate fuel ms (counted_down ms w) xs n r i')

-- Release of a mapped block `c` anywhere in the list of its source: the block goes off the list and back
-- to the system, one block fewer is counted, and the source is destroyed if that was its last use.
pub free-Fate :
    (fuel ms c : ℕ) (w : World) (xs ys : List ℕ) (n r : ℕ)
    → IsSource w ms (xs ++ (c ∷ ys)) n r
    → (w' : World) × (free (suc fuel) (c + 40) w ≡ some w')
      × Fate (without ms c w) ms (xs ++ ys) n r w'
free-Fate fuel ms c w xs ys n r i =
    let (i', answer) = without-IsSource ms c w xs ys n r i in
    rw (free-without fuel ms c w xs ys n r i, answer)
      (last_use-Fate fuel ms (without ms c w) (xs ++ ys) n r i')
