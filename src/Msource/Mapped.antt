-- ===== src/Msource/Mapped.antt =====
-- Blocks that are mapped one by one: allocation, and release with the last use of a source.
use pgasus.Common.{
  ℕ, ◌+◌, ◌-◌, ◌%◌, ◌^◌, ◌≤◌, ◌<◌, ◌≡◌, ◌≢◌, refl, true, false, some, List, ◌∷◌, ◌++◌, ◌==◌, ==_iff,
  if◌then◌else◌, ◌&&◌, leb, le→leb, length, count, arith, subst, suc, length-append,
}
use pgasus.Msource.Align.{word}
use pgasus.Msource.Counter.{
  IsCount, add_block, remove_block, add_block-IsCount, remove_block-IsCount,
}
use pgasus.Msource.World.{World, Memory, munmap, size_of, put_source}
use pgasus.Msource.Source.{
  Given, alloc, free_impl, get_footer_for_mem, follow, link_chunk, write_chunk, unlink_chunk,
}
use pgasus.Msource.Release.{free, destroy}
use pgasus.Msource.Chunks.{AllApart, Spread, Header}
use pgasus.Msource.Linking.{Chunks, link_chunk-Chunks, remove-Spread, split-Segment}
use pgasus.Msource.Unlinking.{unlink_chunk-Chunks, at-Segment}

-- A source with the mapped blocks `xs`, `n` blocks in its arenas and `r` references.
pub record IsSource (w : World) (ms : ℕ) (xs : List ℕ) (n r : ℕ) : Type 0 where
  pub valid : ms ≢ 0
  pub spread : Spread xs
  pub chunks : Chunks w.memory ms (w.sources ms).mmapped_chunk_head xs
  pub counted : IsCount (w.sources ms).count (length xs + n, r)

-- The footer of a mapped block is found from its pointer.
pub found_footer :
    (c ms p fuel : ℕ) (m : Memory)
    → Header m ms p c
    → ms ≢ 0
    → get_footer_for_mem (suc fuel) (c + 40) m ≡ some (c + 24)
unfolding get_footer_for_mem follow
found_footer c ms p fuel m header valid =
    let back : c + 40 - 16 ≡ c + 24 = omega arith in
    let real : (m (c + 24) == 0) ≡ false = ground (arith, header.source, valid) in
    rw (back, real) refl

-- Allocation of a block that is mapped: the pointer is behind its header, the block is at the head of
-- the list, one block more is counted, and the footer is found from the pointer.
pub alloc-mapped :
    (sizeof_arena ms bytes : ℕ) (g : Given) (w : World) (xs : List ℕ) (n r : ℕ)
    → IsSource w ms xs n r
    → (w.sources ms).mmap_threshold ≤ bytes
    → g.block ≢ 0
    → AllApart g.block xs
    → suc (length xs + n) < 2 ^ 40
    → ((alloc sizeof_arena ms bytes g w).1 ≡ g.block + 40)
      × IsSource (alloc sizeof_arena ms bytes g w).0 ms (g.block ∷ xs) n r
      × (get_footer_for_mem 1 (g.block + 40) (alloc sizeof_arena ms bytes g w).0.memory
          ≡ some (g.block + 24))
unfolding alloc get_footer_for_mem follow Spread
alloc-mapped sizeof_arena ms bytes g w xs n r i large got apart room =
    let mapped : leb (w.sources ms).mmap_threshold bytes ≡ true = le→leb _ _ large in
    let given : (g.block == 0) ≡ false = ground (arith, got) in
    let head = (w.sources ms).mmapped_chunk_head in
    let m = link_chunk g.block head (write_chunk g.block ms ((bytes + 40) % word) w.memory) in
    let chunks =
      link_chunk-Chunks g.block ms ((bytes + 40) % word) head w.memory xs got apart i.spread
        i.chunks in
    let header = at-Segment m ms 0 g.block g.block xs chunks.0 chunks.1 in
    rw (mapped, given)
      (
        refl,
        record {
          valid = i.valid;
          spread = (apart, i.spread);
          chunks = rw ((==_iff ms ms).1 refl) chunks;
          counted = rw ((==_iff ms ms).1 refl) (
              subst (λ b. IsCount (add_block (w.sources ms).count) (b, r)) (omega arith)
                (add_block-IsCount (w.sources ms).count (length xs + n) r i.counted room));
        },
        found_footer g.block ms 0 0 m header.1 i.valid,
      )

-- What `free_impl` makes of a source with the mapped block `c`.
abbrev pub without : (ms c : ℕ) → World → World
without ms c w =
    let s = w.sources ms in
    let (head, m) = unlink_chunk c s.mmapped_chunk_head w.memory in
    record (put_source ms (record s { mmapped_chunk_head = head; count = (remove_block s.count).0 })
      w) { memory = m; freed = munmap c (size_of w.memory c) ∷ w.freed }

free_impl-mapped :
    (ms c q : ℕ) (w : World)
    → Header w.memory ms q c
    → (unlink_chunk c (w.sources ms).mmapped_chunk_head w.memory).1 c ≡ w.memory c
    → free_impl ms (c + 40) (c + 24) w ≡ (without ms c w, (remove_block (w.sources ms).count).1)
unfolding free_impl
free_impl-mapped ms c q w header size =
    let back : c + 40 - 40 ≡ c = omega arith in
    let mapped : (w.memory (c + 24 + 8) == 0) ≡ true = (==_iff _ _).1 header.arena in
    rw (mapped, back, size) refl

pub without-IsSource :
    (ms c : ℕ) (w : World) (xs ys : List ℕ) (n r : ℕ)
    → IsSource w ms (xs ++ (c ∷ ys)) n r
    → IsSource (without ms c w) ms (xs ++ ys) n r
      × ((remove_block (w.sources ms).count).1 ≡ (length (xs ++ ys) + n == 0 && r == 0))
without-IsSource ms c w xs ys n r i =
    let one_more : length (xs ++ (c ∷ ys)) ≡ suc (length (xs ++ ys)) =
      omega (arith, length-append xs (c ∷ ys), length-append xs ys) in
    let counted : IsCount (w.sources ms).count (suc (length (xs ++ ys) + n), r) =
      subst (λ b. IsCount (w.sources ms).count (b, r)) (omega (arith, one_more)) i.counted in
    let (count, answer) =
      remove_block-IsCount (w.sources ms).count (length (xs ++ ys) + n) r counted in
    let (chunks, size) =
      unlink_chunk-Chunks c ms (w.sources ms).mmapped_chunk_head w.memory xs ys i.spread i.chunks in
    (
      record {
        valid = i.valid;
        spread = remove-Spread c xs ys i.spread;
        chunks = rw ((==_iff ms ms).1 refl) chunks;
        counted = rw ((==_iff ms ms).1 refl) count;
      },
      answer,
    )

-- Release of the block: the source is destroyed if that was its last use.
pub free-without :
    (fuel ms c : ℕ) (w : World) (xs ys : List ℕ) (n r : ℕ)
    → IsSource w ms (xs ++ (c ∷ ys)) n r
    → free (suc fuel) (c + 40) w ≡ (
        if (remove_block (w.sources ms).count).1
        then destroy (suc fuel) ms (without ms c w)
        else some (without ms c w))
unfolding free
free-without fuel ms c w xs ys n r i =
    let (q, t, before, after) = split-Segment w.memory ms 0 _ xs (c ∷ ys) i.chunks.0 0 i.chunks.1 in
    let (e, header, rest) = at-Segment w.memory ms q t c ys i.chunks.0 after in
    let (chunks, size) =
      unlink_chunk-Chunks c ms (w.sources ms).mmapped_chunk_head w.memory xs ys i.spread i.chunks in
    let found = found_footer c ms q fuel w.memory header i.valid in
    let some_p : (c + 40 == 0) ≡ false = ground arith in
    rw (some_p, found, header.source, free_impl-mapped ms c q w header size) refl
