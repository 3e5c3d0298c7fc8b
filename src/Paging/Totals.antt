-- ===== src/Paging/Totals.antt =====
-- What `migrate` and `stats` see of the mapped blocks of a source.
use pgasus.Common.{
  ℕ, zero, suc, ◌+◌, ◌<◌, ◌≡◌, false, some, List, [], ◌∷◌, ◌==◌, ==_iff, length, sum_by, arith, ◌/◌,
  ◌≤◌, ◌&&◌, leb, if◌then◌else◌,
}
use pgasus.Msource.Align.{word, align_up}
use pgasus.Msource.World.{Memory, World, size_of, next_of, mem_page_size}
use pgasus.Msource.Chunks.{Segment}
use pgasus.Msource.Linking.{first-Segment, empty-Segment}
use pgasus.Msource.Unlinking.{at-Segment}
use pgasus.Paging.{add_pages, Info, chunk_stats}

-- The pages of the mapped blocks.
abbrev pub block_pages : Memory → ℕ → List ℕ
block_pages m c = add_pages c (c + size_of m c)

-- Whether a page lies between the page of a start and the page of an end, both included.
unfoldable pub covers : (q start end : ℕ) → ℕ
covers q start end = if leb (start / 4096) q && leb q (end / 4096) then 1 else 0

-- A region that does not wrap around.
abbrev pub IsRegion : (start end : ℕ) → Type 0
IsRegion start end = (start ≤ end) × (end < word)

-- The loop of stats over the mapped blocks `xs` adds up their number, their sizes, and their sizes in whole pages.
pub chunk_stats-totals :
    (fuel ms p c q : ℕ) (xs : List ℕ) (m : Memory) (r : Info)
    → Segment m ms p c xs q 0
    → length xs < fuel
    → chunk_stats fuel c m r
      ≡ some (record r {
        hugeobj_used = r.hugeobj_used + sum_by (λ x. align_up (size_of m x) mem_page_size) xs;
        hugeobj_size = r.hugeobj_size + sum_by (size_of m) xs;
        hugeobj_count = r.hugeobj_count + length xs;
      })
unfolding chunk_stats sum_by
chunk_stats-totals zero ms p c q xs m r s h = absurd (omega arith)
chunk_stats-totals (suc fuel) ms p c q [] m r s h =
    rw ((==_iff c 0).1 (empty-Segment m ms p c q 0 s)) (ground arith)
chunk_stats-totals (suc fuel) ms p c q (x ∷ xs) m r s h =
    let (e, valid) = first-Segment m ms p c x xs q 0 s in
    let more : (c == 0) ≡ false = ground (arith, e, valid) in
    let (_, _, rest) = at-Segment m ms p c x xs q s in
    let r' = record r {
      hugeobj_used = r.hugeobj_used + align_up (size_of m x) mem_page_size;
      hugeobj_size = r.hugeobj_size + size_of m x;
      hugeobj_count = r.hugeobj_count + 1;
    } in
    rw (more, e, chunk_stats-totals fuel ms x (next_of m x) q xs m r' rest (omega arith))
      (ground arith)
