-- ===== src/Paging/Tests.antt =====
-- A region of two pages, a node mask, and a source with one mapped block.
use pgasus.Common.{
  true, ◌+◌, ◌*◌, ◌/◌, ◌≡◌, refl, ◌&&◌, some, none, [], ◌∷◌, ◌==◌, leb, ltb, if◌then◌else◌, count,
  sum_by, arith,
}
use pgasus.Msource.World.{Memory, World, Arena, Source, size_of}
use pgasus.Paging.{moved_pages}
use pgasus.Paging.Pages.{moved_pages-count}
use pgasus.Paging.Totals.{covers}

moved_pages-count_example : count (0 * 4096) (moved_pages 8200 8192) ≡ (
    if 0 == 0
    then 8192 / 4096 + 1
    else (if leb (8200 / 4096) 0 && ltb (0 * 4096) (8200 + 8192) then 1 else 0))
moved_pages-count_example = moved_pages-count 8200 8192 0 (omega arith) (omega arith)

-- A block of 9000 bytes at 40960, of the source at 4096.
abbrev memory : Memory
memory a = if a == 40960 then 9000 else (if a == 40960 + 24 then 4096 else 0)

abbrev source : Source
source = record {
  node = some 0;
  node_home = none;
  mmap_threshold = 100;
  mem_size = 4096;
  arenas = record { at = 4500; size = 60000; alloc_end = 4096; native = true; base = 8192 } ∷ [];
  mmapped_chunk_head = 40960;
  count = 0;
}

abbrev world : World
world = record { memory = memory; sources = λ x. source; all = 4096 ∷ []; freed = [] }

-- The page 8192 is in the arena, and the pages 40960 to 49152 are in the block.
in_arena : sum_by (λ (a : Arena). covers 2 8192 12000) source.arenas ≡ 1
unfolding covers sum_by
in_arena = refl

in_block : sum_by (λ c. covers 12 c (c + size_of memory c)) (40960 ∷ []) ≡ 1
unfolding covers sum_by
in_block = refl
