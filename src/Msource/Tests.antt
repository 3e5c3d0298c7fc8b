-- ===== src/Msource/Tests.antt =====
-- A source at 4096 with an arena behind it and blocks mapped at two pages.
use pgasus.Common.{
  Bool, ◌+◌, ◌^◌, ◌≡◌, ◌≢◌, refl, true, false, none, some, List, [], ◌∷◌, ◌==◌, if◌then◌else◌,
  arith, inl, inr,
}
use pgasus.Msource.Counter.{
  Call, new_count, blocks, refs, calls, count_call, count_calls, calls-counted,
}
use pgasus.Msource.World.{World, Source, Arena, Memory, mmap_from_pointer}
use pgasus.Msource.Source.{Given, alloc, align_block, follow, get_footer_for_mem}
use pgasus.Msource.Release.{free}
use pgasus.Msource.Chunks.{Spread, Segment}
use pgasus.Msource.Mapped.{IsSource, without, alloc-mapped}
use pgasus.Msource.Ending.{Fate, free-Fate}
use pgasus.Msource.Aligned.{Placed, align_block-Placed, align_block-misses}
use pgasus.Msource.Small.{Allocated, alloc-small}

abbrev some_calls : List Call
some_calls = Call.ref_it ∷ Call.add_it ∷ Call.deref_it ∷ Call.remove_it ∷ []

abbrev told : List Bool
told = false ∷ false ∷ false ∷ true ∷ []

some_calls-counted : count_calls some_calls (0, 0) ≡ some ((0, 0), told)
unfolding count_calls count_call
some_calls-counted = refl

calls-counted_example :
    (blocks (calls some_calls new_count).0 ≡ 0)
    × (refs (calls some_calls new_count).0 ≡ 0)
    × ((calls some_calls new_count).1 ≡ told)
calls-counted_example = calls-counted some_calls (0, 0) told some_calls-counted

abbrev arena : Arena
arena = record { at = 5000; size = 10000; alloc_end = 4096; native = true; base = 5100 }

-- One mapped block at 40960, one chunk at 6000 and one reference.
abbrev source : Source
source = record {
  node = some 1;
  node_home = none;
  mmap_threshold = 1000;
  mem_size = 20480;
  arenas = arena ∷ [];
  mmapped_chunk_head = 40960;
  count = 2 + 2 ^ 40;
}

abbrev memory : Memory
memory = λ a.
    if a == 40960 + 24 then 4096 else (if a == 6000 then 4096 else (if a == 6008 then 5000 else 0))

abbrev world : World
world = record { memory = memory; sources = λ x. source; all = 4096 ∷ []; freed = [] }

world-IsSource : IsSource world 4096 (40960 ∷ []) 1 1
unfolding Spread Segment
world-IsSource = record {
  valid = omega arith;
  spread = (tt, tt);
  chunks = (
    40960,
    (refl, record { valid = omega arith; prev = refl; source = refl; arena = refl }, (refl, refl)),
  );
  counted = (refl, omega arith, omega arith);
}

abbrev given : Given
given = record { block = 81920; active_chunk = 7000; arena = 0; arena_blocks = 0; new_chunk = 0 }

alloc-mapped_example :
    ((alloc 100 4096 2000 given world).1 ≡ 81920 + 40)
    × IsSource (alloc 100 4096 2000 given world).0 4096 (81920 ∷ 40960 ∷ []) 1 1
    × (get_footer_for_mem 1 (81920 + 40) (alloc 100 4096 2000 given world).0.memory
        ≡ some (81920 + 24))
alloc-mapped_example =
    alloc-mapped 100 4096 2000 given world (40960 ∷ []) 1 1 world-IsSource (omega arith)
      (omega arith) (inr (omega arith), tt) (omega arith)

alloc-small_example : Allocated 4096 (40960 ∷ []) 1 1 (alloc 100 4096 200 given world)
alloc-small_example =
    alloc-small 100 4096 200 given world (40960 ∷ []) 1 1 world-IsSource (omega arith)
      (inl (omega arith), tt) (inl (omega arith), tt) (omega arith)

free-Fate_example :
    (w' : World) × (free 2 (40960 + 40) world ≡ some w')
    × Fate (without 4096 40960 world) 4096 [] 1 1 w'
free-Fate_example = free-Fate 1 4096 40960 world [] [] 1 1 world-IsSource

chunk_found : get_footer_for_mem 2 6016 memory ≡ some 6000
unfolding get_footer_for_mem follow
chunk_found = refl

align_block-Placed_example :
    Placed 4096 8 100 6016 (align_block (2 ^ 8) 6016 memory).0 (align_block (2 ^ 8) 6016 memory).1
align_block-Placed_example =
    align_block-Placed 4096 8 100 6016 memory (omega arith) (omega arith) (omega arith) refl
      (omega arith)

align_block-misses_example : mmap_from_pointer (align_block (2 ^ 6) (40960 + 40) memory).1 ≢ 40960
align_block-misses_example =
    align_block-misses 6 40960 memory (omega arith) (omega arith) (omega arith) (omega arith)

one_block : Segment memory 4096 0 40960 (40960 ∷ []) 40960 0
unfolding Segment
one_block =
    (refl, record { valid = omega arith; prev = refl; source = refl; arena = refl }, (refl, refl))
