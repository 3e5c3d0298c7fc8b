-- ===== src/Malloc/Calls.antt =====
-- The functions of the C library that stackedmalloc.cpp replaces, on the current source of the thread.
-- `given` is what the system gives to the allocation; 0 is the null pointer.
use pgasus.Common.{ℕ, ◌+◌, ◌*◌, ◌-◌, ◌%◌, Option, none, some, ◌==◌, if◌then◌else◌, ◌>>=◌, ltb}
use pgasus.Msource.Align.{word}
use pgasus.Msource.World.{World, arena_of, size_of, mmap_from_pointer, data_offset, mem_page_size}
use pgasus.Msource.Source.{Given, alloc, alloc_align, get_footer_for_mem}
use pgasus.Msource.Release
use pgasus.Malloc.{Local}

-- What a call returns: the world, the pointer, the bytes that it clears or copies (from where, to where and
-- how many), and the error code.
pub record Result : Type 0 where
  pub world : World
  pub pointer : ℕ
  pub cleared : Option (ℕ × ℕ)
  pub copied : Option (ℕ × (ℕ × ℕ))

abbrev pub plain : World × ℕ → Result
plain (w, p) = record { world = w; pointer = p; cleared = none; copied = none }

-- `get_block_size`, where `usable_size` is dlmalloc's.
unfoldable pub get_block_size : (usable_size : ℕ → ℕ) (fuel p : ℕ) → World → Option ℕ
get_block_size usable_size fuel p w = do
  ch ← get_footer_for_mem fuel p w.memory
  some (
      if arena_of w.memory ch == 0
      then size_of w.memory (mmap_from_pointer p)
      else usable_size ch - data_offset)

unfoldable pub old_size : (usable_size : ℕ → ℕ) (fuel p : ℕ) → World → Option ℕ
old_size usable_size fuel p w =
    let size = get_block_size usable_size fuel p w in if p == 0 then some 0 else size

-- The move to the new block, and the end of the old one.
unfoldable pub move_block : (fuel p old pnew : ℕ) → World → Option Result
move_block fuel p old pnew w =
    let moved = do
      w' ← Release.free fuel p w
      some (record (plain (w', pnew)) { copied = some (p, (pnew, old)) })
    in if p == 0 then some (plain (w, pnew)) else moved

abbrev pub no_memory : ℕ
no_memory = 12

-- The size that pvalloc asks for.
unfoldable pub pvalloc_size : ℕ → ℕ
pvalloc_size sz = ((sz + mem_page_size - 1) % word) % mem_page_size

module _ (sizeof_arena : ℕ) where
  unfoldable pub stackedmalloc : ℕ → Given → Local → World → World × ℕ
  stackedmalloc sz g l w = alloc sizeof_arena l.curr_msource sz g w

  unfoldable pub stackedmalloc_aligned : (align sz : ℕ) → Given → Local → World → World × ℕ
  stackedmalloc_aligned align sz g l w =
      if sz == 0 then (w, 0) else alloc_align sizeof_arena l.curr_msource align sz g w

  unfoldable pub malloc : ℕ → Given → Local → World → Result
  malloc sz g l w = plain (stackedmalloc sz g l w)

  -- The product wraps around.
  unfoldable pub calloc : (n sz : ℕ) → Given → Local → World → Result
  calloc n sz g l w =
      let total = (n * sz) % word in
      let (w', p) = stackedmalloc total g l w in
      record (plain (w', p)) { cleared = if p == 0 then none else some (p, total) }

  unfoldable pub realloc :
      (usable_size : ℕ → ℕ) (fuel p sz : ℕ) → Given → Local → World → Option Result
  realloc usable_size fuel p sz g l w = do
    old ← old_size usable_size fuel p w
    let (w', pnew) = stackedmalloc sz g l w
    let moved = move_block fuel p old pnew w'
    if ltb sz old then some (plain (w, p)) else (if pnew == 0 then some (plain (w', 0)) else moved)

  -- The error code, and what is stored in the pointer, if anything.
  unfoldable pub posix_memalign : (align sz : ℕ) → Given → Local → World → (World × Option ℕ) × ℕ
  posix_memalign align sz g l w =
      let (w', p) = stackedmalloc_aligned align sz g l w in
      if sz == 0
      then ((w, some 0), 0)
      else (if p == 0 then ((w', none), no_memory) else ((w', some p), 0))

  unfoldable pub memalign : (align sz : ℕ) → Given → Local → World → Result
  memalign align sz g l w = plain (stackedmalloc_aligned align sz g l w)

  unfoldable pub aligned_alloc : (align sz : ℕ) → Given → Local → World → Result
  aligned_alloc align sz g l w =
      if sz % align == 0 then plain (stackedmalloc_aligned align sz g l w) else plain (w, 0)

  unfoldable pub valloc : ℕ → Given → Local → World → Result
  valloc sz g l w = plain (stackedmalloc_aligned mem_page_size sz g l w)

  unfoldable pub pvalloc : ℕ → Given → Local → World → Result
  pvalloc sz g l w = plain (stackedmalloc_aligned mem_page_size (pvalloc_size sz) g l w)
