-- ===== src/Malloc/Sizes.antt =====
-- What the functions of the C library promise of sizes.
use pgasus.Common.{
  ℕ, suc, ◌+◌, ◌*◌, ◌-◌, ◌%◌, ◌≤◌, ◌<◌, ◌≡◌, ◌≢◌, refl, true, false, some, ◌==◌, ==_iff, arith, ltb,
  ap, sym, Bool-cases, inl, inr,
}
use pgasus.Msource.Align.{word}
use pgasus.Msource.World.{World, size_of}
use pgasus.Msource.Source.{Given}
use pgasus.Msource.Chunks.{Header}
use pgasus.Msource.Mapped.{found_footer}
use pgasus.Malloc.{Local}
use pgasus.Malloc.Calls.{
  get_block_size, pvalloc_size, pvalloc, plain, stackedmalloc, stackedmalloc_aligned, malloc,
  realloc, old_size, move_block,
}

-- A request of pvalloc for a page or more, which does not wrap around, is for fewer bytes than wanted.
pub pvalloc_size-short : (sz : ℕ) → 4096 ≤ sz → pvalloc_size sz < sz
unfolding pvalloc_size
pvalloc_size-short sz h = omega arith

-- A request of pvalloc for one byte more than a number of pages gets no memory.
pub pvalloc-null :
    (sizeof_arena : ℕ) (pages : ℕ) (g : Given) (l : Local) (w : World)
    → (pages + 1) * 4096 < word
    → pvalloc sizeof_arena (pages * 4096 + 1) g l w ≡ plain (w, 0)
unfolding pvalloc pvalloc_size stackedmalloc_aligned
pvalloc-null sizeof_arena pages g l w room =
    let size : ((pages * 4096 + 1 + 4096 - 1) % word % 4096 == 0) ≡ true =
      (==_iff _ 0).1 (omega (arith, room)) in
    rw size refl

-- The size of a mapped block counts its header: a copy of that many bytes from the pointer ends 40 bytes
-- behind the block.
pub get_block_size-over :
    (usable_size : ℕ → ℕ) (fuel ms p c : ℕ) (w : World)
    → Header w.memory ms p c
    → ms ≢ 0
    → (old : ℕ) × (get_block_size usable_size (suc fuel) (c + 40) w ≡ some old)
      × ((c + 40) + old ≡ (c + size_of w.memory c) + 40)
unfolding get_block_size
get_block_size-over usable_size fuel ms p c w header valid =
    let found = found_footer c ms p fuel w.memory header valid in
    let mapped : (w.memory (c + 24 + 8) == 0) ≡ true = (==_iff _ _).1 header.arena in
    let back : c + 40 - 40 ≡ c = omega arith in
    (w.memory c, rw (found, mapped, back) refl, omega arith)

-- realloc of the null pointer is malloc.
pub realloc-malloc :
    (sizeof_arena : ℕ) (usable_size : ℕ → ℕ) (fuel sz : ℕ) (g : Given) (l : Local) (w : World)
    → realloc sizeof_arena usable_size fuel 0 sz g l w ≡ some (malloc sizeof_arena sz g l w)
unfolding realloc malloc old_size move_block
realloc-malloc sizeof_arena usable_size fuel sz g l w =
    let grow : ltb sz 0 ≡ false = ground arith in
    elim (Bool-cases ((stackedmalloc sizeof_arena sz g l w).1 == 0)) [
      | inl e ↦
          rw (grow, e)
            (ap (λ p. some (plain ((stackedmalloc sizeof_arena sz g l w).0, p)))
              (sym ((==_iff _ 0).0 e)))
      | inr e ↦ rw (grow, e) refl
    ]
