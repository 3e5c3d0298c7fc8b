-- ===== src/Msource/Source.antt =====
-- `MemSourceImpl`: allocation, release, and the end of a source. What `callMmap` and dlmalloc's
-- `mspace_malloc` return is passed in.
use pgasus.Common.{
  ℕ, ◌*◌, ◌^◌, zero, suc, ◌+◌, ◌-◌, ◌%◌, Bool, Option, none, some, List, [], ◌∷◌, ◌==◌, leb, ltb,
  if◌then◌else◌,
}
use pgasus.Msource.Align.{word, align_up, is_aligned}
use pgasus.Msource.Counter.{add_block, remove_block}
use pgasus.Msource.World.{
  World, Memory, Source, Arena, munmap, mspace_free, write, source_of, arena_of, link_of, size_of,
  prev_of, next_of, footer_of, footer_from_pointer, footer_to_pointer, mmap_from_pointer,
  mmap_to_pointer, data_offset, mmap_data_offset, put_source, give_back, new_arena, dst_node,
}

-- What an allocation gets from the system: the block mapped for it, dlmalloc's chunk in the active
-- arena, the memory of a new arena and of its blocks, and dlmalloc's chunk in the new arena.
pub record Given : Type 0 where
  pub block : ℕ
  pub active_chunk : ℕ
  pub arena : ℕ
  pub arena_blocks : ℕ
  pub new_chunk : ℕ

-- The address of a chunk relative to the arena, which wraps around when the blocks are mapped below it.
abbrev pub rel_chunk_start : ℕ → Arena → ℕ
rel_chunk_start chunk a = (chunk + (word - a.at)) % word

abbrev pub raised : ℕ → ℕ → Arena → Arena
raised chunk sz a =
    let current_end = (rel_chunk_start chunk a + sz) % word in
    record a { alloc_end = if ltb a.alloc_end current_end then current_end else a.alloc_end }

abbrev pub write_footer : (ch ms arena : ℕ) → Memory → Memory
write_footer ch ms arena m = write (ch + 8) arena (write ch ms m)

-- `Arena::alloc`, where `mspace_malloc` returned `chunk`.
unfoldable pub arena_alloc : (ms : ℕ) → Arena → (sz chunk : ℕ) → Memory → (Arena × Memory) × ℕ
arena_alloc ms a sz chunk m =
    if chunk == 0 then ((a, m), 0) else ((raised chunk sz a, write_footer chunk ms a.at m), chunk)

abbrev pub arena_size : ℕ
arena_size = 64 * 2 ^ 20

-- `create_new_arena`: `given` is where the structure is mapped, 0 if it could not be.
unfoldable pub create_new_arena : (sizeof_arena given given_blocks : ℕ) → Source → Option Arena
create_new_arena sizeof_arena given given_blocks s =
    if given == 0
    then none
    else some (new_arena sizeof_arena given arena_size (dst_node s) given_blocks)

-- The arenas, the memory and the chunk after an allocation in a new active arena.
unfoldable pub alloc_new :
    (sizeof_arena ms bytes : ℕ) → Given → Source → List Arena → Memory → (List Arena × Memory) × ℕ
alloc_new sizeof_arena ms bytes g s arenas m =
    elim (create_new_arena sizeof_arena g.arena g.arena_blocks s) [
      | none ↦ ((arenas, m), 0)
      | some b ↦
          let ((b', m'), chunk) = arena_alloc ms b bytes g.new_chunk m in ((b' ∷ arenas, m'), chunk)
    ]

-- The branch of `alloc` for small blocks, with the arenas of the source.
unfoldable pub alloc_small :
    (sizeof_arena ms bytes : ℕ) → Given → Source → List Arena → Memory → (List Arena × Memory) × ℕ
alloc_small sizeof_arena ms bytes g s [] m = (([], m), 0)
alloc_small sizeof_arena ms bytes g s (a ∷ rest) m =
    let ((a', m'), chunk) = arena_alloc ms a bytes g.active_chunk m in
    let renewed = alloc_new sizeof_arena ms bytes g s (a' ∷ rest) m' in
    if chunk == 0 then renewed else ((a' ∷ rest, m'), chunk)

-- The new block at the head of the list of mapped blocks.
unfoldable pub link_chunk : (c head : ℕ) → Memory → Memory
link_chunk c head m =
    let m' = write (c + 16) head (write (c + 8) 0 m) in
    if head == 0 then m' else write (head + 8) c m'

abbrev pub write_chunk : (c ms sz : ℕ) → Memory → Memory
write_chunk c ms sz m = write c sz (write_footer (footer_of c) ms 0 m)

-- The end of `alloc` for small blocks: the world and the pointer, by the chunk.
unfoldable pub keep_chunk : ℕ → (List Arena × Memory) × ℕ → World → World × ℕ
keep_chunk ms ((arenas, m), chunk) w =
    let s = w.sources ms in
    if chunk == 0
    then (put_source ms (record s { arenas = arenas }) (record w { memory = m }), 0)
    else (
      put_source ms (record s { arenas = arenas; count = add_block s.count })
          (record w { memory = m }),
      footer_to_pointer chunk,
    )

-- `alloc`: the pointer, or 0.
unfoldable pub alloc : (sizeof_arena ms bytes : ℕ) → Given → World → World × ℕ
alloc sizeof_arena ms bytes g w =
    let s = w.sources ms in
    if leb s.mmap_threshold bytes
    then (if g.block == 0 then (w, 0) else (
      put_source ms (record s { mmapped_chunk_head = g.block; count = add_block s.count })
          (record w {
            memory =
                link_chunk g.block s.mmapped_chunk_head
                  (write_chunk g.block ms ((bytes + mmap_data_offset) % word) w.memory);
          }),
      mmap_to_pointer g.block,
    ))
    else keep_chunk ms (alloc_small sizeof_arena ms bytes g s s.arenas w.memory) w

-- The aligned pointer into a block at `p`, and the footer written below it.
unfoldable pub align_block : (align p : ℕ) → Memory → Memory × ℕ
align_block align p m =
    if is_aligned p align
    then (m, p)
    else (let pint_new = align_up (p + data_offset) align in
        (
          write_footer (footer_from_pointer pint_new) 0 (footer_from_pointer p) m,
          footer_to_pointer (footer_from_pointer pint_new),
        ))

unfoldable pub alloc_align : (sizeof_arena ms align sz : ℕ) → Given → World → World × ℕ
alloc_align sizeof_arena ms align sz g w =
    let (w', p) = alloc sizeof_arena ms ((sz + align + data_offset) % word) g w in
    let (m, q) = align_block align p w'.memory in (record w' { memory = m }, q)

-- `get_footer_for_mem`, with fuel for the links that it follows.
unfoldable pub follow : ℕ → ℕ → Memory → Option ℕ
follow zero ch m = none
follow (suc fuel) ch m =
    let rest = follow fuel (link_of m ch) m in if source_of m ch == 0 then rest else some ch

unfoldable pub get_footer_for_mem : ℕ → ℕ → Memory → Option ℕ
get_footer_for_mem fuel p m = follow fuel (footer_from_pointer p) m

-- The list of mapped blocks without `c`: the new head, and the memory.
unfoldable pub unlink_chunk : (c head : ℕ) → Memory → ℕ × Memory
unlink_chunk c head m =
    let prev = prev_of m c in
    let head' = if prev == 0 then next_of m c else head in
    let m' = if prev == 0 then m else write (prev + 16) (next_of m c) m in
    let next = next_of m' c in (head', if next == 0 then m' else write (next + 8) (prev_of m' c) m')

-- `free_impl` of the source at `ms`: whether that was the last use of it.
unfoldable pub free_impl : (ms p ch : ℕ) → World → World × Bool
free_impl ms p ch w =
    let s = w.sources ms in
    let (count, last) = remove_block s.count in
    if arena_of w.memory ch == 0
    then (let c = mmap_from_pointer p in
        let (head, m) = unlink_chunk c s.mmapped_chunk_head w.memory in
        (
          give_back (munmap c (size_of m c)) (
              put_source ms (record s { mmapped_chunk_head = head; count = count })
                (record w { memory = m })),
          last,
        ))
    else (
      give_back (mspace_free (arena_of w.memory ch) ch)
          (put_source ms (record s { count = count }) w),
      last,
    )
