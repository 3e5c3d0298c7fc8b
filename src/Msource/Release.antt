-- ===== src/Msource/Release.antt =====
-- `MemSourceImpl::create`, `destroy`, `free`, `ref` and `unref`: the life of a source.
use pgasus.Common.{
  ℕ, zero, suc, ◌&&◌, Option, none, some, List, [], ◌∷◌, ◌==◌, if◌then◌else◌, ◌>>=◌,
}
use pgasus.Msource.Counter.{blocks, refs, ref, deref}
use pgasus.Msource.World.{
  World, Source, Arena, munmap, destroy_mspace, source_of, size_of, next_of, put_source, give_back,
  new_source, add_msource, remove_msource,
}
use pgasus.Msource.Source.{get_footer_for_mem, free_impl}

-- The source that is made in memory mapped at `ms`; `mapped` is for the blocks of its arena.
unfoldable pub create :
    (sizeof_impl sizeof_arena mmap_threshold ms : ℕ)
    → (phys_node : Option ℕ) (sz : ℕ) (phys_home_node : Option ℕ) (mapped : ℕ) → World
    → World
create sizeof_impl sizeof_arena mmap_threshold ms phys_node sz phys_home_node mapped w =
    add_msource ms (
      put_source ms
        (new_source sizeof_impl sizeof_arena mmap_threshold ms phys_node sz phys_home_node mapped)
        w)

-- `~Arena`.
unfoldable pub end_arena : Arena → World → World
end_arena a w =
    let w' = give_back (destroy_mspace a.at) w in
    if a.native then w' else give_back (munmap a.base a.size) w'

-- The loop over the arenas; the last one is the native one, whose structure is the source's.
unfoldable pub end_arenas : List Arena → World → World
end_arenas [] w = w
end_arenas (a ∷ []) w = end_arena a w
end_arenas (a ∷ b ∷ rest) w = end_arenas (b ∷ rest) (give_back (munmap a.at a.size) (end_arena a w))

-- The loop over the mapped blocks from `c`, with fuel.
unfoldable pub unmap_chunks : ℕ → ℕ → World → Option World
unmap_chunks zero c w = none
unmap_chunks (suc fuel) c w =
    let rest =
      unmap_chunks fuel (next_of w.memory c) (give_back (munmap c (size_of w.memory c)) w) in
    if c == 0 then some w else rest

-- `~MemSourceImpl`, with its assertion.
unfoldable pub end_source : ℕ → Source → World → Option World
end_source fuel s w =
    if refs s.count == 0 && blocks s.count == 0
    then unmap_chunks fuel s.mmapped_chunk_head (end_arenas s.arenas w)
    else none

unfoldable pub destroy : ℕ → ℕ → World → Option World
destroy fuel ms w = do
  let s = w.sources ms
  w' ← end_source fuel s (remove_msource ms w)
  some (give_back (munmap ms s.mem_size) w')

unfoldable pub ref_source : ℕ → World → World
ref_source ms w = put_source ms (record (w.sources ms) { count = ref (w.sources ms).count }) w

unfoldable pub unref_source : ℕ → ℕ → World → Option World
unref_source fuel ms w =
    let (count, last) = deref (w.sources ms).count in
    let w' = put_source ms (record (w.sources ms) { count = count }) w in
    if last then destroy fuel ms w' else some w'

-- `free`.
unfoldable pub free : ℕ → ℕ → World → Option World
free fuel p w =
    let freed = do
      ch ← get_footer_for_mem fuel p w.memory
      let ms = source_of w.memory ch
      let (w', last) = free_impl ms p ch w
      if last then destroy fuel ms w' else some w'
    in if p == 0 then some w else freed
