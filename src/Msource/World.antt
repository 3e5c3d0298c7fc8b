-- ===== src/Msource/World.antt =====
-- The memory that sources keep their footers in, word by word, and the sources themselves.
use pgasus.Common.{
  false, ℕ, ◌+◌, ◌-◌, Bool, true, Option, none, some, List, [], ◌∷◌, ◌++◌, ◌==◌, if◌then◌else◌, map,
  Option,
}
use pgasus.Msource.Align.{align_up}
use pgasus.Msource.Counter.{new_count}

-- The words at addresses that are multiples of 8; a null pointer is 0.
abbrev pub Memory : Type 0
Memory = ℕ → ℕ

unfoldable pub write : ℕ → ℕ → Memory → Memory
write a x m b = if a == b then x else m b

-- `ChunkFooter`: the source, then the arena or the link.
abbrev pub data_offset : ℕ
data_offset = 16

abbrev pub source_of : Memory → ℕ → ℕ
source_of m ch = m ch

abbrev pub arena_of : Memory → ℕ → ℕ
arena_of m ch = m (ch + 8)

abbrev pub link_of : Memory → ℕ → ℕ
link_of m ch = m (ch + 8)

abbrev pub footer_from_pointer : ℕ → ℕ
footer_from_pointer p = p - data_offset

abbrev pub footer_to_pointer : ℕ → ℕ
footer_to_pointer ch = ch + data_offset

-- `MmapChunkFooter`: the size, the neighbours in the list, then a `ChunkFooter`.
abbrev pub mmap_data_offset : ℕ
mmap_data_offset = 40

abbrev pub size_of : Memory → ℕ → ℕ
size_of m c = m c

abbrev pub prev_of : Memory → ℕ → ℕ
prev_of m c = m (c + 8)

abbrev pub next_of : Memory → ℕ → ℕ
next_of m c = m (c + 16)

abbrev pub footer_of : ℕ → ℕ
footer_of c = c + 24

abbrev pub mmap_from_pointer : ℕ → ℕ
mmap_from_pointer p = p - mmap_data_offset

abbrev pub mmap_to_pointer : ℕ → ℕ
mmap_to_pointer c = c + mmap_data_offset

-- `at` is the address of the structure.
pub record Arena : Type 0 where
  pub at : ℕ
  pub size : ℕ
  pub alloc_end : ℕ
  pub native : Bool
  pub base : ℕ

-- The arenas in the order of their links, the active one first; the last one is the native one.
pub record Source : Type 0 where
  pub node : Option ℕ
  pub node_home : Option ℕ
  pub mmap_threshold : ℕ
  pub mem_size : ℕ
  pub arenas : List Arena
  pub mmapped_chunk_head : ℕ
  pub count : ℕ

-- What is given back to the system or to dlmalloc.
pub data Freed : Type 0 where
  munmap : (at size : ℕ) → Freed
  mspace_free : (arena chunk : ℕ) → Freed
  destroy_mspace : (arena : ℕ) → Freed

-- `sources` is by address; `all` is `s_allsources`; `freed` lists what has been given back, the last first.
pub record World : Type 0 where
  pub memory : Memory
  pub sources : ℕ → Source
  pub all : List ℕ
  pub freed : List Freed

abbrev pub put_source : ℕ → Source → World → World
put_source ms s w = record w { sources = λ x. if ms == x then s else w.sources x }

abbrev pub give_back : Freed → World → World
give_back f w = record w { freed = f ∷ w.freed }

abbrev pub mem_page_size : ℕ
mem_page_size = 4096

-- A new arena with structure at `at`. `mapped` is the memory that `callMmap` gives for its blocks when
-- they are not put beside the structure; `sizeof_arena` is the structure's size.
abbrev pub new_arena : (sizeof_arena at sz : ℕ) → Option ℕ → (mapped : ℕ) → Arena
new_arena sizeof_arena at sz none mapped =
    let base = align_up (at + sizeof_arena) 64 in
    record { at = at; size = at + sz - base; alloc_end = mem_page_size; native = true; base = base }
new_arena sizeof_arena at sz (some dst_node) mapped = record {
  at = at;
  size = sz;
  alloc_end = mem_page_size;
  native = false;
  base = mapped;
}

-- The node for the blocks of a source, where it is not the one for the structures.
abbrev pub dst_node : Source → Option ℕ
dst_node s = elim s.node_home [ none ↦ none | some home ↦ s.node ]

unfoldable pub new_source :
    (sizeof_impl sizeof_arena mmap_threshold ms : ℕ)
    → (n : Option ℕ) (sz : ℕ) (home : Option ℕ) (mapped : ℕ) → Source
new_source sizeof_impl sizeof_arena mmap_threshold ms n sz home mapped =
    let arena_start = align_up (ms + sizeof_impl) 64 in
    let arena_size = ms + sz - arena_start in
    let dst = elim home as (λ x. Option ℕ) [ none ↦ none | some h ↦ n ] in
    record {
      node = n;
      node_home = home;
      mmap_threshold = mmap_threshold;
      mem_size = sz;
      arenas = new_arena sizeof_arena arena_start arena_size dst mapped ∷ [];
      mmapped_chunk_head = 0;
      count = new_count;
    }

unfoldable pub add_msource : ℕ → World → World
add_msource ms w = record w { all = w.all ++ (ms ∷ []) }

unfoldable pub remove_msource : ℕ → World → World
remove_msource ms w = record w { all = map (λ x. if x == ms then 0 else x) w.all }
