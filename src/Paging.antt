-- ===== src/Paging.antt =====
-- src/msource/mmaphelper.cpp, and `migrate` and `stats` of src/msource/msource.cpp: the pages of memory that are
-- asked about or moved to a node. What the system calls return is an argument.
pub mod Pages
pub mod Masks
pub mod Totals
pub mod Tests
use pgasus.Common.{
  ℕ, zero, suc, ◌+◌, ◌-◌, ◌*◌, ◌/◌, ◌%◌, ◌^◌, Bool, true, false, Option, none, some, List, [], ◌∷◌,
  ◌++◌, map, ◌==◌, ltb, leb, if◌then◌else◌, ◌>>=◌, length, get_or, set, replicate, bit_and, bit_or,
}
use pgasus.Nodes.{ℤ, negsuc}
use pgasus.Msource.Align.{word, align_up, align_down}
use pgasus.Msource.World.{Memory, World, Source, Arena, mem_page_size, size_of, next_of, put_source}

-- The loop over pages from `i` on, up to `last`, with fuel.
unfoldable pub pages_upto : ℕ → ℕ → ℕ → List ℕ
pages_upto zero i last = []
pages_upto (suc fuel) i last =
    let rest = pages_upto fuel (i + mem_page_size) last in if leb i last then i ∷ rest else []

-- The loop over pages below an end.
unfoldable pub pages_below : ℕ → ℕ → ℕ → List ℕ
pages_below zero i end = []
pages_below (suc fuel) i end =
    let rest = pages_below fuel (i + mem_page_size) end in if ltb i end then i ∷ rest else []

-- `add_pages_to_vector`, as the pages that it adds.
unfoldable pub add_pages : (start end : ℕ) → List ℕ
add_pages start end =
    let istart = align_down start mem_page_size in
    let iend = align_down end mem_page_size in pages_upto (suc (iend - istart)) istart iend

-- `align_page`, with `PAGE_MASK`.
unfoldable pub align_page : ℕ → ℕ
align_page p = bit_and p (word - 1 - 4095)

-- The pages that `getNumaNodeForMemory` asks about, for `sz` bytes from `ptr` on.
unfoldable pub asked_pages : (ptr sz : ℕ) → List ℕ
asked_pages ptr sz =
    let base = align_page ptr in
    let end = align_page (ptr + sz) in pages_upto (suc (end - base)) base end

-- `getNumaNodeForMemory`, where the system answers with a node for each page, or fails.
unfoldable pub get_numa_nodes : (List ℕ → Option (List ℤ)) → (ptr sz : ℕ) → List ℤ
get_numa_nodes query ptr sz =
    let pages = asked_pages ptr sz in
    elim (query pages) [ none ↦ map (λ p. negsuc 0) pages | some nodes ↦ nodes ]

-- The vector that `moveMemory` passes to the system; it starts with as many null pointers as it has elements
-- when it is made.
unfoldable pub moved_pages : (p sz : ℕ) → List ℕ
moved_pages p sz =
    replicate (sz / 4096 + 1) 0 ++ pages_below (suc (p + sz - align_page p)) (align_page p) (p + sz)

-- The offsets at which `touchMemory` reads and writes.
unfoldable pub touched : ℕ → List ℕ
touched sz = pages_below (suc sz) 0 sz

-- The node mask of `bindMemory`, in words of 64 bits, with its assertion.
abbrev pub node_mask_max : ℕ
node_mask_max = 1024

abbrev pub item_size : ℕ
item_size = 64

unfoldable pub node_mask : ℕ → Option (List ℕ)
node_mask node =
    let zeros = replicate (node_mask_max / item_size) 0 in
    if ltb node node_mask_max
    then some (
        set zeros (node / item_size)
          (bit_or (get_or zeros (node / item_size) 0) (2 ^ (node % item_size))))
    else none

-- The loop of `migrate` over the mapped blocks, with fuel.
unfoldable pub chunk_pages : ℕ → ℕ → Memory → Option (List ℕ)
chunk_pages zero c m = none
chunk_pages (suc fuel) c m =
    let rest = do ps ← chunk_pages fuel (next_of m c) m; some (add_pages c (c + size_of m c) ++ ps)
    in if c == 0 then some [] else rest

-- The loop over the arenas. `msp` is what `create_mspace_with_base` has returned for an arena, and `top_chunk`
-- where `mspace_get_top_chunk_extent` says that its top chunk starts.
unfoldable pub arena_pages : (msp top_chunk : Arena → ℕ) → List Arena → List ℕ
arena_pages msp top_chunk [] = []
arena_pages msp top_chunk (a ∷ as_) =
    add_pages (msp a) (top_chunk a) ++ arena_pages msp top_chunk as_

-- `migrate`: the pages that are moved, their number, and the source on its new node.
unfoldable pub migrate :
    (msp top_chunk : Arena → ℕ) (fuel ms dst : ℕ) → World → Option (World × List ℕ × ℕ)
migrate msp top_chunk fuel ms dst w = do
  ps ← chunk_pages fuel (w.sources ms).mmapped_chunk_head w.memory
  let pages = arena_pages msp top_chunk (w.sources ms).arenas ++ ps
  some (put_source ms (record (w.sources ms) { node = some dst }) w, pages, length pages)

-- `msource_info`.
pub record Info : Type 0 where
  pub arena_count : ℕ
  pub arena_used : ℕ
  pub arena_size : ℕ
  pub hugeobj_count : ℕ
  pub hugeobj_used : ℕ
  pub hugeobj_size : ℕ

-- The loop of `stats` over the arenas, with the `uordblks` that `mspace_mallinfo` reports for each.
unfoldable pub arena_stats : (uordblks : Arena → ℕ) → List Arena → Info → Info
arena_stats uordblks [] r = r
arena_stats uordblks (a ∷ as_) r =
    let base = align_down a.at mem_page_size in
    let end = a.at + a.alloc_end in
    arena_stats uordblks as_ (record r {
      arena_used = r.arena_used + align_up (end - base) mem_page_size;
      arena_size = r.arena_size + uordblks a;
      arena_count = r.arena_count + 1;
    })

-- The loop over the mapped blocks, with fuel.
unfoldable pub chunk_stats : ℕ → ℕ → Memory → Info → Option Info
chunk_stats zero c m r = none
chunk_stats (suc fuel) c m r =
    let rest = chunk_stats fuel (next_of m c) m (record r {
      hugeobj_used = r.hugeobj_used + align_up (size_of m c) mem_page_size;
      hugeobj_size = r.hugeobj_size + size_of m c;
      hugeobj_count = r.hugeobj_count + 1;
    }) in
    if c == 0 then some r else rest

abbrev pub no_info : Info
no_info = record {
  arena_count = 0;
  arena_used = 0;
  arena_size = 0;
  hugeobj_count = 0;
  hugeobj_used = 0;
  hugeobj_size = 0;
}

unfoldable pub stats : (uordblks : Arena → ℕ) (fuel : ℕ) → Source → Memory → Option Info
stats uordblks fuel s m =
    chunk_stats fuel s.mmapped_chunk_head m (arena_stats uordblks s.arenas no_info)
