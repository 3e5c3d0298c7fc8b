-- ===== src/Msource/Small.antt =====
-- Blocks in the arenas: allocation, with a new arena when the active one is full, and release.
use pgasus.Common.{
  All, ℕ, suc, ◌+◌, ◌-◌, ◌^◌, ◌≤◌, ◌<◌, ◌≡◌, ◌≢◌, ◌⊎◌, inl, inr, refl, subst, true, false, some,
  List, [], ◌∷◌, ◌==◌, ==_iff, leb, length, arith, Bool-cases, Option-cases,
}
use pgasus.Msource.Counter.{IsCount, add_block, add_block-IsCount}
use pgasus.Msource.World.{World, Memory, Arena, Source, write, source_of, arena_of}
use pgasus.Msource.Source.{
  Given, alloc, keep_chunk, alloc_new, raised, alloc_small, arena_alloc, create_new_arena,
  get_footer_for_mem, follow, write_footer,
}
use pgasus.Msource.Chunks.{Agree, Agree-Segment}
use pgasus.Msource.Mapped.{IsSource}

-- dlmalloc's chunk at `ch` is outside the headers of the mapped blocks.
abbrev pub Outside : ℕ → List ℕ → Type 0
Outside ch xs = All (λ x. (ch + 16 ≤ x) ⊎ (x + 40 ≤ ch)) xs

write_footer-Agree :
    (ch ms a : ℕ) (m : Memory) (xs : List ℕ) → Outside ch xs → Agree m (write_footer ch ms a m) xs
unfolding write
write_footer-Agree ch ms a m [] out = tt
write_footer-Agree ch ms a m (x ∷ xs) (here, out) =
    (λ i le ge. ground (arith, here, le, ge), write_footer-Agree ch ms a m xs out)

abbrev pub active_at : List Arena → ℕ
active_at [] = 0
active_at (a ∷ rest) = a.at

-- A chunk with a footer that names the source and the arena.
pub record Footed (ms a : ℕ) (m : Memory) (ch : ℕ) : Type 0 where
  pub given : ch ≢ 0
  pub source : source_of m ch ≡ ms
  pub arena : arena_of m ch ≡ a

-- The outcome of an allocation in the arenas: no chunk, or one of the arena that is active then.
abbrev pub Got : (ms : ℕ) → Memory → List ℕ → (List Arena × Memory) × ℕ → Type 0
Got ms m xs ((arenas, m'), ch) = Agree m m' xs × ((ch ≡ 0) ⊎ Footed ms (active_at arenas) m' ch)

write_footer-Footed : (ch ms a : ℕ) (m : Memory) → ch ≢ 0 → Footed ms a (write_footer ch ms a m) ch
unfolding write
write_footer-Footed ch ms a m given = record {
  given = given;
  source = ground arith;
  arena = ground arith;
}

Agree-same : (m : Memory) (xs : List ℕ) → Agree m m xs
Agree-same m [] = tt
Agree-same m (x ∷ xs) = (λ a le ge. refl, Agree-same m xs)

-- `Arena::alloc` on both branches.
arena_alloc-none :
    (ms : ℕ) (a : Arena) (sz ch : ℕ) (m : Memory)
    → (ch == 0) ≡ true
    → arena_alloc ms a sz ch m ≡ ((a, m), 0)
unfolding arena_alloc
arena_alloc-none ms a sz ch m e = rw e refl

arena_alloc-some :
    (ms : ℕ) (a : Arena) (sz ch : ℕ) (m : Memory)
    → (ch == 0) ≡ false
    → arena_alloc ms a sz ch m ≡ ((raised ch sz a, write_footer ch ms a.at m), ch)
unfolding arena_alloc
arena_alloc-some ms a sz ch m e = rw e refl

non-null : (ch : ℕ) → (ch == 0) ≡ false → ch ≢ 0
non-null ch e z = ground (arith, e, z)

alloc_new-Got :
    (sizeof_arena ms bytes : ℕ) (g : Given) (s : Source) (arenas : List Arena) (m : Memory)
    (xs : List ℕ)
    → Outside g.new_chunk xs
    → Got ms m xs (alloc_new sizeof_arena ms bytes g s arenas m)
unfolding alloc_new
alloc_new-Got sizeof_arena ms bytes g s arenas m xs out =
    elim (Option-cases (create_new_arena sizeof_arena g.arena g.arena_blocks s)) [
      | inl none_new ↦ rw (alloc_new, none_new) (Agree-same m xs, inl refl)
      | inr (b, new) ↦ elim (Bool-cases (g.new_chunk == 0)) [
        | inl full ↦
            rw (alloc_new, new, arena_alloc-none ms b bytes g.new_chunk m full)
              (Agree-same m xs, inl refl)
        | inr got ↦
            rw (alloc_new, new, arena_alloc-some ms b bytes g.new_chunk m got)
              (
                write_footer-Agree g.new_chunk ms b.at m xs out,
                inr (write_footer-Footed g.new_chunk ms b.at m (non-null g.new_chunk got)),
              )
      ]
    ]

alloc_small-Got :
    (sizeof_arena ms bytes : ℕ) (g : Given) (s : Source) (arenas : List Arena) (m : Memory)
    (xs : List ℕ)
    → Outside g.active_chunk xs
    → Outside g.new_chunk xs
    → Got ms m xs (alloc_small sizeof_arena ms bytes g s arenas m)
unfolding alloc_small
alloc_small-Got sizeof_arena ms bytes g s [] m xs out out' = (Agree-same m xs, inl refl)
alloc_small-Got sizeof_arena ms bytes g s (a ∷ rest) m xs out out' =
    elim (Bool-cases (g.active_chunk == 0)) [
      | inl full ↦
          rw (arena_alloc-none ms a bytes g.active_chunk m full)
            (alloc_new-Got sizeof_arena ms bytes g s (a ∷ rest) m xs out')
      | inr got ↦
          rw (arena_alloc-some ms a bytes g.active_chunk m got, got)
            (
              write_footer-Agree g.active_chunk ms a.at m xs out,
              inr (write_footer-Footed g.active_chunk ms a.at m (non-null g.active_chunk got)),
            )
    ]

-- The outcome of `alloc` for a small block.
abbrev pub Allocated : (ms : ℕ) → List ℕ → (n r : ℕ) → World × ℕ → Type 0
Allocated ms xs n r (w, p) =
    ((p ≡ 0) × IsSource w ms xs n r)
    ⊎ ((16 < p)
        × IsSource w ms xs (suc n) r
        × Footed ms (active_at (w.sources ms).arenas) w.memory (p - 16)
        × (get_footer_for_mem 1 p w.memory ≡ some (p - 16)))

-- The footer of a chunk is found from its pointer.
found_chunk :
    (ms a ch fuel : ℕ) (m : Memory)
    → Footed ms a m ch
    → ms ≢ 0
    → get_footer_for_mem (suc fuel) (ch + 16) m ≡ some (ch + 16 - 16)
unfolding get_footer_for_mem follow
found_chunk ms a ch fuel m footed valid =
    let back : ch + 16 - 16 ≡ ch = omega arith in
    let real : (m ch == 0) ≡ false = ground (arith, footed.source, valid) in rw (back, real) refl

keep_chunk-Allocated :
    (ms : ℕ) (arenas : List Arena) (m : Memory) (ch : ℕ) (w : World) (xs : List ℕ) (n r : ℕ)
    → IsSource w ms xs n r
    → Got ms w.memory xs ((arenas, m), ch)
    → suc (length xs + n) < 2 ^ 40
    → Allocated ms xs n r (keep_chunk ms ((arenas, m), ch) w)
unfolding keep_chunk
keep_chunk-Allocated ms arenas m ch w xs n r i (agree, inl none_got) room =
    let same : (ms == ms) ≡ true = (==_iff ms ms).1 refl in
    rw none_got (
      inl (
        refl,
        record {
          valid = i.valid;
          spread = i.spread;
          chunks = rw same (
            i.chunks.0,
            Agree-Segment w.memory m ms 0 (w.sources ms).mmapped_chunk_head xs i.chunks.0 0 agree
                i.chunks.1,
          );
          counted = rw same i.counted;
        },
      ))
keep_chunk-Allocated ms arenas m ch w xs n r i (agree, inr footed) room =
    let same : (ms == ms) ≡ true = (==_iff ms ms).1 refl in
    let got : (ch == 0) ≡ false = ground (arith, footed.given) in
    let back : ch + 16 - 16 ≡ ch = omega arith in
    rw got (
      inr (
        omega (arith, footed.given),
        record {
          valid = i.valid;
          spread = i.spread;
          chunks = rw same (
            i.chunks.0,
            Agree-Segment w.memory m ms 0 (w.sources ms).mmapped_chunk_head xs i.chunks.0 0 agree
                i.chunks.1,
          );
          counted = rw same (
              subst (λ b. IsCount (add_block (w.sources ms).count) (b, r)) (omega arith)
                (add_block-IsCount (w.sources ms).count (length xs + n) r i.counted room));
        },
        rw (same, back) footed,
        found_chunk ms (active_at arenas) ch 0 m footed i.valid,
      ))

-- Allocation of a block that is not mapped: no pointer and nothing counted, or a pointer to a chunk of
-- the arena that is active then, one block more, and a footer that is found from the pointer. The mapped
-- blocks stay as they are.
pub alloc-small :
    (sizeof_arena ms bytes : ℕ) (g : Given) (w : World) (xs : List ℕ) (n r : ℕ)
    → IsSource w ms xs n r
    → bytes < (w.sources ms).mmap_threshold
    → Outside g.active_chunk xs
    → Outside g.new_chunk xs
    → suc (length xs + n) < 2 ^ 40
    → Allocated ms xs n r (alloc sizeof_arena ms bytes g w)
unfolding alloc
alloc-small sizeof_arena ms bytes g w xs n r i small out out' room =
    let not_mapped : leb (w.sources ms).mmap_threshold bytes ≡ false = ground (arith, small) in
    let s = w.sources ms in
    rw not_mapped (
      keep_chunk-Allocated ms (alloc_small sizeof_arena ms bytes g s s.arenas w.memory).0.0
        (alloc_small sizeof_arena ms bytes g s s.arenas w.memory).0.1
        (alloc_small sizeof_arena ms bytes g s s.arenas w.memory).1 w xs n r i
        (alloc_small-Got sizeof_arena ms bytes g s s.arenas w.memory xs out out') room)
