-- ===== src/Msource/Unlinking.antt =====
-- Removal from the list of mapped blocks.
use pgasus.Common.{
  All, ℕ, ◌+◌, ◌≡◌, ◌≢◌, ◌⊎◌, inl, inr, refl, sym, ◌∙◌, List, [], ◌∷◌, ◌++◌, ◌==◌, ==_iff,
  if◌then◌else◌, arith, Bool-cases, subst, true, false,
}
use pgasus.Msource.World.{Memory, write, prev_of, next_of}
use pgasus.Msource.Source.{unlink_chunk}
use pgasus.Msource.Chunks.{
  AllApart, Spread, Header, Segment, Agree, Agree-Segment, AllApart-Agree, set_prev-Segment,
  last-All, last-valid, set_next-Segment,
}
use pgasus.Msource.Linking.{
  Chunks, append-Segment, split-Segment, first-Segment, empty-Segment, Spread-parts, apart_first,
}

-- The neighbours of a block point past it: what `unlink_chunk` makes of the memory.
abbrev bypass_next : (q n : ℕ) → Memory → Memory
bypass_next q n m = if q == 0 then m else write (q + 16) n m

abbrev bypass_prev : (q n : ℕ) → Memory → Memory
bypass_prev q n m = if n == 0 then m else write (n + 8) q m

Agree-refl : (m : Memory) (xs : List ℕ) → Agree m m xs
Agree-refl m [] = tt
Agree-refl m (x ∷ xs) = (λ a le ge. refl, Agree-refl m xs)

bypass_next-Agree :
    (q n : ℕ) (m : Memory) (xs : List ℕ) → AllApart q xs ⊎ (q ≡ 0) → Agree m (bypass_next q n m) xs
bypass_next-Agree q n m xs (inr z) = rw ((==_iff q 0).1 z) (Agree-refl m xs)
bypass_next-Agree q n m xs (inl h) = elim (Bool-cases (q == 0)) [
  | inl e ↦ rw e (Agree-refl m xs)
  | inr e ↦ rw e (AllApart-Agree q 16 n m xs (omega arith) h)
]

start-Segment : (m : Memory) (ms p h q t : ℕ) → Segment m ms p h [] q t → p ≡ q
unfolding Segment
start-Segment m ms p h q t (e, e') = e

to_empty-Segment : (m : Memory) (ms p h q : ℕ) → p ≡ q → Segment m ms p h [] q h
unfolding Segment
to_empty-Segment m ms p h q e = (e, refl)

bypass_next-Segment :
    (m : Memory) (ms h : ℕ) (xs : List ℕ) (q t n : ℕ)
    → Spread xs
    → Segment m ms 0 h xs q t
    → Segment (bypass_next q n m) ms 0 (if q == 0 then n else h) xs q n
bypass_next-Segment m ms h [] q t n spread s =
    let z : (q == 0) ≡ true = (==_iff q 0).1 (sym (start-Segment m ms 0 h q t s)) in
    rw z (to_empty-Segment m ms 0 n q (start-Segment m ms 0 h q t s))
bypass_next-Segment m ms h (x ∷ xs) q t n spread s =
    let valid : q ≢ 0 = last-valid m ms 0 h x xs q t s in
    let linked : (q == 0) ≡ false = ground (arith, valid) in
    rw linked (set_next-Segment m ms 0 h (x ∷ xs) q t n valid spread s)

bypass_prev-Segment :
    (m : Memory) (ms c n : ℕ) (q : ℕ) (ys : List ℕ) (r : ℕ)
    → Spread ys
    → Segment m ms c n ys r 0
    → (r' : ℕ) × Segment (bypass_prev q n m) ms q n ys r' 0
bypass_prev-Segment m ms c n q [] r spread s = (
  q,
  subst (λ x. Segment (bypass_prev q n m) ms q x [] q 0) (sym (empty-Segment m ms c n r 0 s))
      (to_empty-Segment (bypass_prev q n m) ms q 0 q refl),
)
bypass_prev-Segment m ms c n q (y ∷ ys) r spread s =
    let (e, valid) = first-Segment m ms c n y ys r 0 s in
    let linked : (n == 0) ≡ false = ground (arith, valid, e) in
    rw (linked, e)
      (
        r,
        set_prev-Segment m ms c q y ys r 0 spread (subst (λ x. Segment m ms c x (y ∷ ys) r 0) e s),
      )

bypass_prev-Agree :
    (m : Memory) (ms c n q : ℕ) (ys xs : List ℕ) (r : ℕ)
    → Segment m ms c n ys r 0
    → All (λ x. AllApart x (c ∷ ys)) xs
    → Agree m (bypass_prev q n m) xs
bypass_prev-Agree m ms c n q [] xs r s apart =
    let ended : (n == 0) ≡ true = (==_iff n 0).1 (empty-Segment m ms c n r 0 s) in
    rw ended (Agree-refl m xs)
bypass_prev-Agree m ms c n q (y ∷ ys) xs r s apart =
    let (e, valid) = first-Segment m ms c n y ys r 0 s in
    let linked : (n == 0) ≡ false = ground (arith, valid, e) in
    rw (linked, e) (AllApart-Agree y 8 q m xs (omega arith) (apart_first c y ys xs apart))

-- What a list says of the block after `xs`.
pub at-Segment :
    (m : Memory) (ms q t c : ℕ) (ys : List ℕ) (r : ℕ)
    → Segment m ms q t (c ∷ ys) r 0
    → (t ≡ c) × Header m ms q c × Segment m ms c (next_of m c) ys r 0
unfolding Segment
at-Segment m ms q t c ys r s = s

-- The last of the blocks before is apart from those after them, or there are none before.
before-apart :
    (m : Memory) (ms h : ℕ) (xs : List ℕ) (q t : ℕ) (zs : List ℕ)
    → Segment m ms 0 h xs q t
    → All (λ x. AllApart x zs) xs
    → AllApart q zs ⊎ (q ≡ 0)
before-apart m ms h [] q t zs s apart = inr (sym (start-Segment m ms 0 h q t s))
before-apart m ms h (x ∷ xs) q t zs s apart =
    inl (last-All (λ y. AllApart y zs) m ms 0 h x xs q t apart s)

tail-Spread : (c : ℕ) (ys : List ℕ) → Spread (c ∷ ys) → AllApart c ys × Spread ys
unfolding Spread
tail-Spread c ys s = s

unlink_chunk-bypass :
    (c head q : ℕ) (m : Memory)
    → prev_of m c ≡ q
    → Agree m (bypass_next q (next_of m c) m) (c ∷ [])
    → unlink_chunk c head m ≡ (
      if q == 0 then next_of m c else head,
      bypass_prev q (next_of m c) (bypass_next q (next_of m c) m),
    )
unfolding unlink_chunk
unlink_chunk-bypass c head q m e (agree, _) =
    rw (e, agree (c + 8) (omega arith) (omega arith), agree (c + 16) (omega arith) (omega arith), e)
      refl

-- The removal leaves the size of the block.
bypass_prev-size :
    (m : Memory) (ms c n q : ℕ) (ys : List ℕ) (r : ℕ)
    → AllApart c ys
    → Segment m ms c n ys r 0
    → bypass_prev q n m c ≡ m c
unfolding write
bypass_prev-size m ms c n q [] r apart s =
    let ended : (n == 0) ≡ true = (==_iff n 0).1 (empty-Segment m ms c n r 0 s) in rw ended refl
bypass_prev-size m ms c n q (y ∷ ys) r (apart, _) s =
    let (e, valid) = first-Segment m ms c n y ys r 0 s in
    let linked : (n == 0) ≡ false = ground (arith, valid, e) in
    let other : (y + 8 == c) ≡ false = ground (arith, apart) in rw (linked, e, other) refl

-- Removal from the middle of the list.
pub unlink_chunk-Chunks :
    (c ms head : ℕ) (m : Memory) (xs ys : List ℕ)
    → Spread (xs ++ (c ∷ ys))
    → Chunks m ms head (xs ++ (c ∷ ys))
    → Chunks (unlink_chunk c head m).1 ms (unlink_chunk c head m).0 (xs ++ ys)
      × ((unlink_chunk c head m).1 c ≡ m c)
unlink_chunk-Chunks c ms head m xs ys spread (r, s) =
    let (q, t, before, after) = split-Segment m ms 0 head xs (c ∷ ys) r 0 s in
    let (e, header, rest) = at-Segment m ms q t c ys r after in
    let (spread_xs, spread_cys, apart_xs) = Spread-parts xs (c ∷ ys) spread in
    let (apart, spread_ys) = tail-Spread c ys spread_cys in
    let n = next_of m c in
    let m1 = bypass_next q n m in
    let agree =
      bypass_next-Agree q n m (c ∷ ys) (before-apart m ms head xs q t (c ∷ ys) before apart_xs) in
    let rest' = Agree-Segment m m1 ms c n ys r 0 agree.1 rest in
    let (r', after') = bypass_prev-Segment m1 ms c n q ys r spread_ys rest' in
    let before' = bypass_next-Segment m ms head xs q t n spread_xs before in
    let head' = if q == 0 then n else head in
    rw (unlink_chunk-bypass c head q m header.prev (agree.0, tt)) (
      (
        r',
        append-Segment (bypass_prev q n m1) ms 0 head' xs q n ys r' 0
            (Agree-Segment m1 (bypass_prev q n m1) ms 0 head' xs q n
              (bypass_prev-Agree m1 ms c n q ys xs r rest' apart_xs) before')
            after',
      ),
      bypass_prev-size m1 ms c n q ys r apart rest' ∙ agree.0 c (omega arith) (omega arith),
    )
