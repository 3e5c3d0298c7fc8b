-- ===== src/Msource/Linking.antt =====
-- Insertion into the list of mapped blocks.
use pgasus.Common.{
  All, ℕ, ◌+◌, ◌≡◌, ◌≢◌, inl, inr, refl, sym, List, [], ◌∷◌, ◌++◌, ◌==◌, arith, subst, false,
}
use pgasus.Msource.World.{Memory, write, next_of}
use pgasus.Msource.Source.{link_chunk, write_chunk}
use pgasus.Msource.Chunks.{
  Apart, AllApart, Spread, Segment, Agree, Agree-Segment, AllApart-Agree, set_prev-Segment,
}

-- The list of a source from its head.
abbrev pub Chunks : Memory → ℕ → ℕ → List ℕ → Type 0
Chunks m ms head xs = (q : ℕ) × Segment m ms 0 head xs q 0

-- What the header of a new block is.
abbrev prepared : (c ms sz head : ℕ) → Memory → Memory
prepared c ms sz head m = write (c + 16) head (write (c + 8) 0 (write_chunk c ms sz m))

prepared-Agree :
    (c ms sz head : ℕ) (m : Memory) (xs : List ℕ)
    → AllApart c xs
    → Agree m (prepared c ms sz head m) xs
unfolding write
prepared-Agree c ms sz head m [] apart = tt
prepared-Agree c ms sz head m (x ∷ xs) (here, apart) =
    (λ a le ge. ground (arith, here, le, ge), prepared-Agree c ms sz head m xs apart)

pub append-Segment :
    (m : Memory) (ms p h : ℕ) (xs : List ℕ) (q t : ℕ) (ys : List ℕ) (r u : ℕ)
    → Segment m ms p h xs q t
    → Segment m ms q t ys r u
    → Segment m ms p h (xs ++ ys) r u
unfolding Segment
append-Segment m ms p h [] q t ys r u (e, e') s =
    subst (λ x. Segment m ms p x ys r u) (sym e') (subst (λ x. Segment m ms x t ys r u) (sym e) s)
append-Segment m ms p h (x ∷ xs) q t ys r u (e, header, s) s' =
    (e, header, append-Segment m ms x (next_of m x) xs q t ys r u s s')

pub split-Segment :
    (m : Memory) (ms p h : ℕ) (xs ys : List ℕ) (r u : ℕ)
    → Segment m ms p h (xs ++ ys) r u
    → (q : ℕ) × (t : ℕ) × Segment m ms p h xs q t × Segment m ms q t ys r u
unfolding Segment
split-Segment m ms p h [] ys r u s = (p, h, (refl, refl), s)
split-Segment m ms p h (x ∷ xs) ys r u (e, header, s) =
    let (q, t, s', s'') = split-Segment m ms x (next_of m x) xs ys r u s in
    (q, t, (e, header, s'), s'')

prepared-Segment :
    (c ms sz head : ℕ) (m : Memory)
    → c ≢ 0
    → Segment (prepared c ms sz head m) ms 0 c (c ∷ []) c head
unfolding Segment write
prepared-Segment c ms sz head m valid = (
  refl,
  record { valid = valid; prev = ground arith; source = ground arith; arena = ground arith },
  (refl, ground arith),
)

link_chunk-linked :
    (c ms sz x : ℕ) (m : Memory)
    → x ≢ 0
    → link_chunk c x (write_chunk c ms sz m) ≡ write (x + 8) c (prepared c ms sz x m)
unfolding link_chunk
link_chunk-linked c ms sz x m valid =
    let linked : (x == 0) ≡ false = ground (arith, valid) in rw linked refl

link_chunk-alone :
    (c ms sz : ℕ) (m : Memory) → link_chunk c 0 (write_chunk c ms sz m) ≡ prepared c ms sz 0 m
unfolding link_chunk
link_chunk-alone c ms sz m = refl

pub empty-Segment : (m : Memory) (ms p h q t : ℕ) → Segment m ms p h [] q t → h ≡ t
unfolding Segment
empty-Segment m ms p h q t (e, e') = e'

pub Apart-sym : (x y : ℕ) → Apart x y → Apart y x
Apart-sym x y (inl h) = inr h
Apart-sym x y (inr h) = inl h

pub first-Segment :
    (m : Memory) (ms p h x : ℕ) (xs : List ℕ) (q t : ℕ)
    → Segment m ms p h (x ∷ xs) q t
    → (h ≡ x) × (x ≢ 0)
unfolding Segment
first-Segment m ms p h x xs q t (e, header, s) = (e, header.valid)

pub Spread-parts :
    (xs zs : List ℕ) → Spread (xs ++ zs) → Spread xs × Spread zs × All (λ x. AllApart x zs) xs
unfolding Spread
Spread-parts [] zs spread = (tt, spread, tt)
Spread-parts (x ∷ xs) zs (apart, spread) =
    let (a, b, c) = Spread-parts xs zs spread in
    let (d, e) = apart_parts xs apart in ((d, a), b, (e, c))
  where
    apart_parts : (ys : List ℕ) → AllApart x (ys ++ zs) → AllApart x ys × AllApart x zs
    apart_parts [] h = (tt, h)
    apart_parts (y ∷ ys) (h, hs) = let (a, b) = apart_parts ys hs in ((h, a), b)

pub remove-Spread : (c : ℕ) (xs ys : List ℕ) → Spread (xs ++ (c ∷ ys)) → Spread (xs ++ ys)
unfolding Spread
remove-Spread c [] ys (apart, spread) = spread
remove-Spread c (x ∷ xs) ys (apart, spread) = (remove_one xs apart, remove-Spread c xs ys spread)
  where
    remove_one : (zs : List ℕ) → AllApart x (zs ++ (c ∷ ys)) → AllApart x (zs ++ ys)
    remove_one [] (h, hs) = hs
    remove_one (z ∷ zs) (h, hs) = (h, remove_one zs hs)

-- The block `y` of the others, from their side.
pub apart_first : (c y : ℕ) (ys xs : List ℕ) → All (λ x. AllApart x (c ∷ y ∷ ys)) xs → AllApart y xs
apart_first c y ys [] h = tt
apart_first c y ys (x ∷ xs) ((_, (here, _)), h) = (Apart-sym x y here, apart_first c y ys xs h)

-- A new block at the head.
pub link_chunk-Chunks :
    (c ms sz head : ℕ) (m : Memory) (xs : List ℕ)
    → c ≢ 0
    → AllApart c xs
    → Spread xs
    → Chunks m ms head xs
    → Chunks (link_chunk c head (write_chunk c ms sz m)) ms c (c ∷ xs)
link_chunk-Chunks c ms sz head m [] valid apart spread (q, s) =
    subst (λ h. Chunks (link_chunk c h (write_chunk c ms sz m)) ms c (c ∷ []))
      (sym (empty-Segment m ms 0 head q 0 s))
      (rw (link_chunk-alone c ms sz m) (c, prepared-Segment c ms sz 0 m valid))
link_chunk-Chunks c ms sz head m (x ∷ xs) valid apart spread (q, s) =
    let (e, valid_x) = first-Segment m ms 0 head x xs q 0 s in
    let m1 = prepared c ms sz x m in
    subst (λ h. Chunks (link_chunk c h (write_chunk c ms sz m)) ms c (c ∷ x ∷ xs)) (sym e)
      (rw (link_chunk-linked c ms sz x m valid_x) (
        q,
        append-Segment (write (x + 8) c m1) ms 0 c (c ∷ []) c x (x ∷ xs) q 0
            (Agree-Segment m1 (write (x + 8) c m1) ms 0 c (c ∷ []) c x
              (AllApart-Agree x 8 c m1 (c ∷ []) (omega arith) (Apart-sym c x apart.0, tt))
              (prepared-Segment c ms sz x m valid))
            (set_prev-Segment m1 ms 0 c x xs q 0 spread (
              subst (λ h. Segment m1 ms 0 h (x ∷ xs) q 0) e
                (Agree-Segment m m1 ms 0 head (x ∷ xs) q 0
                  (prepared-Agree c ms sz x m (x ∷ xs) apart) s))),
      ))
