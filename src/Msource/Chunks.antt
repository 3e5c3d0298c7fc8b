-- ===== src/Msource/Chunks.antt =====
-- The doubly linked list of a source's mapped blocks, as the list of their addresses.
use pgasus.Common.{All, ℕ, ◌+◌, ◌≤◌, ◌≡◌, ◌≢◌, ◌⊎◌, refl, sym, ◌∙◌, List, [], ◌∷◌, arith, subst}
use pgasus.Msource.World.{Memory, write, source_of, arena_of, prev_of, next_of, footer_of}

-- The headers of two blocks do not overlap.
abbrev pub Apart : ℕ → ℕ → Type 0
Apart x y = (x + 40 ≤ y) ⊎ (y + 40 ≤ x)

abbrev pub AllApart : ℕ → List ℕ → Type 0
AllApart x xs = All (Apart x) xs

unfoldable pub Spread : List ℕ → Type 0
Spread [] = Unit
Spread (x ∷ xs) = AllApart x xs × Spread xs

-- The header of the block at `x` of the source `ms`, whose predecessor is `p`.
pub record Header (m : Memory) (ms p x : ℕ) : Type 0 where
  pub valid : x ≢ 0
  pub prev : prev_of m x ≡ p
  pub source : source_of m (footer_of x) ≡ ms
  pub arena : arena_of m (footer_of x) ≡ 0

-- The blocks from `h`, which follows `p`, up to `q`, which `t` follows.
unfoldable pub Segment : Memory → ℕ → (p h : ℕ) → List ℕ → (q t : ℕ) → Type 0
Segment m ms p h [] q t = (p ≡ q) × (h ≡ t)
Segment m ms p h (x ∷ xs) q t = (h ≡ x) × Header m ms p x × Segment m ms x (next_of m x) xs q t

-- The memories agree on the headers.
abbrev pub Agree : Memory → Memory → List ℕ → Type 0
Agree m m' xs = All (λ x. (a : ℕ) → x ≤ a → a ≤ x + 32 → m' a ≡ m a) xs

pub Agree-Segment :
    (m m' : Memory) (ms p h : ℕ) (xs : List ℕ) (q t : ℕ)
    → Agree m m' xs
    → Segment m ms p h xs q t
    → Segment m' ms p h xs q t
unfolding Segment
Agree-Segment m m' ms p h [] q t agree s = s
Agree-Segment m m' ms p h (x ∷ xs) q t (here, agree) (e, header, s) = (
  e,
  record {
    valid = header.valid;
    prev = here (x + 8) (omega arith) (omega arith) ∙ header.prev;
    source = here (x + 24) (omega arith) (omega arith) ∙ header.source;
    arena = here (x + 24 + 8) (omega arith) (omega arith) ∙ header.arena;
  },
  subst (λ n. Segment m' ms x n xs q t) (sym (here (x + 16) (omega arith) (omega arith)))
      (Agree-Segment m m' ms x (next_of m x) xs q t agree s),
)

-- A word of the block at `c` is outside the headers of the others.
pub AllApart-Agree :
    (c i v : ℕ) (m : Memory) (xs : List ℕ) → i ≤ 32 → AllApart c xs → Agree m (write (c + i) v m) xs
unfolding write
AllApart-Agree c i v m [] h apart = tt
AllApart-Agree c i v m (x ∷ xs) h (here, apart) =
    (λ a le ge. ground (arith, here, h, le, ge), AllApart-Agree c i v m xs h apart)

pub Agree-trans :
    (m m' m'' : Memory) (xs : List ℕ) → Agree m m' xs → Agree m' m'' xs → Agree m m'' xs
Agree-trans m m' m'' [] a b = tt
Agree-trans m m' m'' (x ∷ xs) (here, a) (there, b) =
    (λ i le ge. there i le ge ∙ here i le ge, Agree-trans m m' m'' xs a b)

-- A new predecessor for the first block.
pub set_prev-Segment :
    (m : Memory) (ms p p' x : ℕ) (xs : List ℕ) (q t : ℕ)
    → Spread (x ∷ xs)
    → Segment m ms p x (x ∷ xs) q t
    → Segment (write (x + 8) p' m) ms p' x (x ∷ xs) q t
unfolding Segment Spread write
set_prev-Segment m ms p p' x xs q t (apart, spread) (e, header, s) = (
  refl,
  record {
    valid = header.valid;
    prev = ground arith;
    source = ground (arith, header.source);
    arena = ground (arith, header.arena);
  },
  subst (λ n. Segment (write (x + 8) p' m) ms x n xs q t) (ground arith)
      (Agree-Segment m (write (x + 8) p' m) ms x (next_of m x) xs q t
        (AllApart-Agree x 8 p' m xs (omega arith) apart) s),
)

-- The last block is one of the blocks.
pub last-All :
    (P : ℕ → Type 0) (m : Memory) (ms p h : ℕ) (x : ℕ) (xs : List ℕ) (q t : ℕ)
    → All P (x ∷ xs)
    → Segment m ms p h (x ∷ xs) q t
    → P q
unfolding Segment
last-All P m ms p h x [] q t (here, _) (_, _, (e, _)) = subst P e here
last-All P m ms p h x (y ∷ ys) q t (_, all) (_, _, s) =
    last-All P m ms x (next_of m x) y ys q t all s

-- A new successor for the last block `q`.
pub set_next-Segment :
    (m : Memory) (ms p h : ℕ) (xs : List ℕ) (q t t' : ℕ)
    → q ≢ p
    → Spread xs
    → Segment m ms p h xs q t
    → Segment (write (q + 16) t' m) ms p h xs q t'
unfolding Segment Spread write
set_next-Segment m ms p h [] q t t' other spread (e, e') = absurd (other (sym e))
set_next-Segment m ms p h (x ∷ []) q t t' other (apart, spread) (e, header, s) = (
  e,
  record {
    valid = header.valid;
    prev = ground (arith, header.prev);
    source = ground (arith, s, header.source);
    arena = ground (arith, s, header.arena);
  },
  (s.0, ground (arith, s)),
)
set_next-Segment m ms p h (x ∷ y ∷ ys) q t t' other (apart, spread) (e, header, s) =
    let far = last-All (Apart x) m ms x (next_of m x) y ys q t apart s in
    (
      e,
      record {
        valid = header.valid;
        prev = ground (arith, far, header.prev);
        source = ground (arith, far, header.source);
        arena = ground (arith, far, header.arena);
      },
      subst (λ n. Segment (write (q + 16) t' m) ms x n (y ∷ ys) q t') (ground (arith, far))
          (set_next-Segment m ms x (next_of m x) (y ∷ ys) q t t' (omega (arith, far)) spread s),
    )

pub last-valid :
    (m : Memory) (ms p h x : ℕ) (xs : List ℕ) (q t : ℕ) → Segment m ms p h (x ∷ xs) q t → q ≢ 0
unfolding Segment
last-valid m ms p h x [] q t (_, header, (e, _)) = λ z. header.valid (e ∙ z)
last-valid m ms p h x (y ∷ ys) q t (_, _, s) = last-valid m ms x (next_of m x) y ys q t s
