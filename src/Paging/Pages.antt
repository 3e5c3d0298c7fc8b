-- ===== src/Paging/Pages.antt =====
-- Which pages a region of memory has.
use pgasus.Common.{
  ℕ, zero, suc, ◌+◌, ◌-◌, ◌*◌, ◌/◌, ◌≤◌, ◌<◌, ◌≡◌, refl, ◌∙◌, ◌&&◌, ◌==◌, leb, ltb, if◌then◌else◌,
  count, count-append, replicate, arith, All, Bool-cases, inl, inr, ◌%◌,
}
use pgasus.Msource.Align.{word, align_mask, align_down, align_down-div}
use pgasus.Paging.{pages_upto, pages_below, add_pages, align_page, moved_pages}

-- The pages between two, each once.
pages_upto-count :
    (fuel a b q : ℕ)
    → b < fuel + a
    → count (q * 4096) (pages_upto fuel (a * 4096) (b * 4096))
      ≡ (if leb a q && leb q b then 1 else 0)
unfolding pages_upto count
pages_upto-count zero a b q h = ground arith
pages_upto-count (suc fuel) a b q h =
    let next : a * 4096 + 4096 ≡ suc a * 4096 = omega arith in
    rw next (ground (arith, pages_upto-count fuel (suc a) b q))

pages_below-count :
    (fuel a end q : ℕ)
    → end ≤ fuel + a * 4096
    → count (q * 4096) (pages_below fuel (a * 4096) end)
      ≡ (if leb a q && ltb (q * 4096) end then 1 else 0)
unfolding pages_below count
pages_below-count zero a end q h = ground arith
pages_below-count (suc fuel) a end q h =
    let next : a * 4096 + 4096 ≡ suc a * 4096 = omega arith in
    rw next (ground (arith, pages_below-count fuel (suc a) end q))

align_page-div : (p : ℕ) → p < word → align_page p ≡ p / 4096 * 4096
unfolding align_page align_down align_mask
align_page-div p h = align_down-div 12 p (omega arith) h

-- Pages are multiples of their size.
abbrev pub IsPage : ℕ → Type 0
IsPage p = p % 4096 ≡ 0

pages_upto-IsPage : (fuel a b : ℕ) → All IsPage (pages_upto fuel (a * 4096) b)
unfolding pages_upto
pages_upto-IsPage zero a b = tt
pages_upto-IsPage (suc fuel) a b =
    let next : a * 4096 + 4096 ≡ suc a * 4096 = omega arith in
    elim (Bool-cases (leb (a * 4096) b)) [
      | inl inside ↦ rw (inside, next) (omega arith, pages_upto-IsPage fuel (suc a) b)
      | inr over ↦ rw over tt
    ]

pub add_pages-IsPage : (start end : ℕ) → start < word → All IsPage (add_pages start end)
unfolding add_pages
add_pages-IsPage start end lt = rw (align_down-div 12 start (omega arith) lt) (
    pages_upto-IsPage (suc (align_down end 4096 - start / 4096 * 4096)) (start / 4096)
      (align_down end 4096))

-- The pages of a region that migrate moves: those from the page of its start to the page of its end, each once. The page
-- of the end is among them also where the region ends before it.
pub add_pages-count :
    (start end q : ℕ)
    → start ≤ end
    → end < word
    → count (q * 4096) (add_pages start end)
      ≡ (if leb (start / 4096) q && leb q (end / 4096) then 1 else 0)
unfolding add_pages
add_pages-count start end q h lt =
    rw
      (
        align_down-div 12 start (omega arith) (omega (arith, h, lt)),
        align_down-div 12 end (omega arith) lt,
      )
      (pages_upto-count (suc (end / 4096 * 4096 - start / 4096 * 4096)) (start / 4096) (end / 4096)
        q (omega (arith, h)))

count-replicate_zero : (n q : ℕ) → 0 < q → count (q * 4096) (replicate n 0) ≡ 0
unfolding count
count-replicate_zero zero q h = refl
count-replicate_zero (suc n) q h = ground (arith, count-replicate_zero n q h)

count_nulls : (n : ℕ) → count 0 (replicate n 0) ≡ n
unfolding count
count_nulls zero = refl
count_nulls (suc n) = ground (arith, count_nulls n)

-- The pages of the region itself.
region-count :
    (p sz q : ℕ)
    → count (q * 4096) (pages_below (suc (p + sz - p / 4096 * 4096)) (p / 4096 * 4096) (p + sz))
      ≡ (if leb (p / 4096) q && ltb (q * 4096) (p + sz) then 1 else 0)
region-count p sz q =
    pages_below-count (suc (p + sz - p / 4096 * 4096)) (p / 4096) (p + sz) q (omega arith)

nulls-count : (n q : ℕ) → count (q * 4096) (replicate n 0) ≡ (if q == 0 then n else 0)
nulls-count n zero = count_nulls n
nulls-count n (suc q) = ground (arith, count-replicate_zero n (suc q))

-- What moveMemory passes to the system for a region that starts behind the first page: each page that the region
-- touches, once, and no other page but the null page, which is there once for each page that fits into the
-- region, and once more.
pub moved_pages-count :
    (p sz q : ℕ)
    → 4096 ≤ p
    → p + sz < word
    → count (q * 4096) (moved_pages p sz) ≡ (
        if q == 0
        then sz / 4096 + 1
        else (if leb (p / 4096) q && ltb (q * 4096) (p + sz) then 1 else 0))
unfolding moved_pages
moved_pages-count p sz q low fits =
    let nulls = sz / 4096 + 1 in
    let region = pages_below (suc (p + sz - p / 4096 * 4096)) (p / 4096 * 4096) (p + sz) in
    let behind : 1 ≤ p / 4096 = omega (arith, low) in
    rw (align_page-div p (omega (arith, fits))) (
      count-append (q * 4096) (replicate nulls 0) region
      ∙ sum nulls q p sz behind (nulls-count nulls q) (region-count p sz q))
  where
    sum :
        (n q p sz : ℕ) {a b : ℕ}
        → 1 ≤ p / 4096
        → a ≡ (if q == 0 then n else 0)
        → b ≡ (if leb (p / 4096) q && ltb (q * 4096) (p + sz) then 1 else 0)
        → a + b
          ≡ (if q == 0 then n else (if leb (p / 4096) q && ltb (q * 4096) (p + sz) then 1 else 0))
    sum n q p sz h e f = ground (arith, h, e, f)
