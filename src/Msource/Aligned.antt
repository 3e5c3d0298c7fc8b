-- ===== src/Msource/Aligned.antt =====
-- Aligned blocks: the pointer is moved up inside a larger block, with a footer below it that links to the
-- block's own.
use native.Mathlib.Nat.{div-add-mod', mul_assoc, pow-suc}
use pgasus.Common.{
  ℕ, suc, ◌+◌, ◌-◌, ◌%◌, ◌*◌, ◌/◌, ◌^◌, ◌≤◌, ◌<◌, ◌≡◌, ◌≢◌, refl, ap, ◌∙◌, true, false, some, ◌==◌,
  if◌then◌else◌, arith, Bool-cases, inl, inr,
}
use pgasus.Msource.Align.{word, align_up, is_aligned, is_aligned-mod, align_up-bounds}
use pgasus.Msource.World.{
  Memory, write, source_of, footer_to_pointer, footer_from_pointer, mmap_from_pointer,
}
use pgasus.Msource.Source.{align_block, write_footer, follow, get_footer_for_mem}

-- What the aligned pointer `q` into a block at `p` has to be.
pub record Placed (ms k sz p : ℕ) (m' : Memory) (q : ℕ) : Type 0 where
  pub aligned : is_aligned q (2 ^ k) ≡ true
  pub above : p ≤ q
  pub inside : q + sz ≤ p + (sz + 2 ^ k + 16)
  pub footer : get_footer_for_mem 2 q m' ≡ some (p - 16)
  pub source : source_of m' (p - 16) ≡ ms

-- The link is followed.
moved-Placed :
    (ms k sz p u : ℕ) (m : Memory)
    → is_aligned u (2 ^ k) ≡ true
    → 16 ≤ p
    → p + 16 ≤ u
    → u < p + 16 + 2 ^ k
    → source_of m (p - 16) ≡ ms
    → ms ≢ 0
    → Placed ms k sz p
        (write_footer (footer_from_pointer u) 0 (footer_from_pointer p) m)
        (footer_to_pointer (footer_from_pointer u))
unfolding get_footer_for_mem follow write
moved-Placed ms k sz p u m aligned low le lt source valid =
    let back : u - 16 + 16 ≡ u = omega arith in
    let own : (ms == 0) ≡ false = ground (arith, valid) in
    let fake : (if u - 16 + 8 == u - 16
          then p - 16
          else (if u - 16 == u - 16 then 0 else m (u - 16)))
        ≡ 0 =
      ground arith in
    let link : (if u - 16 + 8 == u - 16 + 8
          then p - 16
          else (if u - 16 == u - 16 + 8 then 0 else m (u - 16 + 8)))
        ≡ p - 16 =
      ground arith in
    let real : (if u - 16 + 8 == p - 16
          then p - 16
          else (if u - 16 == p - 16 then 0 else m (p - 16)))
        ≡ ms =
      ground (arith, source) in
    rw back record {
      aligned = aligned;
      above = omega arith;
      inside = omega (arith, lt);
      footer = rw (fake, link, real, own) refl;
      source = real;
    }

-- A pointer `p` of a block with a footer is aligned to `2 ^ k` inside a block with room for that: the
-- result is aligned, the block from it on has the size wanted, and the footer found from it is the block's
-- own, which still names the source.
pub align_block-Placed :
    (ms k sz p : ℕ) (m : Memory)
    → k ≤ 64
    → 16 ≤ p
    → p + (sz + 2 ^ k + 16) ≤ word
    → source_of m (p - 16) ≡ ms
    → ms ≢ 0
    → Placed ms k sz p (align_block (2 ^ k) p m).0 (align_block (2 ^ k) p m).1
unfolding align_block get_footer_for_mem follow write
align_block-Placed ms k sz p m small low room source valid =
    elim (Bool-cases (is_aligned p (2 ^ k))) [
      | inl e ↦
          let own : (m (p - 16) == 0) ≡ false = ground (arith, source, valid) in
          rw e record {
            aligned = e;
            above = omega arith;
            inside = omega arith;
            footer = rw own refl;
            source = source;
          }
      | inr e ↦
          let (aligned, le, lt) = align_up-bounds k (p + 16) small (omega (arith, room)) in
          rw e (moved-Placed ms k sz p (align_up (p + 16) (2 ^ k)) m aligned low le lt source valid)
    ]

-- 40 bytes behind a page is no multiple of 16.
odd_header : (k block : ℕ) → 4 ≤ k → block % 4096 ≡ 0 → (block + 40) % 2 ^ k ≢ 0
odd_header k block big page whole =
    let d = (block + 40) / 2 ^ k in
    let multiple : d * 2 ^ k ≡ block + 40 =
      omega (arith, div-add-mod' (block + 40) (2 ^ k), whole) in
    let sixteen : 2 ^ k ≡ 2 ^ (k - 4) * 16 = sixteenth k big in
    omega (arith, page, multiple, ap (λ x. d * x) sixteen, mul_assoc d (2 ^ (k - 4)) 16)
  where
    sixteenth : (k : ℕ) → 4 ≤ k → 2 ^ k ≡ 2 ^ (k - 4) * 16
    sixteenth k h =
        let j = k - 4 in
        let e : k ≡ suc (suc (suc (suc j))) = omega arith in
        ap (λ x. 2 ^ x) e
        ∙ omega (
          arith,
          pow-suc 2 j,
          pow-suc 2 (suc j),
          pow-suc 2 (suc (suc j)),
          pow-suc 2 (suc (suc (suc j))),
        )

-- A block mapped at a page, aligned to 16 bytes or more: the header that `free` goes back to from the
-- aligned pointer is never the block's header.
pub align_block-misses :
    (k block : ℕ) (m : Memory)
    → 4 ≤ k
    → k ≤ 64
    → block % 4096 ≡ 0
    → block + 56 + 2 ^ k ≤ word
    → mmap_from_pointer (align_block (2 ^ k) (block + 40) m).1 ≢ block
unfolding align_block
align_block-misses k block m big small page room =
    elim (Bool-cases (is_aligned (block + 40) (2 ^ k))) [
      | inl e ↦
          let whole = is_aligned-mod k (block + 40) e in absurd (odd_header k block big page whole)
      | inr e ↦
          let (aligned, le, lt) = align_up-bounds k (block + 40 + 16) small (omega (arith, room)) in
          rw e (λ z. omega (arith, le, z))
    ]
