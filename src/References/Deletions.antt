-- ===== src/References/Deletions.antt =====
-- The deletions that the end of a reference causes, `unref` of include/PGASUS/base/ref_ptr.hpp with all its calls.
use pgasus.Common.{
  ℕ, zero, suc, ◌+◌, ◌-◌, ◌^◌, ◌≤◌, ◌<◌, ◌≡◌, ◌≢◌, refl, sym, ap, subst, ◌∙◌, Bool, true, false,
  ◌||◌, Option, none, some, List, [], ◌∷◌, ◌==◌, ==_iff, length, length-set, set, sum_by, count,
  All, arith, Bool-cases, get_or, inl, inr,
}
use pgasus.References.{Heap, pointer, set_pointer, word, count_down, end_all, unref}
use pgasus.References.Cascade.{
  points, is_set, IsLaidOut, IsOver, Ended, with_slot, Ended-refl, Ended-trans, slot-IsOver,
  slot-weight, null-IsOver, stays_null, null-Ended, member-Ended,
}
use pgasus.References.Counter.{
  counts-le, down-counts, unref-zero, unref-more, down-IsOver, marked-IsOver, delete_object-some,
  down-Ended, last-Ended,
}

All-counted : (P : ℕ → Type 0) (xs : List ℕ) → ((s : ℕ) → 0 < count s xs → P s) → All P xs
unfolding count
All-counted P [] f = tt
All-counted P (x ∷ xs) f =
    (f x (ground arith), All-counted P xs (λ s pos. f s (ground (arith, pos))))

count-All : (P : ℕ → Type 0) (xs : List ℕ) (s : ℕ) → All P xs → 0 < count s xs → P s
unfolding count
count-All P [] s all pos = absurd (omega (arith, pos))
count-All P (x ∷ xs) s (p, all) pos = elim (Bool-cases (s == x)) [
  | inl same ↦ subst P (sym ((==_iff s x).0 same)) p
  | inr other ↦ count-All P xs s all (ground (arith, pos, other))
]

module _ (members : ℕ → List ℕ) where
  -- What the end of one more reference makes of a heap that is right.
  abbrev Runs : (ℕ → Bool) → List (Option ℕ) → Heap → Option Heap → Type 0
  Runs ending vs h o =
      (vs' : List (Option ℕ)) × (h' : Heap) × (o ≡ some h')
      × IsOver members ending vs' none h'
      × Ended members vs vs' h h'
      × ((x : ℕ) → h.deleted x ≡ true → h'.deleted x ≡ true)

  -- `u` ends a reference, where at most `n` pointers are set, the one to the object included.
  abbrev Works : ℕ → (Option ℕ → Heap → Option Heap) → Type 0
  Works n u =
      (ending : ℕ → Bool) (vs : List (Option ℕ)) (p : Option ℕ) (h : Heap)
      → IsLaidOut members (length vs)
      → length vs < 2 ^ 31
      → is_set p + sum_by is_set vs ≤ n
      → IsOver members ending vs p h
      → Runs ending vs h (u p h)

  end_all-Runs :
      (n : ℕ) (u : Option ℕ → Heap → Option Heap)
      → Works n u
      → (ss : List ℕ) (o : ℕ) (ending : ℕ → Bool) (vs : List (Option ℕ)) (h : Heap)
      → IsLaidOut members (length vs)
      → length vs < 2 ^ 31
      → sum_by is_set vs ≤ n
      → All (λ s. (0 < count s (members o)) × (ending s ≡ false)) ss
      → h.counts o ≡ 0
      → IsOver members ending vs none h
      → (vs' : List (Option ℕ)) × (h' : Heap) × (end_all u ss h ≡ some h')
        × IsOver members ending vs' none h'
        × Ended members vs vs' h h'
        × ((x : ℕ) → h.deleted x ≡ true → h'.deleted x ≡ true)
        × All (λ s. get_or vs' s none ≡ none) ss
  unfolding end_all
  end_all-Runs n u works [] o ending vs h laid room light here none_left i =
      (vs, h, refl, i, Ended-refl members vs h, (λ x d. d), tt)
  end_all-Runs n u works (s ∷ ss) o ending vs h laid room light ((member, open_slot), others)
        none_left i =
      let lt = laid.ranged s o member in
      let vs1 = set vs s none in
      let size1 = length-set vs s none in
      let owner : (x : ℕ) → 0 < count s (members x) → h.counts x ≡ 0 =
        λ x m. ap h.counts (laid.owned s x o m member) ∙ none_left in
      let over = slot-IsOver members s ending vs h lt open_slot owner i in
      let weight = slot-weight members s ending vs h lt open_slot i in
      let (vs2, h2, ran, i2, e2, stays2) =
        works (with_slot s ending) vs1 (pointer s h) h (rw size1 laid) (omega (arith, size1, room))
          (omega (arith, weight, light)) over in
      let size2 : length vs2 ≡ length vs = e2.same_size ∙ size1 in
      let h3 = set_pointer s none h2 in
      let i3 =
        null-IsOver members s ending vs2 h2 (omega (arith, size2, lt))
          (stays_null members s vs vs2 h h2 lt e2) i2 in
      let e1 = member-Ended members s o vs h lt member none_left in
      let e3 : Ended members vs vs2 h h3 =
        Ended-trans members vs vs1 vs2 h h h3 e1
          (record {
            fell = e2.fell;
            freed = e2.freed;
            emptied = e2.emptied;
            same_size = e2.same_size;
            lighter = e2.lighter;
            kept = e2.kept;
          })
          stays2 in
      let (vs4, h4, ran4, i4, e4, stays4, nulls4) =
        end_all-Runs n u works ss o ending vs2 h3 (rw size2 laid) (omega (arith, size2, room))
          (omega (arith, e3.lighter, light)) others (omega (arith, e3.fell o, none_left)) i3 in
      (
        vs4,
        h4,
        rw ran ran4,
        i4,
        Ended-trans members vs vs2 vs4 h h3 h4 e3 e4 stays4,
        (λ x d. stays4 x (stays2 x d)),
        (null-Ended members s vs2 vs4 h3 h4 (stays_null members s vs vs2 h h2 lt e2) e4, nulls4),
      )

  pub unref-Works : (n : ℕ) → Works n (unref members n)
  unfolding unref count_down
  unref-Works zero ending vs none h laid room light i =
      (vs, h, refl, i, Ended-refl members vs h, λ x d. d)
  unref-Works zero ending vs (some o) h laid room light i = absurd (omega arith)
  unref-Works (suc n) ending vs none h laid room light i =
      (vs, h, refl, i, Ended-refl members vs h, λ x d. d)
  unref-Works (suc n) ending vs (some o) h laid room light i =
      let own : points o (some o) ≡ 1 = rw ((==_iff o o).1 refl) refl in
      let pos : 0 < h.counts o = omega (arith, i.counted o, own) in
      let few : h.counts o < word =
        omega (arith, counts-le members ending vs (some o) h o i, room) in
      let live : h.deleted o ≡ false = ground (arith, i.dead o, pos) in
      let down : (x : ℕ) → (count_down o h).counts x ≡ h.counts x - points x (some o) =
        λ x. down-counts members o x h pos few in
      let i1 = down-IsOver members o ending vs h down i in
      elim (Bool-cases (h.counts o == 1)) [
        | inr more ↦
            let more' : h.counts o ≢ 1 = ground (arith, more) in
            (
              vs,
              count_down o h,
              unref-more members n o h live more',
              i1,
              down-Ended members o vs h down more',
              λ x d. d,
            )
        | inl last ↦
            let one : h.counts o ≡ 1 = ground (arith, last) in
            let zero1 : (count_down o h).counts o ≡ 0 = omega (arith, down o, own, one) in
            let here =
              All-counted (λ s. (0 < count s (members o)) × (ending s ≡ false)) (members o)
                (λ s m. (
                  m,
                  elim (Bool-cases (ending s)) [
                    | inl e ↦ absurd (omega (arith, i.ends s o e m, pos))
                    | inr e ↦ e
                  ],
                )) in
            let (vs2, h2, ran, i2, e2, stays2, nulls) =
              end_all-Runs n (unref members n) (unref-Works n) (members o) o ending vs
                (count_down o h) laid room (omega (arith, light)) here zero1 i1 in
            let zero2 : h2.counts o ≡ 0 = omega (arith, e2.fell o, zero1) in
            (
              vs2,
              record h2 { deleted = λ x. o == x || h2.deleted x },
              unref-zero members n o h live one
                  ∙ delete_object-some members (unref members n) o (count_down o h) h2 ran zero2,
              marked-IsOver members o ending vs2 h2 zero2 i2,
              last-Ended members o vs vs2 h h2 down e2
                  (λ s m. count-All (λ k. get_or vs2 k none ≡ none) (members o) s nulls m),
              λ x d. ground (arith, stays2 x d),
            )
      ]
