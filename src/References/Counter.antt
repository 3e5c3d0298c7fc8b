-- ===== src/References/Counter.antt =====
-- One call of `Referenced::unref` of include/PGASUS/base/ref_ptr.hpp: the counter, and the mark on a deleted object.
use pgasus.Common.{
  ℕ, suc, ◌+◌, ◌-◌, ◌≤◌, ◌<◌, ◌≡◌, ◌≢◌, refl, sym, ap, ◌∙◌, Bool, true, false, ◌||◌, Option, none,
  some, List, ◌==◌, ==_iff, length, sum_by-le, sum_by-one, arith, Bool-cases, inl, inr, count,
  subst, get_or,
}
use pgasus.References.{Heap, word, count_down, end_all, mark_deleted, delete_object, unref}
use pgasus.References.Cascade.{points, points-le, IsOver, Ended}

module _ (members : ℕ → List ℕ) where
  pub counts-le :
      (ending : ℕ → Bool) (vs : List (Option ℕ)) (p : Option ℕ) (h : Heap) (o : ℕ)
      → IsOver members ending vs p h
      → h.counts o ≤ length vs + 1
  counts-le ending vs p h o i = omega (
    arith,
    i.counted o,
    points-le o p,
    sum_by-le (points o) (λ a. 1) (points-le o) vs,
    sum_by-one vs,
  )

  pub down-counts :
      (o x : ℕ) (h : Heap)
      → 0 < h.counts o
      → h.counts o < word
      → (count_down o h).counts x ≡ h.counts x - points x (some o)
  unfolding count_down
  down-counts o x h pos small = elim (Bool-cases (o == x)) [
    | inl same ↦ rw same (ground (arith, pos, small, ap h.counts ((==_iff o x).0 same)))
    | inr other ↦ rw other (omega arith)
  ]

  pub unref-zero :
      (n o : ℕ) (h : Heap)
      → h.deleted o ≡ false
      → h.counts o ≡ 1
      → unref members (suc n) (some o) h
        ≡ delete_object members (unref members n) o (count_down o h)
  unfolding unref
  unref-zero n o h live last =
      let e : (h.counts o == 1) ≡ true = ground (arith, last) in rw (live, e) refl

  pub unref-more :
      (n o : ℕ) (h : Heap)
      → h.deleted o ≡ false
      → h.counts o ≢ 1
      → unref members (suc n) (some o) h ≡ some (count_down o h)
  unfolding unref
  unref-more n o h live more =
      let e : (h.counts o == 1) ≡ false = ground (arith, more) in rw (live, e) refl

  pub down-IsOver :
      (o : ℕ) (ending : ℕ → Bool) (vs : List (Option ℕ)) (h : Heap)
      → ((x : ℕ) → (count_down o h).counts x ≡ h.counts x - points x (some o))
      → IsOver members ending vs (some o) h
      → IsOver members ending vs none (count_down o h)
  unfolding count_down
  down-IsOver o ending vs h down i = record {
    counted = λ x. down x ∙ omega (arith, i.counted x);
    dead = λ x d. down x ∙ omega (arith, i.dead x d);
    size = i.size;
    view = i.view;
    ends = λ x y e member. down y ∙ omega (arith, i.ends x y e member);
  }

  -- The mark on an object whose members have ended.
  pub marked-IsOver :
      (o : ℕ) (ending : ℕ → Bool) (vs : List (Option ℕ)) (h : Heap)
      → h.counts o ≡ 0
      → IsOver members ending vs none h
      → IsOver members ending vs none (record h { deleted = λ x. o == x || h.deleted x })
  marked-IsOver o ending vs h none_left i = record {
    counted = i.counted;
    dead = λ x d. elim (Bool-cases (o == x)) [
      | inl same ↦ sym (ap h.counts ((==_iff o x).0 same)) ∙ none_left
      | inr other ↦ i.dead x (ground (arith, d, other))
    ];
    size = i.size;
    view = i.view;
    ends = i.ends;
  }

  pub delete_object-some :
      (u : Option ℕ → Heap → Option Heap) (o : ℕ) (h h' : Heap)
      → end_all u (members o) h ≡ some h'
      → h'.counts o ≡ 0
      → delete_object members u o h ≡ some (record h' { deleted = λ x. o == x || h'.deleted x })
  unfolding delete_object mark_deleted
  delete_object-some u o h h' ran none_left =
      let e : (h'.counts o == 0) ≡ true = ground (arith, none_left) in rw (ran, e) refl

  pub down-Ended :
      (o : ℕ) (vs : List (Option ℕ)) (h : Heap)
      → ((x : ℕ) → (count_down o h).counts x ≡ h.counts x - points x (some o))
      → h.counts o ≢ 1
      → Ended members vs vs h (count_down o h)
  down-Ended o vs h down more = record {
    fell = λ x. omega (arith, down x);
    freed = λ x p z. elim (Bool-cases (o == x)) [
      | inl same ↦
          let at : h.counts o ≡ h.counts x = ap h.counts ((==_iff o x).0 same) in
          absurd (ground (arith, same, at, down x, more, p, z))
      | inr other ↦ absurd (ground (arith, other, down x, p, z))
    ];
    emptied = λ x i p z _. elim (Bool-cases (o == x)) [
      | inl same ↦
          let at : h.counts o ≡ h.counts x = ap h.counts ((==_iff o x).0 same) in
          absurd (ground (arith, same, at, down x, more, p, z))
      | inr other ↦ absurd (ground (arith, other, down x, p, z))
    ];
    same_size = refl;
    lighter = omega arith;
    kept = λ i. inl refl;
  }

  pub last-Ended :
      (o : ℕ) (vs vs' : List (Option ℕ)) (h h' : Heap)
      → ((x : ℕ) → (count_down o h).counts x ≡ h.counts x - points x (some o))
      → Ended members vs vs' (count_down o h) h'
      → ((i : ℕ) → 0 < count i (members o) → get_or vs' i none ≡ none)
      → Ended members vs vs' h (record h' { deleted = λ x. o == x || h'.deleted x })
  last-Ended o vs vs' h h' down e nulls = record {
    fell = λ x. omega (arith, down x, e.fell x);
    freed = λ x p z. elim (Bool-cases (o == x)) [
      | inl same ↦ rw same refl
      | inr other ↦
          let left : 0 < (count_down o h).counts x = ground (arith, other, down x, p) in
          ground (arith, e.freed x left z)
    ];
    emptied = λ x i p z m. elim (Bool-cases (o == x)) [
      | inl same ↦ nulls i (subst (λ k. 0 < count i (members k)) (sym ((==_iff o x).0 same)) m)
      | inr other ↦
          let left : 0 < (count_down o h).counts x = ground (arith, other, down x, p) in
          e.emptied x i left z m
    ];
    same_size = e.same_size;
    lighter = e.lighter;
    kept = e.kept;
  }
