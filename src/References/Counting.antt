-- ===== src/References/Counting.antt =====
-- The counter of an object is the number of pointers to it.
use pgasus.Common.{
  ℕ, zero, suc, ◌+◌, ◌^◌, ◌%◌, ◌≤◌, ◌<◌, ◌≡◌, refl, sym, ap, ◌∙◌, Bool, true, false, Option, none,
  some, List, [], ◌∷◌, ◌==◌, ==_iff, if◌then◌else◌, length, length-set, get_or, set, sum_by,
  sum_by-set, sum_by-le, sum_by-one, count, arith, Bool-cases, inl, inr, ◌⊎◌, set-get_or,
}
use pgasus.References.{Heap, pointer, set_pointer, word, ref, same_pointer, copy_assign, destroy}
use pgasus.References.Cascade.{
  points, points-le, is_set, IsLaidOut, IsOver, Ended, slot-IsOver, null-IsOver, stays_null,
  with_slot,
}
use pgasus.References.Deletions.{unref-Works}

unfoldable pub pointers : ℕ → Heap → ℕ
pointers o h = sum_by (points o) h.slots

-- Each counter is the number of pointers to its object, and deleted objects have none.
pub record IsCounted (h : Heap) : Type 0 where
  pub counted : (o : ℕ) → h.counts o ≡ pointers o h
  pub dead : (o : ℕ) → h.deleted o ≡ true → h.counts o ≡ 0

-- What an operation makes of a heap: it is counted, with the pointers `vs`, but for members of objects that
-- have no pointers left, which may be null. An object that loses its last pointer is deleted, and its
-- members are null.
pub record Moved (members : ℕ → List ℕ) (vs : List (Option ℕ)) (h h' : Heap) : Type 0 where
  pub counted : IsCounted h'
  pub same_size : length h'.slots ≡ length vs
  pub slots :
      (i : ℕ)
      → (pointer i h' ≡ get_or vs i none)
        ⊎ ((pointer i h' ≡ none) × (o : ℕ) × (0 < count i (members o)) × (h'.counts o ≡ 0))
  pub freed : (o : ℕ) → 0 < h.counts o → h'.counts o ≡ 0 → h'.deleted o ≡ true
  pub emptied :
      (o i : ℕ) → 0 < h.counts o → h'.counts o ≡ 0 → 0 < count i (members o) → pointer i h' ≡ none

abbrev nothing : ℕ → Bool
nothing i = false

is_set-le : (p : Option ℕ) → is_set p ≤ 1
is_set-le none = omega arith
is_set-le (some o) = omega arith

sum-is_set : (vs : List (Option ℕ)) → sum_by is_set vs ≤ length vs
sum-is_set vs = omega (arith, sum_by-le is_set (λ a. 1) is_set-le vs, sum_by-one vs)

pointers-ext :
    (xs ys : List (Option ℕ))
    → length xs ≡ length ys
    → ((i : ℕ) → get_or xs i none ≡ get_or ys i none)
    → xs ≡ ys
pointers-ext [] [] e f = refl
pointers-ext [] (y ∷ ys) e f = absurd (omega (arith, e))
pointers-ext (x ∷ xs) [] e f = absurd (omega (arith, e))
pointers-ext (x ∷ xs) (y ∷ ys) e f =
    let tail = pointers-ext xs ys (omega (arith, e)) (λ i. f (suc i)) in
    ap (λ z. z ∷ xs) (f zero) ∙ ap (λ zs. y ∷ zs) tail

over-Moved :
    (members : ℕ → List ℕ) (vs vs' : List (Option ℕ)) (h h' : Heap)
    → IsOver members nothing vs' none h'
    → Ended members vs vs' h h'
    → Moved members vs h h'
unfolding pointers
over-Moved members vs vs' h h' i e =
    let all : h'.slots ≡ vs' = pointers-ext h'.slots vs' i.size (λ j. i.view j refl) in
    record {
      counted = record {
        counted = λ o. omega (arith, i.counted o, ap (sum_by (points o)) all);
        dead = i.dead;
      };
      same_size = i.size ∙ e.same_size;
      slots = λ j. elim (e.kept j) [
        | inl same ↦ inl (i.view j refl ∙ same)
        | inr (null, o, member, z) ↦ inr (i.view j refl ∙ null, o, member, z)
      ];
      freed = e.freed;
      emptied = λ o j p z m. i.view j refl ∙ e.emptied o j p z m;
    }

-- Taking a reference to an object that has one.
ref-counts :
    (q : Option ℕ) (h : Heap)
    → ((o : ℕ) → h.deleted o ≡ true → h.counts o ≡ 0)
    → ((o : ℕ) → points o q ≤ h.counts o)
    → ((o : ℕ) → h.counts o + 1 < word)
    → (h' : Heap) × (ref q h ≡ some h')
      × (h'.slots ≡ h.slots)
      × ((o : ℕ) → h'.counts o ≡ h.counts o + points o q)
      × ((o : ℕ) → h'.deleted o ≡ true → h'.counts o ≡ 0)
unfolding ref
ref-counts none h dead held few = (h, refl, refl, (λ o. omega arith), dead)
ref-counts (some p) h dead held few =
    let live : h.deleted p ≡ false = ground (arith, dead p, held p, (==_iff p p).1 refl) in
    let counts' : (o : ℕ)
        → (if p == o then (h.counts p + 1) % word else h.counts o)
          ≡ h.counts o + points o (some p) =
      λ o. elim (Bool-cases (p == o)) [
        | inl same ↦ rw same (ground (arith, few p, ap h.counts ((==_iff p o).0 same)))
        | inr other ↦ rw other (omega arith)
      ] in
    rw live (
      record h { counts = λ x. if p == x then (h.counts p + 1) % word else h.counts x },
      refl,
      refl,
      counts',
      λ o d. ground (arith, counts' o, dead o d, live),
    )

same_pointer-eq : (p q : Option ℕ) → same_pointer p q ≡ true → p ≡ q
same_pointer-eq none none e = refl
same_pointer-eq none (some b) e = ground arith
same_pointer-eq (some a) none e = ground arith
same_pointer-eq (some a) (some b) e = ap some ((==_iff a b).0 e)

-- The copy assignment succeeds on a counted heap of less than 2 ^ 31 pointers whose members belong to one object each,
-- with fuel for more deletions than there are pointers: no counter of a deleted object is read. The heap is
-- counted still. The pointers are as before with slot `s` as slot `r`, but for members of objects that have no
-- pointers left, which may be null; an object that loses its last pointer is deleted and its members are
-- null, also when the deletion of another object takes its last pointer.
pub copy_assign-Moved :
    (members : ℕ → List ℕ) (fuel s r : ℕ) (h : Heap)
    → IsCounted h
    → IsLaidOut members (length h.slots)
    → length h.slots < 2 ^ 31
    → length h.slots < fuel
    → s < length h.slots
    → r < length h.slots
    → (h' : Heap) × (copy_assign members fuel s r h ≡ some h')
      × Moved members (set h.slots s (pointer r h)) h h'
unfolding copy_assign pointers
copy_assign-Moved members fuel s r h i laid room enough ls lr =
    let q = pointer r h in
    let vs = set h.slots s q in
    let size : length vs ≡ length h.slots = length-set h.slots s q in
    elim (Bool-cases (same_pointer q (pointer s h))) [
      | inl e ↦
          let unchanged : vs ≡ h.slots =
            ap (set h.slots s) (same_pointer-eq q (pointer s h) e) ∙ set-get_or h.slots s none in
          rw e (
            h,
            refl,
            record {
              counted = i;
              same_size = ap length (sym unchanged);
              slots = λ j. inl (ap (λ l. get_or l j none) (sym unchanged));
              freed = λ o p z. absurd (omega (arith, p, z));
              emptied = λ o j p z _. absurd (omega (arith, p, z));
            },
          )
      | inr e ↦
          let few : (o : ℕ) → h.counts o + 1 < word = λ o. omega (
            arith,
            i.counted o,
            room,
            sum_by-le (points o) (λ a. 1) (points-le o) h.slots,
            sum_by-one h.slots,
          ) in
          let (h1, f, same, c, d) =
            ref-counts q (record h { slots = vs }) i.dead
              (λ o. omega (arith, i.counted o, sum_by-set (points o) h.slots r none none lr)) few in
          let over : IsOver members nothing vs (pointer s h) h1 = record {
            counted =
                λ o. omega (arith, c o, i.counted o, sum_by-set (points o) h.slots s q none ls);
            dead = d;
            size = ap length same;
            view = λ j _. ap (λ l. get_or l j none) same;
            ends = λ j o t m. absurd (ground (arith, t));
          } in
          let (vs', h', ran, i', e', _) =
            unref-Works members fuel nothing vs (pointer s h) h1 (rw size laid)
              (omega (arith, size, room))
              (omega (arith, size, enough, sum-is_set vs, is_set-le (pointer s h))) over in
          let mv = over-Moved members vs vs' h1 h' i' e' in
          (
            h',
            rw (e, f) ran,
            record {
              counted = mv.counted;
              same_size = mv.same_size;
              slots = mv.slots;
              freed = λ o p z. mv.freed o (omega (arith, p, c o)) z;
              emptied = λ o j p z m. mv.emptied o j (omega (arith, p, c o)) z m;
            },
          )
    ]

-- The destructor of a pointer that is no member succeeds under the same conditions: the slot is null then.
pub destroy-Moved :
    (members : ℕ → List ℕ) (fuel s : ℕ) (h : Heap)
    → IsCounted h
    → IsLaidOut members (length h.slots)
    → length h.slots < 2 ^ 31
    → length h.slots < fuel
    → s < length h.slots
    → ((o : ℕ) → count s (members o) ≡ 0)
    → (h' : Heap) × (destroy members fuel s h ≡ some h') × Moved members (set h.slots s none) h h'
unfolding destroy pointers
destroy-Moved members fuel s h i laid room enough lt free =
    let vs = set h.slots s none in
    let size : length vs ≡ length h.slots = length-set h.slots s none in
    let start : IsOver members nothing h.slots none h = record {
      counted = λ o. omega (arith, i.counted o);
      dead = i.dead;
      size = refl;
      view = λ j _. refl;
      ends = λ j o t m. absurd (ground (arith, t));
    } in
    let over =
      slot-IsOver members s nothing h.slots h lt refl (λ o m. absurd (omega (arith, free o, m)))
        start in
    let (vs', h', ran, i', e', _) =
      unref-Works members fuel (with_slot s nothing) vs (pointer s h) h (rw size laid)
        (omega (arith, size, room))
        (omega (arith, size, enough, sum-is_set vs, is_set-le (pointer s h))) over in
    let null = stays_null members s h.slots vs' h h' lt e' in
    let i'' =
      null-IsOver members s nothing vs' h' (omega (arith, e'.same_size, size, lt)) null i' in
    (
      set_pointer s none h',
      rw ran refl,
      over-Moved members vs vs' h (set_pointer s none h') i'' (record {
        fell = e'.fell;
        freed = e'.freed;
        emptied = e'.emptied;
        same_size = e'.same_size;
        lighter = e'.lighter;
        kept = e'.kept;
      }),
    )
