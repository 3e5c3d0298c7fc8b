-- ===== src/References/Cascade.antt =====
-- The order of a heap while references end, `unref` of include/PGASUS/base/ref_ptr.hpp, and deletions follow from it.
use pgasus.Common.{
  ℕ, ◌+◌, ◌≤◌, ◌<◌, ◌≡◌, refl, sym, ap, ◌∙◌, Bool, true, false, ◌||◌, Option, none, some, List,
  ◌==◌, ==_iff, if◌then◌else◌, length, length-set, get_or, get_or-set, set, sum_by, sum_by-set,
  count, arith, subst, Bool-cases, inl, inr, ◌⊎◌,
}
use pgasus.References.{Heap, pointer, set_pointer}

-- Whether a pointer points to an object, and whether it is not null.
abbrev pub points : ℕ → Option ℕ → ℕ
points o none = 0
points o (some p) = if p == o then 1 else 0

pub points-le : (o : ℕ) (p : Option ℕ) → points o p ≤ 1
points-le o none = omega arith
points-le o (some p) = ground arith

abbrev pub is_set : Option ℕ → ℕ
is_set none = 0
is_set (some p) = 1

-- The members of objects are slots, and each of at most one object.
pub record IsLaidOut (members : ℕ → List ℕ) (size : ℕ) : Type 0 where
  pub ranged : (s o : ℕ) → 0 < count s (members o) → s < size
  pub owned : (s o x : ℕ) → 0 < count s (members o) → 0 < count s (members x) → o ≡ x

-- The slot `s`, whose reference is being given up.
abbrev pub with_slot : ℕ → (ℕ → Bool) → ℕ → Bool
with_slot s ending j = j == s || ending j

module _ (members : ℕ → List ℕ) where
  -- The counters are right for the pointers `vs` and one more, `extra`. The slots hold these pointers, but for those that
  -- are `ending`: their reference is given up, and the slot not null yet. An ending slot is no member of an
  -- object that has references.
  pub record IsOver (ending : ℕ → Bool) (vs : List (Option ℕ)) (extra : Option ℕ) (h : Heap)
      : Type 0 where
    pub counted : (o : ℕ) → h.counts o ≡ sum_by (points o) vs + points o extra
    pub dead : (o : ℕ) → h.deleted o ≡ true → h.counts o ≡ 0
    pub size : length h.slots ≡ length vs
    pub view : (i : ℕ) → ending i ≡ false → pointer i h ≡ get_or vs i none
    pub ends : (i o : ℕ) → ending i ≡ true → 0 < count i (members o) → h.counts o ≡ 0

  -- What the end of references makes of a heap: counters only fall, and an object whose counter falls to 0 is
  -- deleted, and its members are null. A pointer is as before, or null, and then it is a member of an object
  -- without references.
  pub record Ended (vs vs' : List (Option ℕ)) (h h' : Heap) : Type 0 where
    pub fell : (o : ℕ) → h'.counts o ≤ h.counts o
    pub freed : (o : ℕ) → 0 < h.counts o → h'.counts o ≡ 0 → h'.deleted o ≡ true
    pub emptied :
        (o i : ℕ)
        → 0 < h.counts o
        → h'.counts o ≡ 0
        → 0 < count i (members o)
        → get_or vs' i none ≡ none
    pub same_size : length vs' ≡ length vs
    pub lighter : sum_by is_set vs' ≤ sum_by is_set vs
    pub kept :
        (i : ℕ)
        → (get_or vs' i none ≡ get_or vs i none)
          ⊎ ((get_or vs' i none ≡ none) × (o : ℕ) × (0 < count i (members o)) × (h'.counts o ≡ 0))

  pub Ended-refl : (vs : List (Option ℕ)) (h : Heap) → Ended vs vs h h
  Ended-refl vs h = record {
    fell = λ o. omega arith;
    freed = λ o p z. absurd (omega (arith, p, z));
    emptied = λ o i p z _. absurd (omega (arith, p, z));
    same_size = refl;
    lighter = omega arith;
    kept = λ i. inl refl;
  }

  -- What is null stays so.
  pub null-Ended :
      (i : ℕ) (vs vs' : List (Option ℕ)) (h h' : Heap)
      → get_or vs i none ≡ none
      → Ended vs vs' h h'
      → get_or vs' i none ≡ none
  null-Ended i vs vs' h h' null e = elim (e.kept i) [
    | inl same ↦ same ∙ null
    | inr (empty, _, _, _) ↦ empty
  ]

  pub Ended-trans :
      (vs vs1 vs2 : List (Option ℕ)) (h h1 h2 : Heap)
      → Ended vs vs1 h h1
      → Ended vs1 vs2 h1 h2
      → ((o : ℕ) → h1.deleted o ≡ true → h2.deleted o ≡ true)
      → Ended vs vs2 h h2
  Ended-trans vs vs1 vs2 h h1 h2 a b stays = record {
    fell = λ o. omega (arith, a.fell o, b.fell o);
    freed = λ o p z. elim (Bool-cases (h1.counts o == 0)) [
      | inl gone ↦ stays o (a.freed o p (ground (arith, gone)))
      | inr live ↦ b.freed o (ground (arith, live)) z
    ];
    emptied = λ o i p z m. elim (Bool-cases (h1.counts o == 0)) [
      | inl gone ↦ null-Ended i vs1 vs2 h1 h2 (a.emptied o i p (ground (arith, gone)) m) b
      | inr live ↦ b.emptied o i (ground (arith, live)) z m
    ];
    same_size = b.same_size ∙ a.same_size;
    lighter = omega (arith, a.lighter, b.lighter);
    kept = λ i. elim (b.kept i) [
      | inr (null, o, member, z) ↦ inr (null, o, member, z)
      | inl same ↦ elim (a.kept i) [
        | inl e ↦ inl (same ∙ e)
        | inr (null, o, member, z) ↦ inr (same ∙ null, o, member, omega (arith, z, b.fell o))
      ]
    ];
  }

  pub slot-IsOver :
      (s : ℕ) (ending : ℕ → Bool) (vs : List (Option ℕ)) (h : Heap)
      → s < length vs
      → ending s ≡ false
      → ((x : ℕ) → 0 < count s (members x) → h.counts x ≡ 0)
      → IsOver ending vs none h
      → IsOver (with_slot s ending) (set vs s none) (pointer s h) h
  slot-IsOver s ending vs h lt open_slot owner i = record {
    counted = λ x. omega (
      arith,
      i.counted x,
      sum_by-set (points x) vs s none none lt,
      ap (points x) (i.view s open_slot),
    );
    dead = i.dead;
    size = i.size ∙ sym (length-set vs s none);
    view = λ j e.
        let other : (s == j) ≡ false = ground (arith, e) in
        i.view j (ground (arith, e)) ∙ sym (get_or-set vs s j none none lt ∙ rw other refl);
    ends = λ j x e member. elim (Bool-cases (j == s)) [
      | inl same ↦ owner x (subst (λ k. 0 < count k (members x)) (ground (arith, same)) member)
      | inr other ↦ i.ends j x (ground (arith, e, other)) member
    ];
  }

  pub slot-weight :
      (s : ℕ) (ending : ℕ → Bool) (vs : List (Option ℕ)) (h : Heap)
      → s < length vs
      → ending s ≡ false
      → IsOver ending vs none h
      → is_set (pointer s h) + sum_by is_set (set vs s none) ≡ sum_by is_set vs
  slot-weight s ending vs h lt open_slot i =
      omega (arith, sum_by-set is_set vs s none none lt, ap is_set (i.view s open_slot))

  -- The slot is null then.
  pub null-IsOver :
      (s : ℕ) (ending : ℕ → Bool) (vs : List (Option ℕ)) (h : Heap)
      → s < length vs
      → get_or vs s none ≡ none
      → IsOver (with_slot s ending) vs none h
      → IsOver ending vs none (set_pointer s none h)
  null-IsOver s ending vs h lt null i =
      let at : (j : ℕ)
          → get_or (set h.slots s none) j none ≡ (if s == j then none else get_or h.slots j none) =
        λ j. get_or-set h.slots s j none none (omega (arith, i.size, lt)) in
      record {
        counted = i.counted;
        dead = i.dead;
        size = length-set h.slots s none ∙ i.size;
        view = λ j e. elim (Bool-cases (s == j)) [
          | inl same ↦ at j ∙ rw same (sym null ∙ ap (λ k. get_or vs k none) (ground (arith, same)))
          | inr other ↦ at j ∙ rw other (i.view j (ground (arith, e, other)))
        ];
        ends = λ j x e member. i.ends j x (ground (arith, e)) member;
      }

  -- An emptied slot is null after the end of references, too.
  pub stays_null :
      (s : ℕ) (vs vs' : List (Option ℕ)) (h h' : Heap)
      → s < length vs
      → Ended (set vs s none) vs' h h'
      → get_or vs' s none ≡ none
  stays_null s vs vs' h h' lt e =
      let null : get_or (set vs s none) s none ≡ none =
        get_or-set vs s s none none lt ∙ rw ((==_iff s s).1 refl) refl in
      null-Ended s (set vs s none) vs' h h' null e

  -- A member of an object without references is given up.
  pub member-Ended :
      (s o : ℕ) (vs : List (Option ℕ)) (h : Heap)
      → s < length vs
      → 0 < count s (members o)
      → h.counts o ≡ 0
      → Ended vs (set vs s none) h h
  member-Ended s o vs h lt member none_left = record {
    fell = λ x. omega arith;
    freed = λ x p z. absurd (omega (arith, p, z));
    emptied = λ x i p z _. absurd (omega (arith, p, z));
    same_size = length-set vs s none;
    lighter = omega (arith, sum_by-set is_set vs s none none lt);
    kept = λ j. elim (Bool-cases (s == j)) [
      | inl same ↦ inr (
        get_or-set vs s j none none lt ∙ rw same refl,
        o,
        subst (λ k. 0 < count k (members o)) (ground (arith, same)) member,
        none_left,
      )
      | inr other ↦ inl (get_or-set vs s j none none lt ∙ rw other refl)
    ];
  }
