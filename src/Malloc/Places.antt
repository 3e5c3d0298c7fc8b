-- ===== src/Malloc/Places.antt =====
-- The current memory source of a thread is the one of the top place, whatever is pushed and popped.
use pgasus.Common.{
  All, subst, ℕ, zero, suc, ◌<◌, ◌≡◌, refl, sym, ◌∙◌, ap, Option, none, some, List, [], ◌∷◌, ◌++◌,
  ◌==◌, get_elem?, set, arith, Bool-cases, Option-cases, inl, inr, length, length-set,
}
use pgasus.Malloc.{
  Place, Local, back, pop_back, get, get_node_msource, get_place_msource, get_curr_msource, settle,
}

-- The ids of nodes are in the range of the storage.
abbrev pub InRange : ℕ → Place → Type 0
InRange size (Place.on_source ms) = Unit
InRange size (Place.on_node n) = n < size

module _ (create : ℕ → ℕ) where
  -- The current source is the one that the top place leads to, without another change.
  unfoldable pub IsCurrent : Local → Type 0
  IsCurrent l = get_curr_msource create l ≡ some (l, l.curr_msource)

  pub back-append : (ps : List Place) (p : Place) → back (ps ++ (p ∷ [])) ≡ some p
  unfolding back
  back-append [] p = refl
  back-append (q ∷ []) p = refl
  back-append (q ∷ r ∷ ps) p = back-append (r ∷ ps) p

  pub pop_back-append : (ps : List Place) (p : Place) → pop_back (ps ++ (p ∷ [])) ≡ ps
  unfolding pop_back
  pop_back-append [] p = refl
  pop_back-append (q ∷ []) p = refl
  pop_back-append (q ∷ r ∷ ps) p = ap (λ x. q ∷ x) (pop_back-append (r ∷ ps) p)

  pub get_elem-set :
      (xs : List (Option ℕ)) (n : ℕ) (x y : Option ℕ)
      → get_elem? xs n ≡ some x
      → get_elem? (set xs n y) n ≡ some y
  get_elem-set [] n x y h = absurd (ground arith)
  get_elem-set (z ∷ zs) zero x y h = refl
  get_elem-set (z ∷ zs) (suc n) x y h = get_elem-set zs n x y h

  -- A node with a place in the storage has a source there, and it is the same one when it is asked for
  -- again.
  get-again :
      (n : ℕ) (xs : List (Option ℕ)) (ys : List (Option ℕ)) (ms : ℕ)
      → get create n xs ≡ some (ys, ms)
      → get create n ys ≡ some (ys, ms)
  unfolding get
  get-again n xs ys ms h = elim (Option-cases (get_elem? xs n)) [
    | inl e ↦ absurd (ground (arith, e, h))
    | inr (some ms', e) ↦ ground (arith, e, h)
    | inr (none, e) ↦ ground (arith, e, h, get_elem-set xs n none (some (create n)) e)
  ]

  -- The place's source is the same one when it is asked for again.
  place-again :
      (p : Place) (l l' : Local) (ms : ℕ)
      → get_place_msource create p l ≡ some (l', ms)
      → get_place_msource create p l' ≡ some (l', ms)
  unfolding get_place_msource get_node_msource
  place-again (Place.on_source x) l l' ms h = ground (arith, h)
  place-again (Place.on_node n) l l' ms h = elim (Bool-cases (n == l.node)) [
    | inl e ↦ ground (arith, e, h)
    | inr e ↦ elim (Option-cases (get create n l.msources)) [
      | inl f ↦ absurd (ground (arith, e, f, h))
      | inr ((ys, x), f) ↦ ground (arith, e, f, h, get-again n l.msources ys x f)
    ]
  ]

  pub place-stack :
      (p : Place) (l l' : Local) (ms : ℕ)
      → get_place_msource create p l ≡ some (l', ms)
      → (l'.place_stack ≡ l.place_stack)
        × (l'.node ≡ l.node)
        × (l'.thread_msource ≡ l.thread_msource)
  unfolding get_place_msource get_node_msource
  place-stack (Place.on_source x) l l' ms h = ground (arith, h)
  place-stack (Place.on_node n) l l' ms h = elim (Bool-cases (n == l.node)) [
    | inl e ↦ ground (arith, e, h)
    | inr e ↦ elim (Option-cases (get create n l.msources)) [
      | inl f ↦ absurd (ground (arith, e, f, h))
      | inr ((ys, x), f) ↦ ground (arith, e, f, h)
    ]
  ]

  place-settled :
      (p : Place) (l l' : Local) (ms : ℕ)
      → get_place_msource create p l ≡ some (l', ms)
      → get_place_msource create p (record l' { curr_msource = ms })
        ≡ some (record l' { curr_msource = ms }, ms)
  unfolding get_place_msource get_node_msource
  place-settled (Place.on_source x) l l' ms h = ground (arith, h)
  place-settled (Place.on_node n) l l' ms h = elim (Bool-cases (n == l.node)) [
    | inl e ↦ ground (arith, e, h)
    | inr e ↦ elim (Option-cases (get create n l.msources)) [
      | inl f ↦ absurd (ground (arith, e, f, h))
      | inr ((ys, x), f) ↦ ground (arith, e, f, h, get-again n l.msources ys x f)
    ]
  ]

  pub top-curr :
      (l : Local) (p : Place)
      → back l.place_stack ≡ some p
      → get_curr_msource create l ≡ get_place_msource create p l
  unfolding get_curr_msource
  top-curr l p e = rw (get_curr_msource, e) refl

  -- What `get_curr_msource` gives is current when it is assigned.
  settle-IsCurrent :
      (l l' : Local) (ms : ℕ)
      → get_curr_msource create l ≡ some (l', ms)
      → IsCurrent (record l' { curr_msource = ms }) × (l'.place_stack ≡ l.place_stack)
  unfolding get_curr_msource IsCurrent
  settle-IsCurrent l l' ms h = elim (Option-cases (back l.place_stack)) [
    | inl e ↦ ground (arith, e, h)
    | inr (p, e) ↦
        let found : get_place_msource create p l ≡ some (l', ms) = ground (arith, e, h) in
        let (same, _, _) = place-stack p l l' ms found in
        (
          top-curr (record l' { curr_msource = ms }) p (ap back same ∙ e)
              ∙ place-settled p l l' ms found,
          same,
        )
  ]

  in_range :
      (xs : List (Option ℕ)) (n : ℕ) → n < length xs → (x : Option ℕ) × (get_elem? xs n ≡ some x)
  in_range [] n h = absurd (omega arith)
  in_range (x ∷ xs) zero h = (x, refl)
  in_range (x ∷ xs) (suc n) h = in_range xs n (omega arith)

  get-total :
      (n : ℕ) (xs : List (Option ℕ))
      → n < length xs
      → (ys : List (Option ℕ)) × (ms : ℕ) × (get create n xs ≡ some (ys, ms))
        × (length ys ≡ length xs)
  unfolding get
  get-total n xs h =
      let (x, e) = in_range xs n h in
      elim (Option-cases x) [
        | inr (ms, f) ↦ (xs, ms, rw (get, e, f) refl, refl)
        | inl f ↦ (
          set xs n (some (create n)),
          create n,
          rw (get, e, f) refl,
          length-set xs n (some (create n)),
        )
      ]

  pub place-total :
      (p : Place) (l : Local)
      → InRange (length l.msources) p
      → (l' : Local) × (ms : ℕ) × (get_place_msource create p l ≡ some (l', ms))
        × (length l'.msources ≡ length l.msources)
  unfolding get_place_msource get_node_msource
  place-total (Place.on_source x) l h = (l, x, refl, refl)
  place-total (Place.on_node n) l h = elim (Bool-cases (n == l.node)) [
    | inl e ↦ (l, l.thread_msource, rw e refl, refl)
    | inr e ↦
        let (ys, ms, got, same) = get-total n l.msources h in
        (record l { msources = ys }, ms, rw (e, got) refl, same)
  ]

  back-InRange :
      (size : ℕ) (ps : List Place) (p : Place)
      → All (InRange size) ps
      → back ps ≡ some p
      → InRange size p
  unfolding back
  back-InRange size [] p all h = absurd (ground (arith, h))
  back-InRange size (x ∷ []) p (here, _) h =
      subst (λ o. elim o [ none ↦ Unit | some q ↦ InRange size q ]) h here
  back-InRange size (x ∷ y ∷ ys) p (_, all) h = back-InRange size (y ∷ ys) p all h

  curr-total :
      (l : Local)
      → All (InRange (length l.msources)) l.place_stack
      → (l' : Local) × (ms : ℕ) × (get_curr_msource create l ≡ some (l', ms))
        × (length l'.msources ≡ length l.msources)
  unfolding get_curr_msource
  curr-total l all = elim (Option-cases (back l.place_stack)) [
    | inl e ↦ (l, l.thread_msource, rw (get_curr_msource, e) refl, refl)
    | inr (p, e) ↦
        let (l', ms, got, size) =
          place-total p l (back-InRange (length l.msources) l.place_stack p all e) in
        (l', ms, top-curr l p e ∙ got, size)
  ]

  -- A thread whose current source is the one of its top place.
  pub record IsSettled (l : Local) : Type 0 where
    pub current : IsCurrent l
    pub ranged : All (InRange (length l.msources)) l.place_stack

  -- The assignment succeeds where the ids are in range.
  pub settle-IsSettled :
      (l : Local)
      → All (InRange (length l.msources)) l.place_stack
      → (l' : Local) × (settle create (get_curr_msource create l) ≡ some l')
        × IsSettled l'
        × (l'.place_stack ≡ l.place_stack)
  unfolding settle
  settle-IsSettled l all =
      let (l', ms, got, size) = curr-total l all in
      let (current, same) = settle-IsCurrent l l' ms got in
      (
        record l' { curr_msource = ms },
        rw got refl,
        record {
          current = current;
          ranged =
              subst (λ n. All (InRange n) l'.place_stack) (sym size)
                (subst (All (InRange (length l.msources))) (sym same) all);
        },
        same,
      )
