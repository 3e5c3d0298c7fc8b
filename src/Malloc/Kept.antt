-- ===== src/Malloc/Kept.antt =====
-- The storage of a node only grows: a place leads to the same source later.
use pgasus.Common.{
  ℕ, zero, suc, ◌≡◌, refl, sym, ◌∙◌, ap, Option, none, some, List, [], ◌∷◌, ◌==◌, get_elem?, set,
  arith, Bool-cases, Option-cases, inl, inr,
}
use pgasus.Malloc.{
  Place, Local, back, get, get_node_msource, get_place_msource, get_curr_msource, settle,
}
use pgasus.Malloc.Places.{IsCurrent, top-curr, get_elem-set, place-stack}

module _ (create : ℕ → ℕ) where
  -- The sources of a storage stay what they are.
  abbrev pub Kept : Local → Local → Type 0
  Kept l l' =
      (l'.node ≡ l.node)
      × (l'.thread_msource ≡ l.thread_msource)
      × ((n ms : ℕ)
          → get_elem? l.msources n ≡ some (some ms)
          → get_elem? l'.msources n ≡ some (some ms))

  pub Kept-trans : (l l' l'' : Local) → Kept l l' → Kept l' l'' → Kept l l''
  Kept-trans l l' l'' (a, b, c) (a', b', c') = (a' ∙ a, b' ∙ b, λ i y g. c' i y (c i y g))

  elem-set :
      (xs : List (Option ℕ)) (n m c ms : ℕ)
      → get_elem? xs n ≡ some none
      → get_elem? xs m ≡ some (some ms)
      → get_elem? (set xs n (some c)) m ≡ some (some ms)
  elem-set [] n m c ms h h' = absurd (ground (arith, h))
  elem-set (x ∷ xs) zero zero c ms h h' = absurd (ground (arith, h, h'))
  elem-set (x ∷ xs) zero (suc m) c ms h h' = h'
  elem-set (x ∷ xs) (suc n) zero c ms h h' = h'
  elem-set (x ∷ xs) (suc n) (suc m) c ms h h' = elem-set xs n m c ms h h'

  get-kept :
      (n m : ℕ) (xs ys : List (Option ℕ)) (x ms : ℕ)
      → get create n xs ≡ some (ys, x)
      → get_elem? xs m ≡ some (some ms)
      → get_elem? ys m ≡ some (some ms)
  unfolding get
  get-kept n m xs ys x ms h h' = elim (Option-cases (get_elem? xs n)) [
    | inl e ↦ absurd (ground (arith, e, h))
    | inr (some old, e) ↦ ground (arith, e, h, h')
    | inr (none, e) ↦ ground (arith, e, h, elem-set xs n m (create n) ms e h')
  ]

  get-present :
      (n : ℕ) (xs ys : List (Option ℕ)) (ms : ℕ)
      → get create n xs ≡ some (ys, ms)
      → get_elem? ys n ≡ some (some ms)
  unfolding get
  get-present n xs ys ms h = elim (Option-cases (get_elem? xs n)) [
    | inl e ↦ absurd (ground (arith, e, h))
    | inr (some old, e) ↦ ground (arith, e, h)
    | inr (none, e) ↦ ground (arith, e, h, get_elem-set create xs n none (some (create n)) e)
  ]

  get-found :
      (n : ℕ) (xs : List (Option ℕ)) (ms : ℕ)
      → get_elem? xs n ≡ some (some ms)
      → get create n xs ≡ some (xs, ms)
  unfolding get
  get-found n xs ms e = rw (get, e) refl

  pub place-Kept :
      (p : Place) (l l' : Local) (ms : ℕ) → get_place_msource create p l ≡ some (l', ms) → Kept l l'
  unfolding get_place_msource get_node_msource
  place-Kept (Place.on_source x) l l' ms h = (
    (place-stack create (Place.on_source x) l l' ms h).1,
    (place-stack create (Place.on_source x) l l' ms h).2,
    λ i y g. ground (arith, h, g),
  )
  place-Kept (Place.on_node n) l l' ms h = elim (Bool-cases (n == l.node)) [
    | inl e ↦ (
      (place-stack create (Place.on_node n) l l' ms h).1,
      (place-stack create (Place.on_node n) l l' ms h).2,
      λ i y g. ground (arith, e, h, g),
    )
    | inr e ↦ elim (Option-cases (get create n l.msources)) [
      | inl f ↦ absurd (ground (arith, e, f, h))
      | inr ((ys, x), f) ↦ (
        (place-stack create (Place.on_node n) l l' ms h).1,
        (place-stack create (Place.on_node n) l l' ms h).2,
        λ i y g. ground (arith, e, f, h, get-kept n i l.msources ys x y f g),
      )
    ]
  ]

  -- A place that is settled in `l` leads to the same source in a thread whose storage has grown.
  place-same :
      (p : Place) (l l' : Local) (ms : ℕ)
      → get_place_msource create p l ≡ some (l, ms)
      → Kept l l'
      → get_place_msource create p l' ≡ some (l', ms)
  unfolding get_place_msource get_node_msource
  place-same (Place.on_source x) l l' ms h kept = ground (arith, h)
  place-same (Place.on_node n) l l' ms h (node, thread, kept) = elim (Bool-cases (n == l.node)) [
    | inl e ↦ ground (arith, e, node, thread, h)
    | inr e ↦ elim (Option-cases (get create n l.msources)) [
      | inl f ↦ absurd (ground (arith, e, f, h))
      | inr ((ys, x), f) ↦
          let here : get_elem? l.msources n ≡ some (some ms) =
            ground (arith, e, f, h, get-present n l.msources ys x f) in
          ground (arith, e, node, get-found n l'.msources ms (kept n ms here))
    ]
  ]

  pub curr-same :
      (l l' : Local)
      → IsCurrent create l
      → Kept l l'
      → l'.place_stack ≡ l.place_stack
      → get_curr_msource create l' ≡ some (l', l.curr_msource)
  unfolding IsCurrent get_curr_msource
  curr-same l l' current (node, thread, kept) same = elim (Option-cases (back l.place_stack)) [
    | inl e ↦ ground (arith, ap back same, e, current, thread)
    | inr (p, e) ↦
        top-curr create l' p (ap back same ∙ e)
        ∙ place-same p l l' l.curr_msource (sym (top-curr create l p e) ∙ current)
            (node, thread, kept)
  ]

  pub settle-Kept :
      (l l' : Local) (r : Option (Local × ℕ))
      → ((l1 : Local) (ms : ℕ) → r ≡ some (l1, ms) → Kept l l1)
      → settle create r ≡ some l'
      → Kept l l'
  unfolding settle
  settle-Kept l l' none h e = absurd (ground (arith, e))
  settle-Kept l l' (some (l1, ms)) h e =
      let (node, thread, kept) = h l1 ms refl in
      (ground (arith, e, node), ground (arith, e, thread), λ i y g. ground (arith, e, kept i y g))

  pub curr-Kept : (l l' : Local) (ms : ℕ) → get_curr_msource create l ≡ some (l', ms) → Kept l l'
  unfolding get_curr_msource
  curr-Kept l l' ms h = elim (Option-cases (back l.place_stack)) [
    | inl e ↦ (ground (arith, e, h), ground (arith, e, h), λ i y g. ground (arith, e, h, g))
    | inr (p, e) ↦ place-Kept p l l' ms (sym (top-curr create l p e) ∙ h)
  ]
