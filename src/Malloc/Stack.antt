-- ===== src/Malloc/Stack.antt =====
-- The operations on the stack of places keep the current source right, and undo each other.
use pgasus.Common.{
  All, ℕ, ◌≡◌, refl, sym, ◌∙◌, ap, subst, some, List, [], ◌∷◌, ◌++◌, arith, Option-cases, inl, inr,
  length, All-append,
}
use pgasus.Malloc.{
  Place, Local, back, pop_back, get_place_msource, get_curr_msource, settle, push, pop,
}
use pgasus.Malloc.Places.{
  IsCurrent, InRange, IsSettled, settle-IsSettled, top-curr, back-append, pop_back-append,
}
use pgasus.Malloc.Kept.{Kept, Kept-trans, place-Kept, curr-same, settle-Kept, curr-Kept}

module _ (create : ℕ → ℕ) where
  -- push on a settled thread, of a place in range, succeeds with the place on top.
  push-IsSettled :
      (p : Place) (l : Local)
      → IsSettled create l
      → InRange (length l.msources) p
      → (l' : Local) × (push create p l ≡ some l')
        × IsSettled create l'
        × (l'.place_stack ≡ l.place_stack ++ (p ∷ []))
  unfolding push
  push-IsSettled p l s h =
      let pushed = record l { place_stack = l.place_stack ++ (p ∷ []) } in
      let (l', e, s', same) =
        settle-IsSettled create pushed
          (All-append (InRange (length l.msources)) l.place_stack (p ∷ []) s.ranged (h, tt)) in
      (
        l',
        ap (settle create) (sym (top-curr create pushed p (back-append create l.place_stack p)))
            ∙ e,
        s',
        same,
      )

  All-before : (P : Place → Type 0) (xs ys : List Place) → All P (xs ++ ys) → All P xs
  All-before P [] ys h = tt
  All-before P (x ∷ xs) ys (h, hs) = (h, All-before P xs ys hs)

  -- pop on a settled thread takes the top place.
  pop-IsSettled :
      (p : Place) (ps : List Place) (l : Local)
      → IsSettled create l
      → l.place_stack ≡ ps ++ (p ∷ [])
      → (l' : Local) × (pop create l ≡ some (l', p)) × IsSettled create l' × (l'.place_stack ≡ ps)
  unfolding pop
  pop-IsSettled p ps l s e =
      let top : back l.place_stack ≡ some p = ap back e ∙ back-append create ps p in
      let rest : pop_back l.place_stack ≡ ps = ap pop_back e ∙ pop_back-append create ps p in
      let popped = record l { place_stack = ps } in
      let (l', e', s', same) = settle-IsSettled create popped (
        All-before (InRange (length l.msources)) ps (p ∷ [])
          (subst (All (InRange (length l.msources))) e s.ranged)) in
      (l', rw (top, rest, e') refl, s', same)

  push-Kept : (p : Place) (l l' : Local) → push create p l ≡ some l' → Kept create l l'
  unfolding push
  push-Kept p l l' e =
      settle-Kept create l l'
        (get_place_msource create p (record l { place_stack = l.place_stack ++ (p ∷ []) }))
        (λ l1 ms h.
          place-Kept create p (record l { place_stack = l.place_stack ++ (p ∷ []) }) l1 ms h)
        e

  pop-Kept : (p : Place) (l l' : Local) → pop create l ≡ some (l', p) → Kept create l l'
  unfolding pop
  pop-Kept p l l' e =
      let popped = record l { place_stack = pop_back l.place_stack } in
      settle-Kept create l l' (get_curr_msource create popped)
        (λ l1 ms h. curr-Kept create popped l1 ms h)
        (elim (Option-cases (back l.place_stack)) [
          | inl none_top ↦ absurd (ground (arith, none_top, e))
          | inr (q, top) ↦ elim (Option-cases (settle create (get_curr_msource create popped))) [
            | inl none_new ↦ absurd (ground (arith, top, none_new, e))
            | inr (l1, new) ↦ ground (arith, top, new, e)
          ]
        ])

  current-source :
      (l : Local) (ms : ℕ)
      → IsCurrent create l
      → get_curr_msource create l ≡ some (l, ms)
      → l.curr_msource ≡ ms
  unfolding IsCurrent
  current-source l ms current h = ground (arith, current, h)

  -- A guard for a place on a settled thread: while it lives the place is on top, and its end gives that
  -- place back and restores the stack and the current source.
  pub guard-restores :
      (p : Place) (l : Local)
      → IsSettled create l
      → InRange (length l.msources) p
      → (l1 : Local) × (l2 : Local) × (push create p l ≡ some l1)
        × (pop create l1 ≡ some (l2, p))
        × IsSettled create l1
        × IsSettled create l2
        × (l1.place_stack ≡ l.place_stack ++ (p ∷ []))
        × (l2.place_stack ≡ l.place_stack)
        × (l2.curr_msource ≡ l.curr_msource)
  guard-restores p l s h =
      let (l1, pushed, s1, stack1) = push-IsSettled p l s h in
      let (l2, popped, s2, stack2) = pop-IsSettled p l.place_stack l1 s1 stack1 in
      (
        l1,
        l2,
        pushed,
        popped,
        s1,
        s2,
        stack1,
        stack2,
        current-source l2 l.curr_msource s2.current (
            curr-same create l l2 s.current
              (Kept-trans create l l1 l2 (push-Kept p l l1 pushed) (pop-Kept p l1 l2 popped))
              stack2),
      )
