-- ===== src/Sync/Invariant.antt =====
-- Clients and dependencies mirror one another, and `synchronize` keeps them so.
use pgasus.Common.{
  ℕ, ◌+◌, ◌≤◌, ◌≡◌, refl, sym, ◌∙◌, ap, Bool, true, false, not, List, [], ◌∷◌, ◌++◌, arith, ==_iff,
  if◌then◌else◌, count, count-snoc, Bool-cases, inl, inr, if_intro, ◌≢◌, append-nil, append_assoc,
}
use pgasus.Sync.{World, update, is_nil, register_wait, depend, depend_all, synchronize}

-- The triggerables of a list that have not been signaled, in order.
unfoldable pub pending : (ℕ → Bool) → List ℕ → List ℕ
pending done [] = []
pending done (r ∷ rs) = let rest = pending done rs in if done r then rest else r ∷ rest

module _ {ℓ} {N : Type ℓ} where
  -- `s` is a client of `r` exactly if `r` is a dependency of `s`, and then once each; a triggerable
  -- that has been signaled has no clients.
  pub record IsLinked (w : World N) : Type ℓ where
    pub mirrored : (r s : ℕ) → count s (w.clients r) ≡ count r (w.deps s)
    pub once : (r s : ℕ) → count r (w.deps s) ≤ 1
    pub spent : (r s : ℕ) → w.signaled r ≡ true → count s (w.clients r) ≡ 0

  -- The world in which `s` waits for `r`.
  abbrev pub waiting : ℕ → ℕ → World N → World N
  waiting s r w = record w {
    clients = update w.clients r (w.clients r ++ s ∷ []);
    deps = update w.deps s (w.deps s ++ r ∷ []);
  }

  pub depend_lem :
      (s r : ℕ) (w : World N) → depend s r w ≡ (if w.signaled r then w else waiting s r w)
  unfolding depend register_wait
  depend_lem s r w = elim (Bool-cases (w.signaled r)) [ inl e ↦ rw e | inr e ↦ rw e ]

  waiting-IsLinked :
      (s r : ℕ) (w : World N)
      → IsLinked w
      → count r (w.deps s) ≡ 0
      → w.signaled r ≡ false
      → IsLinked (waiting s r w)
  waiting-IsLinked s r w l new e = record {
    mirrored = λ r' s'.
        ground (arith, l.mirrored r' s', count-snoc s' s (w.clients r), count-snoc r' r (w.deps s));
    once = λ r' s'. ground (arith, l.once r' s', count-snoc r' r (w.deps s));
    spent = λ r' s' d. ground (arith, l.spent r' s');
  }

  depend-IsLinked :
      (s r : ℕ) (w : World N) → IsLinked w → count r (w.deps s) ≡ 0 → IsLinked (depend s r w)
  depend-IsLinked s r w l new =
      rw (depend_lem s r w)
        (if_intro {A = World N} IsLinked (w.signaled r) (λ _. l) (waiting-IsLinked s r w l new))

  -- What one round of `synchronize` leaves of each field.
  pub record Depended (s : ℕ) (rs : List ℕ) (w w' : World N) : Type ℓ where
    pub linked : IsLinked w'
    pub signaled : w'.signaled ≡ w.signaled
    pub env : w'.env ≡ w.env
    pub deps : w'.deps s ≡ w.deps s ++ pending w.signaled rs
    pub others : (t : ℕ) → t ≢ s → w'.deps t ≡ w.deps t

  depend_all-Depended :
      (s : ℕ) (rs : List ℕ) (w : World N)
      → IsLinked w
      → ((r : ℕ) → count r (w.deps s) + count r rs ≤ 1)
      → Depended s rs w (depend_all s rs w)
  unfolding depend_all pending count
  depend_all-Depended s [] w l apart = record {
    linked = l;
    signaled = refl;
    env = refl;
    deps = sym (append-nil (w.deps s));
    others = λ t h. refl;
  }
  depend_all-Depended s (r ∷ rs) w l apart = elim (Bool-cases (w.signaled r)) [
    | inl e ↦
        let ih = depend_all-Depended s rs w l (λ q. omega (arith, apart q, more q)) in
        rw (depend_lem s r w, e)
          (record {
            linked = ih.linked;
            signaled = ih.signaled;
            env = ih.env;
            deps = ih.deps ∙ ap (λ l. w.deps s ++ l) (sym (skip e));
            others = ih.others;
          })
    | inr e ↦
        let here : count r (w.deps s) ≡ 0 = ground (arith, apart r) in
        let ih =
          depend_all-Depended s rs (waiting s r w) (waiting-IsLinked s r w l here e)
            (λ q. ground (arith, apart q, count-snoc q r (w.deps s))) in
        rw (depend_lem s r w, e)
          (record {
            linked = ih.linked;
            signaled = ih.signaled;
            env = ih.env;
            deps = ih.deps ∙ keep e;
            others = λ t ne. ih.others t ne ∙ ground arith;
          })
  ]
    where
      more : (q : ℕ) → count q rs ≤ count q (r ∷ rs)
      more q = unfold count in omega arith

      skip : w.signaled r ≡ true → pending w.signaled (r ∷ rs) ≡ pending w.signaled rs
      skip e = rw e

      keep :
          w.signaled r ≡ false
          → update w.deps s (w.deps s ++ r ∷ []) s ++ pending w.signaled rs
            ≡ w.deps s ++ pending w.signaled (r ∷ rs)
      keep e = rw (e, (==_iff s s).1 refl, append_assoc)

  -- A synchronizer without dependencies that waits for a list without duplicates then depends on
  -- exactly the triggerables of the list that have not been signaled, in order; it has to wait if
  -- there is one. Nothing else changes for the other synchronizers, and the links are kept.
  pub synchronize-Depended :
      (s : ℕ) (rs : List ℕ) (w : World N)
      → IsLinked w
      → w.deps s ≡ []
      → ((r : ℕ) → count r rs ≤ 1)
      → Depended s rs w (synchronize s rs w).0
        × ((synchronize s rs w).0.deps s ≡ pending w.signaled rs)
        × ((synchronize s rs w).1 ≡ not (is_nil (pending w.signaled rs)))
  unfolding synchronize count
  synchronize-Depended s rs w l free apart =
      let d = depend_all-Depended s rs w l (λ r. rw free (omega (arith, apart r))) in
      let e = d.deps ∙ ap (λ l. l ++ pending w.signaled rs) free in
      (d, e, ap (λ l. not (is_nil l)) e)
