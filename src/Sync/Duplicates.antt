-- ===== src/Sync/Duplicates.antt =====
-- A wait list that names a triggerable twice: `synchronize` registers the client twice, while
-- `signal` removes every occurrence of the triggerable at once.
use pgasus.Common.{
  ℕ, ◌≡◌, refl, true, false, Option, none, [], ◌∷◌, ◌==◌, ==_iff, remove_all, Option-cases, inl,
  inr,
}
use pgasus.Sync.{
  World, update, depend_all, synchronize, signal, signal_all, trigger_all, set_signaled,
}
use pgasus.Sync.Invariant.{waiting, depend_lem}

module _ {ℓ} {N : Type ℓ} (notify : ℕ → N → Option N) where
  signal_all-twice :
      (s r : ℕ) (w : World N) → w.deps s ≡ r ∷ r ∷ [] → signal_all notify r (s ∷ s ∷ []) w ≡ none
  unfolding signal_all signal remove_all
  signal_all-twice s r w d =
      let ss : (s == s) ≡ true = (==_iff s s).1 refl in
      let rr : (r == r) ≡ true = (==_iff r r).1 refl in
      elim (Option-cases (notify s w.env)) [
        | inl f ↦ rw (d, rr, f) refl
        | inr (x, f) ↦ rw (d, rr, f, ss) refl
      ]

  set_signaled-both :
      (s r : ℕ) (w : World N)
      → w.signaled r ≡ false
      → w.clients r ≡ s ∷ s ∷ []
      → w.deps s ≡ r ∷ r ∷ []
      → set_signaled notify r w ≡ none
  unfolding set_signaled trigger_all
  set_signaled-both s r w e c d =
      rw (e, c, signal_all-twice s r (record w { signaled = update w.signaled r true }) d) refl

  -- Where a client without dependencies has waited for a list that names a triggerable twice, which
  -- has neither clients nor been signaled, signaling it fails an assertion.
  pub set_signaled-twice :
      (s r : ℕ) (w : World N)
      → w.signaled r ≡ false
      → w.clients r ≡ []
      → w.deps s ≡ []
      → set_signaled notify r (synchronize s (r ∷ r ∷ []) w).0 ≡ none
  unfolding synchronize depend_all
  set_signaled-twice s r w e c d =
      let ss : (s == s) ≡ true = (==_iff s s).1 refl in
      let rr : (r == r) ≡ true = (==_iff r r).1 refl in
      rw (depend_lem s r w, e, depend_lem s r (waiting s r w), e)
        (set_signaled-both s r (waiting s r (waiting s r w)) e (rw (rr, c) refl) (rw (ss, d) refl))
