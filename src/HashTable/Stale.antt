-- ===== src/HashTable/Stale.antt =====
-- A bucket iterator whose bucket was changed under it.
use pgasus.Common.{
  ℕ, zero, suc, ◌≤◌, ◌≡◌, ◌≢◌, refl, ap, true, false, some, List, [], ◌∷◌, ◌==◌, ltb, get_elem?,
  arith, Bool-cases, inl, inr,
}
use pgasus.HashTable.Bins.{Node}
use pgasus.HashTable.Iterators.{
  BucketIterator, update_curr_node, bucket_is_end, bucket_next, first_not_below,
}

module _ {K V : Type 0} where
  -- The search finds a node if there is one to find, and from its hash it finds it again.
  found_again :
      (h : ℕ) (ns : List (Node K V)) (j : ℕ) (n : Node K V)
      → get_elem? ns j ≡ some n
      → h ≤ n.hash
      → (m : Node K V) × (get_elem? ns (first_not_below h ns) ≡ some m)
        × (h ≤ m.hash)
        × (first_not_below m.hash ns ≡ first_not_below h ns)
  unfolding first_not_below
  found_again h [] j n found le = absurd (ground (arith, found))
  found_again h (x ∷ xs) zero n found le =
      (x, ground (arith, found), ground (arith, found), ground (arith, found))
  found_again h (x ∷ xs) (suc j) n found le = elim (Bool-cases (ltb x.hash h)) [
    | inl low ↦
        let (m, at, above, again) = found_again h xs j n found le in
        let lower : ltb x.hash m.hash ≡ true = ground (arith, low, above) in
        (m, rw low at, above, rw (lower, low) (ap suc again))
    | inr high ↦
        let same : ltb x.hash x.hash ≡ false = ground arith in
        (x, rw high refl, ground (arith, high), rw (high, same) refl)
  ]

  -- After a change of its bucket that leaves the current node there, an iterator does not advance: a call of
  -- `next` succeeds, and each further call leaves the iterator as it is and says that there is more.
  pub next-stale :
      (it : BucketIterator K V) (n : Node K V) (j : ℕ)
      → it.curr_node ≡ some n
      → it.generation ≢ it.bucket.generation
      → get_elem? it.bucket.items j ≡ some n
      → ((bucket_next it).1 ≡ true) × (bucket_next (bucket_next it).0 ≡ ((bucket_next it).0, true))
  unfolding bucket_next update_curr_node bucket_is_end
  next-stale it n j on changed there =
      let stale : (it.generation == it.bucket.generation) ≡ false = ground (arith, changed) in
      let (m, at, above, again) = found_again n.hash it.bucket.items j n there (omega arith) in
      rw (on, stale, at, stale, again, at) (refl, refl)
