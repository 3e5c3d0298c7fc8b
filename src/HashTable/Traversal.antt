-- ===== src/HashTable/Traversal.antt =====
-- What the iterators of the hash table visit.
use pgasus.Common.{
  ℕ, suc, ◌≡◌, refl, ap, ◌∙◌, true, not, Option, some, List, ◌∷◌, map, ◌==◌, get_or, get_elem?,
  drop, drop-cases, concat_map, arith, inl, inr,
}
use pgasus.Sync.{is_nil}
use pgasus.Iterating
use pgasus.Iterating.{Ops, Recursive, init}
use pgasus.Iterating.Visits.{Laws, remaining, IsReady}
use pgasus.Iterating.Nested.{recursive-Laws}
use pgasus.HashTable.Bins.{Node, Bucket, BucketSpace, BinData, empty_bucket}
use pgasus.HashTable.Iterators.{
  BucketIterator, SpaceIterator, bucket_begin, update_curr_node, bucket_is_end, bucket_next,
  data_of, bucket_value, bucket_ops, bucket_iter, space_ops,
}

module _ {K V : Type 0} where
  -- The nodes of a bucket, a space and a bin, in order, as the pairs that a loop sees.
  abbrev pub pairs : List (Node K V) → List (Option (K × V))
  pairs ns = map data_of ns

  abbrev pub bucket_pairs : Bucket K V → List (Option (K × V))
  bucket_pairs b = pairs b.items

  abbrev pub space_pairs : BucketSpace K V → List (Option (K × V))
  space_pairs s = concat_map bucket_pairs s.buckets

  abbrev pub bin_pairs : BinData K V → List (Option (K × V))
  bin_pairs b = space_pairs b.space

  -- An iterator over a bucket that has not changed since, on the node of its index.
  pub record IsFresh (it : BucketIterator K V) : Type 0 where
    pub unchanged : it.generation ≡ it.bucket.generation
    pub on_node : it.curr_node ≡ get_elem? it.bucket.items it.index

  unfoldable pub bucket_rest : BucketIterator K V → List (Option (K × V))
  bucket_rest it = pairs (drop it.index it.bucket.items)

  bucket-ended : (it : BucketIterator K V) → IsFresh it → bucket_is_end it ≡ is_nil (bucket_rest it)
  unfolding bucket_is_end bucket_rest
  bucket-ended it fresh = elim (drop-cases it.index it.bucket.items) [
    | inl (none_there, over) ↦ rw (fresh.on_node, none_there, over) refl
    | inr (n, found, more) ↦ rw (fresh.on_node, found, more) refl
  ]

  bucket-value :
      (it : BucketIterator K V) (v : Option (K × V)) (vs : List (Option (K × V)))
      → IsFresh it
      → bucket_rest it ≡ v ∷ vs
      → bucket_value it ≡ v
  unfolding bucket_value bucket_rest
  bucket-value it v vs fresh h = elim (drop-cases it.index it.bucket.items) [
    | inl (none_there, over) ↦ cc
    | inr (n, found, more) ↦ rw (fresh.on_node, found) (cc)
  ]

  -- The step of an unchanged bucket's iterator.
  abbrev advanced : BucketIterator K V → BucketIterator K V
  advanced it = update_curr_node (record it { index = suc it.index })

  advanced-IsFresh : (it : BucketIterator K V) → IsFresh it → IsFresh (advanced it)
  unfolding update_curr_node
  advanced-IsFresh it fresh = record { unchanged = fresh.unchanged; on_node = refl }

  next-advanced :
      (it : BucketIterator K V) (n : Node K V)
      → IsFresh it
      → get_elem? it.bucket.items it.index ≡ some n
      → bucket_next it ≡ (advanced it, not (bucket_is_end (advanced it)))
  unfolding bucket_next
  next-advanced it n fresh found =
      let same : (it.generation == it.bucket.generation) ≡ true = ground (arith, fresh.unchanged) in
      rw (fresh.on_node, found, same) refl

  pub bucket-Laws : Laws (bucket_ops {K = K} {V = V}) bucket_rest IsFresh
  unfolding bucket_rest
  bucket-Laws = record {
    ended = bucket-ended;
    value = bucket-value;
    next = λ it v vs fresh h. elim (drop-cases it.index it.bucket.items) [
      | inl (none_there, over) ↦ cc
      | inr (n, found, more) ↦
          let left : pairs (drop (suc it.index) it.bucket.items) ≡ vs = cc in
          let fresh' = advanced-IsFresh it fresh in
          rw (next-advanced it n fresh found) (
            fresh',
            unfold update_curr_node in left,
            ap not
                (bucket-ended (advanced it) fresh' ∙ ap is_nil (unfold update_curr_node in left)),
          )
    ];
  }

  pub bucket_begin-IsFresh : (b : Bucket K V) → IsFresh (bucket_begin b)
  unfolding bucket_begin update_curr_node
  bucket_begin-IsFresh b = record { unchanged = refl; on_node = refl }

  pub bucket_begin-rest : (b : Bucket K V) → bucket_rest (bucket_begin b) ≡ bucket_pairs b
  unfolding bucket_rest bucket_begin update_curr_node drop
  bucket_begin-rest b = refl

  pub bucket_starts : (s : BucketSpace K V) (i : ℕ) → IsFresh (bucket_iter s i)
  unfolding bucket_iter
  bucket_starts s i = bucket_begin-IsFresh (get_or s.buckets i (empty_bucket 0 0))

  abbrev pub IsOn : SpaceIterator K V → Type 0
  IsOn it = IsReady (bucket_iter it.buckets) bucket_rest IsFresh it.walk

  unfoldable pub space_rest : SpaceIterator K V → List (Option (K × V))
  space_rest it = remaining (bucket_iter it.buckets) bucket_rest it.walk

  walk-Laws :
      (s : BucketSpace K V)
      → Laws
          (Iterating.recursive_ops bucket_ops (bucket_iter s))
          (remaining (bucket_iter s) bucket_rest)
          (IsReady (bucket_iter s) bucket_rest IsFresh)
  walk-Laws s =
      recursive-Laws bucket_ops (bucket_iter s) bucket_rest IsFresh bucket-Laws (bucket_starts s)

  pub space-Laws : Laws (space_ops {K = K} {V = V}) space_rest IsOn
  unfolding space_rest
  space-Laws = record {
    ended = λ it good. (walk-Laws it.buckets).ended it.walk good;
    value = λ it v vs good h. (walk-Laws it.buckets).value it.walk v vs good h;
    next = λ it v vs good h. (walk-Laws it.buckets).next it.walk v vs good h;
  }
