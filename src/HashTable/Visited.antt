-- ===== src/HashTable/Visited.antt =====
-- A loop over a hash table.
use pgasus.Common.{
  ℕ, suc, ◌+◌, ◌-◌, ◌^◌, ◌≤◌, ◌<◌, ◌≡◌, refl, sym, ap, ◌∙◌, none, some, List, [], ◌∷◌, length,
  get_or, concat_map, arith, length-append, ltb, if◌then◌else◌,
}
use pgasus.Iterating.Visits.{visit, all_from, init-Leads}
use pgasus.Iterating.Nested.{visit-init}
use pgasus.HashTable.Key.{Key}
use pgasus.HashTable.Bins.{Node, Bucket, BucketSpace, BinData, empty_bucket, item_count}
use pgasus.HashTable.Table.{Table, size, total_count, no_bin}
use pgasus.HashTable.Valid.{IsValid}
use pgasus.HashTable.Laws.{IsSound}
use pgasus.HashTable.Iterators.{
  bucket_ops, bucket_iter, null_bucket, space_iter, space_ops, bin_iter, null_space, table_ops,
  begin, table_iter,
}
use pgasus.HashTable.Traversal.{
  pairs, bucket_pairs, space_pairs, bin_pairs, bucket_rest, bucket-Laws, IsFresh, bucket_starts,
  bucket_begin-rest, IsOn, space_rest, space-Laws,
}

-- The iterators of all indices of a vector visit its elements one after the other.
all_from-concat_map :
    {S A B : Type 0} (get_sub_iter : ℕ → S) (rest : S → List B) (f : A → List B) (d : A)
    (xs : List A) (k : ℕ)
    → ((i : ℕ) → i < length xs → rest (get_sub_iter (i + k)) ≡ f (get_or xs i d))
    → all_from get_sub_iter rest (length xs) k ≡ concat_map f xs
unfolding all_from concat_map
all_from-concat_map get_sub_iter rest f d [] k h = refl
all_from-concat_map get_sub_iter rest f d (x ∷ xs) k h =
    let here : 0 + k ≡ k = omega arith in
    let first : rest (get_sub_iter k) ≡ f x =
      ap (λ j. rest (get_sub_iter j)) (sym here) ∙ h 0 (omega arith) in
    rw
      (
        first,
        all_from-concat_map get_sub_iter rest f d xs (suc k) (λ i lt.
            let there : i + suc k ≡ suc i + k = omega arith in
            ap (λ j. rest (get_sub_iter j)) there ∙ h (suc i) (omega arith)),
      )
      refl

module _ {K V : Type 0} where
  pub bucket_iter-rest :
      (s : BucketSpace K V) (i : ℕ)
      → bucket_rest (bucket_iter s i) ≡ bucket_pairs (get_or s.buckets i (empty_bucket 0 0))
  unfolding bucket_iter
  bucket_iter-rest s i = bucket_begin-rest (get_or s.buckets i (empty_bucket 0 0))

  -- An iterator over the buckets from `start` up to `end`.
  pub space_iter-rest :
      (s : BucketSpace K V) (start end : ℕ)
      → end ≤ length s.buckets
      → IsOn (space_iter s start (some end))
        × (space_rest (space_iter s start (some end))
            ≡ all_from (bucket_iter s) bucket_rest (end - start) start)
  unfolding space_iter space_rest
  space_iter-rest s start end h =
      let e : (if ltb end (length s.buckets) then end else length s.buckets) ≡ end = ground arith in
      rw e (
        init-Leads bucket_ops (bucket_iter s) bucket_rest IsFresh bucket-Laws (bucket_starts s)
          start end null_bucket)

  -- All nodes of a space, in the order of the buckets.
  pub all_buckets :
      (s : BucketSpace K V)
      → all_from (bucket_iter s) bucket_rest (length s.buckets) 0 ≡ space_pairs s
  all_buckets s =
      all_from-concat_map (bucket_iter s) bucket_rest bucket_pairs (empty_bucket 0 0) s.buckets 0
        (λ i lt.
          ap (λ j. bucket_rest (bucket_iter s j)) {x = i + 0} {y = i} (omega arith)
          ∙ bucket_iter-rest s i)

  whole-rest :
      (s : BucketSpace K V)
      → IsOn (space_iter s 0 none) × (space_rest (space_iter s 0 none) ≡ space_pairs s)
  unfolding space_iter space_rest
  whole-rest s =
      let (on, left) =
        init-Leads bucket_ops (bucket_iter s) bucket_rest IsFresh bucket-Laws (bucket_starts s) 0
          (length s.buckets) null_bucket in
      (on, left ∙ ap (λ n. all_from (bucket_iter s) bucket_rest n 0) (omega arith) ∙ all_buckets s)

  bin_iter-rest :
      (t : Table K V) (i : ℕ)
      → IsOn (bin_iter t i) × (space_rest (bin_iter t i) ≡ bin_pairs (get_or t.bins i no_bin))
  unfolding bin_iter
  bin_iter-rest t i = whole-rest (get_or t.bins i no_bin).space

  length-pairs : (ns : List (Node K V)) → length (pairs ns) ≡ length ns
  length-pairs [] = refl
  length-pairs (n ∷ ns) = ap suc (length-pairs ns)

  length-buckets : (bs : List (Bucket K V)) → length (concat_map bucket_pairs bs) ≡ item_count bs
  unfolding concat_map item_count
  length-buckets [] = refl
  length-buckets (b ∷ bs) = omega (
    arith,
    length-append {0} (bucket_pairs b) (concat_map bucket_pairs bs),
    length-pairs b.items,
    length-buckets bs,
  )

module _ {K V : Type 0} ⦃key : Key K⦄ (bin_bits : ℕ) where
  length-bins :
      (bs : List (BinData K V))
      → ((i : ℕ) → i < length bs → IsValid bin_bits (get_or bs i no_bin))
      → length (concat_map bin_pairs bs) ≡ total_count bs
  unfolding concat_map total_count
  length-bins [] valid = refl
  length-bins (b ∷ bs) valid =
      let first = valid 0 (omega arith) in
      omega (
        arith,
        length-append {0} (bin_pairs b) (concat_map bin_pairs bs),
        length-buckets b.space.buckets,
        first.counted,
        length-bins bs (λ i lt. valid (suc i) (omega arith)),
      )

  -- A loop from `begin` over a sound table reaches its end: the test for the end is true after as many rounds as
  -- `size` says. It sees the pair of every node of every bucket of every bin once, in this order; no null
  -- pointer is read.
  pub visit-begin :
      (t : Table K V)
      → IsSound bin_bits t
      → visit (table_ops t) (suc (size t)) (begin bin_bits t) ≡ some (concat_map bin_pairs t.bins)
  unfolding begin table_iter size
  visit-begin t sound =
      let seen : all_from (bin_iter t) space_rest (2 ^ bin_bits - 0) 0
          ≡ concat_map bin_pairs t.bins =
        ap (λ n. all_from (bin_iter t) space_rest n 0) (omega (arith, sound.width))
        ∙ all_from-concat_map (bin_iter t) space_rest bin_pairs no_bin t.bins 0 (λ i lt.
          ap (λ j. space_rest (bin_iter t j)) {x = i + 0} {y = i} (omega arith)
          ∙ (bin_iter-rest t i).1) in
      let few : length (concat_map bin_pairs t.bins) ≡ total_count t.bins =
        length-bins t.bins (λ i lt. sound.bins i (omega (arith, sound.width))) in
      visit-init space_ops (bin_iter t) space_rest IsOn space-Laws (λ i. (bin_iter-rest t i).0)
        (suc (total_count t.bins)) 0 (2 ^ bin_bits) null_space (omega (arith, few, ap length seen))
      ∙ ap some seen
