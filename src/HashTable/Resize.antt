-- ===== src/HashTable/Resize.antt =====
-- `BinData::resize`: the new space holds the same nodes, and reads as the same map.
use pgasus.Common.{
  ℕ, zero, suc, ◌+◌, ◌^◌, ◌≤◌, ◌<◌, ◌≡◌, refl, ap, ◌∙◌, sym, ◌≢◌, none, some, List, [], ◌∷◌, ◌++◌,
  arith, length, length-append,
}
use pgasus.HashTable.Key.{Key, =?_refl}
use pgasus.HashTable.Bins.{
  Node, Bucket, BucketSpace, BinData, empty_bucket, make_buckets, new_space, push_back, items_at,
  modify_space, item_count, rehash_bucket, rehash_all, resize,
}
use pgasus.HashTable.Items.{
  or_else, find, occurs, IsHashed, IsHashed-append, find-append, occurs-append, find-eq-none,
  snoc-Rewrites,
}
use pgasus.HashTable.Placed.{
  home, IsPlaced, view, home-lt, modify-IsPlaced, view-modify, item_count-modify,
}

module _ {ℓ} (K V : Type ℓ) where
  length-make_buckets : (n i gen : ℕ) → length (make_buckets {K = K} {V = V} n i gen) ≡ n
  unfolding make_buckets
  length-make_buckets zero i gen = refl
  length-make_buckets (suc n) i gen = ap suc (length-make_buckets n (i + 1) gen)

  items_at-make_buckets : (n i gen j : ℕ) → items_at (make_buckets {K = K} {V = V} n i gen) j ≡ []
  unfolding make_buckets empty_bucket
  items_at-make_buckets zero i gen j = refl
  items_at-make_buckets (suc n) i gen zero = refl
  items_at-make_buckets (suc n) i gen (suc j) = items_at-make_buckets n (i + 1) gen j

  item_count-make_buckets : (n i gen : ℕ) → item_count (make_buckets {K = K} {V = V} n i gen) ≡ 0
  unfolding make_buckets empty_bucket item_count
  item_count-make_buckets zero i gen = refl
  item_count-make_buckets (suc n) i gen = omega (arith, item_count-make_buckets n (i + 1) gen)

  pub item_count-new_space :
      (sz gen : ℕ) → item_count (new_space {K = K} {V = V} sz gen).buckets ≡ 0
  unfolding new_space
  item_count-new_space sz gen = item_count-make_buckets sz 0 gen

module _ {ℓ} {K V : Type ℓ} where
  -- The nodes of all buckets, in the order in which `resize` visits them.
  pub all_items : List (Bucket K V) → List (Node K V)
  all_items [] = []
  all_items (b ∷ bs) = b.items ++ all_items bs

  pub length-all_items : (bs : List (Bucket K V)) → length (all_items bs) ≡ item_count bs
  unfolding all_items item_count
  length-all_items [] = refl
  length-all_items (b ∷ bs) = rw length-append (omega (arith, length-all_items bs))

module _ {ℓ} {K V : Type ℓ} ⦃key : Key K⦄ (bin_bits : ℕ) where
  pub new_space-IsPlaced :
      (sz gen e : ℕ) → sz ≡ 2 ^ e → IsPlaced {K = K} {V = V} bin_bits (new_space sz gen)
  unfolding new_space occurs
  new_space-IsPlaced sz gen e p = record {
    bits = e;
    pow = p;
    mask = refl;
    width = length-make_buckets K V sz 0 gen;
    hashed = λ i. rw (items_at-make_buckets K V sz 0 gen i) tt;
    once = λ q i. rw (items_at-make_buckets K V sz 0 gen i) (omega arith);
    at_home = λ q i _. rw (items_at-make_buckets K V sz 0 gen i);
  }

  pub view-new_space :
      (sz gen : ℕ) (q : K) → view {K = K} {V = V} bin_bits (new_space sz gen) q ≡ none
  unfolding new_space view find
  view-new_space sz gen q = rw (items_at-make_buckets K V sz 0 gen _)

  pub record Rehashed (s : BucketSpace K V) (ns : List (Node K V)) (t : BucketSpace K V)
      : Type ℓ where
    pub placed : IsPlaced bin_bits t
    pub same : t.num_buckets ≡ s.num_buckets
    pub entries : item_count t.buckets ≡ item_count s.buckets + length ns
    pub reads : (q : K) → view bin_bits t q ≡ or_else (view bin_bits s q) (find q ns)

  rehash_bucket-Rehashed :
      (ns : List (Node K V)) (s : BucketSpace K V)
      → IsPlaced bin_bits s
      → IsHashed ns
      → ((q : K) → occurs q ns ≤ 1)
      → ((q : K) → 0 < occurs q ns → view bin_bits s q ≡ none)
      → Rehashed s ns (rehash_bucket bin_bits ns s)
  unfolding rehash_bucket find occurs push_back
  rehash_bucket-Rehashed [] s p h once apart = record {
    placed = p;
    same = refl;
    entries = omega arith;
    reads = λ q. ground arith;
  }
  rehash_bucket-Rehashed (n ∷ ns) s p (hn, hs) once apart =
      let i = home bin_bits s n.key in
      let t = modify_space s i (push_back n) in
      let absent = apart n.key (ground (arith, =?_refl n.key)) in
      let r =
        snoc-Rewrites n (items_at s.buckets i) hn (p.hashed i) (λ q. p.once q i)
          (seen s n absent) in
      let placed = modify-IsPlaced bin_bits s p n.key (some n.value) (push_back n) r in
      let reads = view-modify bin_bits s p n.key (some n.value) (push_back n) r in
      let rest =
        rehash_bucket-Rehashed ns t placed hs (λ q. omega (arith, once q))
          (λ q o. ground (arith, reads q, once q, apart q)) in
      record {
        placed = rest.placed;
        same = rest.same;
        entries = omega (
          arith,
          rest.entries,
          item_count-modify s.buckets i (push_back n) (home-lt bin_bits s p n.key),
          length-append (items_at s.buckets i) (n ∷ []),
        );
        reads = λ q. ground (arith, rest.reads q, reads q, apart q, once q);
      }
    where
      seen :
          (s : BucketSpace K V) (n : Node K V)
          → view bin_bits s n.key ≡ none
          → find n.key (items_at s.buckets (home bin_bits s n.key)) ≡ none
      seen s n h = unfold view in h

  nowhere :
      (q : K) (bs : List (Bucket K V))
      → ((i : ℕ) → occurs q (items_at bs i) ≡ 0)
      → occurs q (all_items bs) ≡ 0
  unfolding all_items occurs
  nowhere q [] h = refl
  nowhere q (b ∷ bs) h = rw occurs-append (omega (arith, h 0, nowhere q bs (λ i. h (suc i))))

  -- A key that stands in bucket `j` at most is found among all nodes as it is found there.
  only_at :
      (q : K) (bs : List (Bucket K V)) (j : ℕ)
      → ((i : ℕ) → i ≢ j → occurs q (items_at bs i) ≡ 0)
      → (find q (all_items bs) ≡ find q (items_at bs j))
        × (occurs q (all_items bs) ≡ occurs q (items_at bs j))
  unfolding all_items occurs find empty_bucket
  only_at q [] j h = (refl, refl)
  only_at q (b ∷ bs) zero h =
      let rest = nowhere q bs (λ i. h (suc i) (omega arith)) in
      (
        rw find-append (ground (arith, find-eq-none q (all_items bs) rest)),
        rw occurs-append (omega (arith, rest)),
      )
  only_at q (b ∷ bs) (suc j) h =
      let here = h 0 (omega arith) in
      let (found, counted) = only_at q bs j (λ i n. h (suc i) (omega arith)) in
      (
        rw find-append (ground (arith, find-eq-none q b.items here, found)),
        rw occurs-append (omega (arith, here, counted)),
      )

  all_items-IsHashed :
      (bs : List (Bucket K V)) → ((i : ℕ) → IsHashed (items_at bs i)) → IsHashed (all_items bs)
  unfolding all_items
  all_items-IsHashed [] h = tt
  all_items-IsHashed (b ∷ bs) h =
      IsHashed-append b.items (all_items bs) (h 0) (all_items-IsHashed bs (λ i. h (suc i)))

  all_items-view :
      (s : BucketSpace K V)
      → IsPlaced bin_bits s
      → (q : K)
      → (find q (all_items s.buckets) ≡ view bin_bits s q) × (occurs q (all_items s.buckets) ≤ 1)
  unfolding view
  all_items-view s p q =
      let (found, counted) =
        only_at q s.buckets (home bin_bits s q) (λ i ne. p.at_home q i (λ e. ne (sym e))) in
      (found, rw counted (p.once q _))

  rehash_bucket-append :
      (a b : List (Node K V)) (s : BucketSpace K V)
      → rehash_bucket bin_bits (a ++ b) s ≡ rehash_bucket bin_bits b (rehash_bucket bin_bits a s)
  unfolding rehash_bucket
  rehash_bucket-append [] b s = refl
  rehash_bucket-append (n ∷ a) b s = rehash_bucket-append a b _

  rehash_all-all_items :
      (bs : List (Bucket K V)) (s : BucketSpace K V)
      → rehash_all bin_bits bs s ≡ rehash_bucket bin_bits (all_items bs) s
  unfolding rehash_all all_items rehash_bucket
  rehash_all-all_items [] s = refl
  rehash_all-all_items (b ∷ bs) s =
      rehash_all-all_items bs (rehash_bucket bin_bits b.items s)
      ∙ sym (rehash_bucket-append b.items (all_items bs) s)

  -- `resize` to `2 ^ e` buckets, of a bin whose nodes are in place, leaves all nodes in place, with as
  -- many buckets as asked for, as many nodes as before, and the same value under every key.
  pub resize-Rehashed :
      (bd : BinData K V) (sz e : ℕ)
      → sz ≡ 2 ^ e
      → IsPlaced bin_bits bd.space
      → IsPlaced bin_bits (resize bin_bits sz bd).space
        × ((resize bin_bits sz bd).space.num_buckets ≡ sz)
        × (item_count (resize bin_bits sz bd).space.buckets ≡ item_count bd.space.buckets)
        × ((q : K) → view bin_bits (resize bin_bits sz bd).space q ≡ view bin_bits bd.space q)
  unfolding resize
  resize-Rehashed bd sz e pow p =
      let start = new_space-IsPlaced sz (bd.generation + 1) e pow in
      let blank = view-new_space sz (bd.generation + 1) in
      let r =
        rehash_bucket-Rehashed (all_items bd.space.buckets) (new_space sz (bd.generation + 1)) start
          (all_items-IsHashed bd.space.buckets p.hashed) (λ q. (all_items-view bd.space p q).1)
          (λ q _. blank q) in
      rw (rehash_all-all_items bd.space.buckets (new_space sz (bd.generation + 1))) (
        r.placed,
        r.same ∙ unfold new_space in refl,
        omega (
          arith,
          r.entries,
          item_count-new_space K V sz (bd.generation + 1),
          length-all_items bd.space.buckets,
        ),
        λ q. r.reads q ∙ rw (blank q) ((all_items-view bd.space p q).0),
      )
