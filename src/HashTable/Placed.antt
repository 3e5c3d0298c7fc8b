-- ===== src/HashTable/Placed.antt =====
-- Where the nodes of a bucket space stand, and what the space means as a map from keys to values.
use native.Mathlib.Nat.{one-le-pow}
use pgasus.Common.{
  ℕ, zero, suc, ◌+◌, ◌-◌, ◌^◌, ◌≤◌, ◌<◌, ◌≡◌, ap, ◌∙◌, ==_iff, ◌≢◌, true, false, Option, List, [],
  ◌∷◌, arith, ◌==◌, if◌then◌else◌, if_intro, length, get_or, length-set, get_or-set, bit_and-mask,
}
use pgasus.HashTable.Key.{Key, ◌=?◌, hash_congr}
use pgasus.HashTable.Bins.{
  Node, Bucket, BucketSpace, empty_bucket, bucket_index, items_at, modify, modify_space, item_count,
}
use pgasus.HashTable.Items.{find, occurs, IsHashed, Rewrites}

module _ {ℓ} {K V : Type ℓ} where
  pub item_count-modify :
      (bs : List (Bucket K V)) (i : ℕ) (f : Bucket K V → Bucket K V)
      → i < length bs
      → item_count (modify bs i f) + length (items_at bs i)
        ≡ item_count bs + length (f (get_or bs i (empty_bucket 0 0))).items
  unfolding item_count
  item_count-modify [] i f h = absurd (omega arith)
  item_count-modify (b ∷ bs) zero f h = omega arith
  item_count-modify (b ∷ bs) (suc i) f h = omega (arith, item_count-modify bs i f)

  pub items_at-modify :
      (bs : List (Bucket K V)) (i j : ℕ) (f : Bucket K V → Bucket K V)
      → i < length bs
      → items_at (modify bs i f) j
        ≡ (if i == j then (f (get_or bs i (empty_bucket 0 0))).items else items_at bs j)
  items_at-modify bs i j f h =
      ground (arith, get_or-set bs i j (f (get_or bs i (empty_bucket 0 0))) (empty_bucket 0 0))

module _ {ℓ} {K V : Type ℓ} ⦃key : Key K⦄ (bin_bits : ℕ) where
  -- The bucket in which a key belongs.
  abbrev pub home : BucketSpace K V → K → ℕ
  home s q = bucket_index bin_bits s (key.hash q)

  -- Each node stands in the bucket of its key, with the hash of its key, and no key stands twice.
  -- The number of buckets is a power of two, as the constructor of BucketSpace asserts.
  pub record IsPlaced (s : BucketSpace K V) : Type ℓ where
    pub bits : ℕ
    pub pow : s.num_buckets ≡ 2 ^ bits
    pub mask : s.num_buckets_mask ≡ s.num_buckets - 1
    pub width : length s.buckets ≡ s.num_buckets
    pub hashed : (i : ℕ) → IsHashed (items_at s.buckets i)
    pub once : (q : K) (i : ℕ) → occurs q (items_at s.buckets i) ≤ 1
    pub at_home : (q : K) (i : ℕ) → home s q ≢ i → occurs q (items_at s.buckets i) ≡ 0

  -- The map that a space stands for: the value under a key, if any.
  unfoldable pub view : BucketSpace K V → K → Option V
  view s q = find q (items_at s.buckets (home s q))

  pub view_congr : (s : BucketSpace K V) (a b : K) → (a =? b) ≡ true → view s a ≡ view s b
  view_congr s a b h = ap (view s) ((key.beq_iff a b).0 h)

  pub home-lt : (s : BucketSpace K V) → IsPlaced s → (q : K) → home s q < length s.buckets
  unfolding bucket_index
  home-lt s p q =
      rw (p.width, p.mask, p.pow, bit_and-mask) (let pos = one-le-pow p.bits 2 in omega arith)

  pub home_congr : (s : BucketSpace K V) (a b : K) → (a =? b) ≡ true → home s a ≡ home s b
  home_congr s a b h = rw (hash_congr a b h)

  module _ (s : BucketSpace K V) (p : IsPlaced s) (k : K) (v : Option V)
      (f : Bucket K V → Bucket K V)
      (r : Rewrites k v
        (items_at s.buckets (home s k))
        (f (get_or s.buckets (home s k) (empty_bucket 0 0))).items) where
    items-modify :
        (i : ℕ)
        → items_at (modify s.buckets (home s k) f) i ≡ (
            if home s k == i
            then (f (get_or s.buckets (home s k) (empty_bucket 0 0))).items
            else items_at s.buckets i)
    items-modify i = items_at-modify s.buckets (home s k) i f (home-lt s p k)

    others : (q : K) (i : ℕ) → home s q ≢ i → (home s k == i) ≡ true → (q =? k) ≡ false
    others q i ne e = ground (arith, home_congr s q k)

    moved :
        (q : K) (i : ℕ)
        → home s q ≢ i
        → (home s k == i) ≡ true
        → occurs q (f (get_or s.buckets (home s k) (empty_bucket 0 0))).items ≡ 0
    moved q i ne e =
        let here = (==_iff (home s k) i).0 e in
        omega (arith, r.others q (others q i ne e), p.at_home q (home s k) (λ e'. ne (e' ∙ here)))

    pub modify-IsPlaced : IsPlaced (modify_space s (home s k) f)
    unfolding bucket_index
    modify-IsPlaced = record {
      bits = p.bits;
      pow = p.pow;
      mask = p.mask;
      width = rw length-set p.width;
      hashed = λ i. rw (items-modify i) (
          if_intro {A = List (Node K V)} IsHashed (home s k == i) (λ _. r.hashed)
            (λ _. p.hashed i));
      once = λ q i. rw (items-modify i) (
          if_intro {A = List (Node K V)} (λ ns. occurs q ns ≤ 1) (home s k == i) (λ _. r.few q)
            (λ _. p.once q i));
      at_home = λ q i ne. rw (items-modify i) (
          if_intro {A = List (Node K V)} (λ ns. occurs q ns ≡ 0) (home s k == i) (moved q i ne)
            (λ _. p.at_home q i ne));
    }

    pub view-modify :
        (q : K) → view (modify_space s (home s k) f) q ≡ (if q =? k then v else view s q)
    unfolding view bucket_index
    view-modify q = rw (items-modify (home s q)) (
        if_intro {A = List (Node K V)} (λ ns. find q ns ≡ (if q =? k then v else view s q))
          (home s k == home s q)
          (λ e.
            r.found q
            ∙ ap (λ i. if q =? k then v else find q (items_at s.buckets i))
                ((==_iff (home s k) (home s q)).0 e))
          (λ e. ground (arith, home_congr s q k)))
