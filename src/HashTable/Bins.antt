-- ===== src/HashTable/Bins.antt =====
-- BinData and its parts: nodes, buckets, bucket spaces, and the operations that run on a bin.
use pgasus.Common.{
  ℕ, zero, suc, ◌+◌, ◌-◌, ◌*◌, ◌/◌, ◌%◌, ◌^◌, bit_and, Bool, true, false, ◌&&◌, Option, none, some,
  List, [], ◌∷◌, ◌++◌, ◌==◌, leb, if◌then◌else◌, length, get_or, set,
}
use pgasus.HashTable.Key.{Key, ◌=?◌}

-- `HashTable::Node`: the hash that was computed at insertion, and the pair.
pub record Node {ℓ} (K V : Type ℓ) : Type ℓ where
  pub hash : ℕ
  pub key : K
  pub value : V

-- `HashTable::Bucket`: a vector of nodes with its index and its generation counter.
pub record Bucket {ℓ} (K V : Type ℓ) : Type ℓ where
  pub items : List (Node K V)
  pub index : ℕ
  pub generation : ℕ

-- `HashTable::BucketSpace`.
pub record BucketSpace {ℓ} (K V : Type ℓ) : Type ℓ where
  pub num_buckets : ℕ
  pub num_buckets_mask : ℕ
  pub buckets : List (Bucket K V)

-- `HashTable::BinData`; `_max_load_ratio` is the constant 3.
pub record BinData {ℓ} (K V : Type ℓ) : Type ℓ where
  pub max_count : ℕ
  pub generation : ℕ
  pub space : BucketSpace K V
  pub count : ℕ

-- A node iterator within a bucket: the nodes before it, the node, and the nodes behind it.
abbrev pub NodeIterator {ℓ} : (K V : Type ℓ) → Type ℓ
NodeIterator K V = List (Node K V) × Node K V × List (Node K V)

-- What `d.found` and `d.notfound` of the class Detail do, and its constant `does_modify`.
pub record Detail {ℓ κ} (K V : Type ℓ) (R : Type κ) : Type (ℓ ⊔ κ) where
  pub does_modify : Bool
  pub found : NodeIterator K V → BinData K V → ℕ → K → BinData K V × R
  pub notfound : BinData K V → ℕ → K → ℕ → BinData K V × R

module _ {ℓ} {K V : Type ℓ} where
  unfoldable pub empty_bucket : ℕ → ℕ → Bucket K V
  empty_bucket i gen = record { items = []; index = i; generation = gen * 2 ^ 32 % 2 ^ 64 }

  -- The loop of the constructor of BucketSpace from index `i` on, with `n` rounds left.
  unfoldable pub make_buckets : ℕ → ℕ → ℕ → List (Bucket K V)
  make_buckets zero i gen = []
  make_buckets (suc n) i gen = empty_bucket i gen ∷ make_buckets n (i + 1) gen

  unfoldable pub new_space : ℕ → ℕ → BucketSpace K V
  new_space sz gen = record {
    num_buckets = sz;
    num_buckets_mask = sz - 1;
    buckets = make_buckets sz 0 gen;
  }

  -- The index that `from_hash` computes.
  unfoldable pub bucket_index : ℕ → BucketSpace K V → ℕ → ℕ
  bucket_index bin_bits s h = bit_and (h / 2 ^ bin_bits) s.num_buckets_mask

  abbrev pub items_at : List (Bucket K V) → ℕ → List (Node K V)
  items_at bs i = (get_or bs i (empty_bucket 0 0)).items

  unfoldable pub push_back : Node K V → Bucket K V → Bucket K V
  push_back n b = record b { items = b.items ++ n ∷ [] }

  -- Applies a change to bucket `i`.
  abbrev pub modify : List (Bucket K V) → ℕ → (Bucket K V → Bucket K V) → List (Bucket K V)
  modify bs i f = set bs i (f (get_or bs i (empty_bucket 0 0)))

  abbrev pub modify_space : BucketSpace K V → ℕ → (Bucket K V → Bucket K V) → BucketSpace K V
  modify_space s i f = record s { buckets = modify s.buckets i f }

  -- `BucketSpace::itemCount`.
  unfoldable pub item_count : List (Bucket K V) → ℕ
  item_count [] = 0
  item_count (b ∷ bs) = length b.items + item_count bs

  -- New contents, with the bucket's generation advanced (`std::atomic_size_t`).
  abbrev pub advance : List (Node K V) → Bucket K V → Bucket K V
  advance ns b = record b { items = ns; generation = (b.generation + 1) % 2 ^ 64 }

  -- `add_to_bucket`: counts the node, appends it, and advances the bucket's generation.
  unfoldable pub add_to_bucket : BinData K V → ℕ → K → ℕ → V → BinData K V
  add_to_bucket bd i k h v =
      let n : Node K V = record { hash = h; key = k; value = v } in
      record bd {
        count = bd.count + 1;
        space = modify_space bd.space i (λ b. advance (b.items ++ n ∷ []) b);
      }

module _ {ℓ} {K V : Type ℓ} ⦃key : Key K⦄ where
  -- The search loop of `operate_on_bin`: the first node with this hash and this key.
  unfoldable pub locate : ℕ → K → List (Node K V) → Option (NodeIterator K V)
  locate h k [] = none
  locate h k (n ∷ ns) = elim (n.hash == h && n.key =? k) [
    | true ↦ some ([], n, ns)
    | false ↦ elim (locate h k ns) [ none ↦ none | some (b, m, a) ↦ some (n ∷ b, m, a) ]
  ]

module _ {ℓ} {K V : Type ℓ} ⦃key : Key K⦄ (bin_bits : ℕ) where
  -- `newbuckets->from_hash(_parent->_hash(node->key()))->push_back(node)` over the nodes of one
  -- bucket, then over all buckets.
  unfoldable pub rehash_bucket : List (Node K V) → BucketSpace K V → BucketSpace K V
  rehash_bucket [] s = s
  rehash_bucket (n ∷ ns) s =
      rehash_bucket ns (modify_space s (bucket_index bin_bits s (key.hash n.key)) (push_back n))

  unfoldable pub rehash_all : List (Bucket K V) → BucketSpace K V → BucketSpace K V
  rehash_all [] s = s
  rehash_all (b ∷ bs) s = rehash_all bs (rehash_bucket b.items s)

  unfoldable pub resize : ℕ → BinData K V → BinData K V
  resize sz bd = record bd {
    max_count = sz * 3;
    generation = bd.generation + 1;
    space = rehash_all bd.space.buckets (new_space sz (bd.generation + 1));
  }

  unfoldable pub resize_if_necessary : BinData K V → BinData K V
  resize_if_necessary bd =
      if leb bd.max_count bd.count then resize (2 * length bd.space.buckets) bd else bd

  -- The check at the start of `operate_on_bin`.
  unfoldable pub ready : Bool → BinData K V → BinData K V
  ready does_modify bd =
      if does_modify && leb bd.max_count bd.count then resize_if_necessary bd else bd

  unfoldable pub operate_on_bin {κ} :
      {R : Type κ} → Detail K V R → K → ℕ → BinData K V → BinData K V × R
  operate_on_bin d k h bd =
      let bd' = ready d.does_modify bd in
      let i = bucket_index bin_bits bd'.space h in
      elim (locate h k (items_at bd'.space.buckets i)) [
        | some it ↦ d.found it bd' i k
        | none ↦ d.notfound bd' i k h
      ]
