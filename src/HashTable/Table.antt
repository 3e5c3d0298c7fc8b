-- ===== src/HashTable/Table.antt =====
-- The class HashTable: an array of `2 ^ bin_bits` bins, each on a node, and its public operations.
use pgasus.Common.{
  ℕ, zero, suc, ◌+◌, ◌-◌, ◌*◌, ◌/◌, ◌^◌, bit_and, Bool, Option, List, [], ◌∷◌, length, get_or, set,
  replicate,
}
use pgasus.HashTable.Key.{Key}
use pgasus.HashTable.Bins.{BinData}
use pgasus.HashTable.Operations.{ValueRef, get_or_create, get, remove, insert, new_bin}

pub record Table {ℓ} (K V : Type ℓ) : Type ℓ where
  pub bins : List (BinData K V)
  pub bin_nodes : List ℕ

-- `nodeIdx = idx * nodes.size() / BinCount`.
unfoldable pub node_index : ℕ → ℕ → ℕ → ℕ
node_index bin_bits n idx = idx * n / 2 ^ bin_bits

-- The loop of the constructor, for the indices from `idx` on, with `rounds` left.
unfoldable pub assign_nodes : ℕ → List ℕ → ℕ → ℕ → List ℕ
assign_nodes bin_bits nodes idx zero = []
assign_nodes bin_bits nodes idx (suc rounds) =
    get_or nodes (node_index bin_bits (length nodes) idx) 0
    ∷ assign_nodes bin_bits nodes (idx + 1) rounds

module _ {ℓ} {K V : Type ℓ} where
  -- `size`: the sum of the bins' counters.
  unfoldable pub total_count : List (BinData K V) → ℕ
  total_count [] = 0
  total_count (b ∷ bs) = b.count + total_count bs

  unfoldable pub size : Table K V → ℕ
  size t = total_count t.bins

  abbrev pub no_bin : BinData K V
  no_bin = record {
    max_count = 0;
    generation = 0;
    space = record { num_buckets = 0; num_buckets_mask = 0; buckets = [] };
    count = 0;
  }

module _ {ℓ} {K : Type ℓ} ⦃key : Key K⦄ (bin_bits : ℕ) where
  -- `get_bin_index`: `h & BinMask`.
  unfoldable pub get_bin_index : K → ℕ
  get_bin_index k = bit_and (key.hash k) (2 ^ bin_bits - 1)

module _ {ℓ} {K V : Type ℓ} ⦃key : Key K⦄ (bin_bits : ℕ) where
  -- `HashTable(nodes)`: a new bin on the node of each index.
  unfoldable pub new_table : List ℕ → Table K V
  new_table nodes = record {
    bins = replicate (2 ^ bin_bits) (new_bin bin_bits);
    bin_nodes = assign_nodes bin_bits nodes 0 (2 ^ bin_bits);
  }

  abbrev pub bin_of : Table K V → K → BinData K V
  bin_of t k = get_or t.bins (get_bin_index bin_bits k) no_bin

  abbrev pub update_bin : Table K V → K → BinData K V → Table K V
  update_bin t k b = record t { bins = set t.bins (get_bin_index bin_bits k) b }

  -- `operator[]`; `init` is the default-constructed value.
  unfoldable pub index : V → K → Table K V → Table K V × ValueRef K V
  index init k t =
      let (b, ref) = get_or_create bin_bits init k (key.hash k) (bin_of t k) in
      (update_bin t k b, ref)

  unfoldable pub lookup : K → Table K V → Table K V × Option (ValueRef K V)
  lookup k t = let (b, ref) = get bin_bits k (key.hash k) (bin_of t k) in (update_bin t k b, ref)

  unfoldable pub remove_key : K → Table K V → Table K V × Bool
  remove_key k t =
      let (b, gone) = remove bin_bits k (key.hash k) (bin_of t k) in (update_bin t k b, gone)

  -- `insertAsync`, once its task has run; `v` is the generator's value.
  unfoldable pub insert_async : V → V → K → Table K V → Table K V
  insert_async init v k t = update_bin t k (insert bin_bits init v k (key.hash k) (bin_of t k))
