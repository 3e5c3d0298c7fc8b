-- ===== src/HashTable/Iterators.antt =====
-- The iterators of the hash table: BucketIterator over a bucket, BucketSpaceIterator over a range of buckets,
-- Iterator over a table, and the units that ParallelIteration hands out. A bucket iterator holds its
-- bucket as that is now; a change of the bucket under the iterator is another value there.
use pgasus.Common.{
  ℕ, zero, suc, ◌+◌, ◌-◌, ◌*◌, ◌/◌, ◌^◌, Bool, true, false, not, Option, none, some, List, [], ◌∷◌,
  ◌++◌, ◌==◌, if◌then◌else◌, ltb, length, get_or, get_elem?,
}
use pgasus.HashTable.Bins.{Node, Bucket, BucketSpace, BinData, empty_bucket}
use pgasus.HashTable.Table.{Table, no_bin}
use pgasus.Iterating.{Ops, Recursive, init, is_end, next, value, recursive_ops}

pub record BucketIterator (K V : Type 0) : Type 0 where
  pub bucket : Bucket K V
  pub generation : ℕ
  pub curr_node : Option (Node K V)
  pub index : ℕ

-- `_buckets` and the RecursiveIterator.
pub record SpaceIterator (K V : Type 0) : Type 0 where
  pub buckets : BucketSpace K V
  pub walk : Recursive (BucketIterator K V)

-- `_counter` and `_iters`.
pub record ParallelIteration (K V : Type 0) : Type 0 where
  pub counter : ℕ
  pub iters : List (SpaceIterator K V)

module _ {K V : Type 0} where
  -- `updateCurrNode`.
  unfoldable pub update_curr_node : BucketIterator K V → BucketIterator K V
  update_curr_node it = record it { curr_node = get_elem? it.bucket.items it.index }

  unfoldable pub bucket_begin : Bucket K V → BucketIterator K V
  bucket_begin b =
      update_curr_node
        (record { bucket = b; generation = b.generation; curr_node = none; index = 0 })

  -- The search for the first node with a hash that is not below `h`, in a bucket that was changed.
  unfoldable pub first_not_below : ℕ → List (Node K V) → ℕ
  first_not_below h [] = 0
  first_not_below h (n ∷ ns) = if ltb n.hash h then suc (first_not_below h ns) else 0

  unfoldable pub bucket_is_end : BucketIterator K V → Bool
  bucket_is_end it = elim it.curr_node [ none ↦ true | some n ↦ false ]

  unfoldable pub bucket_next : BucketIterator K V → BucketIterator K V × Bool
  bucket_next it = elim it.curr_node [
    | none ↦ (it, false)
    | some n ↦
        let it' = update_curr_node (record it {
          index =
              if it.generation == it.bucket.generation
              then suc it.index
              else first_not_below n.hash it.bucket.items;
        }) in
        (it', not (bucket_is_end it'))
  ]

  -- The pair of a node, `value_type`.
  unfoldable pub data_of : Node K V → Option (K × V)
  data_of n = some (n.key, n.value)

  -- `operator*`; nothing where the node is null.
  unfoldable pub bucket_value : BucketIterator K V → Option (K × V)
  bucket_value it = elim it.curr_node [ none ↦ none | some n ↦ data_of n ]

  abbrev pub bucket_ops : Ops (BucketIterator K V) (Option (K × V))
  bucket_ops = record { is_end = bucket_is_end; next = bucket_next; value = bucket_value }

  -- `BucketSpaceIterator::get_sub_iter`.
  unfoldable pub bucket_iter : BucketSpace K V → ℕ → BucketIterator K V
  bucket_iter s i = bucket_begin (get_or s.buckets i (empty_bucket 0 0))

  abbrev pub null_bucket : BucketIterator K V
  null_bucket = record { bucket = empty_bucket 0 0; generation = 0; curr_node = none; index = 0 }

  -- `BucketSpaceIterator(bs, start_bucket, end_bucket)`; without an end it is `none`, for -1.
  unfoldable pub space_iter : BucketSpace K V → ℕ → Option ℕ → SpaceIterator K V
  space_iter s start end_bucket =
      let size = length s.buckets in
      let end : ℕ = elim end_bucket [ none ↦ size | some e ↦ if ltb e size then e else size ] in
      record { buckets = s; walk = init bucket_ops (bucket_iter s) start end null_bucket }

  abbrev pub space_ops : Ops (SpaceIterator K V) (Option (K × V))
  space_ops = record {
    is_end = λ it. is_end bucket_ops (bucket_iter it.buckets) it.walk;
    next = λ it.
        let (walk', more) = next bucket_ops (bucket_iter it.buckets) it.walk in
        (record it { walk = walk' }, more);
    value = λ it. value bucket_ops (bucket_iter it.buckets) it.walk;
  }

  -- `Iterator::get_sub_iter`.
  unfoldable pub bin_iter : Table K V → ℕ → SpaceIterator K V
  bin_iter t idx = space_iter (get_or t.bins idx no_bin).space 0 none

  abbrev pub null_space : SpaceIterator K V
  null_space = record {
    buckets = no_bin.space;
    walk = record { curr_index = 0; end_index = 0; sub_iter = null_bucket };
  }

  -- `Iterator(table, idx)`, of a table with `2 ^ bin_bits` bins; `begin` and `end`.
  unfoldable pub table_iter : ℕ → Table K V → ℕ → Recursive (SpaceIterator K V)
  table_iter bin_bits t idx = init space_ops (bin_iter t) idx (2 ^ bin_bits) null_space

  unfoldable pub begin : ℕ → Table K V → Recursive (SpaceIterator K V)
  begin bin_bits t = table_iter bin_bits t 0

  abbrev pub table_ops : Table K V → Ops (Recursive (SpaceIterator K V)) (Option (K × V))
  table_ops t = recursive_ops space_ops (bin_iter t)

  -- The loop of ParallelIteration that takes the bins of a node.
  unfoldable pub bins_on : ℕ → List (BinData K V) → List ℕ → List (BinData K V)
  bins_on node [] nodes = []
  bins_on node (b ∷ bs) [] = []
  bins_on node (b ∷ bs) (n ∷ ns) =
      let rest = bins_on node bs ns in if n == node then b ∷ rest else rest

  -- The units of one bin, from number `i` on, with `n` to make.
  unfoldable pub units_from : BucketSpace K V → ℕ → ℕ → ℕ → List (SpaceIterator K V)
  units_from s units i zero = []
  units_from s units i (suc n) =
      let size = length s.buckets in
      space_iter s (i * size / units) (some (suc i * size / units)) ∷ units_from s units (suc i) n

  unfoldable pub all_units : ℕ → List (BinData K V) → List (SpaceIterator K V)
  all_units min_bin_units [] = []
  all_units min_bin_units (b ∷ bs) =
      let size = length b.space.buckets in
      let units = if ltb size min_bin_units then size else min_bin_units in
      units_from b.space units 0 units ++ all_units min_bin_units bs

  -- `ParallelIteration(table, node, min_units)`; it divides by zero where the node has no bin.
  unfoldable pub parallel_iteration : Table K V → ℕ → ℕ → Option (ParallelIteration K V)
  parallel_iteration t node min_units =
      let bins = bins_on node t.bins t.bin_nodes in
      let min_bin_units = (length bins + min_units - 1) / length bins in
      if length bins == 0
      then none
      else some (record { counter = 0; iters = all_units min_bin_units bins })

  -- `ParallelIteration::get`.
  unfoldable pub get_unit :
      ParallelIteration K V → ParallelIteration K V × Option (SpaceIterator K V)
  get_unit p = (record p { counter = suc p.counter }, get_elem? p.iters p.counter)
