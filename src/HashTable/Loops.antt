-- ===== src/HashTable/Loops.antt =====
-- Loops over concrete tables and buckets.
use pgasus.Common.{ℕ, suc, ◌<◌, ◌≡◌, refl, true, some, [], ◌∷◌, length, concat_map, arith}
use pgasus.Iterating.Visits.{visit}
use pgasus.HashTable.Bins.{Node}
use pgasus.HashTable.Table.{size, insert_async, new_table, assign_nodes, node_index, get_bin_index}
use pgasus.HashTable.Iterators.{
  BucketIterator, ParallelIteration, table_ops, begin, bucket_next, bins_on, parallel_iteration,
  get_unit, space_ops,
}
use pgasus.Iterating.Distributed.{iterate}
use pgasus.HashTable.Traversal.{bin_pairs}
use pgasus.HashTable.Visited.{visit-begin}
use pgasus.HashTable.Handed.{iterate-parallel_iteration}
use pgasus.HashTable.Stale.{next-stale}
use pgasus.HashTable.Tests.{number_key, single, single_sound}

visit-begin_example :
    visit (table_ops single) (suc (size single)) (begin 2 single)
    ≡ some (concat_map bin_pairs single.bins)
visit-begin_example = visit-begin 2 single single_sound

two_bins : length (bins_on 1 single.bins single.bin_nodes) ≡ 2
unfolding bins_on insert_async new_table assign_nodes node_index get_bin_index
two_bins = refl

has_bin : 0 < length (bins_on 1 single.bins single.bin_nodes)
has_bin = omega (arith, two_bins)

iterate-parallel_iteration_example :
    (p : ParallelIteration ℕ ℕ) × (parallel_iteration single 1 2 ≡ some p)
    × (iterate space_ops get_unit
          (suc (length p.iters))
          (suc (length (concat_map bin_pairs (bins_on 1 single.bins single.bin_nodes))))
          (some p)
        ≡ some (concat_map bin_pairs (bins_on 1 single.bins single.bin_nodes)))
iterate-parallel_iteration_example =
    iterate-parallel_iteration 2 single 1 2
      (suc (length (concat_map bin_pairs (bins_on 1 single.bins single.bin_nodes)))) single_sound
      has_bin (omega arith) (omega arith)

abbrev five : Node ℕ ℕ
five = record { hash = 5; key = 5; value = 50 }

-- The bucket of the node, to which another node was added after the iterator came to it.
abbrev grown : BucketIterator ℕ ℕ
grown = record {
  bucket = record {
    items = five ∷ record { hash = 9; key = 9; value = 90 } ∷ [];
    index = 0;
    generation = 1;
  };
  generation = 0;
  curr_node = some five;
  index = 0;
}

next-stale_example :
    ((bucket_next grown).1 ≡ true)
    × (bucket_next (bucket_next grown).0 ≡ ((bucket_next grown).0, true))
next-stale_example = next-stale grown five 0 refl (λ e. absurd (omega arith)) refl
