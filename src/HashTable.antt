-- ===== src/HashTable.antt =====
-- include/PGASUS/hashtable/hashtable.hpp: the NUMA-distributed hash table. A bin (`BinData`) owns a
-- power-of-two number of buckets; a table distributes the keys over `2 ^ bin_bits` bins.
-- The per-bin and per-bucket locks are not modelled here: an operation is one step.
pub mod Key
pub mod Bins
pub mod Items
pub mod Placed
pub mod Resize
pub mod Operations
pub mod Valid
pub mod Writes
pub mod Refines
pub mod Table
pub mod Laws
pub mod Iterators
pub mod Traversal
pub mod Visited
pub mod Shares
pub mod Handed
pub mod Stale
pub mod Loops
pub mod Tests
