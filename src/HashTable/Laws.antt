-- ===== src/HashTable/Laws.antt =====
-- The table as a map from keys to values: what its public operations do to it.
use native.Mathlib.Nat.{one-le-pow}
use pgasus.Common.{
  ℕ, zero, suc, ◌+◌, ◌^◌, ◌<◌, ◌≡◌, refl, ap, ◌∙◌, sym, bit_and-mask, true, false, Option, none,
  some, List, [], ◌∷◌, arith, ◌==◌, ==_iff, if◌then◌else◌, if_intro, length, get_or, set,
  length-set, get_or-set, set-get_or, replicate, length-replicate, get_or-replicate,
}
use pgasus.HashTable.Key.{Key, ◌=?◌, hash_congr}
use pgasus.HashTable.Bins.{BinData, resize, rehash_all, new_space}
use pgasus.HashTable.Placed.{view}
use pgasus.HashTable.Resize.{new_space-IsPlaced, item_count-new_space, view-new_space}
use pgasus.HashTable.Operations.{read, new_bin}
use pgasus.HashTable.Valid.{IsValid}
use pgasus.HashTable.Writes.{found, value_or, Writes}
use pgasus.HashTable.Refines.{
  map_read, is_some, get_or_create-Writes, get-view, remove-Writes, insert-Writes,
}
use pgasus.HashTable.Table.{
  Table, total_count, size, no_bin, get_bin_index, bin_of, update_bin, index, lookup, remove_key,
  insert_async, new_table,
}

module _ {ℓ} {K V : Type ℓ} where
  total_count-set :
      (bs : List (BinData K V)) (i : ℕ) (b : BinData K V)
      → i < length bs
      → total_count (set bs i b) + (get_or bs i no_bin).count ≡ total_count bs + b.count
  unfolding total_count
  total_count-set [] i b h = absurd (omega arith)
  total_count-set (x ∷ bs) zero b h = omega arith
  total_count-set (x ∷ bs) (suc i) b h = omega (arith, total_count-set bs i b)

  total_count-replicate : (n : ℕ) (b : BinData K V) → b.count ≡ 0 → total_count (replicate n b) ≡ 0
  unfolding total_count
  total_count-replicate zero b h = refl
  total_count-replicate (suc n) b h = omega (arith, h, total_count-replicate n b h)

module _ {ℓ} {K : Type ℓ} ⦃key : Key K⦄ (bin_bits : ℕ) where
  get_bin_index-lt : (k : K) → get_bin_index bin_bits k < 2 ^ bin_bits
  unfolding get_bin_index
  get_bin_index-lt k =
      let pos = one-le-pow bin_bits 2 (omega arith) in rw bit_and-mask (omega arith)

  get_bin_index_congr :
      (a b : K) → (a =? b) ≡ true → get_bin_index bin_bits a ≡ get_bin_index bin_bits b
  unfolding get_bin_index
  get_bin_index_congr a b h = rw (hash_congr a b h)

module _ {ℓ} {K V : Type ℓ} ⦃key : Key K⦄ (bin_bits : ℕ) where
  -- Every bin is sound, and there are `2 ^ bin_bits`.
  pub record IsSound (t : Table K V) : Type ℓ where
    pub width : length t.bins ≡ 2 ^ bin_bits
    pub bins : (i : ℕ) → i < 2 ^ bin_bits → IsValid bin_bits (get_or t.bins i no_bin)

  -- The map that a table stands for.
  unfoldable pub table_view : Table K V → K → Option V
  table_view t q = view bin_bits (bin_of bin_bits t q).space q

  -- `t'` maps `k` to `x`, agrees with `t` on the other keys, and its size changes accordingly.
  pub record TableWrites (k : K) (x : Option V) (t t' : Table K V) : Type ℓ where
    pub sound : IsSound t'
    pub reads : (q : K) → table_view t' q ≡ (if q =? k then x else table_view t q)
    pub sizes : size t' + found (table_view t k) ≡ size t + found x

  pub bin_of-IsValid :
      (t : Table K V) → IsSound t → (k : K) → IsValid bin_bits (bin_of bin_bits t k)
  bin_of-IsValid t s k = s.bins (get_bin_index bin_bits k) (get_bin_index-lt bin_bits k)

  -- A write to the bin of a key is a write to the table.
  update_bin-TableWrites :
      (t : Table K V) (k : K) (x : Option V) (b : BinData K V)
      → IsSound t
      → Writes bin_bits k x (bin_of bin_bits t k) b
      → TableWrites k x t (update_bin bin_bits t k b)
  unfolding table_view size
  update_bin-TableWrites t k x b s w = record {
    sound = record {
      width = length-set t.bins i b ∙ s.width;
      bins = λ j lt. rw (get_or-set t.bins i j b no_bin here) (
          if_intro {A = BinData K V} (IsValid bin_bits) (i == j) (λ _. w.valid) (λ _. s.bins j lt));
    };
    reads = λ q. rw (get_or-set t.bins i (get_bin_index bin_bits q) b no_bin here) (
        if_intro {A = BinData K V}
          (λ bin.
            view bin_bits bin.space q
            ≡ (if q =? k then x else view bin_bits (bin_of bin_bits t q).space q))
          (i == get_bin_index bin_bits q)
          (λ e.
            w.reads q
            ∙ ap (λ j. if q =? k then x else view bin_bits (get_or t.bins j no_bin).space q)
                ((==_iff i (get_bin_index bin_bits q)).0 e))
          (λ e. rw (differs q e)));
    sizes = omega (arith, w.size, total_count-set t.bins i b here);
  }
    where
      i : ℕ
      i = get_bin_index bin_bits k

      here : i < length t.bins
      here = rw s.width (get_bin_index-lt bin_bits k)

      differs : (q : K) → (i == get_bin_index bin_bits q) ≡ false → (q =? k) ≡ false
      differs q e = ground (arith, get_bin_index_congr bin_bits q k)

  -- `operator[]` on a sound table maps a key that is missing to the default value, keeps every other
  -- entry, and its reference reads the key's value.
  pub index-TableWrites :
      (init : V) (k : K) (t : Table K V)
      → IsSound t
      → TableWrites k (some (value_or (table_view t k) init)) t (index bin_bits init k t).0
        × (read (index bin_bits init k t).1 ≡ value_or (table_view t k) init)
  unfolding index table_view
  index-TableWrites init k t s =
      let (w, r) =
        get_or_create-Writes bin_bits init k (bin_of bin_bits t k) (bin_of-IsValid t s k) in
      (update_bin-TableWrites t k _ _ s w, r)

  -- `insertAsync` on a sound table maps the key to the generated value and keeps every other entry.
  pub insert_async-TableWrites :
      (init x : V) (k : K) (t : Table K V)
      → IsSound t
      → TableWrites k (some x) t (insert_async bin_bits init x k t)
  unfolding insert_async
  insert_async-TableWrites init x k t s =
      update_bin-TableWrites t k (some x) _ s
        (insert-Writes bin_bits init x k (bin_of bin_bits t k) (bin_of-IsValid t s k))

  -- `remove` on a sound table unmaps the key, keeps every other entry, and tells whether the key was
  -- mapped.
  pub remove_key-TableWrites :
      (k : K) (t : Table K V)
      → IsSound t
      → TableWrites k none t (remove_key bin_bits k t).0
        × ((remove_key bin_bits k t).1 ≡ is_some (table_view t k))
  unfolding remove_key table_view
  remove_key-TableWrites k t s =
      let (w, r) = remove-Writes bin_bits k (bin_of bin_bits t k) (bin_of-IsValid t s k) in
      (update_bin-TableWrites t k none _ s w, r)

  -- `lookup` on a sound table changes nothing and reads the value under the key, if there is one.
  pub lookup-table_view :
      (k : K) (t : Table K V)
      → IsSound t
      → ((lookup bin_bits k t).0 ≡ t) × (map_read (lookup bin_bits k t).1 ≡ table_view t k)
  unfolding lookup table_view
  lookup-table_view k t s =
      let (e, r) = get-view bin_bits k (bin_of bin_bits t k) (bin_of-IsValid t s k) in
      (rw (e, set-get_or t.bins (get_bin_index bin_bits k) no_bin), r)

  new_bin-IsValid : IsValid {K = K} {V = V} bin_bits (new_bin bin_bits)
  unfolding new_bin resize rehash_all new_space
  new_bin-IsValid = record {
    placed = unfold new_space in new_space-IsPlaced bin_bits 64 1 6 refl;
    counted = sym (item_count-new_space K V 64 1);
    limit = refl;
    load = omega arith;
  }

  -- A new table is sound, has no elements, and maps no key.
  pub new_table-IsSound :
      (nodes : List ℕ)
      → IsSound (new_table bin_bits nodes)
        × (size {K = K} {V = V} (new_table bin_bits nodes) ≡ 0)
        × ((q : K) → table_view (new_table bin_bits nodes) q ≡ none)
  unfolding new_table size table_view
  new_table-IsSound nodes = (
    record {
      width = length-replicate (2 ^ bin_bits) (new_bin bin_bits);
      bins = λ i h.
          rw (get_or-replicate (2 ^ bin_bits) i (new_bin {V = V} bin_bits) no_bin h)
            new_bin-IsValid;
    },
    total_count-replicate (2 ^ bin_bits) (new_bin bin_bits) (unfold new_bin resize in refl),
    λ q.
        rw
          (get_or-replicate (2 ^ bin_bits) (get_bin_index bin_bits q) (new_bin {V = V} bin_bits)
            no_bin (get_bin_index-lt bin_bits q))
          (unfold new_bin resize rehash_all in view-new_space bin_bits 64 1 q),
  )
