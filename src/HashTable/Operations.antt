-- ===== src/HashTable/Operations.antt =====
-- The operations that HashTable runs on a bin: GetOrCreate, Get and Remove, the construction of a
-- bin, and a write through the reference that `get_or_create` returns. (SetValue and Find are
-- templates that nothing instantiates.)
use pgasus.Common.{ℕ, ◌-◌, Bool, true, false, Option, none, some, List, [], ◌∷◌, ◌++◌}
use pgasus.HashTable.Key.{Key}
use pgasus.HashTable.Bins.{
  Node, BinData, Detail, items_at, modify_space, advance, add_to_bucket, resize, operate_on_bin,
}

-- A `T&` into a bin: the index of its bucket, and the place of its node there.
abbrev pub ValueRef {ℓ} : (K V : Type ℓ) → Type ℓ
ValueRef K V = ℕ × List (Node K V) × Node K V × List (Node K V)

module _ {ℓ} {K V : Type ℓ} where
  abbrev pub read : ValueRef K V → V
  read (i, b, n, a) = n.value

  -- `*ref = v`.
  unfoldable pub write : ValueRef K V → V → BinData K V → BinData K V
  write (i, b, n, a) v bd = record bd {
    space = modify_space bd.space i (λ c. record c { items = b ++ (record n { value = v }) ∷ a });
  }

  -- `GetOrCreate`; `init` is the default-constructed value.
  unfoldable pub get_or_create_detail : V → Detail K V (ValueRef K V)
  get_or_create_detail init = record {
    does_modify = true;
    found = λ (b, n, a) bd i k. (bd, (i, b, n, a));
    notfound = λ bd i k h. (
      add_to_bucket bd i k h init,
      (i, items_at bd.space.buckets i, record { hash = h; key = k; value = init }, []),
    );
  }

  -- `Get`: sets the caller's pointer and returns true, or returns false.
  unfoldable pub get_detail : Detail K V (Option (ValueRef K V))
  get_detail = record {
    does_modify = false;
    found = λ (b, n, a) bd i k. (bd, some (i, b, n, a));
    notfound = λ bd i k h. (bd, none);
  }

  -- `Remove`: erases the node, advances the bucket's generation, and counts one node less.
  unfoldable pub remove_detail : Detail K V Bool
  remove_detail = record {
    does_modify = false;
    found = λ (b, n, a) bd i k. (
      record bd { space = modify_space bd.space i (advance (b ++ a)); count = bd.count - 1 },
      true,
    );
    notfound = λ bd i k h. (bd, false);
  }

module _ {ℓ} {K V : Type ℓ} ⦃key : Key K⦄ (bin_bits : ℕ) where
  unfoldable pub get_or_create : V → K → ℕ → BinData K V → BinData K V × ValueRef K V
  get_or_create init k h bd = operate_on_bin bin_bits (get_or_create_detail init) k h bd

  unfoldable pub get : K → ℕ → BinData K V → BinData K V × Option (ValueRef K V)
  get k h bd = operate_on_bin bin_bits get_detail k h bd

  unfoldable pub remove : K → ℕ → BinData K V → BinData K V × Bool
  remove k h bd = operate_on_bin bin_bits remove_detail k h bd

  -- The task of `insertAsync`: `T *ref = &bin->get_or_create(key, h); *ref = generator();`
  unfoldable pub insert : V → V → K → ℕ → BinData K V → BinData K V
  insert init v k h bd = let (bd', ref) = get_or_create init k h bd in write ref v bd'

  -- The constructor: no nodes, then `resize(64)`. The null `_buckets` is a space without buckets,
  -- from which `resize` copies as little.
  unfoldable pub new_bin : BinData K V
  new_bin = resize bin_bits 64 (record {
    max_count = 0;
    generation = 0;
    space = record { num_buckets = 0; num_buckets_mask = 0; buckets = [] };
    count = 0;
  })
