-- ===== src/HashTable/Refines.antt =====
-- The operations on a bin refine those on a map from keys to values.
use pgasus.Common.{ℕ, ◌≡◌, refl, ap, ◌∙◌, sym, Bool, true, false, Option, none, some, []}
use pgasus.HashTable.Key.{Key, =?_refl}
use pgasus.HashTable.Bins.{Node, BinData, items_at, add_to_bucket, bucket_index}
use pgasus.HashTable.Placed.{home, view}
use pgasus.HashTable.Operations.{
  ValueRef, read, write, get_or_create, get, remove, insert, get_or_create_detail, get_detail,
  remove_detail,
}
use pgasus.HashTable.Valid.{IsValid, operate_rule}
use pgasus.HashTable.Writes.{
  value_or, Writes, add_to_bucket-Writes, items_at-add_to_bucket, stored, write-Writes,
  erase-Writes, Ready-Writes, Writes-trans, Ready-keeps,
}

abbrev pub map_read {ℓ} : {K V : Type ℓ} → Option (ValueRef K V) → Option V
map_read none = none
map_read (some ref) = some (read ref)

abbrev pub is_some {ℓ} : {A : Type ℓ} → Option A → Bool
is_some none = false
is_some (some a) = true

module _ {ℓ} {K V : Type ℓ} ⦃key : Key K⦄ (bin_bits : ℕ) where
  -- `get_or_create`: the key gets the default value if it had none, and the reference reads it.
  pub get_or_create-Writes :
      (init : V) (k : K) (bd : BinData K V)
      → IsValid bin_bits bd
      → Writes bin_bits k
          (some (value_or (view bin_bits bd.space k) init))
          bd
          (get_or_create bin_bits init k (key.hash k) bd).0
        × (read (get_or_create bin_bits init k (key.hash k) bd).1
            ≡ value_or (view bin_bits bd.space k) init)
  unfolding get_or_create get_or_create_detail
  get_or_create-Writes init k bd v =
      operate_rule bin_bits (get_or_create_detail init) k bd
        (λ r.
          Writes bin_bits k (some (value_or (view bin_bits bd.space k) init)) bd r.0
          × (read r.1 ≡ value_or (view bin_bits bd.space k) init))
        v
        (λ bd' b n a r at same.
          let e = stored bin_bits bd' r.valid k b n a at same in
          let e' : value_or (view bin_bits bd.space k) init ≡ n.value =
            ap (λ o. value_or o init) (sym (r.reads k) ∙ e) in
          rw e' (Ready-keeps bin_bits true k (some n.value) bd bd' r e, refl))
        (λ bd' r absent.
          let e' : value_or (view bin_bits bd.space k) init ≡ init =
            ap (λ o. value_or o init) (sym (r.reads k) ∙ absent) in
          rw e' (
            Ready-Writes bin_bits true k (some init) bd bd' _ r
                (add_to_bucket-Writes bin_bits bd' r.valid k init absent (r.room refl)),
            refl,
          ))

  -- `get` changes nothing, and reads the value under the key, if there is one.
  pub get-view :
      (k : K) (bd : BinData K V)
      → IsValid bin_bits bd
      → ((get bin_bits k (key.hash k) bd).0 ≡ bd)
        × (map_read (get bin_bits k (key.hash k) bd).1 ≡ view bin_bits bd.space k)
  unfolding get get_detail
  get-view k bd v =
      operate_rule bin_bits get_detail k bd
        (λ r. (r.0 ≡ bd) × (map_read r.1 ≡ view bin_bits bd.space k)) v
        (λ bd' b n a r at same.
          (r.idle refl, sym (stored bin_bits bd' r.valid k b n a at same) ∙ r.reads k))
        (λ bd' r absent. (r.idle refl, sym absent ∙ r.reads k))

  -- `remove` unmaps the key, and tells whether it was there.
  pub remove-Writes :
      (k : K) (bd : BinData K V)
      → IsValid bin_bits bd
      → Writes bin_bits k none bd (remove bin_bits k (key.hash k) bd).0
        × ((remove bin_bits k (key.hash k) bd).1 ≡ is_some (view bin_bits bd.space k))
  unfolding remove remove_detail
  remove-Writes k bd v =
      operate_rule bin_bits remove_detail k bd
        (λ r. Writes bin_bits k none bd r.0 × (r.1 ≡ is_some (view bin_bits bd.space k))) v
        (λ bd' b n a r at same. (
          Ready-Writes bin_bits false k none bd bd' _ r
              (erase-Writes bin_bits bd' r.valid k b n a at same),
          ap is_some (sym (stored bin_bits bd' r.valid k b n a at same) ∙ r.reads k),
        ))
        (λ bd' r absent.
          (Ready-keeps bin_bits false k none bd bd' r absent, ap is_some (sym absent ∙ r.reads k)))

  -- `insertAsync` maps the key to the generated value.
  pub insert-Writes :
      (init x : V) (k : K) (bd : BinData K V)
      → IsValid bin_bits bd
      → Writes bin_bits k (some x) bd (insert bin_bits init x k (key.hash k) bd)
  unfolding insert get_or_create get_or_create_detail add_to_bucket bucket_index
  insert-Writes init x k bd v =
      operate_rule bin_bits (get_or_create_detail init) k bd
        (λ r. Writes bin_bits k (some x) bd (write r.1 x r.0)) v
        (λ bd' b n a r at same.
          Ready-Writes bin_bits true k (some x) bd bd' _ r
            (write-Writes bin_bits bd' r.valid k b n a at same x))
        (λ bd' r absent.
          let i = home bin_bits bd'.space k in
          let w = add_to_bucket-Writes bin_bits bd' r.valid k init absent (r.room refl) in
          let n : Node K V = record { hash = key.hash k; key = k; value = init } in
          Ready-Writes bin_bits true k (some x) bd bd' _ r (
            Writes-trans bin_bits k (some init) (some x) bd' _ _ w (
              write-Writes bin_bits (add_to_bucket bd' i k (key.hash k) init) w.valid k
                (items_at bd'.space.buckets i) n []
                (items_at-add_to_bucket bin_bits bd' r.valid k init) (=?_refl k) x)))
