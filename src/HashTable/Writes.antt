-- ===== src/HashTable/Writes.antt =====
-- The writes of the operations on a bin, as writes to a map from keys to values.
use pgasus.Common.{
  ℕ, ◌+◌, ◌-◌, ◌≤◌, ◌<◌, ◌≡◌, refl, ap, ◌∙◌, sym, subst, Bool, true, Option, none, some, List, [],
  ◌∷◌, ◌++◌, arith, if◌then◌else◌, length, get_or, length-append,
}
use pgasus.HashTable.Key.{Key, ◌=?◌, =?_refl}
use pgasus.HashTable.Bins.{
  Node, Bucket, BinData, bucket_index, items_at, modify_space, empty_bucket, advance, add_to_bucket,
}
use pgasus.HashTable.Items.{
  occurs, IsHashed, Rewrites, snoc-Rewrites, replace-Rewrites, erase-Rewrites, only, find_at,
}
use pgasus.HashTable.Placed.{
  home, view, home-lt, view_congr, items_at-modify, modify-IsPlaced, view-modify, item_count-modify,
}
use pgasus.HashTable.Operations.{write}
use pgasus.HashTable.Valid.{IsValid, Ready}

module _ {ℓ} {V : Type ℓ} where
  abbrev pub found : Option V → ℕ
  found none = 0
  found (some v) = 1

  abbrev pub value_or : Option V → V → V
  value_or none v = v
  value_or (some w) v = w

module _ {ℓ} {K V : Type ℓ} ⦃key : Key K⦄ (bin_bits : ℕ) where
  -- `bd'` maps `k` to `x`, agrees with `bd` on the other keys, and counts a key more or less.
  pub record Writes (k : K) (x : Option V) (bd bd' : BinData K V) : Type ℓ where
    pub valid : IsValid bin_bits bd'
    pub reads :
        (q : K) → view bin_bits bd'.space q ≡ (if q =? k then x else view bin_bits bd.space q)
    pub size : bd'.count + found (view bin_bits bd.space k) ≡ bd.count + found x

  module _ (bd : BinData K V) (v : IsValid bin_bits bd) (k : K) where
    abbrev old : List (Node K V)
    old = items_at bd.space.buckets (home bin_bits bd.space k)

    pub modify-Writes :
        (x : Option V) (f : Bucket K V → Bucket K V) (new : List (Node K V)) (c : ℕ)
        → (f (get_or bd.space.buckets (home bin_bits bd.space k) (empty_bucket 0 0))).items ≡ new
        → Rewrites k x old new
        → c + length old ≡ bd.count + length new
        → c ≤ bd.max_count
        → c + found (view bin_bits bd.space k) ≡ bd.count + found x
        → Writes k x bd
            (record bd { space = modify_space bd.space (home bin_bits bd.space k) f; count = c })
    modify-Writes x f new c e r entries load size =
        let r' = subst (Rewrites k x old) (sym e) r in
        record {
          valid = record {
            placed = modify-IsPlaced bin_bits bd.space v.placed k x f r';
            counted = omega (
              arith,
              v.counted,
              entries,
              ap length e,
              item_count-modify bd.space.buckets (home bin_bits bd.space k) f
                  (home-lt bin_bits bd.space v.placed k),
            );
            limit = v.limit;
            load = load;
          };
          reads = view-modify bin_bits bd.space v.placed k x f r';
          size = size;
        }

    -- A new node for a key that has none.
    pub add_to_bucket-Writes :
        (x : V)
        → view bin_bits bd.space k ≡ none
        → bd.count < bd.max_count
        → Writes k (some x) bd (add_to_bucket bd (home bin_bits bd.space k) k (key.hash k) x)
    unfolding add_to_bucket
    add_to_bucket-Writes x absent room =
        let n : Node K V = record { hash = key.hash k; key = k; value = x } in
        modify-Writes (some x) (λ b. advance (b.items ++ n ∷ []) b) (old ++ n ∷ []) (bd.count + 1)
          refl
          (snoc-Rewrites n old refl (v.placed.hashed _) (λ q. v.placed.once q _)
            (unfold view in absent))
          (omega (arith, length-append old (n ∷ []))) (omega arith) (rw absent (omega arith))

    pub items_at-add_to_bucket :
        (x : V)
        → items_at
            (add_to_bucket bd (home bin_bits bd.space k) k (key.hash k) x).space.buckets
            (home bin_bits (add_to_bucket bd (home bin_bits bd.space k) k (key.hash k) x).space k)
          ≡ old ++ (record { hash = key.hash k; key = k; value = x }) ∷ []
    unfolding add_to_bucket bucket_index
    items_at-add_to_bucket x =
        let i = home bin_bits bd.space k in
        let n : Node K V = record { hash = key.hash k; key = k; value = x } in
        ground (
          arith,
          items_at-modify bd.space.buckets i i (λ b. advance (b.items ++ n ∷ []) b)
              (home-lt bin_bits bd.space v.placed k),
        )

    module _ (b : List (Node K V)) (n : Node K V) (a : List (Node K V))
        (at : items_at bd.space.buckets (home bin_bits bd.space k) ≡ b ++ n ∷ a)
        (same : (k =? n.key) ≡ true) where
      hashed : IsHashed (b ++ n ∷ a)
      hashed = rw at at (v.placed.hashed (home bin_bits bd.space k))

      once : (q : K) → occurs q (b ++ n ∷ a) ≤ 1
      once q = rw at at (v.placed.once q (home bin_bits bd.space k))

      pub stored : view bin_bits bd.space k ≡ some n.value
      unfolding view
      stored = rw at (find_at k b n a (only k b n a same hashed once))

      pub write-Writes :
          (x : V) → Writes k (some x) bd (write (home bin_bits bd.space k, b, n, a) x bd)
      unfolding write
      write-Writes x =
          let new = b ++ (record n { value = x }) ∷ a in
          modify-Writes (some x) (λ c. record c { items = new }) new bd.count refl
            (subst (λ ns. Rewrites k (some x) ns new) (sym at)
              (replace-Rewrites k b n a same hashed once x))
            (omega (
              arith,
              ap length at,
              length-append b (n ∷ a),
              length-append b ((record n { value = x }) ∷ a),
            ))
            v.load (rw stored)

      shorter : length (b ++ a) + 1 ≡ length old
      shorter = omega (arith, ap length at, length-append b a, length-append b (n ∷ a))

      filled : 0 < bd.count
      filled = omega (
        arith,
        v.counted,
        shorter,
        item_count-modify bd.space.buckets (home bin_bits bd.space k) (advance (b ++ a))
            (home-lt bin_bits bd.space v.placed k),
      )

      pub erase-Writes : Writes k none bd (record bd {
        space = modify_space bd.space (home bin_bits bd.space k) (advance (b ++ a));
        count = bd.count - 1;
      })
      erase-Writes =
          modify-Writes none (advance (b ++ a)) (b ++ a) (bd.count - 1) refl
            (subst (λ ns. Rewrites k none ns (b ++ a)) (sym at)
              (erase-Rewrites k b n a same hashed once))
            (omega (arith, filled, shorter)) (omega (arith, v.load))
            (rw stored (omega (arith, filled)))

  =?_found : (k : K) (x y : Option V) → found (if k =? k then x else y) ≡ found x
  =?_found k x y = rw (=?_refl k)

  -- A write after a preparation that changes no lookup is a write to the original.
  pub Ready-Writes :
      (adds : Bool) (k : K) (x : Option V) (bd bd' bd'' : BinData K V)
      → Ready bin_bits adds bd bd'
      → Writes k x bd' bd''
      → Writes k x bd bd''
  Ready-Writes adds k x bd bd' bd'' r w = record {
    valid = w.valid;
    reads = λ q. w.reads q ∙ rw (r.reads q);
    size = omega (arith, w.size, r.same, ap found (r.reads k));
  }

  pub Writes-trans :
      (k : K) (x y : Option V) (bd bd' bd'' : BinData K V)
      → Writes k x bd bd'
      → Writes k y bd' bd''
      → Writes k y bd bd''
  Writes-trans k x y bd bd' bd'' w w' = record {
    valid = w'.valid;
    reads = λ q. ground (arith, w.reads q, w'.reads q);
    size =
        omega
          (arith, w.size, w'.size, ap found (w.reads k), =?_found k x (view bin_bits bd.space k));
  }

  -- Where a preparation is all that happened, the key keeps its value.
  pub Ready-keeps :
      (adds : Bool) (k : K) (x : Option V) (bd bd' : BinData K V)
      → Ready bin_bits adds bd bd'
      → view bin_bits bd'.space k ≡ x
      → Writes k x bd bd'
  Ready-keeps adds k x bd bd' r e = record {
    valid = r.valid;
    reads = λ q. ground (arith, r.reads q, r.reads k, view_congr bin_bits bd'.space q k);
    size = omega (arith, r.same, ap found (r.reads k), ap found e);
  }
