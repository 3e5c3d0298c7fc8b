-- ===== src/HashTable/Shares.antt =====
-- The units of a parallel iteration over the bins of a node.
use native.Mathlib.Nat.{le-div_iff_mul-le, div-mul-le_self, zero-div, mul-div_cancel_left}
use pgasus.Common.{
  ℕ, zero, suc, ◌+◌, ◌-◌, ◌*◌, ◌/◌, ◌≤◌, ◌<◌, ◌≡◌, refl, sym, ap, ◌∙◌, List, [], ◌∷◌, ◌++◌, length,
  concat_map, concat_map-append, All, All-append, arith, ltb, if◌then◌else◌, append_assoc,
}
use pgasus.Iterating.Visits.{all_from}
use pgasus.HashTable.Bins.{BucketSpace, BinData}
use pgasus.HashTable.Iterators.{bucket_iter, units_from, all_units}
use pgasus.HashTable.Traversal.{space_pairs, bin_pairs, bucket_rest, IsOn, space_rest}
use pgasus.HashTable.Visited.{space_iter-rest, all_buckets}

div_mono : (a b u : ℕ) → 0 < u → a ≤ b → a / u ≤ b / u
div_mono a b u pos h = (le-div_iff_mul-le pos).1 (omega (arith, div-mul-le_self a u))

all_from-add :
    {S B : Type 0} (get_sub_iter : ℕ → S) (rest : S → List B) (m n k : ℕ)
    → all_from get_sub_iter rest (m + n) k
      ≡ all_from get_sub_iter rest m k ++ all_from get_sub_iter rest n (m + k)
unfolding all_from
all_from-add get_sub_iter rest zero n k =
    ap (λ j. all_from get_sub_iter rest j k) {x = 0 + n} {y = n} (omega arith)
    ∙ ap (λ j. all_from get_sub_iter rest n j) {x = k} {y = 0 + k} (omega arith)
all_from-add get_sub_iter rest (suc m) n k =
    ap (λ j. all_from get_sub_iter rest j k) {x = suc m + n} {y = suc (m + n)} (omega arith)
    ∙ ap (λ xs. rest (get_sub_iter k) ++ xs)
        (all_from-add get_sub_iter rest m n (suc k)
          ∙ ap (λ j. all_from get_sub_iter rest m (suc k) ++ all_from get_sub_iter rest n j)
              {x = m + suc k} {y = suc m + k} (omega arith))
    ∙ sym (
        append_assoc (rest (get_sub_iter k)) (all_from get_sub_iter rest m (suc k))
          (all_from get_sub_iter rest n (suc m + k)))

module _ {K V : Type 0} where
  -- The units of a bin from number `i` on cover its buckets from the start of unit `i` on.
  units_from-rest :
      (s : BucketSpace K V) (u i n : ℕ)
      → 0 < u
      → i + n ≡ u
      → All IsOn (units_from s u i n)
        × (concat_map space_rest (units_from s u i n)
            ≡ all_from
                (bucket_iter s)
                bucket_rest
                (length s.buckets - i * length s.buckets / u)
                (i * length s.buckets / u))
  unfolding units_from concat_map all_from
  units_from-rest s u i zero pos e =
      let size = length s.buckets in
      let all_done : i * size / u ≡ size =
        ap (λ j. j * size / u) {x = i} {y = u} (omega (arith, e)) ∙ mul-div_cancel_left size pos in
      (
        tt,
        ap (λ k. all_from (bucket_iter s) bucket_rest k (i * size / u)) {x = 0}
            {y = size - i * size / u} (omega (arith, all_done)),
      )
  units_from-rest s u i (suc n) pos e =
      let size = length s.buckets in
      let (on, later) = units_from-rest s u (suc i) n pos (omega (arith, e)) in
      let a = i * size / u in
      let b = suc i * size / u in
      let whole : u * size / u ≡ size = mul-div_cancel_left size pos in
      let up : a ≤ b = div_mono (i * size) (suc i * size) u pos (grind arith) in
      let below : suc i * size ≤ u * size = grind (arith, e) in
      let top : b ≤ size = omega (arith, div_mono (suc i * size) (u * size) u pos below, whole) in
      let (on_first, first) = space_iter-rest s a b top in
      (
        (on_first, on),
        ap (λ xs. xs ++ concat_map space_rest (units_from s u (suc i) n)) first
            ∙ ap (λ xs. all_from (bucket_iter s) bucket_rest (b - a) a ++ xs)
                (later
                  ∙ ap (λ k. all_from (bucket_iter s) bucket_rest (size - b) k) {x = b}
                      {y = b - a + a} (omega (arith, up)))
            ∙ sym (all_from-add (bucket_iter s) bucket_rest (b - a) (size - b) a)
            ∙ ap (λ k. all_from (bucket_iter s) bucket_rest k a) {x = b - a + (size - b)}
                {y = size - a} (omega (arith, up, top)),
      )

  -- The units of a bin cover it.
  units-rest :
      (s : BucketSpace K V) (u : ℕ)
      → 0 < u
      → All IsOn (units_from s u 0 u) × (concat_map space_rest (units_from s u 0 u) ≡ space_pairs s)
  units-rest s u pos =
      let (on, left) = units_from-rest s u 0 u pos (omega arith) in
      let start : 0 * length s.buckets / u ≡ 0 =
        ap (λ k. k / u) {x = 0 * length s.buckets} {y = 0} (omega arith) ∙ zero-div u in
      (
        on,
        left
            ∙ ap (λ k. all_from (bucket_iter s) bucket_rest (length s.buckets - k) k) start
            ∙ ap (λ k. all_from (bucket_iter s) bucket_rest k 0) {x = length s.buckets - 0}
                {y = length s.buckets} (omega arith)
            ∙ all_buckets s,
      )

  pub all_units-rest :
      (m : ℕ) (bs : List (BinData K V))
      → 0 < m
      → All (λ (b : BinData K V). 0 < length b.space.buckets) bs
      → All IsOn (all_units m bs)
        × (concat_map space_rest (all_units m bs) ≡ concat_map bin_pairs bs)
  unfolding all_units concat_map
  all_units-rest m [] pos some_buckets = (tt, refl)
  all_units-rest m (b ∷ bs) pos (here, others) =
      let size = length b.space.buckets in
      let u = if ltb size m then size else m in
      let (on, left) = units-rest b.space u (ground arith) in
      let (on', left') = all_units-rest m bs pos others in
      (
        All-append IsOn (units_from b.space u 0 u) (all_units m bs) on on',
        concat_map-append space_rest (units_from b.space u 0 u) (all_units m bs)
            ∙ ap (λ xs. xs ++ concat_map space_rest (all_units m bs)) left
            ∙ ap (λ xs. space_pairs b.space ++ xs) left',
      )
