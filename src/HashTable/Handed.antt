-- ===== src/HashTable/Handed.antt =====
-- What one thread sees that takes the units of a parallel iteration until there is none.
use native.Mathlib.Nat.{le-div_iff_mul-le, one-le-pow}
use pgasus.Common.{
  ℕ, suc, ◌+◌, ◌-◌, ◌/◌, ◌≤◌, ◌<◌, ◌≡◌, refl, ap, ◌∙◌, true, false, some, List, [], ◌∷◌, length,
  get_or, concat_map, drop, All, arith, ◌==◌, if◌then◌else◌,
}
use pgasus.HashTable.Key.{Key}
use pgasus.HashTable.Bins.{BinData}
use pgasus.HashTable.Table.{Table, no_bin}
use pgasus.HashTable.Valid.{IsValid}
use pgasus.HashTable.Laws.{IsSound}
use pgasus.HashTable.Iterators.{
  ParallelIteration, space_ops, bins_on, all_units, parallel_iteration, get_unit,
}
use pgasus.Iterating.Visits.{Laws-Walks}
use pgasus.Iterating.Distributed.{Hands, counter-Hands, iterate, take_units-rest}
use pgasus.HashTable.Traversal.{bin_pairs, IsOn, space_rest, space-Laws}
use pgasus.HashTable.Shares.{all_units-rest}

drop-zero : {A : Type 0} (xs : List A) → drop 0 xs ≡ xs
unfolding drop
drop-zero xs = refl

unit-Hands :
    {K V : Type 0}
    → Hands (get_unit {K = K} {V = V}) (λ (p : ParallelIteration K V). drop p.counter p.iters)
unfolding get_unit
unit-Hands = counter-Hands get_unit (λ p. p.iters) (λ p. p.counter) (λ p. refl) (λ p. refl)

module _ {K V : Type 0} ⦃key : Key K⦄ (bin_bits : ℕ) where
  bins_on-filled :
      (node : ℕ) (bs : List (BinData K V)) (nodes : List ℕ)
      → ((i : ℕ) → i < length bs → IsValid bin_bits (get_or bs i no_bin))
      → All (λ (b : BinData K V). 0 < length b.space.buckets) (bins_on node bs nodes)
  unfolding bins_on
  bins_on-filled node [] nodes valid = tt
  bins_on-filled node (b ∷ bs) [] valid = tt
  bins_on-filled node (b ∷ bs) (n ∷ ns) valid =
      let p = (valid 0 (omega arith)).placed in
      let pos = one-le-pow p.bits 2 (omega arith) in
      let later = bins_on-filled node bs ns (λ i lt. valid (suc i) (omega arith)) in
      elim (n == node)
        as (λ t.
          All (λ (c : BinData K V). 0 < length c.space.buckets)
            (if t then b ∷ bins_on node bs ns else bins_on node bs ns)) [
              | true ↦ (omega (arith, pos, p.width, p.pow), later)
              | false ↦ later
            ]

  -- A parallel iteration over a node that has a bin of a sound table, in at least one unit, can be made, and a
  -- thread that takes its units until there is none sees the pair of every node of the bins on that node
  -- once; `m` bounds the rounds in a unit.
  pub iterate-parallel_iteration :
      (t : Table K V) (node min_units m : ℕ)
      → IsSound bin_bits t
      → 0 < length (bins_on node t.bins t.bin_nodes)
      → 0 < min_units
      → length (concat_map bin_pairs (bins_on node t.bins t.bin_nodes)) < m
      → (p : ParallelIteration K V) × (parallel_iteration t node min_units ≡ some p)
        × (iterate space_ops get_unit (suc (length p.iters)) m (some p)
            ≡ some (concat_map bin_pairs (bins_on node t.bins t.bin_nodes)))
  unfolding parallel_iteration iterate
  iterate-parallel_iteration t node min_units m sound has_bin some_units few =
      let bins = bins_on node t.bins t.bin_nodes in
      let u = (length bins + min_units - 1) / length bins in
      let pos : 1 ≤ u = (le-div_iff_mul-le has_bin).1 (omega arith) in
      let filled =
        bins_on-filled node t.bins t.bin_nodes
          (λ i lt. sound.bins i (omega (arith, sound.width))) in
      let (on, left) = all_units-rest u bins pos filled in
      let there : (length bins == 0) ≡ false = ground arith in
      (
        record { counter = 0; iters = all_units u bins },
        rw there refl,
        take_units-rest space_ops get_unit space_rest IsOn
              (Laws-Walks space_ops space_rest IsOn space-Laws) (λ p. drop p.counter p.iters)
              unit-Hands (suc (length (all_units u bins))) m
              (record { counter = 0; iters = all_units u bins }) (all_units u bins)
              (drop-zero (all_units u bins)) on (omega arith) (omega (arith, few, ap length left))
            ∙ ap some left,
      )
