-- ===== src/HashTable/Valid.antt =====
-- What keeps a bin sound, and the rule by which the properties of its operations are proved.
use native.Mathlib.Nat.{pow-suc, one-le-pow}
use pgasus.Common.{
  ℕ, suc, ◌*◌, ◌^◌, ◌≤◌, ◌<◌, ◌≡◌, refl, Bool, true, false, ◌&&◌, Option, none, some, List, ◌∷◌,
  ◌++◌, arith, Bool-cases, inl, inr, leb, leb→le, length,
}
use pgasus.HashTable.Key.{Key, ◌=?◌}
use pgasus.HashTable.Bins.{
  Node, BinData, NodeIterator, Detail, items_at, item_count, resize, resize_if_necessary, locate,
  ready, operate_on_bin,
}
use pgasus.HashTable.Items.{Located, locate-Located}
use pgasus.HashTable.Placed.{home, IsPlaced, view}
use pgasus.HashTable.Resize.{resize-Rehashed}

module _ {ℓ} {K V : Type ℓ} ⦃key : Key K⦄ (bin_bits : ℕ) where
  -- The nodes are in place, the counter counts them, and the load is at most three a bucket.
  pub record IsValid (bd : BinData K V) : Type ℓ where
    pub placed : IsPlaced bin_bits bd.space
    pub counted : bd.count ≡ item_count bd.space.buckets
    pub limit : bd.max_count ≡ bd.space.num_buckets * 3
    pub load : bd.count ≤ bd.max_count

  -- `bd'` is `bd`, perhaps with more buckets; before an operation that adds there is room in it.
  pub record Ready (adds : Bool) (bd bd' : BinData K V) : Type ℓ where
    pub valid : IsValid bd'
    pub same : bd'.count ≡ bd.count
    pub reads : (q : K) → view bin_bits bd'.space q ≡ view bin_bits bd.space q
    pub room : adds ≡ true → bd'.count < bd'.max_count
    pub idle : adds ≡ false → bd' ≡ bd

  doubled-Ready :
      (adds : Bool) (bd : BinData K V)
      → IsValid bd
      → bd.max_count ≤ bd.count
      → adds ≡ true
      → Ready adds bd (resize bin_bits (2 * length bd.space.buckets) bd)
  doubled-Ready adds bd v full on =
      let p = v.placed in
      let pow : 2 * length bd.space.buckets ≡ 2 ^ suc p.bits =
        omega (arith, p.width, p.pow, pow-suc 2 p.bits) in
      let (placed, width, entries, reads) =
        resize-Rehashed bin_bits bd (2 * length bd.space.buckets) (suc p.bits) pow p in
      let pos = one-le-pow p.bits 2 (omega arith) in
      let bd' = resize bin_bits (2 * length bd.space.buckets) bd in
      let same : bd'.count ≡ bd.count = unfold resize in refl in
      let max : bd'.max_count ≡ 2 * length bd.space.buckets * 3 = unfold resize in refl in
      record {
        valid = record {
          placed = placed;
          counted = omega (arith, same, entries);
          limit = omega (arith, max, width);
          load = omega (arith, same, max, p.width);
        };
        same = same;
        reads = reads;
        room = λ _. omega (arith, same, max, pos, p.width, p.pow);
        idle = λ off. cc;
      }

  pub ready-Ready :
      (adds : Bool) (bd : BinData K V) → IsValid bd → Ready adds bd (ready bin_bits adds bd)
  unfolding ready resize_if_necessary
  ready-Ready adds bd v = elim (Bool-cases (adds && leb bd.max_count bd.count)) [
    | inl e ↦ rw e (
        let full : leb bd.max_count bd.count ≡ true = ground arith in
        rw full (doubled-Ready adds bd v (leb→le _ _ full) (ground arith)))
    | inr e ↦ rw e (record {
      valid = v;
      same = refl;
      reads = λ q. refl;
      room = λ a. ground arith;
      idle = λ _. refl;
    })
  ]

  -- To prove `P` of an operation's outcome, prove it where the key is found, and where it is not.
  pub operate_rule {κ μ} :
      {R : Type κ} (d : Detail K V R) (k : K) (bd : BinData K V) (P : BinData K V × R → Type μ)
      → IsValid bd
      → ((bd' : BinData K V) (b : List (Node K V)) (n : Node K V) (a : List (Node K V))
          → Ready d.does_modify bd bd'
          → items_at bd'.space.buckets (home bin_bits bd'.space k) ≡ b ++ n ∷ a
          → (k =? n.key) ≡ true
          → P (d.found (b, n, a) bd' (home bin_bits bd'.space k) k))
      → ((bd' : BinData K V)
          → Ready d.does_modify bd bd'
          → view bin_bits bd'.space k ≡ none
          → P (d.notfound bd' (home bin_bits bd'.space k) k (key.hash k)))
      → P (operate_on_bin bin_bits d k (key.hash k) bd)
  unfolding operate_on_bin
  operate_rule {R} d k bd P v found notfound =
      split (locate (key.hash k) k items)
        (locate-Located k items ((ready-Ready d.does_modify bd v).valid.placed.hashed _))
    where
      bd' : BinData K V
      bd' = ready bin_bits d.does_modify bd

      items : List (Node K V)
      items = items_at bd'.space.buckets (home bin_bits bd'.space k)

      split :
          (r : Option (NodeIterator K V))
          → Located k items r
          → P (elim r [
            | some it ↦ d.found it bd' (home bin_bits bd'.space k) k
            | none ↦ d.notfound bd' (home bin_bits bd'.space k) k (key.hash k)
          ])
      split none e = notfound bd' (ready-Ready d.does_modify bd v) (unfold view in e)
      split (some (b, n, a)) (e, same, o) = found bd' b n a (ready-Ready d.does_modify bd v) e same
