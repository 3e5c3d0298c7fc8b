-- ===== src/HashTable/Items.antt =====
-- The nodes of one bucket: what a search by key finds, and what each change of the vector does.
use pgasus.Common.{
  ℕ, ◌+◌, ◌≤◌, ◌≡◌, refl, true, false, Option, none, some, List, [], ◌∷◌, ◌++◌, arith, All,
  All-append, ◌==◌, if◌then◌else◌, ◌&&◌, Bool-cases, inl, inr,
}
use pgasus.HashTable.Key.{Key, ◌=?◌, =?_symm, =?_congr, =?_right, hash_congr}
use pgasus.HashTable.Bins.{Node, NodeIterator, locate}

abbrev pub or_else {ℓ} : {A : Type ℓ} → Option A → Option A → Option A
or_else none b = b
or_else (some a) b = some a

module _ {ℓ} {K V : Type ℓ} ⦃key : Key K⦄ where
  -- The value that stands under a key, and how many nodes have the key.
  unfoldable pub find : K → List (Node K V) → Option V
  find q [] = none
  find q (n ∷ ns) = let rest = find q ns in if q =? n.key then some n.value else rest

  unfoldable pub occurs : K → List (Node K V) → ℕ
  occurs q [] = 0
  occurs q (n ∷ ns) = (if q =? n.key then 1 else 0) + occurs q ns

  -- Every node carries the hash of its key.
  abbrev pub IsHashed : List (Node K V) → Type 0
  IsHashed ns = All (λ n. n.hash ≡ key.hash n.key) ns

  pub find-append :
      (q : K) (a b : List (Node K V)) → find q (a ++ b) ≡ or_else (find q a) (find q b)
  unfolding find
  find-append q [] b = refl
  find-append q (n ∷ a) b = rw (find-append q a b) (ground arith)

  pub occurs-append : (q : K) (a b : List (Node K V)) → occurs q (a ++ b) ≡ occurs q a + occurs q b
  unfolding occurs
  occurs-append q [] b = omega arith
  occurs-append q (n ∷ a) b = omega (arith, occurs-append q a b)

  pub find-eq-none : (q : K) (ns : List (Node K V)) → occurs q ns ≡ 0 → find q ns ≡ none
  unfolding occurs find
  find-eq-none q [] h = refl
  find-eq-none q (n ∷ ns) h = ground (arith, find-eq-none q ns)

  pub occurs_congr : (p q : K) (ns : List (Node K V)) → (p =? q) ≡ true → occurs p ns ≡ occurs q ns
  unfolding occurs
  occurs_congr p q [] h = refl
  occurs_congr p q (n ∷ ns) h = ground (arith, occurs_congr p q ns h, =?_congr p q n.key h)

  pub occurs-eq-zero : (q : K) (ns : List (Node K V)) → find q ns ≡ none → occurs q ns ≡ 0
  unfolding occurs find
  occurs-eq-zero q [] h = refl
  occurs-eq-zero q (n ∷ ns) h = ground (arith, occurs-eq-zero q ns)

  -- The outcome of the search loop, in terms of the keys alone.
  abbrev pub Located : K → List (Node K V) → Option (NodeIterator K V) → Type ℓ
  Located k ns none = find k ns ≡ none
  Located k ns (some (b, n, a)) = (ns ≡ b ++ (n ∷ a)) × ((k =? n.key) ≡ true) × (occurs k b ≡ 0)

  pub locate-Located :
      (k : K) (ns : List (Node K V)) → IsHashed ns → Located k ns (locate (key.hash k) k ns)
  unfolding locate find occurs
  locate-Located k [] h = refl
  locate-Located k (n ∷ ns) (hn, hs) = elim (Bool-cases (n.hash == key.hash k && n.key =? k)) [
    | inl t ↦ rw (t, Located) (refl, ground (arith, =?_symm k n.key), refl)
    | inr f ↦ rw (f, Located) (skip (apart f) (locate (key.hash k) k ns) (locate-Located k ns hs))
  ]
    where
      apart : (n.hash == key.hash k && n.key =? k) ≡ false → (k =? n.key) ≡ false
      apart f = ground (arith, =?_symm k n.key, hash_congr k n.key)

      skip :
          (k =? n.key) ≡ false
          → (r : Option (NodeIterator K V)) → Located k ns r
          → Located k (n ∷ ns) (elim r [ none ↦ none | some (b, m, a) ↦ some (n ∷ b, m, a) ])
      skip ne none e = rw ne e
      skip ne (some (b, m, a)) (e, same, o) = (rw e, same, rw ne (omega arith))

  pub IsHashed-append : (a b : List (Node K V)) → IsHashed a → IsHashed b → IsHashed (a ++ b)
  IsHashed-append a b = All-append (λ n. n.hash ≡ key.hash n.key) a b

  pub IsHashed-parts : (a b : List (Node K V)) → IsHashed (a ++ b) → IsHashed a × IsHashed b
  IsHashed-parts [] b h = (tt, h)
  IsHashed-parts (n ∷ a) b h = let (ha, hb) = IsHashed-parts a b h.1 in ((h.0, ha), hb)

  pub IsHashed-split :
      (b : List (Node K V)) (n : Node K V) (a : List (Node K V))
      → IsHashed (b ++ n ∷ a)
      → IsHashed b × (n.hash ≡ key.hash n.key) × IsHashed a
  IsHashed-split b n a h = let (hb, ha) = IsHashed-parts b (n ∷ a) h in (hb, ha.0, ha.1)

  -- What an appended node does to a bucket that lacks its key.
  pub find-snoc :
      (n : Node K V) (ns : List (Node K V))
      → find n.key ns ≡ none
      → (q : K) → find q (ns ++ n ∷ []) ≡ (if q =? n.key then some n.value else find q ns)
  unfolding find
  find-snoc n ns absent q =
      rw find-append
        (ground (arith, occurs_congr q n.key ns, find-eq-none q ns, occurs-eq-zero n.key ns absent))

  module _ (k : K) (b : List (Node K V)) (n : Node K V) (a : List (Node K V)) where
    -- The facts about a node that the search has returned, in a bucket without duplicates.
    abbrev pub IsOnly : Type 0
    IsOnly = ((k =? n.key) ≡ true) × (occurs k b ≡ 0) × (occurs k a ≡ 0)

    pub find_at : IsOnly → find k (b ++ n ∷ a) ≡ some n.value
    unfolding find
    find_at (same, hb, ha) = rw (find-append, find-eq-none k b hb, same)

    pub find-replace :
        (n' : Node K V)
        → n'.key ≡ n.key
        → IsOnly
        → (q : K) → find q (b ++ n' ∷ a) ≡ (if q =? k then some n'.value else find q (b ++ n ∷ a))
    unfolding find
    find-replace n' e (same, hb, ha) q =
        simp (find-append, e)
          (ground (arith, =?_right k n.key q, find-eq-none q b, occurs_congr q k b))

    pub occurs-replace :
        (n' : Node K V) → n'.key ≡ n.key → (q : K) → occurs q (b ++ n' ∷ a) ≡ occurs q (b ++ n ∷ a)
    unfolding occurs
    occurs-replace n' e q = simp (occurs-append, e)

    pub find-erase :
        IsOnly → (q : K) → find q (b ++ a) ≡ (if q =? k then none else find q (b ++ n ∷ a))
    unfolding find
    find-erase (same, hb, ha) q = simp find-append (
        ground (
          arith,
          =?_right k n.key q,
          find-eq-none q b,
          occurs_congr q k b,
          find-eq-none q a,
          occurs_congr q k a,
        ))

    pub occurs-erase : (q : K) → occurs q (b ++ a) ≤ occurs q (b ++ n ∷ a)
    unfolding occurs
    occurs-erase q = simp occurs-append (omega arith)

  -- A change of the bucket of `k` that maps `k` to `v` and leaves the other keys alone.
  pub record Rewrites (k : K) (v : Option V) (old new : List (Node K V)) : Type ℓ where
    pub hashed : IsHashed new
    pub found : (q : K) → find q new ≡ (if q =? k then v else find q old)
    pub few : (q : K) → occurs q new ≤ 1
    pub others : (q : K) → (q =? k) ≡ false → occurs q new ≤ occurs q old

  pub snoc-Rewrites :
      (n : Node K V) (ns : List (Node K V))
      → n.hash ≡ key.hash n.key
      → IsHashed ns
      → ((q : K) → occurs q ns ≤ 1)
      → find n.key ns ≡ none
      → Rewrites n.key (some n.value) ns (ns ++ n ∷ [])
  unfolding occurs
  snoc-Rewrites n ns e h once absent = record {
    hashed = IsHashed-append ns (n ∷ []) h (e, tt);
    found = find-snoc n ns absent;
    few = λ q.
        rw occurs-append
          (ground (arith, once q, occurs_congr q n.key ns, occurs-eq-zero n.key ns absent));
    others = λ q ne. rw (occurs-append, ne) (omega arith);
  }

  module _ (k : K) (b : List (Node K V)) (n : Node K V) (a : List (Node K V))
      (same : (k =? n.key) ≡ true) (h : IsHashed (b ++ n ∷ a))
      (once : (q : K) → occurs q (b ++ n ∷ a) ≤ 1) where
    pub only : IsOnly k b n a
    unfolding occurs
    only = ground (arith, occurs-append k b (n ∷ a), once k)

    pub replace-Rewrites :
        (v : V) → Rewrites k (some v) (b ++ n ∷ a) (b ++ (record n { value = v }) ∷ a)
    replace-Rewrites v = record {
      hashed = let (hb, hn, ha) = IsHashed-split b n a h in IsHashed-append b _ hb (hn, ha);
      found = find-replace k b n a (record n { value = v }) refl only;
      few = λ q. rw (occurs-replace k b n a (record n { value = v }) refl q) (once q);
      others = λ q _. omega (arith, occurs-replace k b n a (record n { value = v }) refl q);
    }

    pub erase-Rewrites : Rewrites k none (b ++ n ∷ a) (b ++ a)
    erase-Rewrites = record {
      hashed = let (hb, hn, ha) = IsHashed-split b n a h in IsHashed-append b a hb ha;
      found = find-erase k b n a only;
      few = λ q. omega (arith, occurs-erase k b n a q, once q);
      others = λ q _. occurs-erase k b n a q;
    }
