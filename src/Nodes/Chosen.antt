-- ===== src/Nodes/Chosen.antt =====
-- What the mapping is for a configuration that is in order, and without one.
use pgasus.Common.{
  All, ℕ, zero, suc, ◌≤◌, ◌<◌, ◌≡◌, refl, sym, ◌∙◌, ap, subst, false, none, some, List, [], ◌∷◌,
  ◌++◌, map, length, get_elem?, get_or, set, replicate, append-nil, ◌≢◌, get_or-set, length-set,
  length-replicate, count, arith, ◌==◌, Bool-cases, if_intro, ==_iff, inl, inr,
}
use pgasus.Nodes.{
  pos, Scan, Slot, use_no_nodes, use_given_nodes, back, less, configured, get_sorted_elements,
  get_mapping, logical_nodes,
}
use pgasus.Nodes.Logical.{
  numbered, Ascending, Idle, IdleFrom, assign_lem, nodes_from-idle, set-IdleFrom, logical_step,
  use_all_nodes-numbered,
}

elem-set : (r : List Slot) (i j : ℕ) (v : Slot) → i ≢ j → get_elem? (set r i v) j ≡ get_elem? r j
elem-set [] i j v h = refl
elem-set (x ∷ r) zero zero v h = absurd (h refl)
elem-set (x ∷ r) zero (suc j) v h = refl
elem-set (x ∷ r) (suc i) zero v h = refl
elem-set (x ∷ r) (suc i) (suc j) v h = elem-set r i j v (λ e. h (ap suc e))

elem-set_same : (r : List Slot) (i : ℕ) (v : Slot) → i < length r → get_elem? (set r i v) i ≡ some v
elem-set_same [] i v h = absurd (omega arith)
elem-set_same (x ∷ r) zero v h = refl
elem-set_same (x ∷ r) (suc i) v h = elem-set_same r i v (omega arith)

Ascending-weaken :
    (low low' size : ℕ) (ps : List ℕ) → low ≤ low' → Ascending low' size ps → Ascending low size ps
unfolding Ascending
Ascending-weaken low low' size [] h a = tt
Ascending-weaken low low' size (p ∷ ps) h (le, lt, a) = (omega (arith, le), lt, a)

-- Nodes that are there and not used yet.
abbrev Free : List Slot → List ℕ → Type 0
Free r as_ = All (λ a. get_elem? r a ≡ some Slot.not_used) as_

Free-set :
    (r : List Slot) (x size : ℕ) (v : Slot) (as_ : List ℕ)
    → Ascending (suc x) size as_
    → Free r as_
    → Free (set r x v) as_
unfolding Ascending
Free-set r x size v [] asc free = tt
Free-set r x size v (a ∷ as_) (le, lt, asc) (here, free) = (
  elem-set r x a v (omega (arith, le)) ∙ here,
  Free-set r x size v as_ (Ascending-weaken (suc x) (suc a) size as_ (omega (arith, le)) asc) free,
)

-- The requested nodes, when they are all there, get the logical ids from `n` on.
use_given_nodes-numbered :
    (as_ : List ℕ) (low n : ℕ) (r : List Slot)
    → Ascending low (length r) as_
    → IdleFrom low r
    → Free r as_
    → (r' : List Slot) × (use_given_nodes (map pos as_) n r ≡ some (some r'))
      × (logical_nodes r' ≡ logical_nodes r ++ numbered n as_)
unfolding use_given_nodes Ascending numbered
use_given_nodes-numbered [] low n r asc idle free = (r, refl, sym (append-nil (logical_nodes r)))
use_given_nodes-numbered (p ∷ ps) low n r (le, lt, asc) idle (here, free) =
    let from_p : IdleFrom p r = λ j g. idle j (omega (arith, le, g)) in
    let (r', e, nodes) =
      use_given_nodes-numbered ps (suc p) (suc n) (set r p (Slot.logical n))
        (subst (λ size. Ascending (suc p) size ps) (sym (length-set r p (Slot.logical n))) asc)
        (set-IdleFrom r p (Slot.logical n) lt from_p)
        (Free-set r p (length r) (Slot.logical n) ps asc free) in
    (r', rw (here, assign_lem r p (Slot.logical n) lt) e, logical_step r p n ps r' lt from_p nodes)

-- What the loop over all nodes leaves: none has a logical id, and each can be requested.
record Cleared (ids : List ℕ) (low : ℕ) (r r' : List Slot) : Type 0 where
  pub size : length r' ≡ length r
  pub idle : IdleFrom 0 r'
  pub below : (a : ℕ) → a < low → get_elem? r' a ≡ get_elem? r a
  pub free : (a : ℕ) → 0 < count a ids → get_elem? r' a ≡ some Slot.not_used

use_no_nodes-Cleared :
    (ids : List ℕ) (low : ℕ) (r : List Slot)
    → Ascending low (length r) ids
    → IdleFrom 0 r
    → (r' : List Slot) × (use_no_nodes ids r ≡ some r') × Cleared ids low r r'
unfolding use_no_nodes Ascending count
use_no_nodes-Cleared [] low r asc idle = (
  r,
  refl,
  record { size = refl; idle = idle; below = λ a h. refl; free = λ a h. absurd (omega arith) },
)
use_no_nodes-Cleared (p ∷ ps) low r (le, lt, asc) idle =
    let same = length-set r p Slot.not_used in
    let (r', e, c) =
      use_no_nodes-Cleared ps (suc p) (set r p Slot.not_used)
        (subst (λ size. Ascending (suc p) size ps) (sym same) asc)
        (λ j g.
          subst Idle (sym (get_or-set r p j Slot.not_used Slot.missing lt))
            (if_intro Idle (p == j) (λ y. tt) (λ y. idle j g))) in
    (
      r',
      rw (assign_lem r p Slot.not_used lt) e,
      record {
        size = c.size ∙ same;
        idle = c.idle;
        below =
            λ a h. c.below a (omega (arith, le)) ∙ elem-set r p a Slot.not_used (omega (arith, le));
        free = λ a h. elim (Bool-cases (a == p)) [
          | inl e ↦
              subst (λ x. get_elem? r' x ≡ some Slot.not_used) (sym ((==_iff a p).0 e))
                (c.below p (omega arith) ∙ elem-set_same r p Slot.not_used lt)
          | inr e ↦ c.free a (ground (arith, e, h))
        ];
      },
    )

Free-Cleared :
    (ids : List ℕ) (low : ℕ) (r r' : List Slot) (as_ : List ℕ)
    → Cleared ids low r r'
    → All (λ a. 0 < count a ids) as_
    → Free r' as_
Free-Cleared ids low r r' [] c all = tt
Free-Cleared ids low r r' (a ∷ as_) c (here, all) =
    (c.free a here, Free-Cleared ids low r r' as_ c all)

fresh-Idle : (n j : ℕ) → Idle (get_or (replicate n Slot.missing) j Slot.missing)
fresh-Idle zero j = tt
fresh-Idle (suc n) zero = tt
fresh-Idle (suc n) (suc j) = fresh-Idle n j

back-in_range :
    (low size a : ℕ) (as_ : List ℕ)
    → Ascending low (suc size) (a ∷ as_)
    → less (pos size) (back (pos a) (map pos as_)) ≡ false
unfolding Ascending less back
back-in_range low size a [] (le, lt, asc) = ground (arith, lt)
back-in_range low size a (b ∷ bs) (le, lt, asc) = back-in_range (suc a) size b bs asc

-- Without NUMA_NODES, all nodes get logical ids, from 0 on in the order of their physical ids.
pub get_mapping-all :
    (p : ℕ) (ps : List ℕ)
    → Ascending 0 (suc (back p ps)) (p ∷ ps)
    → (r : List Slot) × (get_mapping (p ∷ ps) none ≡ some r)
      × (logical_nodes r ≡ numbered 0 (p ∷ ps))
unfolding get_mapping logical_nodes
get_mapping-all p ps asc =
    let fresh = replicate (suc (back p ps)) Slot.missing in
    let size = length-replicate (suc (back p ps)) Slot.missing in
    let (r, e, nodes) =
      use_all_nodes-numbered (p ∷ ps) 0 0 fresh (subst (λ s. Ascending 0 s (p ∷ ps)) (sym size) asc)
        (λ j g. fresh-Idle (suc (back p ps)) j) in
    (
      r,
      e,
      nodes
          ∙ ap (λ ns. ns ++ numbered 0 (p ∷ ps))
              (nodes_from-idle 0 fresh (λ j g. fresh-Idle (suc (back p ps)) j)),
    )

-- With ids in NUMA_NODES that are, sorted, without duplicates and all those of nodes, exactly these nodes get
-- logical ids, from 0 on in the order of their physical ids.
pub get_mapping-configured :
    (p : ℕ) (ps : List ℕ) (parts : List (List Scan)) (a : ℕ) (as_ : List ℕ)
    → Ascending 0 (suc (back p ps)) (p ∷ ps)
    → get_sorted_elements parts ≡ map pos (a ∷ as_)
    → Ascending 0 (suc (back p ps)) (a ∷ as_)
    → All (λ x. 0 < count x (p ∷ ps)) (a ∷ as_)
    → (r : List Slot) × (get_mapping (p ∷ ps) (some parts) ≡ some r)
      × (logical_nodes r ≡ numbered 0 (a ∷ as_))
unfolding get_mapping configured logical_nodes
get_mapping-configured p ps parts a as_ asc wanted asc' known =
    let max = back p ps in
    let fresh = replicate (suc max) Slot.missing in
    let size = length-replicate (suc max) Slot.missing in
    let (cleared, e, c) =
      use_no_nodes-Cleared (p ∷ ps) 0 fresh (subst (λ s. Ascending 0 s (p ∷ ps)) (sym size) asc)
        (λ j g. fresh-Idle (suc max) j) in
    let (r, e', nodes) =
      use_given_nodes-numbered (a ∷ as_) 0 0 cleared
        (subst (λ s. Ascending 0 s (a ∷ as_)) (sym (c.size ∙ size)) asc') c.idle
        (Free-Cleared (p ∷ ps) 0 fresh cleared (a ∷ as_) c known) in
    (
      r,
      rw (wanted, back-in_range 0 max a as_ asc', e, e') refl,
      nodes ∙ ap (λ ns. ns ++ numbered 0 (a ∷ as_)) (nodes_from-idle 0 cleared c.idle),
    )
