-- ===== src/Containers/Chunks.antt =====
-- The positions in the chunks of each node, and what one more chunk does to them.
use pgasus.Common.{
  ℕ, zero, suc, ◌+◌, ◌-◌, ◌≤◌, ◌<◌, ◌≡◌, refl, sym, ap, ◌∙◌, true, false, Option, none, some, List,
  [], ◌∷◌, ◌++◌, ◌==◌, if◌then◌else◌, concat_map, append-nil, arith, inl, inr, Bool-cases,
}
use pgasus.Containers.{Adapter, Parallel, add_iterator_pair, Iters, add_to}

-- `n` positions from `i` on.
unfoldable pub span : ℕ → ℕ → List ℕ
span i zero = []
span i (suc n) = i ∷ span (suc i) n

-- Those of them that the policy gives to a node.
unfoldable pub placed : (policy : ℕ → ℕ) (node i n : ℕ) → List ℕ
placed policy node i zero = []
placed policy node i (suc n) =
    let rest = placed policy node (suc i) n in if policy i == node then i ∷ rest else rest

-- The positions in a chunk.
unfoldable pub positions : Adapter → List ℕ
positions a = span a.curr (a.end - a.curr)

unfoldable pub chunks_of : Option Parallel → List Adapter
chunks_of none = []
chunks_of (some p) = p.iters

pub placed-append :
    (policy : ℕ → ℕ) (node i m n : ℕ)
    → placed policy node i (m + n) ≡ placed policy node i m ++ placed policy node (i + m) n
unfolding placed
placed-append policy node i zero n =
    ap (λ j. placed policy node i j) {x = 0 + n} {y = n} (omega arith)
    ∙ ap (λ j. placed policy node j n) {x = i} {y = i + 0} (omega arith)
placed-append policy node i (suc m) n =
    let later =
      placed-append policy node (suc i) m n
      ∙ ap (λ j. placed policy node (suc i) m ++ placed policy node j n) {x = suc i + m}
          {y = i + suc m} (omega arith) in
    ap (λ j. placed policy node i j) {x = suc m + n} {y = suc (m + n)} (omega arith)
    ∙ elim (Bool-cases (policy i == node)) [
      | inl here ↦ rw (here, later) refl
      | inr there ↦ rw (there, later) refl
    ]

-- Positions of one node are all its own, and no other node's.
placed-uniform :
    (policy : ℕ → ℕ) (c node i m : ℕ)
    → ((j : ℕ) → i ≤ j → j < i + m → policy j ≡ c)
    → placed policy node i m ≡ (if c == node then span i m else [])
unfolding placed span
placed-uniform policy c node i zero same = elim (Bool-cases (c == node)) [
  | inl e ↦ rw e refl
  | inr e ↦ rw e refl
]
placed-uniform policy c node i (suc m) same =
    let later =
      placed-uniform policy c node (suc i) m
        (λ j above below. same j (omega arith) (omega arith)) in
    let own = same i (omega arith) (omega arith) in
    elim (Bool-cases (c == node)) [
      | inl e ↦ rw (own, e, later, e) refl
      | inr e ↦ rw (own, e, later, e) refl
    ]

-- A node has an entry.
abbrev pub Known : Iters → ℕ → Type 0
Known iters n = (p : Parallel) × (iters n ≡ some p)

-- How many chunks of a node have been handed out.
unfoldable pub handed : Option Parallel → ℕ
handed none = 0
handed (some p) = p.curr_index

-- What `add_to` does to the chunks of each node.
pub record Added (iters iters' : Iters) (n : ℕ) (a : Adapter) : Type 0 where
  pub chunks :
      (k : ℕ) → chunks_of (iters' k) ≡ chunks_of (iters k) ++ (if n == k then a ∷ [] else [])
  pub known : (k : ℕ) → Known iters k → Known iters' k
  pub unread : (k : ℕ) → handed (iters' k) ≡ handed (iters k)

pub add_to-Added :
    (n begin end : ℕ) (iters : Iters)
    → Known iters n
    → (iters' : Iters) × (add_to n begin end iters ≡ some iters')
      × Added iters iters' n (record { curr = begin; end = end })
unfolding add_to chunks_of handed add_iterator_pair
add_to-Added n begin end iters (p, e) = (
  (λ j. if j == n then some (add_iterator_pair begin end p) else iters j),
  rw e refl,
  record {
    chunks = λ k. elim (Bool-cases (k == n)) [
      | inl same ↦
          let turned : (n == k) ≡ true = ground (arith, same) in
          let there : iters k ≡ some p = ap iters (ground (arith, same)) ∙ e in
          rw (same, turned, there) refl
      | inr other ↦
          let turned : (n == k) ≡ false = ground (arith, other) in
          rw (other, turned) (sym (append-nil (chunks_of (iters k))))
    ];
    known = λ k (q, f). elim (Bool-cases (k == n)) [
      | inl same ↦ (add_iterator_pair begin end p, rw same refl)
      | inr other ↦ (q, rw other f)
    ];
    unread = λ k. elim (Bool-cases (k == n)) [
      | inl same ↦
          let there : iters k ≡ some p = ap iters (ground (arith, same)) ∙ e in
          rw (same, there) refl
      | inr other ↦ rw other refl
    ];
  },
)

pub positions-chunk :
    (policy : ℕ → ℕ) (n k b e : ℕ)
    → b ≤ e
    → ((j : ℕ) → b ≤ j → j < e → policy j ≡ n)
    → concat_map positions (if n == k then record { curr = b; end = e } ∷ [] else [])
      ≡ placed policy k b (e - b)
unfolding concat_map positions
positions-chunk policy n k b e le same =
    let all = placed-uniform policy n k b (e - b) (λ j above below. same j above (omega arith)) in
    elim (Bool-cases (n == k)) [
      | inl own ↦ rw own (append-nil (span b (e - b)) ∙ sym (all ∙ rw own refl))
      | inr other ↦ rw other (sym (all ∙ rw other refl))
    ]
