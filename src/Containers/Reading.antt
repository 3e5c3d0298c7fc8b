-- ===== src/Containers/Reading.antt =====
-- What a thread sees that takes the chunks of a node.
use pgasus.Common.{
  ℕ, zero, suc, ◌-◌, ◌≤◌, ◌<◌, ◌≡◌, refl, sym, ap, ◌∙◌, true, false, Option, none, some, List, [],
  ◌∷◌, ◌==◌, length, concat_map, drop, All, arith, inl, inr, Bool-cases,
}
use pgasus.Sync.{is_nil}
use pgasus.Iterating.Visits.{Walks}
use pgasus.Iterating.Distributed.{Hands, counter-Hands, iterate, take_units-rest}
use pgasus.Containers.{
  Adapter, adapter_ops, is_end, next, Parallel, new_parallel, get, Iters, contains, new_iters,
  create,
}
use pgasus.Containers.Chunks.{span, placed, positions, chunks_of, handed}
use pgasus.Containers.Cutting.{IsSized, extract-Extracted}

-- An adapter that has not gone past its end.
abbrev IsInside : Adapter → Type 0
IsInside a = a.curr ≤ a.end

span-cons :
    (i n v : ℕ) (vs : List ℕ)
    → span i n ≡ v ∷ vs
    → (m : ℕ) × (n ≡ suc m) × (i ≡ v) × (span (suc i) m ≡ vs)
unfolding span
span-cons i zero v vs e = absurd (ground (arith, e))
span-cons i (suc m) v vs e = (m, refl, cc, cc)

span-is_nil : (i n : ℕ) → is_nil (span i n) ≡ (n == 0)
unfolding span
span-is_nil i zero = refl
span-is_nil i (suc n) = ground arith

adapter-Walks : Walks adapter_ops positions IsInside
unfolding positions is_end next
adapter-Walks = record {
  ended = λ a inside. ground (arith, inside) ∙ sym (span-is_nil a.curr (a.end - a.curr));
  value =
      λ a v vs inside e. let (m, left, at, later) = span-cons a.curr (a.end - a.curr) v vs e in at;
  next = λ a v vs inside e.
      let (m, left, at, later) = span-cons a.curr (a.end - a.curr) v vs e in
      let more : (a.curr == a.end) ≡ false = ground (arith, left) in
      rw more (
        omega (arith, left),
        ap (λ n. span (suc a.curr) n) {x = a.end - suc a.curr} {y = m} (omega (arith, left))
            ∙ later,
      );
}

chunk-Hands : Hands get (λ (p : Parallel). drop p.curr_index p.iters)
unfolding get
chunk-Hands = counter-Hands get (λ p. p.iters) (λ p. p.curr_index) (λ p. refl) (λ p. refl)

length-placed : (policy : ℕ → ℕ) (k i n : ℕ) → length (placed policy k i n) ≤ n
unfolding placed
length-placed policy k i zero = omega arith
length-placed policy k i (suc n) =
    let later = length-placed policy k (suc i) n in
    elim (Bool-cases (policy i == k)) [
      | inl own ↦ rw own (omega (arith, later))
      | inr other ↦ rw other (omega (arith, later))
    ]

new_iters-chunks : (nodes : List ℕ) (k : ℕ) → chunks_of (new_iters nodes k) ≡ []
unfolding new_iters chunks_of new_parallel
new_iters-chunks nodes k = elim (Bool-cases (contains k nodes)) [
  | inl there ↦ rw there refl
  | inr not_there ↦ rw not_there refl
]

new_iters-handed : (nodes : List ℕ) (k : ℕ) → handed (new_iters nodes k) ≡ 0
unfolding new_iters new_parallel handed
new_iters-handed nodes k = elim (Bool-cases (contains k nodes)) [
  | inl there ↦ rw there refl
  | inr not_there ↦ rw not_there refl
]

All-IsInside :
    (max_chunk size : ℕ) (as_ : List Adapter) → All (IsSized max_chunk size) as_ → All IsInside as_
unfolding IsSized
All-IsInside max_chunk size [] good = tt
All-IsInside max_chunk size (a ∷ as_) ((le, _, _), good) =
    (omega (arith, le), All-IsInside max_chunk size as_ good)

-- A thread that takes the chunks of a node sees their positions.
read-chunks :
    (max_chunk size m : ℕ) (o : Option Parallel)
    → handed o ≡ 0
    → All (IsSized max_chunk size) (chunks_of o)
    → length (concat_map positions (chunks_of o)) < m
    → iterate adapter_ops get (suc (length (chunks_of o))) m o
      ≡ some (concat_map positions (chunks_of o))
unfolding iterate handed chunks_of drop concat_map
read-chunks max_chunk size m none fresh good enough = refl
read-chunks max_chunk size m (some p) fresh good enough =
    take_units-rest adapter_ops get positions IsInside adapter-Walks
      (λ p. drop p.curr_index p.iters) chunk-Hands (suc (length p.iters)) m p p.iters
      (ap (λ n. drop n p.iters) fresh) (All-IsInside max_chunk size p.iters good) (omega arith)
      (omega (arith, enough))

-- `iterate` over a container of `size` elements that the policy places on nodes with an entry: the container is cut
-- into chunks of at least one and at most `max_chunk` elements (or one, if this is 0), and a thread that
-- takes the chunks of the node `k` sees exactly the positions that the policy places there, each once, in
-- order; `m` bounds the rounds in a chunk.
pub iterate-create :
    (policy : ℕ → ℕ) (max_chunk size k m : ℕ) (nodes : List ℕ)
    → ((i : ℕ) → i < size → contains (policy i) nodes ≡ true)
    → size < m
    → (iters : Iters) × (create policy max_chunk size nodes ≡ some iters)
      × All (IsSized max_chunk size) (chunks_of (iters k))
      × (iterate adapter_ops get (suc (length (chunks_of (iters k)))) m (iters k)
          ≡ some (placed policy k 0 size))
unfolding create
iterate-create policy max_chunk size k m nodes known enough =
    let (iters, made, cut) =
      extract-Extracted policy max_chunk size size 0 0 0 (new_iters nodes) (omega arith)
        (omega arith) (λ z. refl) (omega arith) (λ j above below. ap policy (omega (arith, below)))
        (λ i lt. (new_parallel, unfold new_iters in rw (known i lt) refl)) in
    let good = cut.sized k (rw (new_iters-chunks nodes k) tt) in
    let all : concat_map positions (chunks_of (iters k)) ≡ placed policy k 0 size =
      cut.chunks k
      ∙ rw (new_iters-chunks nodes k) (
          unfold concat_map in
          ap (λ n. placed policy k 0 n) {x = size - 0} {y = size} (omega arith)) in
    (
      iters,
      made,
      good,
      read-chunks max_chunk size m (iters k) (cut.unread k ∙ new_iters-handed nodes k) good
            (omega (arith, ap length all, length-placed policy k 0 size, enough))
          ∙ ap some all,
    )
