-- ===== src/Containers/Cutting.antt =====
-- The chunks into which a container is cut: each node has the positions that the policy gives it.
use pgasus.Common.{
  ℕ, zero, suc, ◌+◌, ◌-◌, ◌≤◌, ◌<◌, ◌≡◌, refl, sym, ap, ◌∙◌, false, some, [], ◌∷◌, ◌++◌, ◌==◌,
  if◌then◌else◌, ◌>>=◌, concat_map, concat_map-append, append-nil, append_assoc, arith, All,
  All-append, subst, ◌≢◌, inl, inr, Bool-cases,
}
use pgasus.Containers.{Adapter, Iters, is_cut, extract}
use pgasus.Containers.Chunks.{
  placed, positions, chunks_of, placed-append, Known, handed, Added, add_to-Added, positions-chunk,
}

-- A chunk inside the container with at least one element, and not more than `max_chunk`, or one.
unfoldable pub IsSized : (max_chunk size : ℕ) → Adapter → Type 0
IsSized max_chunk size a =
    (a.curr < a.end) × (a.end ≤ size) × (a.end - a.curr ≤ max_chunk + (1 - max_chunk))

module _ (policy : ℕ → ℕ) (max_chunk size : ℕ) where
  -- What the loop does from the position `last` on.
  pub record Extracted (last : ℕ) (iters iters' : Iters) : Type 0 where
    pub chunks :
        (k : ℕ)
        → concat_map positions (chunks_of (iters' k))
          ≡ concat_map positions (chunks_of (iters k)) ++ placed policy k last (size - last)
    pub sized :
        (k : ℕ)
        → All (IsSized max_chunk size) (chunks_of (iters k))
        → All (IsSized max_chunk size) (chunks_of (iters' k))
    pub unread : (k : ℕ) → handed (iters' k) ≡ handed (iters k)

  cut-Extracted :
      (last end : ℕ) (iters iters1 iters2 : Iters)
      → last < end
      → end ≤ size
      → end - last ≤ max_chunk + (1 - max_chunk)
      → ((j : ℕ) → last ≤ j → j < end → policy j ≡ policy last)
      → Added iters iters1 (policy last) (record { curr = last; end = end })
      → Extracted end iters1 iters2
      → Extracted last iters iters2
  unfolding IsSized
  cut-Extracted last end iters iters1 iters2 some_there inside few same added later = record {
    chunks = λ k.
        let old = concat_map positions (chunks_of (iters k)) in
        later.chunks k
        ∙ ap (λ cs. concat_map positions cs ++ placed policy k end (size - end)) (added.chunks k)
        ∙ ap (λ ps. ps ++ placed policy k end (size - end))
            (concat_map-append positions (chunks_of (iters k))
                (if policy last == k then record { curr = last; end = end } ∷ [] else [])
              ∙ ap (λ ps. old ++ ps)
                  (positions-chunk policy (policy last) k last end (omega arith) same))
        ∙ append_assoc old (placed policy k last (end - last)) (placed policy k end (size - end))
        ∙ ap (λ ps. old ++ ps)
            (ap (λ j. placed policy k last (end - last) ++ placed policy k j (size - end)) {x = end}
                {y = last + (end - last)} (omega arith)
              ∙ sym (placed-append policy k last (end - last) (size - end))
              ∙ ap (λ j. placed policy k last j) {x = end - last + (size - end)} {y = size - last}
                  (omega arith));
    sized = λ k good. later.sized k (
        subst (All (IsSized max_chunk size)) (sym (added.chunks k)) (
          All-append (IsSized max_chunk size) (chunks_of (iters k))
            (if policy last == k then record { curr = last; end = end } ∷ [] else []) good
            (elim (Bool-cases (policy last == k))
              as (λ _.
                All (IsSized max_chunk size)
                  (if policy last == k then record { curr = last; end = end } ∷ [] else [])) [
                    | inl own ↦ rw own ((some_there, inside, few), tt)
                    | inr other ↦ rw other tt
                  ])));
    unread = λ k. later.unread k ∙ added.unread k;
  }

  is_cut-false :
      (it n chunk : ℕ)
      → is_cut policy max_chunk size it n chunk ≡ false
      → (policy it ≡ n) × (it ≢ size) × (chunk < max_chunk)
  unfolding is_cut
  is_cut-false it n chunk e = ground (arith, e)

  pub extract-Extracted :
      (left it last curr_chunk : ℕ) (iters : Iters)
      → it + left ≡ size
      → last + curr_chunk ≡ it
      → (left ≡ 0 → last ≡ it)
      → curr_chunk < max_chunk + (1 - max_chunk)
      → ((j : ℕ) → last ≤ j → j ≤ it → policy j ≡ policy last)
      → ((i : ℕ) → i < size → Known iters (policy i))
      → (iters' : Iters) × (extract policy max_chunk size left it last
            (policy last)
            curr_chunk
            iters
          ≡ some iters')
        × Extracted last iters iters'
  unfolding extract is_cut
  extract-Extracted zero it last curr_chunk iters at chunk done few same known = (
    iters,
    refl,
    record {
      chunks = λ k. sym (
          ap (λ n. concat_map positions (chunks_of (iters k)) ++ placed policy k last n)
            {x = size - last} {y = 0} (omega (arith, done refl))
          ∙ (unfold placed in append-nil (concat_map positions (chunks_of (iters k)))));
      sized = λ k good. good;
      unread = λ k. refl;
    },
  )
  extract-Extracted (suc left) it last curr_chunk iters at chunk done few same known =
      elim (Bool-cases (is_cut policy max_chunk size (suc it) (policy last) (suc curr_chunk))) [
        | inl cut ↦
            let (iters1, put, added) =
              add_to-Added (policy last) last (suc it) iters (known last (omega arith)) in
            let (iters2, ran, later) =
              extract-Extracted left (suc it) (suc it) 0 iters1 (omega arith) (omega arith)
                (λ z. refl) (omega arith) (λ j above below. ap policy (omega arith))
                (λ i lt. added.known (policy i) (known i lt)) in
            (
              iters2,
              rw (cut, put, ◌>>=◌) ran,
              cut-Extracted last (suc it) iters iters1 iters2 (omega arith) (omega arith)
                  (omega arith) (λ j above below. same j above (omega arith)) added later,
            )
        | inr on ↦
            let (home, more, room) = is_cut-false (suc it) (policy last) (suc curr_chunk) on in
            let (iters', ran, extracted) =
              extract-Extracted left (suc it) last (suc curr_chunk) iters (omega arith)
                (omega arith) (λ z. absurd (omega (arith, more))) (omega (arith, room))
                (λ j above below. elim (Bool-cases (j == suc it)) [
                  | inl e ↦ ap policy (ground (arith, e)) ∙ home
                  | inr e ↦ same j above (ground (arith, e, below))
                ])
                known in
            (iters', rw on ran, extracted)
      ]
