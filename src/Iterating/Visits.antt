-- ===== src/Iterating/Visits.antt =====
-- A RecursiveIterator visits what the iterators inside visit, in order, if these keep the promises of an
-- iterator; Iterating.Nested has its own promises.
use pgasus.Common.{
  ℕ, zero, suc, ◌-◌, ◌≡◌, refl, ◌∙◌, ap, Bool, true, false, not, if◌then◌else◌, ltb, leb, List, [],
  ◌∷◌, ◌++◌, length, arith, ◌<◌, Option, none, some, ◌>>=◌, ◌⊎◌, inl, inr,
}
use pgasus.Sync.{is_nil}
use pgasus.Iterating.{Ops, Recursive, find_from, find_next, init, is_end, next}

-- The promises of an iterator in a good state: `rest` is what it has still to visit.
pub record Laws {S V : Type 0} (ops : Ops S V) (rest : S → List V) (Good : S → Type 0)
    : Type 0 where
  pub ended : (s : S) → Good s → ops.is_end s ≡ is_nil (rest s)
  pub value : (s : S) (v : V) (vs : List V) → Good s → rest s ≡ v ∷ vs → ops.value s ≡ v
  pub next :
      (s : S) (v : V) (vs : List V)
      → Good s
      → rest s ≡ v ∷ vs
      → Good (ops.next s).0 × (rest (ops.next s).0 ≡ vs) × ((ops.next s).1 ≡ not (is_nil vs))

-- The promises of an iterator whose `next` may return anything.
pub record Walks {S V : Type 0} (ops : Ops S V) (rest : S → List V) (Good : S → Type 0)
    : Type 0 where
  pub ended : (s : S) → Good s → ops.is_end s ≡ is_nil (rest s)
  pub value : (s : S) (v : V) (vs : List V) → Good s → rest s ≡ v ∷ vs → ops.value s ≡ v
  pub next :
      (s : S) (v : V) (vs : List V)
      → Good s
      → rest s ≡ v ∷ vs
      → Good (ops.next s).0 × (rest (ops.next s).0 ≡ vs)

pub Laws-Walks :
    {S V : Type 0} (ops : Ops S V) (rest : S → List V) (Good : S → Type 0)
    → Laws ops rest Good
    → Walks ops rest Good
Laws-Walks ops rest Good laws = record {
  ended = laws.ended;
  value = laws.value;
  next = λ s v vs good e. let (good', left, _) = laws.next s v vs good e in (good', left);
}

pub List-cases : {A : Type 0} (xs : List A) → (xs ≡ []) ⊎ ((x : A) × (ys : List A) × (xs ≡ x ∷ ys))
List-cases [] = inl refl
List-cases (x ∷ xs) = inr (x, xs, refl)

module _ {S V : Type 0} (ops : Ops S V) where
  -- A loop `for (; !it.is_end(); it.next())` with fuel for its rounds, as the values that it sees; `none` if
  -- the fuel is used up before the test for the end is true.
  unfoldable pub visit : ℕ → S → Option (List V)
  visit zero it = none
  visit (suc n) it =
      let rest = do vs ← visit n (ops.next it).0; some (ops.value it ∷ vs)
      in if ops.is_end it then some [] else rest

  -- Such a loop ends, and sees what an iterator has still to visit.
  pub visit-rest :
      (rest : S → List V) (Good : S → Type 0) (walks : Walks ops rest Good) (n : ℕ) (it : S)
      (vs : List V)
      → Good it
      → rest it ≡ vs
      → length vs < n
      → visit n it ≡ some vs
  unfolding visit
  visit-rest rest Good walks zero it vs good e enough = absurd (omega arith)
  visit-rest rest Good walks (suc n) it [] good e enough =
      rw (walks.ended it good ∙ ap is_nil e) refl
  visit-rest rest Good walks (suc n) it (v ∷ vs) good e enough =
      let (good', left) = walks.next it v vs good e in
      let later = visit-rest rest Good walks n (ops.next it).0 vs good' left (omega arith) in
      rw (walks.ended it good ∙ ap is_nil e, walks.value it v vs good e, later) refl

module _ {S V : Type 0} (get_sub_iter : ℕ → S) (rest : S → List V) where
  -- What the iterators of `n` indices from `i` on visit.
  unfoldable pub all_from : ℕ → ℕ → List V
  all_from zero i = []
  all_from (suc n) i = rest (get_sub_iter i) ++ all_from n (suc i)

  -- What a recursive iterator has still to visit.
  unfoldable pub remaining : Recursive S → List V
  remaining it =
      if leb it.end_index it.curr_index
      then []
      else rest it.sub_iter ++ all_from (it.end_index - suc it.curr_index) (suc it.curr_index)

  -- An iterator as `init` and `next` leave it: at its end, or inside a good iterator that is not.
  abbrev pub IsReady : (S → Type 0) → Recursive S → Type 0
  IsReady Good it =
      (leb it.end_index it.curr_index ≡ true)
      ⊎ ((leb it.end_index it.curr_index ≡ false)
          × Good it.sub_iter
          × ((u : V) × (us : List V) × (rest it.sub_iter ≡ u ∷ us)))

  -- What a search or a step leads to, where `vs` is to be visited.
  abbrev pub Leads : (S → Type 0) → Recursive S × Bool → List V → Type 0
  Leads Good (it, more) vs = IsReady Good it × (remaining it ≡ vs) × (more ≡ not (is_nil vs))

module _ {S V : Type 0} (sub : Ops S V) (get_sub_iter : ℕ → S) (rest : S → List V)
    (Good : S → Type 0) (laws : Laws sub rest Good) (starts : (i : ℕ) → Good (get_sub_iter i)) where
  find_from-Leads :
      (n : ℕ) (it : Recursive S)
      → it.end_index - it.curr_index ≡ n
      → Leads get_sub_iter rest Good
          (find_from sub get_sub_iter n it)
          (all_from get_sub_iter rest n it.curr_index)
  unfolding find_from remaining all_from
  find_from-Leads zero it h =
      let done : leb it.end_index it.curr_index ≡ true = ground (arith, h) in
      rw done (inl refl, refl, refl)
  find_from-Leads (suc n) it h =
      let more : ltb it.curr_index it.end_index ≡ true = ground (arith, h) in
      let open_end : leb it.end_index it.curr_index ≡ false = ground (arith, h) in
      let left : it.end_index - suc it.curr_index ≡ n = omega (arith, h) in
      elim (List-cases (rest (get_sub_iter it.curr_index))) [
        | inl e ↦
            let over : sub.is_end (get_sub_iter it.curr_index) ≡ true =
              laws.ended (get_sub_iter it.curr_index) (starts it.curr_index) ∙ ap is_nil e in
            rw (more, over, e)
              (find_from-Leads n
                (record it {
                  sub_iter = get_sub_iter it.curr_index;
                  curr_index = suc it.curr_index;
                })
                left)
        | inr (v, vs, e) ↦
            let busy : sub.is_end (get_sub_iter it.curr_index) ≡ false =
              laws.ended (get_sub_iter it.curr_index) (starts it.curr_index) ∙ ap is_nil e in
            rw (more, busy, open_end, left, e)
              (inr (refl, starts it.curr_index, (v, vs, refl)), refl, refl)
      ]

  -- A step of an iterator that is not at its end visits one value.
  pub step-Leads :
      (it : Recursive S) (u : V) (us : List V)
      → leb it.end_index it.curr_index ≡ false
      → Good it.sub_iter
      → rest it.sub_iter ≡ u ∷ us
      → Leads get_sub_iter rest Good
          (next sub get_sub_iter it)
          (us ++ all_from get_sub_iter rest (it.end_index - suc it.curr_index) (suc it.curr_index))
  unfolding next is_end remaining
  step-Leads it u [] open_end good e =
      let (good', left, more) = laws.next it.sub_iter u [] good e in
      rw (open_end, more)
        (unfold find_next in
          find_from-Leads (it.end_index - suc it.curr_index)
            (record it { sub_iter = (sub.next it.sub_iter).0; curr_index = suc it.curr_index })
            refl)
  step-Leads it u (x ∷ xs) open_end good e =
      let (good', left, more) = laws.next it.sub_iter u (x ∷ xs) good e in
      rw (open_end, more, left, open_end) (inr (refl, good', (x, xs, refl)), refl, refl)

  -- A new iterator has the iterators of its range before it.
  pub init-Leads :
      (start end : ℕ) (old : S)
      → IsReady get_sub_iter rest Good (init sub get_sub_iter start end old)
        × (remaining get_sub_iter rest (init sub get_sub_iter start end old)
            ≡ all_from get_sub_iter rest (end - start) start)
  unfolding init find_next
  init-Leads start end old =
      let (ready, left, _) =
        find_from-Leads (end - start)
          (record { curr_index = start; end_index = end; sub_iter = old }) refl in
      (ready, left)
