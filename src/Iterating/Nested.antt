-- ===== src/Iterating/Nested.antt =====
-- A RecursiveIterator keeps the promises of an iterator, so that iterators nest.
use pgasus.Common.{
  ℕ, suc, ◌-◌, ◌<◌, some, ◌≡◌, refl, ◌∙◌, ap, true, false, leb, List, [], ◌∷◌, ◌++◌, length, inl,
  inr, not,
}
use pgasus.Sync.{is_nil}
use pgasus.Iterating.{Ops, Recursive, init, is_end, value, recursive_ops}
use pgasus.Iterating.Visits.{
  Laws, Laws-Walks, visit, visit-rest, all_from, remaining, IsReady, step-Leads, init-Leads,
}

module _ {S V : Type 0} (sub : Ops S V) (get_sub_iter : ℕ → S) (rest : S → List V)
    (Good : S → Type 0) (laws : Laws sub rest Good) (starts : (i : ℕ) → Good (get_sub_iter i)) where
  remaining-cons :
      (it : Recursive S) (u : V) (us : List V)
      → leb it.end_index it.curr_index ≡ false
      → rest it.sub_iter ≡ u ∷ us
      → remaining get_sub_iter rest it
        ≡ u
          ∷ (us
              ++ all_from get_sub_iter rest (it.end_index - suc it.curr_index) (suc it.curr_index))
  unfolding remaining
  remaining-cons it u us open_end e = rw (open_end, e) refl

  remaining-end :
      (it : Recursive S)
      → leb it.end_index it.curr_index ≡ true
      → remaining get_sub_iter rest it ≡ []
  unfolding remaining
  remaining-end it done = rw done refl

  recursive-ended :
      (it : Recursive S)
      → IsReady get_sub_iter rest Good it
      → is_end sub get_sub_iter it ≡ is_nil (remaining get_sub_iter rest it)
  unfolding is_end
  recursive-ended it (inl done) = rw (remaining-end it done, done) refl
  recursive-ended it (inr (open_end, good, (u, us, e))) =
      rw (remaining-cons it u us open_end e, open_end) refl

  recursive-value :
      (it : Recursive S) (v : V) (vs : List V)
      → IsReady get_sub_iter rest Good it
      → remaining get_sub_iter rest it ≡ v ∷ vs
      → value sub get_sub_iter it ≡ v
  unfolding value
  recursive-value it v vs (inl done) h = cc (remaining-end it done)
  recursive-value it v vs (inr (open_end, good, (u, us, e))) h =
      laws.value it.sub_iter u us good e ∙ cc (remaining-cons it u us open_end e)

  -- The promises of an iterator are kept by the RecursiveIterator over iterators that keep them.
  pub recursive-Laws :
      Laws
        (recursive_ops sub get_sub_iter)
        (remaining get_sub_iter rest)
        (IsReady get_sub_iter rest Good)
  recursive-Laws = record {
    ended = recursive-ended;
    value = recursive-value;
    next = λ it v vs ready h. elim ready [
      | inl done ↦ cc (remaining-end it done)
      | inr (open_end, good, (u, us, e)) ↦
          let (ready', left, more) =
            step-Leads sub get_sub_iter rest Good laws starts it u us open_end good e in
          let tail : us
                ++ all_from get_sub_iter rest (it.end_index - suc it.curr_index) (suc it.curr_index)
              ≡ vs =
            cc (remaining-cons it u us open_end e) in
          (ready', left ∙ tail, more ∙ ap (λ xs. not (is_nil xs)) tail)
    ];
  }

  -- A loop with a RecursiveIterator over the indices from `start` up to `end` ends, where there are fewer values than rounds,
  -- and sees what the iterators inside visit, index by index, each value once.
  pub visit-init :
      (n start end : ℕ) (old : S)
      → length (all_from get_sub_iter rest (end - start) start) < n
      → visit (recursive_ops sub get_sub_iter) n (init sub get_sub_iter start end old)
        ≡ some (all_from get_sub_iter rest (end - start) start)
  visit-init n start end old enough =
      let (ready, left) = init-Leads sub get_sub_iter rest Good laws starts start end old in
      visit-rest (recursive_ops sub get_sub_iter) (remaining get_sub_iter rest)
        (IsReady get_sub_iter rest Good)
        (Laws-Walks (recursive_ops sub get_sub_iter) (remaining get_sub_iter rest)
          (IsReady get_sub_iter rest Good) recursive-Laws)
        n (init sub get_sub_iter start end old) (all_from get_sub_iter rest (end - start) start)
        ready left enough
