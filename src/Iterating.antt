-- ===== src/Iterating.antt =====
-- include/PGASUS/hashtable/containers.hpp: RecursiveIterator, which goes through the iterators of a range of
-- indices one after the other.
pub mod Visits
pub mod Nested
pub mod Distributed
use pgasus.Common.{
  ℕ, zero, suc, ◌+◌, ◌-◌, Bool, true, false, not, ◌==◌, if◌then◌else◌, ltb, leb, List, [], ◌∷◌,
}

-- The operations of an iterator of type `S` over values of type `V`.
pub record Ops (S V : Type 0) : Type 0 where
  pub is_end : S → Bool
  pub next : S → S × Bool
  pub value : S → V

-- `_curr_index`, `_end_index` and `_sub_iter`.
pub record Recursive (S : Type 0) : Type 0 where
  pub curr_index : ℕ
  pub end_index : ℕ
  pub sub_iter : S

-- `get_sub_iter` is that of the implementing class.
module _ {S V : Type 0} (sub : Ops S V) (get_sub_iter : ℕ → S) where
  -- The loop, with fuel for the indices that are left.
  unfoldable pub find_from : ℕ → Recursive S → Recursive S × Bool
  find_from zero it = (it, false)
  find_from (suc n) it =
      let found = record it { sub_iter = get_sub_iter it.curr_index } in
      let later = find_from n (record found { curr_index = suc it.curr_index }) in
      if ltb it.curr_index it.end_index
      then (if not (sub.is_end found.sub_iter) then (found, true) else later)
      else (it, false)

  unfoldable pub find_next : Recursive S → Recursive S × Bool
  find_next it = find_from (it.end_index - it.curr_index) it

  -- `init`, where the iterator inside was `old`.
  unfoldable pub init : (start end : ℕ) → S → Recursive S
  init start end old =
      (find_next (record { curr_index = start; end_index = end; sub_iter = old })).0

  unfoldable pub is_end : Recursive S → Bool
  is_end it = leb it.end_index it.curr_index

  unfoldable pub next : Recursive S → Recursive S × Bool
  next it =
      let (s, more) = sub.next it.sub_iter in
      let moved = record it { sub_iter = s } in
      if is_end it
      then (it, false)
      else (if more
          then (moved, true)
          else find_next (record moved { curr_index = suc it.curr_index }))

  unfoldable pub value : Recursive S → V
  value it = sub.value it.sub_iter

  abbrev pub recursive_ops : Ops (Recursive S) V
  recursive_ops = record { is_end = is_end; next = next; value = value }
