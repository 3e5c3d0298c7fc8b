-- ===== src/References/Tests.antt =====
-- Object 5 has a pointer to object 6, slot 2, and loses its last pointer.
use pgasus.Common.{
  ℕ, ◌≡◌, refl, false, Option, none, some, List, [], ◌∷◌, ◌==◌, if◌then◌else◌, set, sum_by, count,
  arith, Bool-cases, inl, inr,
}
use pgasus.References.{
  Heap, pointer, copy_assign, unref, ref, end_all, delete_object, mark_deleted, count_down,
}
use pgasus.References.Cascade.{IsLaidOut}
use pgasus.References.Counting.{pointers, IsCounted, Moved, copy_assign-Moved}

abbrev heap : Heap
heap = record {
  slots = some 5 ∷ some 7 ∷ some 6 ∷ [];
  counts = λ o. if o == 5 then 1 else (if o == 6 then 1 else (if o == 7 then 1 else 0));
  deleted = λ o. false;
}

abbrev members : ℕ → List ℕ
members o = if o == 5 then 2 ∷ [] else []

abbrev outcome : Option Heap → List (Option ℕ)
outcome none = []
outcome (some h) =
    (if h.deleted 5 then some 1 else none) ∷ (if h.deleted 6 then some 1 else none) ∷ h.slots

-- The assignment of slot 1 to slot 0 deletes both objects.
both_deleted :
    outcome (copy_assign members 4 0 1 heap) ≡ some 1 ∷ some 1 ∷ some 7 ∷ some 7 ∷ none ∷ []
unfolding copy_assign ref unref end_all delete_object mark_deleted count_down
both_deleted = refl

heap-IsCounted : IsCounted heap
unfolding pointers sum_by
heap-IsCounted = record { counted = λ o. ground arith; dead = λ o d. ground arith }

members-IsLaidOut : IsLaidOut members 3
unfolding count
members-IsLaidOut = record {
  ranged = λ s o m. elim (Bool-cases (o == 5)) [
    | inl e ↦ ground (arith, m, e)
    | inr e ↦ absurd (ground (arith, m, e))
  ];
  owned = λ s o x m n. ground (arith, m, n);
}

copy_assign-Moved_example :
    (h' : Heap) × (copy_assign members 4 0 1 heap ≡ some h')
    × Moved members (set heap.slots 0 (pointer 1 heap)) heap h'
copy_assign-Moved_example =
    copy_assign-Moved members 4 0 1 heap heap-IsCounted members-IsLaidOut (omega arith)
      (omega arith) (omega arith) (omega arith)
