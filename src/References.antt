-- ===== src/References.antt =====
-- `RefPtr` and `Referenced` of include/PGASUS/base/ref_ptr.hpp: reference pointers in numbered slots to
-- numbered objects. `none` is the null pointer. An access to the counter of a deleted object fails; a pointer in a deleted
-- object is null. Objects are deleted by the default deleter.
pub mod Cascade
pub mod Counter
pub mod Deletions
pub mod Counting
pub mod Tests
use pgasus.Common.{
  ℕ, zero, suc, ◌+◌, ◌-◌, ◌%◌, ◌^◌, ◌||◌, Bool, true, false, not, Option, none, some, List, [], ◌∷◌,
  ◌==◌, if◌then◌else◌, ◌>>=◌, get_or, set,
}

-- The pointers, the counters, and which objects are deleted.
pub record Heap : Type 0 where
  pub slots : List (Option ℕ)
  pub counts : ℕ → ℕ
  pub deleted : ℕ → Bool

abbrev pub pointer : ℕ → Heap → Option ℕ
pointer s h = get_or h.slots s none

abbrev pub set_pointer : ℕ → Option ℕ → Heap → Heap
set_pointer s p h = record h { slots = set h.slots s p }

-- The counter is a word of 32 bits.
abbrev pub word : ℕ
word = 2 ^ 32

-- `RefPtr::ref` with `Referenced::ref`.
unfoldable pub ref : Option ℕ → Heap → Option Heap
ref none h = some h
ref (some o) h =
    if h.deleted o
    then none
    else some (record h { counts = λ x. if o == x then (h.counts o + 1) % word else h.counts x })

-- The counter after `fetch_sub`.
unfoldable pub count_down : ℕ → Heap → Heap
count_down o h = record h {
  counts = λ x. if o == x then (h.counts o + (word - 1)) % word else h.counts x;
}

-- The end of the reference pointers in some slots, where `u` is `RefPtr::unref`: that, and then a null pointer.
unfoldable pub end_all : (Option ℕ → Heap → Option Heap) → List ℕ → Heap → Option Heap
end_all u [] h = some h
end_all u (s ∷ ss) h = u (pointer s h) h >>= λ h'. end_all u ss (set_pointer s none h')

-- The end of `~Referenced`, which asserts that the counter is 0.
unfoldable pub mark_deleted : ℕ → Heap → Option Heap
mark_deleted o h =
    if h.counts o == 0 then some (record h { deleted = λ x. o == x || h.deleted x }) else none

-- `members` has the slots of the reference pointers that are members of an object, in the order in which its
-- class ends them.
module _ (members : ℕ → List ℕ) where
  -- The deletion of an object, where `u` is `RefPtr::unref`: the end of its members comes first.
  unfoldable pub delete_object : (Option ℕ → Heap → Option Heap) → ℕ → Heap → Option Heap
  delete_object u o h = end_all u (members o) h >>= mark_deleted o

  -- `RefPtr::unref` with `Referenced::unref`, with fuel for objects that are deleted by the deletion of others.
  unfoldable pub unref : ℕ → Option ℕ → Heap → Option Heap
  unref zero none h = some h
  unref zero (some o) h = none
  unref (suc n) none h = some h
  unref (suc n) (some o) h =
      let last = delete_object (unref n) o (count_down o h) in
      if h.deleted o then none else (if h.counts o == 1 then last else some (count_down o h))

-- The copy assignment, to slot `s`; the test compares the pointers.
abbrev pub same_pointer : Option ℕ → Option ℕ → Bool
same_pointer none none = true
same_pointer none (some b) = false
same_pointer (some a) none = false
same_pointer (some a) (some b) = a == b

unfoldable pub copy_assign : (members : ℕ → List ℕ) (fuel s r : ℕ) → Heap → Option Heap
copy_assign members fuel s r h =
    if not (same_pointer (pointer r h) (pointer s h))
    then ref (pointer r h) (set_pointer s (pointer r h) h) >>= unref members fuel (pointer s h)
    else some h

-- The move assignment, to slot `s`.
unfoldable pub move_assign : (members : ℕ → List ℕ) (fuel s r : ℕ) → Heap → Option Heap
move_assign members fuel s r h = unref members fuel (pointer s h) h >>= λ h'.
    some (set_pointer r none (set_pointer s (pointer r h') h'))

-- The copy constructor, into a slot that holds nothing.
unfoldable pub copy_construct : ℕ → ℕ → Heap → Option Heap
copy_construct s r h = ref (pointer r h) (set_pointer s (pointer r h) h)

-- The destructor.
unfoldable pub destroy : (members : ℕ → List ℕ) (fuel s : ℕ) → Heap → Option Heap
destroy members fuel s h = unref members fuel (pointer s h) h >>= λ h'. some (set_pointer s none h')
