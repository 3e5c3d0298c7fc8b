-- ===== src/Sync/Tests.antt =====
-- The theorems on triggerables at concrete worlds, where a notification records its synchronizer.
use pgasus.Common.{
  ℕ, ◌≤◌, ◌≡◌, refl, true, false, Option, none, some, List, [], ◌∷◌, ◌++◌, arith, count, ◌>>=◌,
}
use pgasus.Sync.{World, update, synchronize, set_signaled}
use pgasus.Sync.Invariant.{IsLinked, Depended, synchronize-Depended}
use pgasus.Sync.Signal.{woken, notify_all, fired, set_signaled-fired}
use pgasus.Sync.Duplicates.{set_signaled-twice}

abbrev note : ℕ → List ℕ → Option (List ℕ)
note s e = some (e ++ s ∷ [])

-- Nobody waits, and triggerable 3 has been signaled.
abbrev calm : World (List ℕ)
calm = record { clients = λ r. []; signaled = update (λ r. false) 3 true; deps = λ s. []; env = [] }

calm-IsLinked : IsLinked calm
unfolding count
calm-IsLinked = record { mirrored = λ r s. refl; once = λ r s. omega arith; spent = λ r s h. refl }

distinct : (r : ℕ) → count r (3 ∷ 5 ∷ []) ≤ 1
unfolding count
distinct r = ground arith

-- Synchronizer 1 waits for triggerable 5.
abbrev waits : World (List ℕ)
waits = (synchronize 1 (3 ∷ 5 ∷ []) calm).0

abbrev waits_depended : Depended 1 (3 ∷ 5 ∷ []) calm waits
waits_depended = (synchronize-Depended 1 (3 ∷ 5 ∷ []) calm calm-IsLinked refl distinct).0

abbrev not_signaled : waits.signaled 5 ≡ false
not_signaled = rw waits_depended.signaled refl

set_signaled-fired_example :
    (set_signaled note 5 waits ≡ (
      notify_all note (woken 5 waits.deps (waits.clients 5)) waits.env >>= λ e.
      some (fired note 5 waits e)))
    × ((e : List ℕ) → IsLinked (fired note 5 waits e))
set_signaled-fired_example = set_signaled-fired note 5 waits waits_depended.linked not_signaled

set_signaled-twice_example : set_signaled note 5 (synchronize 1 (5 ∷ 5 ∷ []) calm).0 ≡ none
set_signaled-twice_example = set_signaled-twice note 1 5 calm refl refl refl
