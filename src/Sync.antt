-- ===== src/Sync.antt =====
-- include/PGASUS/tasking/synchronizable.hpp: triggerables, on which clients wait, and synchronizers,
-- the clients. Both are numbered. `notify` is the virtual `Synchronizer::notify`, over a state `N`
-- of the implementing class; a failed assertion is `none`. Each operation runs under its locks, and
-- is one step here.
pub mod Invariant
pub mod Signal
pub mod Duplicates
pub mod Tests
use pgasus.Common.{
  ℕ, ◌+◌, Bool, true, false, not, Option, none, some, List, [], ◌∷◌, ◌++◌, ◌==◌, if◌then◌else◌,
  length, remove_all, ◌>>=◌,
}

-- `_clients` and `_state` of each Triggerable, `_dependancies` of each Synchronizer.
pub record World {ℓ} (N : Type ℓ) : Type ℓ where
  pub clients : ℕ → List ℕ
  pub signaled : ℕ → Bool
  pub deps : ℕ → List ℕ
  pub env : N

abbrev pub update {ℓ} : {A : Type ℓ} → (ℕ → A) → ℕ → A → ℕ → A
update f i a j = if i == j then a else f j

abbrev pub is_nil {ℓ} : {A : Type ℓ} → List A → Bool
is_nil [] = true
is_nil (x ∷ xs) = false

module _ {ℓ} {N : Type ℓ} where
  -- `Triggerable::register_wait` with `TwoPhaseTriggerable::must_wait`.
  unfoldable pub register_wait : ℕ → ℕ → World N → World N × Bool
  register_wait r s w =
      if not (w.signaled r)
      then (record w { clients = update w.clients r (w.clients r ++ s ∷ []) }, true)
      else (w, false)

  -- One round of the loop of `Synchronizer::synchronize`.
  unfoldable pub depend : ℕ → ℕ → World N → World N
  depend s r w =
      let (w', waits) = register_wait r s w in
      if waits then record w' { deps = update w'.deps s (w'.deps s ++ r ∷ []) } else w'

  unfoldable pub depend_all : ℕ → List ℕ → World N → World N
  depend_all s [] w = w
  depend_all s (r ∷ rs) w = depend_all s rs (depend s r w)

  -- `Synchronizer::synchronize(list)`.
  unfoldable pub synchronize : ℕ → List ℕ → World N → World N × Bool
  synchronize s rs w = let w' = depend_all s rs w in (w', not (is_nil (w'.deps s)))

module _ {ℓ} {N : Type ℓ} (notify : ℕ → N → Option N) where
  -- `Synchronizer::signal`: asserts that there are dependencies, removes `r` from them, and notifies
  -- when none is left.
  unfoldable pub signal : ℕ → ℕ → World N → Option (World N)
  signal s r w =
      if is_nil (w.deps s)
      then none
      else let left = remove_all r (w.deps s) in
        let w' = record w { deps = update w.deps s left } in
        if is_nil left then ◌>>=◌ (notify s w.env) (λ e. some (record w' { env = e })) else some w'

  unfoldable pub signal_all : ℕ → List ℕ → World N → Option (World N)
  signal_all r [] w = some w
  signal_all r (c ∷ cs) w = ◌>>=◌ (signal c r w) (signal_all r cs)

  -- `Triggerable::trigger_all`, with the number of signaled clients.
  unfoldable pub trigger_all : ℕ → World N → Option (World N × ℕ)
  trigger_all r w =
      ◌>>=◌ (signal_all r (w.clients r) w)
        (λ w'. some (record w' { clients = update w'.clients r [] }, length (w.clients r)))

  -- `Triggerable::trigger_one`: signals the first client and tells whether there was one.
  unfoldable pub trigger_one : ℕ → World N → Option (World N × Bool)
  trigger_one r w = elim (w.clients r) [
    | [] ↦ some (w, false)
    | c ∷ cs ↦
        ◌>>=◌ (signal c r (record w { clients = update w.clients r cs })) (λ w'. some (w', true))
  ]

  -- `TwoPhaseTriggerable::set_signaled`: asserts that it has not been signaled before.
  unfoldable pub set_signaled : ℕ → World N → Option (World N)
  set_signaled r w =
      if w.signaled r
      then none
      else ◌>>=◌ (trigger_all r (record w { signaled = update w.signaled r true })) (λ t. some t.0)
