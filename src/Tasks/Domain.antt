-- ===== src/Tasks/Domain.antt =====
-- The `SchedulingDomain` of src/tasking/task_scheduler.*: a task collection for each priority, made
-- when it is first needed. Each operation is one step. `cpus` is the number of processors of the node
-- of the domain, `priority t` is `t->priority().index()`, and `random i` is the number that the random
-- device of the collection of priority `i` draws.
use pgasus.Common.{
  ℕ, zero, suc, ◌+◌, ◌-◌, Bool, true, false, not, ◌&&◌, Option, none, some, List, [], ◌∷◌, ◌++◌,
  if◌then◌else◌, ltb, ◌==◌, ◌>>=◌, length, get_or, set, replicate,
}
use pgasus.Tasks.Collection.{Collection, create, register_thread, deregister_thread, put, try_get}

-- `PriorityTasks`: a collection or a null pointer, and its number of tasks.
pub record Level : Type 0 where
  pub tasks : Option Collection
  pub count : ℕ

pub record Domain : Type 0 where
  pub active : List ℕ
  pub top : ℕ
  pub levels : List Level

abbrev pub no_level : Level
no_level = record { tasks = none; count = 0 }

-- `Priority::max_index()`, of the greatest priority 16 over the least priority -16.
abbrev pub max_index : ℕ
max_index = 32

unfoldable pub new_domain : Domain
new_domain = record { active = []; top = 0; levels = replicate (max_index + 1) no_level }

abbrev pub set_level : ℕ → Level → Domain → Domain
set_level i lv d = record d { levels = set d.levels i lv }

unfoldable pub register_all : List ℕ → Collection → Option Collection
register_all [] tc = some tc
register_all (i ∷ is) tc = register_thread i tc >>= register_all is

-- The collection of a level and its number of tasks, made where it is missing.
unfoldable pub ready : ℕ → List ℕ → Level → Option (Collection × ℕ)
ready cpus active lv = elim lv.tasks [
  | some tc ↦ some (tc, lv.count)
  | none ↦ register_all active (create cpus) >>= λ tc. some (tc, 0)
]

-- Fails where the priority is out of range.
unfoldable pub put_task : ℕ → (ℕ → ℕ) → ℕ → ℕ → Domain → Option Domain
put_task cpus priority t thid d =
    let idx = priority t in
    if ltb idx (length d.levels)
    then (do
      (tc, n) ← ready cpus d.active (get_or d.levels idx no_level)
      some (record d {
        top = if ltb d.top idx then idx else d.top;
        levels = set d.levels idx (record { tasks = some (put t thid tc); count = n + 1 });
      }))
    else none

-- What `try_get_task` does with the outcome of the search of one collection: a task ends the loop.
unfoldable pub settle :
    ℕ
    → ℕ
    → (Domain → Option (Domain × Option ℕ))
    → Domain
    → Collection × Option ℕ
    → Option (Domain × Option ℕ)
settle i n next d (tc, some t) =
    some (set_level i (record { tasks = some tc; count = n - 1 }) d, some t)
settle i n next d (tc, none) = next (set_level i (record { tasks = some tc; count = n }) d)

-- The loop of `try_get_task` over the levels below `i`, from the highest.
unfoldable pub search : (ℕ → ℕ) → ℕ → ℕ → Domain → Option (Domain × Option ℕ)
search random thid zero d = some (d, none)
search random thid (suc i) d =
    let lv = get_or d.levels i no_level in
    let next = search random thid i in
    if ltb 0 lv.count
    then lv.tasks >>= (λ tc. settle i lv.count next d (try_get (random i) thid tc))
    else next d

unfoldable pub try_get_task : (ℕ → ℕ) → ℕ → Domain → Option (Domain × Option ℕ)
try_get_task random thid d = search random thid (suc d.top) d

abbrev pub on_level : (Collection → Option Collection) → Level → Option Level
on_level f lv = elim lv.tasks [
  | none ↦ some lv
  | some tc ↦ f tc >>= λ tc'. some (record lv { tasks = some tc' })
]

-- Applies an operation to each collection there is.
unfoldable pub on_levels : (Collection → Option Collection) → List Level → Option (List Level)
on_levels f [] = some []
on_levels f (lv ∷ lvs) = on_level f lv >>= λ lv'. on_levels f lvs >>= λ lvs'. some (lv' ∷ lvs')

unfoldable pub add_thread : ℕ → Domain → Option Domain
add_thread i d = do
  lvs ← on_levels (register_thread i) d.levels
  some (record d { active = d.active ++ i ∷ []; levels = lvs })

unfoldable pub contains : ℕ → List ℕ → Bool
contains i [] = false
contains i (x ∷ xs) = let rest = contains i xs in if x == i then true else rest

unfoldable pub erase : ℕ → List ℕ → List ℕ
erase i [] = []
erase i (x ∷ xs) = let rest = erase i xs in if x == i then xs else x ∷ rest

-- Asserts that the thread was active, and is not any more.
unfoldable pub remove_thread : ℕ → Domain → Option Domain
remove_thread i d = do
  lvs ← on_levels (deregister_thread i) d.levels
  let left = erase i d.active
  if contains i d.active && not (contains i left)
      then some (record d { active = left; levels = lvs })
      else none
