-- ===== src/Tasks/Valid.antt =====
-- The invariant of a scheduling domain.
use pgasus.Common.{
  ℕ, zero, suc, ◌+◌, ◌≤◌, ◌<◌, ◌≡◌, refl, ◌∙◌, subst, Option, none, some, List, [], ◌∷◌, arith,
  if_intro, ◌==◌, ==_iff, length, length-set, length-replicate, get_or, get_or-set,
  get_or-replicate, set, replicate, count,
}
use pgasus.Tasks.Collection.{Queue, Collection}
use pgasus.Tasks.Content.{content}
use pgasus.Tasks.Threads.{Serves}
use pgasus.Tasks.Domain.{Level, Domain, no_level, max_index, new_domain, set_level}

-- The measure of the tasks of a level, and of all levels.
unfoldable pub in_level : (Queue → ℕ) → Level → ℕ
in_level m lv = elim lv.tasks [ none ↦ 0 | some c ↦ content m c ]

unfoldable pub in_levels : (Queue → ℕ) → List Level → ℕ
in_levels m [] = 0
in_levels m (lv ∷ lvs) = in_level m lv + in_levels m lvs

abbrev pub holds : ℕ → Domain → ℕ
holds t d = in_levels (count t) d.levels

abbrev pub level : ℕ → Domain → Level
level i d = get_or d.levels i no_level

pub in_levels-set :
    (m : Queue → ℕ) (lvs : List Level) (i : ℕ) (lv : Level)
    → i < length lvs
    → in_levels m (set lvs i lv) + in_level m (get_or lvs i no_level)
      ≡ in_levels m lvs + in_level m lv
unfolding in_levels
in_levels-set m [] i lv h = absurd (omega arith)
in_levels-set m (x ∷ lvs) zero lv h = omega arith
in_levels-set m (x ∷ lvs) (suc i) lv h = omega (arith, in_levels-set m lvs i lv)

abbrev pub Fits : ℕ → List ℕ → Option Collection → Type 0
Fits cpus active none = Unit
Fits cpus active (some c) = (length c.threads ≡ cpus) × Serves active c

-- Level `i` counts its tasks, which have priority `i`, and its collection has room for the
-- processors and a queue for every active thread.
pub record IsLevel (cpus : ℕ) (priority : ℕ → ℕ) (active : List ℕ) (i : ℕ) (lv : Level)
    : Type 0 where
  pub counted : lv.count ≡ in_level length lv
  pub sorted : (t : ℕ) → 0 < in_level (count t) lv → priority t ≡ i
  pub fits : Fits cpus active lv.tasks

-- Every level is sound, none above the top one has a task, and the active threads are distinct
-- processors of the node.
pub record IsValid (cpus : ℕ) (priority : ℕ → ℕ) (d : Domain) : Type 0 where
  pub size : length d.levels ≡ max_index + 1
  pub levels : (i : ℕ) → i ≤ max_index → IsLevel cpus priority d.active i (level i d)
  pub top_le : d.top ≤ max_index
  pub above : (i : ℕ) → d.top < i → i ≤ max_index → (level i d).count ≡ 0
  pub once : (i : ℕ) → count i d.active ≤ 1
  pub here : (i : ℕ) → 0 < count i d.active → i < cpus

pub no_level-IsLevel :
    (cpus : ℕ) (priority : ℕ → ℕ) (active : List ℕ) (i : ℕ)
    → IsLevel cpus priority active i no_level
unfolding in_level
no_level-IsLevel cpus priority active i = record {
  counted = refl;
  sorted = λ t h. absurd (omega arith);
  fits = tt;
}

in_levels-replicate : (m : Queue → ℕ) (n : ℕ) → in_levels m (replicate n no_level) ≡ 0
unfolding in_levels in_level
in_levels-replicate m zero = refl
in_levels-replicate m (suc n) = omega (arith, in_levels-replicate m n)

-- A new domain is valid and holds no task.
pub new_domain-IsValid :
    (cpus : ℕ) (priority : ℕ → ℕ)
    → IsValid cpus priority new_domain × ((t : ℕ) → holds t new_domain ≡ 0)
unfolding new_domain count
new_domain-IsValid cpus priority = (
  record {
    size = length-replicate (max_index + 1) no_level;
    levels = λ i h.
        rw (get_or-replicate (max_index + 1) i no_level no_level (omega arith))
          (no_level-IsLevel cpus priority [] i);
    top_le = omega arith;
    above = λ i p h. rw (get_or-replicate (max_index + 1) i no_level no_level (omega arith)) refl;
    once = λ i. omega arith;
    here = λ i h. absurd (omega arith);
  },
  λ t. in_levels-replicate (count t) (max_index + 1),
)

-- Replacing a level by a sound one that is not above the top, or has no task.
pub set_level-IsValid :
    (cpus : ℕ) (priority : ℕ → ℕ) (i : ℕ) (lv : Level) (d : Domain)
    → IsValid cpus priority d
    → i ≤ max_index
    → IsLevel cpus priority d.active i lv
    → (d.top < i → lv.count ≡ 0)
    → IsValid cpus priority (set_level i lv d)
set_level-IsValid cpus priority i lv d v h l z = record {
  size = length-set d.levels i lv ∙ v.size;
  levels = λ j k. rw (get_or-set d.levels i j lv no_level (omega (arith, v.size))) (
      if_intro {A = Level} (IsLevel cpus priority d.active j) (i == j)
        (λ e. subst (λ x. IsLevel cpus priority d.active x lv) ((==_iff i j).0 e) l)
        (λ e. v.levels j k));
  top_le = v.top_le;
  above = λ j p k. ground (arith, v.above j p k, z, get_or-set d.levels i j lv no_level, v.size);
  once = v.once;
  here = v.here;
}
