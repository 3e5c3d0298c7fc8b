-- ===== src/Tasks/Content.antt =====
-- The tasks that a collection holds, measured: by any additive measure of queues, as the length and
-- the number of times a task stands in a queue are.
use pgasus.Common.{
  ℕ, zero, suc, ◌+◌, ◌<◌, ◌≡◌, refl, subst, Option, none, some, List, [], ◌∷◌, ◌++◌, arith, length,
  length-append, get_or, set, replicate, count, count-append, if_intro, ◌==◌, get_or-set,
  Option-cases, inl, inr,
}
use pgasus.Tasks.Collection.{
  Queue, Collection, create, push_back, get_thread_queue, set_thread_queue, move_all, put,
}

pub record IsMeasure (m : Queue → ℕ) : Type 0 where
  pub append : (xs ys : Queue) → m (xs ++ ys) ≡ m xs + m ys

pub length-IsMeasure : IsMeasure length
length-IsMeasure = record { append = length-append }

pub count-IsMeasure : (t : ℕ) → IsMeasure (count t)
count-IsMeasure t = record { append = count-append t }

pub get_thread_queue-some :
    (i : ℕ) (c : Collection) (q : Queue)
    → get_thread_queue i c ≡ some q
    → (i < length c.threads) × (get_or c.threads i none ≡ some q)
unfolding get_thread_queue
get_thread_queue-some i c q e = ground arith

-- A thread that has a queue in `c` has one in `c'`.
abbrev pub Keeps : Collection → Collection → Type 0
Keeps c c' =
    (j : ℕ) (q : Queue)
    → get_or c.threads j none ≡ some q
    → (q' : Queue) × (get_or c'.threads j none ≡ some q')

pub set-Keeps :
    (i : ℕ) (q : Queue) (c : Collection)
    → i < length c.threads
    → Keeps c (set_thread_queue i (some q) c)
set-Keeps i q c h j p f = rw (get_or-set c.threads i j (some q) none h) (
    if_intro {A = Option Queue} (λ o. (q' : Queue) × (o ≡ some q')) (i == j) (λ e. (q, refl))
      (λ e. (p, f)))

module _ (m : Queue → ℕ) where
  unfoldable pub in_queue : Option Queue → ℕ
  in_queue none = 0
  in_queue (some q) = m q

  unfoldable pub in_threads : List (Option Queue) → ℕ
  in_threads [] = 0
  in_threads (q ∷ qs) = in_queue q + in_threads qs

  -- The measure of all the queues of a collection.
  unfoldable pub content : Collection → ℕ
  content c = m c.global + in_threads c.threads

  pub in_threads-set :
      (qs : List (Option Queue)) (i : ℕ) (q : Option Queue)
      → i < length qs
      → in_threads (set qs i q) + in_queue (get_or qs i none) ≡ in_threads qs + in_queue q
  unfolding in_threads
  in_threads-set [] i q h = absurd (omega arith)
  in_threads-set (x ∷ qs) zero q h = omega arith
  in_threads-set (x ∷ qs) (suc i) q h = omega (arith, in_threads-set qs i q)

  -- Replacing the queue `q` of thread `i` by `p`.
  pub at :
      (i : ℕ) (p : Option Queue) (qs : List (Option Queue)) (q : Option Queue)
      → i < length qs
      → get_or qs i none ≡ q
      → in_threads (set qs i p) + in_queue q ≡ in_threads qs + in_queue p
  at i p qs q h e =
      subst (λ x. in_threads (set qs i p) + in_queue x ≡ in_threads qs + in_queue p) e
        (in_threads-set qs i p h)

  in_threads-replicate : (n : ℕ) → in_threads (replicate n none) ≡ 0
  unfolding in_threads in_queue
  in_threads-replicate zero = refl
  in_threads-replicate (suc n) = omega (arith, in_threads-replicate n)

  module _ (is : IsMeasure m) where
    pub nil_lem : m [] ≡ 0
    nil_lem = omega (arith, is.append [] [])

    -- A collection that has just been created holds nothing.
    pub content-create : (n : ℕ) → content (create n) ≡ 0
    unfolding content create
    content-create n = omega (arith, nil_lem, in_threads-replicate n)

    -- Moving a queue keeps its tasks.
    pub move_all_lem : (q dst : Queue) → m (move_all q dst) ≡ m dst + m q
    unfolding move_all
    move_all_lem [] dst = omega (arith, nil_lem)
    move_all_lem (t ∷ q) dst =
        omega (arith, move_all_lem q (dst ++ t ∷ []), is.append dst (t ∷ []), is.append (t ∷ []) q)

    -- `put` adds the task, whether the thread has a queue or not.
    pub content-put : (t i : ℕ) (c : Collection) → content (put t i c) ≡ content c + m (t ∷ [])
    unfolding content put in_queue
    content-put t i c = elim (Option-cases (get_thread_queue i c)) [
      | inl e ↦ rw (e, put) (omega (arith, is.append c.global (t ∷ [])))
      | inr (q, e) ↦
          let (h, f) = get_thread_queue-some i c q e in
          rw (e, put)
            (omega
              (arith, is.append q (t ∷ []), at i (some (push_back q t)) c.threads (some q) h f))
    ]
