-- ===== src/Tasks/Threads.antt =====
-- Which threads of a collection have a queue.
use pgasus.Common.{
  ℕ, ◌<◌, ◌≡◌, ◌≢◌, refl, ◌∙◌, sym, subst, none, some, List, [], ◌∷◌, arith, ◌==◌, ==_iff, lt→ltb,
  length, length-set, length-replicate, get_or, get_or-set, set, count, Bool-cases, Option-cases,
  inl, inr,
}
use pgasus.Tasks.Collection.{
  Queue, Collection, create, push_back, get_thread_queue, set_thread_queue, register_thread,
  move_all, deregister_thread, put,
}
use pgasus.Tasks.Content.{
  IsMeasure, content, content-create, in_queue, at, nil_lem, move_all_lem, get_thread_queue-some,
  Keeps, set-Keeps,
}
use pgasus.Tasks.Domain.{register_all}

-- The thread has a queue.
abbrev pub HasQueue : ℕ → Collection → Type 0
HasQueue i c = (q : Queue) × (get_or c.threads i none ≡ some q)

-- Every listed thread has a queue.
abbrev pub Serves : List ℕ → Collection → Type 0
Serves active c = (i : ℕ) → 0 < count i active → HasQueue i c

put-Keeps_width :
    (t i : ℕ) (c : Collection)
    → Keeps c (put t i c) × (length (put t i c).threads ≡ length c.threads)
unfolding put
put-Keeps_width t i c = elim (Option-cases (get_thread_queue i c)) [
  | inl e ↦ rw (e, put) ((λ j q f. (q, f)), refl)
  | inr (q, e) ↦
      let (h, f) = get_thread_queue-some i c q e in
      rw (e, put) (set-Keeps i (push_back q t) c h, length-set c.threads i (some (push_back q t)))
]

pub put-Keeps : (t i : ℕ) (c : Collection) → Keeps c (put t i c)
put-Keeps t i c = (put-Keeps_width t i c).0

pub length-put : (t i : ℕ) (c : Collection) → length (put t i c).threads ≡ length c.threads
length-put t i c = (put-Keeps_width t i c).1

-- What it means that `register_thread i` has made `c'` of `c`.
pub record Registered (c c' : Collection) : Type 0 where
  pub content : (m : Queue → ℕ) → IsMeasure m → content m c' ≡ content m c
  pub width : length c'.threads ≡ length c.threads
  pub keeps : Keeps c c'

-- `register_thread` succeeds for a thread of the collection, which then has a queue. It keeps the tasks
-- and the other queues.
pub register_thread-Registered :
    (i : ℕ) (c : Collection)
    → i < length c.threads
    → (c' : Collection) × (register_thread i c ≡ some c') × Registered c c' × HasQueue i c'
unfolding register_thread content in_queue
register_thread-Registered i c h =
    rw (lt→ltb i (length c.threads) h, register_thread)
      (elim (Option-cases (get_or c.threads i none)) [
        | inl f ↦ rw f (
          set_thread_queue i (some []) c,
          refl,
          record {
            content = λ m is. omega (arith, nil_lem m is, at m i (some []) c.threads none h f);
            width = length-set c.threads i (some []);
            keeps = set-Keeps i [] c h;
          },
          ([], rw (get_or-set c.threads i i (some []) none h, (==_iff i i).1 refl) refl),
        )
        | inr (q, f) ↦ rw f (
          c,
          refl,
          record { content = λ m is. refl; width = refl; keeps = λ j p g. (p, g) },
          (q, f),
        )
      ])

-- `deregister_thread` succeeds for a thread that has a queue, and keeps the tasks, and the queues of
-- the other threads.
pub deregister_thread-others :
    (i : ℕ) (c : Collection)
    → i < length c.threads
    → HasQueue i c
    → (c' : Collection) × (deregister_thread i c ≡ some c')
      × ((m : Queue → ℕ) → IsMeasure m → content m c' ≡ content m c)
      × (length c'.threads ≡ length c.threads)
      × ((j : ℕ) → j ≢ i → HasQueue j c → HasQueue j c')
unfolding deregister_thread content in_queue
deregister_thread-others i c h (q, f) =
    rw (lt→ltb i (length c.threads) h, f, deregister_thread)
      (
        record c { global = move_all q c.global; threads = set c.threads i none },
        refl,
        (λ m is. omega (arith, move_all_lem m is q c.global, at m i none c.threads (some q) h f)),
        length-set c.threads i none,
        λ j ne (p, g). (p, rw (get_or-set c.threads i j none none h) (ground (arith, ne, g))),
      )

register_all-Registered :
    (active : List ℕ) (c : Collection)
    → ((i : ℕ) → 0 < count i active → i < length c.threads)
    → (c' : Collection) × (register_all active c ≡ some c') × Registered c c' × Serves active c'
unfolding register_all count
register_all-Registered [] c h = (
  c,
  refl,
  record { content = λ m is. refl; width = refl; keeps = λ j p g. (p, g) },
  λ i lt. absurd (omega arith),
)
register_all-Registered (i ∷ is) c h =
    let (c', e, r, own) = register_thread-Registered i c (h i (ground arith)) in
    let (c'', e', r', rest) =
      register_all-Registered is c' (λ j p. omega (arith, r.width, h j (omega arith))) in
    (
      c'',
      rw e e',
      record {
        content = λ m s. r'.content m s ∙ r.content m s;
        width = r'.width ∙ r.width;
        keeps = λ j q g. let (q', g') = r.keeps j q g in r'.keeps j q' g';
      },
      λ j p. elim (Bool-cases (j == i)) [
        | inl k ↦ subst (λ x. HasQueue x c'') (sym ((==_iff j i).0 k)) (r'.keeps i own.0 own.1)
        | inr k ↦ rest j (ground arith)
      ],
    )

-- A collection that is made for the active threads of a domain is empty, and serves them.
pub create-Serves :
    (cpus : ℕ) (active : List ℕ)
    → ((i : ℕ) → 0 < count i active → i < cpus)
    → (c : Collection) × (register_all active (create cpus) ≡ some c)
      × ((m : Queue → ℕ) → IsMeasure m → content m c ≡ 0)
      × (length c.threads ≡ cpus)
      × Serves active c
create-Serves cpus active h =
    let w : length (create cpus).threads ≡ cpus = unfold create in length-replicate cpus none in
    let (c, e, r, s) = register_all-Registered active (create cpus) (λ i p. rw w (h i p)) in
    (c, e, (λ m is. r.content m is ∙ content-create m is cpus), r.width ∙ w, s)
