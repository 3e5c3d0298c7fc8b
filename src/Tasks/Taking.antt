-- ===== src/Tasks/Taking.antt =====
-- Taking a task from a collection.
use pgasus.Common.{
  ℕ, zero, suc, ◌+◌, ◌%◌, ◌≤◌, ◌<◌, ◌≡◌, refl, ap, sym, subst, Option, none, some, List, [], ◌∷◌,
  ◌==◌, ==_iff, arith, ltb, ltb→lt, lt→ltb, length, length-set, get_or, set, set-get_or, Bool-cases,
  Option-cases, inl, inr, if_intro,
}
use pgasus.Tasks.Collection.{
  Queue, Collection, get_thread_queue, set_thread_queue, try_get_thread_task, wrap, steal,
  steal_any, get_global, or_else, try_get,
}
use pgasus.Tasks.Content.{
  IsMeasure, in_queue, in_threads, content, at, nil_lem, get_thread_queue-some, Keeps, set-Keeps,
}

-- The measure of what a search returns.
unfoldable pub in_option : (Queue → ℕ) → Option ℕ → ℕ
in_option m none = 0
in_option m (some t) = m (t ∷ [])

-- A search of `c` with result `r`: the task that it found is what the collection holds no more, and if
-- there is none the collection is as before, and `E` holds.
pub record Search (E : Type 0) (c : Collection) (r : Collection × Option ℕ) : Type 0 where
  pub takes : (m : Queue → ℕ) → IsMeasure m → content m c ≡ content m r.0 + in_option m r.1
  pub same : r.1 ≡ none → r.0 ≡ c
  pub width : length r.0.threads ≡ length c.threads
  pub empty : r.1 ≡ none → E
  pub keeps : Keeps c r.0

-- The thread has no task.
abbrev pub NoneIn : ℕ → Collection → Type 0
NoneIn i c = (q : Queue) → get_thread_queue i c ≡ some q → q ≡ []

try_get_thread_task-none :
    (i : ℕ) (c : Collection) → get_thread_queue i c ≡ none → try_get_thread_task i c ≡ (c, none)
unfolding try_get_thread_task
try_get_thread_task-none i c e = rw (e, try_get_thread_task) refl

try_get_thread_task-nil :
    (i : ℕ) (c : Collection) → get_thread_queue i c ≡ some [] → try_get_thread_task i c ≡ (c, none)
unfolding try_get_thread_task
try_get_thread_task-nil i c e =
    let (h, f) = get_thread_queue-some i c [] e in
    rw (e, try_get_thread_task)
      (ap (λ qs. (record c { threads = qs }, none))
        (subst (λ q. set c.threads i q ≡ c.threads) f (set-get_or c.threads i none)))

-- A thread's tasks are taken from the front of its queue.
pub try_get_thread_task-cons :
    (i t : ℕ) (q : Queue) (c : Collection)
    → get_thread_queue i c ≡ some (t ∷ q)
    → try_get_thread_task i c ≡ (set_thread_queue i (some q) c, some t)
unfolding try_get_thread_task
try_get_thread_task-cons i t q c e = rw (e, try_get_thread_task) refl

Search-none : (E : Type 0) (c : Collection) → E → Search E c (c, none)
unfolding in_option
Search-none E c e = record {
  takes = λ m is. omega arith;
  same = λ h. refl;
  width = refl;
  empty = λ h. e;
  keeps = λ j q f. (q, f);
}

try_get_thread_task-Search :
    (i : ℕ) (c : Collection) → Search (NoneIn i c) c (try_get_thread_task i c)
unfolding content in_option in_queue
try_get_thread_task-Search i c = elim (Option-cases (get_thread_queue i c)) [
  | inl e ↦
      subst (Search (NoneIn i c) c) (sym (try_get_thread_task-none i c e))
        (Search-none (NoneIn i c) c (λ q f. ground (arith, e, f)))
  | inr ([], e) ↦
      subst (Search (NoneIn i c) c) (sym (try_get_thread_task-nil i c e))
        (Search-none (NoneIn i c) c (λ q f. ground (arith, e, f)))
  | inr (t ∷ q, e) ↦
      let (h, f) = get_thread_queue-some i c (t ∷ q) e in
      subst (Search (NoneIn i c) c) (sym (try_get_thread_task-cons i t q c e)) (record {
        takes = λ m is.
            omega (arith, at m i (some q) c.threads (some (t ∷ q)) h f, is.append (t ∷ []) q);
        same = λ n. ground arith;
        width = length-set c.threads i (some q);
        empty = λ n. ground arith;
        keeps = set-Keeps i q c h;
      })
]

get_global-Search : (c : Collection) → Search (c.global ≡ []) c (get_global c)
unfolding content in_option
get_global-Search c = go c.global c.threads
  where
    go :
        (q : Queue) (ts : List (Option Queue))
        → Search
            (q ≡ [])
            (record { global = q; threads = ts })
            (get_global (record { global = q; threads = ts }))
    go [] ts = Search-none _ _ refl
    go (t ∷ q) ts = record {
      takes = λ m is. omega (arith, is.append (t ∷ []) q);
      same = λ n. ground arith;
      width = refl;
      empty = λ n. ground arith;
      keeps = λ j q f. (q, f);
    }

or_else-Search :
    (E F : Type 0) (c : Collection) (r : Collection × Option ℕ)
    (f : Collection → Collection × Option ℕ)
    → Search E c r
    → Search F c (f c)
    → Search (E × F) c (or_else r f)
or_else-Search E F c (c', some t) f s s' = record {
  takes = s.takes;
  same = s.same;
  width = s.width;
  empty = λ n. ground arith;
  keeps = s.keeps;
}
or_else-Search E F c (c', none) f s s' =
    subst (λ x. Search (E × F) c (f x)) (sym (s.same refl))
      (record {
        takes = s'.takes;
        same = s'.same;
        width = s'.width;
        empty = λ n. (s.empty refl, s'.empty n);
        keeps = s'.keeps;
      })

abbrev NoneFrom : ℕ → ℕ → Collection → Type 0
NoneFrom i n c = (j : ℕ) → i ≤ j → j < i + n → NoneIn (wrap (length c.threads) j) c

weaken :
    (E F : Type 0) (c : Collection) (r : Collection × Option ℕ)
    → (E → F)
    → Search E c r
    → Search F c r
weaken E F c r f s = record {
  takes = s.takes;
  same = s.same;
  width = s.width;
  empty = λ n. f (s.empty n);
  keeps = s.keeps;
}

steal-Search : (n i : ℕ) (c : Collection) → Search (NoneFrom i n c) c (steal n i c)
unfolding steal
steal-Search zero i c = Search-none _ c (λ j lo hi. absurd (omega arith))
steal-Search (suc n) i c =
    let here = try_get_thread_task-Search (wrap (length c.threads) i) c in
    weaken _ (NoneFrom i (suc n) c) c _
      (λ both j lo hi. elim (Bool-cases (i == j)) [
        | inl e ↦ subst (λ x. NoneIn (wrap (length c.threads) x) c) ((==_iff i j).0 e) both.0
        | inr e ↦ both.1 j (ground arith) (omega arith)
      ])
      (or_else-Search _ _ c _ (steal n (suc i)) here (steal-Search n (suc i) c))

-- A collection none of whose threads has a task.
abbrev NoneLeft : Collection → Type 0
NoneLeft c = (i : ℕ) → i < length c.threads → NoneIn i c

steal_any-Search : (random : ℕ) (c : Collection) → Search (NoneLeft c) c (steal_any random c)
steal_any-Search random c =
    let cnt = length c.threads in
    if_intro {A = Collection × Option ℕ} (Search (NoneLeft c) c) (ltb 0 cnt)
      (λ p.
        let pos = ltb→lt 0 cnt p in
        weaken _ (NoneLeft c) c _ (around cnt pos) (steal-Search cnt (random % cnt) c))
      (λ p. Search-none _ c (λ i h. ground arith))
  where
    around :
        (cnt : ℕ)
        → 0 < cnt
        → ((j : ℕ) → random % cnt ≤ j → j < random % cnt + cnt → NoneIn (wrap cnt j) c)
        → (i : ℕ) → i < cnt
        → NoneIn i c
    around cnt pos h i lt = elim (Bool-cases (ltb i (random % cnt))) [
      | inl e ↦ subst (λ x. NoneIn x c) (ground arith) (h (i + cnt) (ground arith) (ground arith))
      | inr e ↦ subst (λ x. NoneIn x c) (ground arith) (h i (ground arith) (ground arith))
    ]

try_get-Search_parts :
    (random i : ℕ) (c : Collection)
    → Search ((NoneIn i c × (c.global ≡ [])) × NoneLeft c) c (try_get random i c)
unfolding try_get
try_get-Search_parts random i c =
    or_else-Search _ _ c _ (steal_any random)
      (or_else-Search _ _ c _ get_global (try_get_thread_task-Search i c) (get_global-Search c))
      (steal_any-Search random c)

in_threads-none :
    (m : Queue → ℕ)
    → IsMeasure m
    → (qs : List (Option Queue))
    → ((i : ℕ) → i < length qs → (q : Queue) → get_or qs i none ≡ some q → q ≡ [])
    → in_threads m qs ≡ 0
unfolding in_threads in_queue
in_threads-none m is [] h = refl
in_threads-none m is (none ∷ qs) h =
    omega (arith, in_threads-none m is qs (λ i lt. h (suc i) (omega arith)))
in_threads-none m is (some q ∷ qs) h =
    rw (h 0 (omega arith) q refl)
      (omega (arith, nil_lem m is, in_threads-none m is qs (λ i lt. h (suc i) (omega arith))))

-- For every additive measure of queues, `try_get` returns what the collection then holds no more.
-- It returns nothing only if there was nothing, and changes nothing then.
pub try_get-Search :
    (random i : ℕ) (c : Collection)
    → Search ((m : Queue → ℕ) → IsMeasure m → content m c ≡ 0) c (try_get random i c)
unfolding content get_thread_queue
try_get-Search random i c =
    weaken _ _ c _
      (λ ((own, shared), left) m is. rw shared (
        omega (
          arith,
          nil_lem m is,
          in_threads-none m is c.threads
              (λ j h q e. left j h q (rw (lt→ltb j (length c.threads) h) e)),
        )))
      (try_get-Search_parts random i c)
