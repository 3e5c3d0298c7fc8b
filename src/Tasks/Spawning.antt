-- ===== src/Tasks/Spawning.antt =====
-- Where a spawned task goes, and which task a worker gets.
use pgasus.Common.{
  ℕ, ◌+◌, ◌*◌, ◌≤◌, ◌<◌, ◌≡◌, ◌↔◌, refl, ap, ◌∙◌, Option, none, some, List, ◌==◌, if◌then◌else◌,
  ◌>>=◌, get_elem?, set, count, arith, Option-cases, inl, inr, ◌⊎◌,
}
use pgasus.Tasks.Domain.{Domain, max_index}
use pgasus.Tasks.Valid.{IsValid, holds}
use pgasus.Tasks.Dispatch.{try_get_task-highest}
use pgasus.Tasks.Taking.{in_option}
use pgasus.Tasks.Putting.{put_task-holds}
use pgasus.Tasks.Pool.{
  Site, Pool, task_available, wait_time, try_get_task, put_task, wished, spawn_task,
}

-- What a worker gets: `t` leaves one of the two domains. Neither domain gains a task, so that none moves from
-- one to the other.
pub record Got (cpus global_cpus : ℕ) (priority : ℕ → ℕ) (local global local' global' : Domain)
    (r : Option ℕ) : Type 0 where
  pub valid : IsValid cpus priority local'
  pub global_valid : IsValid global_cpus priority global'
  pub takes :
      (t : ℕ)
      → holds t local + holds t global ≡ holds t local' + holds t global' + in_option (count t) r
  pub no_gain : (t : ℕ) → (holds t local' ≤ holds t local) × (holds t global' ≤ holds t global)
  pub local_first :
      (t : ℕ)
      → r ≡ some t
      → ((0 < holds t local)
          × (global' ≡ global)
          × ((t' : ℕ) → 0 < holds t' local → priority t' ≤ priority t))
        ⊎ (((t' : ℕ) → holds t' local ≡ 0)
            × (0 < holds t global)
            × ((t' : ℕ) → 0 < holds t' global → priority t' ≤ priority t))
  pub nothing : r ≡ none → (t : ℕ) → (holds t local ≡ 0) × (holds t global ≡ 0)

one : (t : ℕ) → in_option (count t) (some t) ≡ 1
unfolding in_option count
one t = ground arith

zero_of : (t : ℕ) → in_option (count t) none ≡ 0
unfolding in_option
zero_of t = refl

module _ (cpus global_cpus : ℕ) (priority : ℕ → ℕ) where
  -- `try_get_task` of a scheduler, with valid domains, succeeds and keeps them valid. A task that it returns leaves the
  -- scheduler's own domain, where none had a higher priority, or, if that had no task, the global one, of
  -- which the same holds; no other task moves, not even from one domain to the other. It returns nothing only if neither has a task.
  pub try_get_task-Got :
      (random : ℕ → ℕ) (thid no_thread : ℕ) (local global : Domain)
      → IsValid cpus priority local
      → IsValid global_cpus priority global
      → (local' : Domain) × (global' : Domain) × (r : Option ℕ) × (try_get_task random thid
            no_thread local global
          ≡ some (local', global', r))
        × Got cpus global_cpus priority local global local' global' r
  unfolding try_get_task
  try_get_task-Got random thid no_thread local global v gv =
      let (local', r, e, v', takes, empty, high) =
        try_get_task-highest cpus priority random thid local v in
      let (global', r', e', gv', takes', empty', high') =
        try_get_task-highest global_cpus priority random no_thread global gv in
      elim (Option-cases r) [
        | inr (t, found) ↦
            let got = e ∙ ap (λ o. some (local', o)) found in
            (
              local',
              global,
              some t,
              rw (got, ◌>>=◌) refl,
              record {
                valid = v';
                global_valid = gv;
                takes = λ t'. omega (arith, takes t', ap (in_option (count t')) found);
                no_gain = λ t'. (omega (arith, takes t'), omega arith);
                local_first = λ t' it. inl (
                  omega (arith, takes t', ap (in_option (count t')) (found ∙ it), one t'),
                  refl,
                  high t' (found ∙ it),
                );
                nothing = λ none_it. absurd (ground (arith, none_it));
              },
            )
        | inl no_task ↦
            let got = e ∙ ap (λ o. some (local', o)) no_task in
            (
              local',
              global',
              r',
              rw (got, ◌>>=◌, e', ◌>>=◌) refl,
              record {
                valid = v';
                global_valid = gv';
                takes = λ t'.
                    omega
                      (arith, takes t', takes' t', ap (in_option (count t')) no_task, zero_of t');
                no_gain = λ t'. (omega (arith, takes t'), omega (arith, takes' t'));
                local_first = λ t' it. inr (
                  (λ t''. omega (arith, empty no_task t'', takes t'')),
                  omega (arith, takes' t', ap (in_option (count t')) it, one t'),
                  high' t' it,
                );
                nothing = λ none_it t'. (empty no_task t', empty' none_it t');
              },
            )
      ]

-- What `spawn_task` does for a scheduler that exists, with a valid domain: its domain has the task, once, and the other
-- tasks as before, every thread of it that was waiting is told, and no other scheduler and not the global
-- domain has changed.
pub spawn_task-holds :
    (priority : ℕ → ℕ) (no_thread node t : ℕ) (with_cpus : List ℕ) (caller : Option (ℕ × ℕ))
    (p : Pool) (s : Site)
    → get_elem? p.sites node ≡ some s
    → IsValid s.cpus priority s.domain
    → priority t ≤ max_index
    → (p' : Pool) × (s' : Site) × (spawn_task priority no_thread with_cpus (some node) caller t p
        ≡ some p')
      × (p'.sites ≡ set p.sites node s')
      × (p'.global ≡ p.global)
      × IsValid s.cpus priority s'.domain
      × ((t' : ℕ) → holds t' s'.domain ≡ holds t' s.domain + (if t' == t then 1 else 0))
      × (s'.sleep.waiting ≡ 0)
      × (s'.sleep.semaphore ≡ s.sleep.semaphore + s.sleep.waiting)
unfolding spawn_task put_task task_available
spawn_task-holds priority no_thread node t with_cpus caller p s at v ranged =
    let thid = wished no_thread node caller in
    let (d, put, valid, held) = put_task-holds s.cpus priority t thid s.domain v ranged in
    (
      record p {
        sites = set p.sites node (record s { domain = d; sleep = task_available s.sleep });
      },
      record s { domain = d; sleep = task_available s.sleep },
      rw (at, ◌>>=◌, put) refl,
      refl,
      refl,
      valid,
      held,
      ground arith,
      ground arith,
    )

-- The time up to which a thread waits, from a time with less than a second of microseconds and for at most a
-- second: it is the right one, and its nanoseconds are less than a second, or a whole one, which is
-- exactly if the microseconds add up to a second.
pub wait_time-right :
    (sec usec wait_usec : ℕ)
    → usec < 1000000
    → wait_usec ≤ 1000000
    → ((wait_time sec usec wait_usec).0 * 1000000000 + (wait_time sec usec wait_usec).1
        ≡ sec * 1000000000 + 1000 * (usec + wait_usec))
      × ((wait_time sec usec wait_usec).1 ≤ 1000000000)
      × (((wait_time sec usec wait_usec).1 ≡ 1000000000) ↔ (usec + wait_usec ≡ 1000000))
unfolding wait_time
wait_time-right sec usec wait_usec h k = ground (arith, h, k)
