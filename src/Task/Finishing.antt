-- ===== src/Task/Finishing.antt =====
-- The end of a task wakes the tasks that wait for nothing else.
use pgasus.Common.{
  ℕ, ◌+◌, ◌≤◌, ◌<◌, ◌≡◌, refl, sym, ap, ◌∙◌, true, false, some, List, [], ◌∷◌, ◌++◌, map,
  append-nil, append_assoc, count, ◌==◌, ==_iff, if◌then◌else◌, arith, Bool-cases, inl, inr,
  remove_all,
}
use pgasus.Sync
use pgasus.Sync.{update, is_nil}
use pgasus.Sync.Invariant.{IsLinked}
use pgasus.Sync.Signal.{woken, notify_all, fired, set_signaled-fired}
use pgasus.Malloc.{pop_all}
use pgasus.Task.{
  Task, Env, Put, set_state, is_state, put_state, waiting, suspended, running, completed, notify,
  done,
}

-- The task after its notification, and the call of put_task for it.
abbrev pub resumed : Task → Task
resumed t = record t { state_flags = set_state suspended t.state_flags }

abbrev pub put_of : Env → ℕ → Put
put_of e c = record { to = (e.tasks c).scheduler; task = c; thread = (e.tasks c).home_thread }

-- The listed tasks are suspended and put, in order, and nothing else changes.
pub record Notified (cs : List ℕ) (e e' : Env) : Type 0 where
  pub tasks : (c : ℕ) → e'.tasks c ≡ (if count c cs == 0 then e.tasks c else resumed (e.tasks c))
  pub locals : e'.locals ≡ e.locals
  pub puts : e'.puts ≡ e.puts ++ map (put_of e) cs

abbrev notified : ℕ → Env → Env
notified c e = record (put_state c suspended e) { puts = e.puts ++ (put_of e c ∷ []) }

put_of-notified : (c x : ℕ) (e : Env) → put_of (notified c e) x ≡ put_of e x
put_of-notified c x e = elim (Bool-cases (c == x)) [
  | inl same ↦ let at_c : c ≡ x = (==_iff c x).0 same in rw (at_c, (==_iff x x).1 refl) refl
  | inr other ↦ rw other refl
]

map-put_of : (c : ℕ) (e : Env) (cs : List ℕ) → map (put_of (notified c e)) cs ≡ map (put_of e) cs
map-put_of c e [] = refl
map-put_of c e (x ∷ xs) = rw (put_of-notified c x e, map-put_of c e xs) refl

notify_lem : (c : ℕ) (e : Env) → is_state waiting c e ≡ true → notify c e ≡ some (notified c e)
unfolding notify
notify_lem c e h = rw h refl

notified-tasks :
    (c : ℕ) (cs : List ℕ) (e e' : Env)
    → ((x : ℕ) → count x (c ∷ cs) ≤ 1)
    → Notified cs (notified c e) e'
    → (x : ℕ) → e'.tasks x ≡ (if count x (c ∷ cs) == 0 then e.tasks x else resumed (e.tasks x))
unfolding count
notified-tasks c cs e e' once n x = elim (Bool-cases (c == x)) [
  | inl same ↦
      let at_c : c ≡ x = (==_iff c x).0 same in
      let back : (x == c) ≡ true = (==_iff x c).1 (sym at_c) in
      let no_more : (count x cs == 0) ≡ true = ground (arith, once x, back) in
      let longer : (1 + count x cs == 0) ≡ false = ground arith in
      n.tasks x ∙ rw (no_more, same, back, longer) (ap (λ y. resumed (e.tasks y)) at_c)
  | inr other ↦
      let back : (x == c) ≡ false = ground (arith, other) in
      let none_here : 0 + count x cs ≡ count x cs = omega arith in
      n.tasks x ∙ rw (other, back, none_here) refl
]

-- A task that is listed again is not the first one.
listed_later : (c x : ℕ) (cs : List ℕ) → count x (c ∷ cs) ≤ 1 → 0 < count x cs → (c == x) ≡ false
unfolding count
listed_later c x cs once h = ground (arith, once, h)

notify_all-Notified :
    (cs : List ℕ) (e : Env)
    → ((c : ℕ) → count c cs ≤ 1)
    → ((c : ℕ) → 0 < count c cs → is_state waiting c e ≡ true)
    → (e' : Env) × (notify_all notify cs e ≡ some e') × Notified cs e e'
unfolding notify_all notify count
notify_all-Notified [] e once waits =
    (e, refl, record { tasks = λ c. refl; locals = refl; puts = sym (append-nil e.puts) })
notify_all-Notified (c ∷ cs) e once waits =
    let (e', more, n) =
      notify_all-Notified cs (notified c e) (λ x. omega (arith, once x, longer x))
        (λ x h. rw (listed_later c x cs (once x) h) (waits x (omega (arith, h, longer x)))) in
    (
      e',
      rw (notify_lem c e (waits c (ground (arith, (==_iff c c).1 refl)))) more,
      record {
        tasks = notified-tasks c cs e e' once n;
        locals = n.locals;
        puts =
            n.puts
            ∙ append_assoc e.puts (put_of e c ∷ []) (map (put_of (notified c e)) cs)
            ∙ ap (λ ps. e.puts ++ (put_of e c ∷ ps)) (map-put_of c e cs);
      },
    )
  where
    longer : (x : ℕ) → count x cs ≤ count x (c ∷ cs)
    longer x = unfold count in omega arith

count-woken : (t c : ℕ) (deps : ℕ → List ℕ) (cs : List ℕ) → count c (woken t deps cs) ≤ count c cs
unfolding woken count
count-woken t c deps [] = omega arith
count-woken t c deps (d ∷ ds) = ground (arith, count-woken t c deps ds)

-- The environment in which the tasks are woken: `t` is completed, and the thread's places are gone.
abbrev pub ended : (create : ℕ → ℕ) (me t : ℕ) → Env → Env
ended create me t e = record (put_state t completed e) {
  locals = update e.locals me (pop_all create (e.locals me)).0;
}

-- A task that has dependencies waits.
abbrev pub AllWait : Sync.World Env → Type 0
AllWait w = (c r : ℕ) → 0 < count r (w.deps c) → is_state waiting c w.env ≡ true

not_waiting : (t : ℕ) (e : Env) → is_state running t e ≡ true → is_state waiting t e ≡ false
not_waiting t e h = ground (arith, h)

woken-waiting :
    (create : ℕ → ℕ) (me t : ℕ) (w : Sync.World Env)
    → IsLinked w
    → AllWait w
    → is_state running t w.env ≡ true
    → (c : ℕ) → 0 < count c (woken t w.deps (w.clients t))
    → ((t == c) ≡ false) × (is_state waiting c (ended create me t w.env) ≡ true)
woken-waiting create me t w l waits runs c h =
    let waits_c =
      waits c t (omega (arith, h, count-woken t c w.deps (w.clients t), l.mirrored t c)) in
    let other : (t == c) ≡ false = ground (arith, runs, waits_c) in (other, rw other waits_c)

not_woken :
    (create : ℕ → ℕ) (me t : ℕ) (w : Sync.World Env)
    → IsLinked w
    → AllWait w
    → is_state running t w.env ≡ true
    → (count t (woken t w.deps (w.clients t)) == 0) ≡ true
not_woken create me t w l waits runs =
    elim (Bool-cases (count t (woken t w.deps (w.clients t)) == 0)) [
      | inl e ↦ e
      | inr e ↦
          let (other, _) = woken-waiting create me t w l waits runs t (ground (arith, e)) in
          absurd (ground (arith, other, (==_iff t t).1 refl))
    ]

-- The end of a running task, when the tasks that have dependencies wait and `t` has not been signaled: no
-- assertion fails, and exactly the tasks that wait for nothing else are suspended and put into their
-- schedulers, in the order of their waiting. The task is completed, nobody depends on it, and the links
-- between tasks are kept.
pub done-Notified :
    (create scheduler_of : ℕ → ℕ) (me t : ℕ) (w : Sync.World Env)
    → IsLinked w
    → AllWait w
    → w.signaled t ≡ false
    → is_state running t w.env ≡ true
    → (w' : Sync.World Env) × (done create scheduler_of me t w ≡ some w')
      × IsLinked w'
      × Notified (woken t w.deps (w.clients t)) (ended create me t w.env) w'.env
      × (w'.deps ≡ (λ c. remove_all t (w.deps c)))
      × (w'.env.tasks t ≡ (ended create me t w.env).tasks t)
unfolding done
done-Notified create scheduler_of me t w l waits fresh runs =
    let e = ended create me t w.env in
    let w0 : Sync.World Env = record w { env = e } in
    let l0 : IsLinked w0 = record { mirrored = l.mirrored; once = l.once; spent = l.spent } in
    let (fires, linked) = set_signaled-fired notify t w0 l0 fresh in
    let (e', all, n) =
      notify_all-Notified (woken t w.deps (w.clients t)) e
        (λ c. omega (arith, count-woken t c w.deps (w.clients t), l.mirrored t c, l.once t c))
        (λ c h. (woken-waiting create me t w l waits runs c h).1) in
    (
      fired notify t w0 e',
      rw (runs, fires, all) refl,
      linked e',
      n,
      refl,
      n.tasks t ∙ rw (not_woken create me t w l waits runs) refl,
    )
