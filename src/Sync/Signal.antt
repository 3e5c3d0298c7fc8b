-- ===== src/Sync/Signal.antt =====
-- What it does to signal a triggerable.
use mathlib.Core.Path.{fun_ext}
use pgasus.Common.{
  ◌>>=◌, ℕ, ◌≤◌, ◌<◌, ◌≡◌, refl, sym, ◌∙◌, true, false, Option, none, some, List, [], ◌∷◌, ◌++◌,
  arith, ◌==◌, if◌then◌else◌, if_intro, count, Bool-cases, Option-cases, inl, inr, remove_all,
  count-remove_all,
}
use pgasus.Sync.{World, update, is_nil, signal, signal_all, trigger_all, set_signaled}
use pgasus.Sync.Invariant.{IsLinked}

-- The clients that depend on nothing but `r`, in order.
unfoldable pub woken : ℕ → (ℕ → List ℕ) → List ℕ → List ℕ
woken r deps [] = []
woken r deps (c ∷ cs) =
    let rest = woken r deps cs in if is_nil (remove_all r (deps c)) then c ∷ rest else rest

-- The dependencies of the listed clients without `r`.
sweep : ℕ → List ℕ → (ℕ → List ℕ) → ℕ → List ℕ
sweep r [] deps = deps
sweep r (c ∷ cs) deps = sweep r cs (update deps c (remove_all r (deps c)))

woken-update :
    (r c : ℕ) (x : List ℕ) (deps : ℕ → List ℕ) (cs : List ℕ)
    → count c cs ≡ 0
    → woken r (update deps c x) cs ≡ woken r deps cs
unfolding woken count
woken-update r c x deps [] h = refl
woken-update r c x deps (d ∷ cs) h = ground (arith, woken-update r c x deps cs)

sweep_lem :
    (r : ℕ) (cs : List ℕ) (deps : ℕ → List ℕ) (s : ℕ)
    → count s cs ≤ 1
    → sweep r cs deps s ≡ (if count s cs == 0 then deps s else remove_all r (deps s))
unfolding sweep count
sweep_lem r [] deps s h = refl
sweep_lem r (c ∷ cs) deps s h =
    ground (arith, sweep_lem r cs (update deps c (remove_all r (deps c))) s)

remove_all_none : (r : ℕ) (xs : List ℕ) → count r xs ≡ 0 → remove_all r xs ≡ xs
unfolding count remove_all
remove_all_none r [] h = refl
remove_all_none r (x ∷ xs) h = ground (arith, remove_all_none r xs)

is_nil-of_count : (r : ℕ) (xs : List ℕ) → 0 < count r xs → is_nil xs ≡ false
unfolding count
is_nil-of_count r [] h = absurd (omega arith)
is_nil-of_count r (x ∷ xs) h = refl

module _ {ℓ} {N : Type ℓ} (notify : ℕ → N → Option N) where
  -- Notifies one after the other; fails where one fails.
  unfoldable pub notify_all : List ℕ → N → Option N
  notify_all [] e = some e
  notify_all (c ∷ cs) e = ◌>>=◌ (notify c e) (notify_all cs)

  -- The world after `c` was signaled by `r`, with state `e`.
  abbrev signaled_by : ℕ → ℕ → World N → N → World N
  signaled_by c r w e = record w { deps = update w.deps c (remove_all r (w.deps c)); env = e }

  signal_lem :
      (c r : ℕ) (w : World N)
      → is_nil (w.deps c) ≡ false
      → signal notify c r w
        ≡ ◌>>=◌ (notify_all (woken r w.deps (c ∷ [])) w.env) (λ e. some (signaled_by c r w e))
  unfolding signal notify_all woken
  signal_lem c r w busy = elim (Bool-cases (is_nil (remove_all r (w.deps c)))) [
    | inl e ↦ elim (Option-cases (notify c w.env)) [
      | inl f ↦ rw (busy, e, f)
      | inr (x, f) ↦ rw (busy, e, f)
    ]
    | inr e ↦ rw (busy, e)
  ]

  notify_all-append :
      (xs ys : List ℕ) (e : N) → notify_all (xs ++ ys) e ≡ ◌>>=◌ (notify_all xs e) (notify_all ys)
  unfolding notify_all
  notify_all-append [] ys e = refl
  notify_all-append (x ∷ xs) ys e = elim (Option-cases (notify x e)) [
    | inl f ↦ rw f
    | inr (e', f) ↦ rw f (notify_all-append xs ys e')
  ]

  woken-cons :
      (r c : ℕ) (deps : ℕ → List ℕ) (cs : List ℕ)
      → woken r deps (c ∷ cs) ≡ woken r deps (c ∷ []) ++ woken r deps cs
  unfolding woken
  woken-cons r c deps cs = ground arith

  signal_all_lem :
      (r : ℕ) (cs : List ℕ) (w : World N)
      → ((c : ℕ) → count c cs ≤ 1)
      → ((c : ℕ) → 0 < count c cs → is_nil (w.deps c) ≡ false)
      → signal_all notify r cs w
        ≡ ◌>>=◌
            (notify_all (woken r w.deps cs) w.env)
            (λ e. some (record w { deps = sweep r cs w.deps; env = e }))
  unfolding signal_all count sweep
  signal_all_lem r [] w once busy = unfold woken notify_all in refl
  signal_all_lem r (c ∷ cs) w once busy =
      rw
        (
          signal_lem c r w (busy c (ground arith)),
          woken-cons r c w.deps cs,
          notify_all-append (woken r w.deps (c ∷ [])) (woken r w.deps cs) w.env,
        )
        (go (notify_all (woken r w.deps (c ∷ [])) w.env) (λ e.
          signal_all_lem r cs (signaled_by c r w e) (λ d. omega (arith, once d, more d))
            (λ d h. ground (arith, once d, busy d))
          ∙ rw (woken-update r c (remove_all r (w.deps c)) w.deps cs (ground (arith, once c)))
              refl))
    where
      more : (d : ℕ) → count d cs ≤ count d (c ∷ cs)
      more d = unfold count in omega arith

      go :
          (m : Option N)
          → ((e : N)
              → signal_all notify r cs (signaled_by c r w e)
                ≡ ◌>>=◌
                    (notify_all (woken r w.deps cs) e)
                    (λ e'. some (record w { deps = sweep r (c ∷ cs) w.deps; env = e' })))
          → ◌>>=◌ (◌>>=◌ m (λ e. some (signaled_by c r w e))) (signal_all notify r cs)
            ≡ ◌>>=◌
                (◌>>=◌ m (notify_all (woken r w.deps cs)))
                (λ e. some (record w { deps = sweep r (c ∷ cs) w.deps; env = e }))
      go none f = refl
      go (some e) f = f e

  -- The world after `r` fired: nobody waits for it, and nobody depends on it.
  abbrev pub fired : ℕ → World N → N → World N
  fired r w e = record w {
    clients = update w.clients r [];
    signaled = update w.signaled r true;
    deps = λ s. remove_all r (w.deps s);
    env = e;
  }

  fired-IsLinked : (r : ℕ) (w : World N) (e : N) → IsLinked w → IsLinked (fired r w e)
  unfolding count
  fired-IsLinked r w e l = record {
    mirrored = λ r' s'. ground (arith, l.mirrored r' s', count-remove_all r r' (w.deps s'));
    once = λ r' s'. ground (arith, l.once r' s', count-remove_all r r' (w.deps s'));
    spent = λ r' s' d. ground (arith, l.spent r' s');
  }

  sweep-clients :
      (r : ℕ) (w : World N)
      → IsLinked w
      → sweep r (w.clients r) w.deps ≡ (λ s. remove_all r (w.deps s))
  sweep-clients r w l = fun_ext (λ s.
      rw (sweep_lem r (w.clients r) w.deps s (omega (arith, l.mirrored r s, l.once r s))) (
        if_intro {A = List ℕ} (λ x. x ≡ remove_all r (w.deps s)) (count s (w.clients r) == 0)
          (λ h. sym (remove_all_none r (w.deps s) (ground (arith, l.mirrored r s)))) (λ h. refl)))

  -- `set_signaled` on a triggerable that has not been signaled notifies, in the order of their
  -- waiting, exactly the clients that depend on nothing else. No assertion fails but in a
  -- notification, after which no client depends on the triggerable, it has no clients, and the
  -- links are kept.
  pub set_signaled-fired :
      (r : ℕ) (w : World N)
      → IsLinked w
      → w.signaled r ≡ false
      → (set_signaled notify r w
          ≡ ◌>>=◌ (notify_all (woken r w.deps (w.clients r)) w.env) (λ e. some (fired r w e)))
        × ((e : N) → IsLinked (fired r w e))
  unfolding set_signaled trigger_all
  set_signaled-fired r w l h = (
    rw
        (
          h,
          signal_all_lem r (w.clients r) (record w { signaled = update w.signaled r true })
              (λ c. omega (arith, l.mirrored r c, l.once r c))
              (λ c p. is_nil-of_count r (w.deps c) (omega (arith, l.mirrored r c))),
          sweep-clients r w l,
        )
        (elim (Option-cases (notify_all (woken r w.deps (w.clients r)) w.env)) [
          | inl e ↦ rw e
          | inr (x, e) ↦ rw e
        ]),
    λ e. fired-IsLinked r w e l,
  )
