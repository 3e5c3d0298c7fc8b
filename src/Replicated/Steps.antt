-- ===== src/Replicated/Steps.antt =====
-- What one access of a thread does to the lock, the entries and the log.
use pgasus.Common.{
  ℕ, ◌+◌, ◌≤◌, ◌<◌, ◌≡◌, refl, sym, ap, ◌∙◌, Bool, true, Option, none, some, List, ◌∷◌, ◌==◌,
  ==_iff, ltb, ltb→lt, if◌then◌else◌, length, get_or, set, count, length-set, get_or-set, arith,
  subst, Bool-cases, Option-cases, inl, inr,
}
use pgasus.Replicated.{Pc, Shared, step}

abbrev pub has : Option ℕ → ℕ
has none = 0
has (some p) = 1

abbrev pub as_number : Bool → ℕ
as_number b = if b then 1 else 0

-- Whether a thread has the lock.
abbrev pub inside : Pc → ℕ
inside (Pc.retest n) = 1
inside (Pc.construct n) = 1
inside (Pc.store n p) = 1
inside (Pc.release n) = 1
inside _ = 0

-- Whether it makes an object for the node `m`, or has made it.
abbrev pub building : ℕ → Pc → ℕ
building m (Pc.construct n) = if n == m then 1 else 0
building m (Pc.store n p) = if n == m then 1 else 0
building m _ = 0

abbrev pub storing : ℕ → Pc → ℕ
storing m (Pc.store n p) = if n == m then 1 else 0
storing m _ = 0

abbrev pub slot : Shared → ℕ → Option ℕ
slot s n = get_or s.data_ n none

-- What a thread relies on.
abbrev pub Fits : Shared → Pc → Type 0
Fits s (Pc.test n) = n < length s.data_
Fits s (Pc.acquire n) = n < length s.data_
Fits s (Pc.retest n) = n < length s.data_
Fits s (Pc.construct n) = n < length s.data_
Fits s (Pc.store n p) = n < length s.data_
Fits s (Pc.release n) = (p : ℕ) × (slot s n ≡ some p)
Fits s (Pc.load n) = (p : ℕ) × (slot s n ≡ some p)
Fits s (Pc.got n p) = slot s n ≡ some p
Fits s Pc.null = ⊥
Fits s _ = Unit

-- How many threads have the lock, and for each node how many build and how many have built, where the threads
-- other than the one at `p` contribute `ri`, `rb` and `rs`.
pub record Counts (s : Shared) (ri : ℕ) (rb rs : ℕ → ℕ) (p : Pc) : Type 0 where
  pub owned : ri + inside p ≡ as_number s.locked
  pub single : (m : ℕ) → has (slot s m) + rb m + building m p ≤ 1
  pub once : (m : ℕ) → count m s.log ≡ has (slot s m) + rs m + storing m p

-- What a step keeps of the others.
pub record Kept (s s' : Shared) : Type 0 where
  pub size : length s'.data_ ≡ length s.data_
  pub slots : (m p : ℕ) → slot s m ≡ some p → slot s' m ≡ some p

pub Fits-Kept : (s s' : Shared) (p : Pc) → Kept s s' → Fits s p → Fits s' p
Fits-Kept s s' (Pc.test n) k f = omega (arith, k.size)
Fits-Kept s s' (Pc.acquire n) k f = omega (arith, k.size)
Fits-Kept s s' (Pc.retest n) k f = omega (arith, k.size)
Fits-Kept s s' (Pc.construct n) k f = omega (arith, k.size)
Fits-Kept s s' (Pc.store n p) k f = omega (arith, k.size)
Fits-Kept s s' (Pc.release n) k (p, f) = (p, k.slots n p f)
Fits-Kept s s' (Pc.load n) k (p, f) = (p, k.slots n p f)
Fits-Kept s s' (Pc.got n p) k f = k.slots n p f
Fits-Kept s s' Pc.null k f = f
Fits-Kept s s' Pc.idle k f = f
Fits-Kept s s' Pc.failed k f = f

same-Kept : (s : Shared) → Kept s s
same-Kept s = record { size = refl; slots = λ m p e. e }

counted :
    (n m : ℕ) (xs : List ℕ) (k : ℕ)
    → count m xs ≡ k
    → count m (n ∷ xs) ≡ k + (if n == m then 1 else 0)
unfolding count
counted n m xs k e = ground (arith, e)

module _ (ri : ℕ) (rb rs : ℕ → ℕ) (rb_le : (m : ℕ) → rb m ≤ ri) where
  -- What a step leads to.
  abbrev pub Led : Shared → Shared × Pc → Type 0
  Led s (s', p') = Counts s' ri rb rs p' × Fits s' p' × Kept s s'

  pub step-Led : (t : ℕ) (s : Shared) (p : Pc) → Counts s ri rb rs p → Fits s p → Led s (step t s p)
  unfolding step
  step-Led t s Pc.idle c f = elim (Bool-cases (ltb t (length s.data_))) [
    | inl lt ↦
        rw (step, lt)
          (record { owned = c.owned; single = c.single; once = c.once }, ltb→lt t _ lt, same-Kept s)
    | inr ge ↦
        rw (step, ge)
          (record { owned = c.owned; single = c.single; once = c.once }, tt, same-Kept s)
  ]
  step-Led t s (Pc.test n) c f = elim (Option-cases (slot s n)) [
    | inl e ↦
        rw (step, e) (record { owned = c.owned; single = c.single; once = c.once }, f, same-Kept s)
    | inr (p, e) ↦
        rw (step, e)
          (record { owned = c.owned; single = c.single; once = c.once }, (p, e), same-Kept s)
  ]
  step-Led t s (Pc.acquire n) c f =
      let next : Bool → Shared × Pc =
        λ b. if b then (s, Pc.acquire n) else (record s { locked = true }, Pc.retest n) in
      elim (Bool-cases s.locked) [
        | inl taken ↦
            subst (λ b. Led s (next b)) (sym taken)
              (record { owned = c.owned; single = c.single; once = c.once }, f, same-Kept s)
        | inr free ↦
            subst (λ b. Led s (next b)) (sym free)
              (
                record { owned = ground (arith, c.owned, free); single = c.single; once = c.once },
                f,
                record { size = refl; slots = λ m p e. e },
              )
      ]
  step-Led t s (Pc.retest n) c f = elim (Option-cases (slot s n)) [
    | inl e ↦
        let alone : ri ≡ 0 = ground (arith, c.owned) in
        rw (step, e)
          (
            record {
              owned = c.owned;
              single = λ m. elim (Bool-cases (n == m)) [
                | inl same ↦
                    let empty : has (slot s m) ≡ 0 =
                      ap (λ j. has (slot s j)) (ground (arith, same)) ∙ ap has e in
                    rw same (omega (arith, empty, alone, rb_le m))
                | inr other ↦ rw other (c.single m)
              ];
              once = c.once;
            },
            f,
            same-Kept s,
          )
    | inr (p, e) ↦
        rw (step, e)
          (record { owned = c.owned; single = c.single; once = c.once }, (p, e), same-Kept s)
  ]
  step-Led t s (Pc.construct n) c f = (
    record {
      owned = c.owned;
      single = c.single;
      once = λ m. counted n m s.log (has (slot s m) + rs m) (omega (arith, c.once m));
    },
    f,
    record { size = refl; slots = λ m p e. e },
  )
  step-Led t s (Pc.store n p) c f =
      let at : (m : ℕ)
          → slot (record s { data_ = set s.data_ n (some p) }) m
            ≡ (if n == m then some p else slot s m) =
        λ m. get_or-set s.data_ n m (some p) none f in
      let alone : ri ≡ 0 = ground (arith, c.owned) in
      (
        record {
          owned = c.owned;
          single = λ m. elim (Bool-cases (n == m)) [
            | inl same ↦ rw (at m, same) (omega (arith, alone, rb_le m))
            | inr other ↦ rw (at m, other) (ground (arith, c.single m, other))
          ];
          once = λ m. elim (Bool-cases (n == m)) [
            | inl same ↦ rw (at m, same) (ground (arith, c.once m, c.single m, same))
            | inr other ↦ rw (at m, other) (ground (arith, c.once m, other))
          ];
        },
        (p, at n ∙ rw ((==_iff n n).1 refl) refl),
        record {
          size = length-set s.data_ n (some p);
          slots = λ m q e. elim (Bool-cases (n == m)) [
            | inl same ↦ absurd (ground (arith, c.single m, ap has e, same))
            | inr other ↦ rw (at m, other) e
          ];
        },
      )
  step-Led t s (Pc.release n) c (p, e) = (
    record { owned = ground (arith, c.owned); single = c.single; once = c.once },
    (p, e),
    record { size = refl; slots = λ m p e. e },
  )
  step-Led t s (Pc.load n) c (p, e) =
      rw (step, e) (record { owned = c.owned; single = c.single; once = c.once }, e, same-Kept s)
  step-Led t s (Pc.got n p) c f =
      (record { owned = c.owned; single = c.single; once = c.once }, tt, same-Kept s)
  step-Led t s Pc.failed c f = (c, tt, same-Kept s)
  step-Led t s Pc.null c f = absurd f
