-- ===== src/Spin/Patience.antt =====
-- How long `try_lock` waits.
use pgasus.Common.{
  ℕ, zero, suc, ◌*◌, ◌%◌, ◌^◌, ap, ◌≤◌, ◌<◌, ◌≡◌, refl, ◌∙◌, true, false, some, arith, ltb,
  Bool-cases, inl, inr,
}
use pgasus.Spin.{initial, max_backoff, may_grow, doubled, backoff, Flag, try_alone}

try_alone-again :
    (n : ℕ) (f : Flag)
    → f.locked ≡ true
    → f.curr < max_backoff
    → try_alone (suc n) f ≡ try_alone n (record f { curr = f.curr * 2 })
unfolding try_alone backoff may_grow doubled
try_alone-again n f taken below =
    let more : ltb f.curr max_backoff ≡ true = ground (arith, below) in
    let small : f.curr * 2 % 2 ^ 64 ≡ f.curr * 2 = omega (arith, below) in
    rw (taken, more) (ap (λ c. try_alone n (record { locked = true; curr = c })) small)

try_alone-last :
    (n : ℕ) (f : Flag)
    → f.locked ≡ true
    → max_backoff ≤ f.curr
    → try_alone (suc n) f ≡ some (false, f)
unfolding try_alone backoff may_grow doubled
try_alone-last n f taken over =
    let done : ltb f.curr max_backoff ≡ false = ground (arith, over) in rw (taken, done) refl

-- While the lock is taken: with a back-off that `n` doublings bring to its bound, the call gives up within
-- `n + 1` tests, with the back-off at its bound.
try_alone-waits :
    (n : ℕ) (f : Flag)
    → f.locked ≡ true
    → max_backoff ≤ f.curr * 2 ^ n
    → (f' : Flag) × (try_alone (suc n) f ≡ some (false, f'))
      × (f'.locked ≡ true)
      × (max_backoff ≤ f'.curr)
try_alone-waits zero f taken enough =
    let over : max_backoff ≤ f.curr = omega (arith, enough) in
    (f, try_alone-last zero f taken over, taken, over)
try_alone-waits (suc n) f taken enough = elim (Bool-cases (ltb f.curr max_backoff)) [
  | inr over ↦
      let high : max_backoff ≤ f.curr = ground (arith, over) in
      (f, try_alone-last (suc n) f taken high, taken, high)
  | inl below ↦
      let (f', gave_up, still, high) =
        try_alone-waits n (record f { curr = f.curr * 2 }) taken (grind (arith, enough)) in
      (f', try_alone-again (suc n) f taken (ground (arith, below)) ∙ gave_up, still, high)
]

-- A call of `try_lock` on a lock that stays taken, with the back-off at 16 or more, gives up after at most seven
-- tests, and leaves the back-off such that a further call gives up after its first test.
pub try_alone-impatient :
    (f : Flag)
    → f.locked ≡ true
    → initial ≤ f.curr
    → (f' : Flag) × (try_alone 7 f ≡ some (false, f')) × (try_alone 1 f' ≡ some (false, f'))
try_alone-impatient f taken low =
    let (f', gave_up, still, high) = try_alone-waits 6 f taken (omega (arith, low)) in
    (f', gave_up, try_alone-last 0 f' still high)
