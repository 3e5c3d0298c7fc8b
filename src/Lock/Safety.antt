-- ===== src/Lock/Safety.antt =====
-- However the threads are interleaved, a writer excludes all others, and no check of the lock fails.
use pgasus.Common.{
  ℕ, zero, suc, ◌+◌, ◌≤◌, ◌<◌, ◌≡◌, sym, ◌∙◌, List, [], ◌∷◌, ltb, length, length-set,
  length-replicate, get_or, set, arith, sum_by, sum_by-le, sum_by-replicate, sum_by-one, Bool-cases,
  inl, inr, ltb→lt,
}
use pgasus.Lock.{flag_write, Pc, Choice, step, System, start, move, run}
use pgasus.Lock.Word.{counted, flagged, alone, broken, is_reading, is_writing, Word, step-After}

-- The numbers of a system.
record IsSafe (n : ℕ) (s : System) : Type 0 where
  pub width : length s.threads ≡ n
  pub word :
      Word s.value
        (sum_by counted s.threads)
        (sum_by flagged s.threads)
        (sum_by alone s.threads)
        (sum_by broken s.threads)

-- What the numbers of one thread are to one another.
counted-alone-le :
    (p : Pc)
    → (counted p ≤ 1)
      × (alone p ≤ flagged p)
      × (is_writing p ≤ alone p)
      × (is_reading p ≤ counted p)
counted-alone-le Pc.idle = (omega arith, omega arith, omega arith, omega arith)
counted-alone-le (Pc.read_loop old) = (omega arith, omega arith, omega arith, omega arith)
counted-alone-le Pc.read_check = (omega arith, omega arith, omega arith, omega arith)
counted-alone-le Pc.reading = (omega arith, omega arith, omega arith, omega arith)
counted-alone-le Pc.read_leave = (omega arith, omega arith, omega arith, omega arith)
counted-alone-le Pc.read_dec = (omega arith, omega arith, omega arith, omega arith)
counted-alone-le (Pc.write_loop old) = (omega arith, omega arith, omega arith, omega arith)
counted-alone-le Pc.write_drain = (omega arith, omega arith, omega arith, omega arith)
counted-alone-le Pc.write_check = (omega arith, omega arith, omega arith, omega arith)
counted-alone-le Pc.writing = (omega arith, omega arith, omega arith, omega arith)
counted-alone-le Pc.write_leave = (omega arith, omega arith, omega arith, omega arith)
counted-alone-le Pc.write_store = (omega arith, omega arith, omega arith, omega arith)
counted-alone-le Pc.failed = (omega arith, omega arith, omega arith, omega arith)

start-IsSafe : (n : ℕ) → n < flag_write → IsSafe n (start n)
unfolding start
start-IsSafe n h = record {
  width = length-replicate n Pc.idle;
  word =
      rw
        (
          sum_by-replicate counted n Pc.idle,
          sum_by-replicate flagged n Pc.idle,
          sum_by-replicate alone n Pc.idle,
          sum_by-replicate broken n Pc.idle,
        )
        (record {
          few = omega arith;
          sum = omega arith;
          one = omega arith;
          part = omega arith;
          quiet = λ p. omega arith;
          well = omega arith;
        });
}

-- The sum over the other threads.
others : (Pc → ℕ) → List Pc → ℕ → ℕ
others f [] i = 0
others f (x ∷ ps) zero = sum_by f ps
others f (x ∷ ps) (suc i) = f x + others f ps i

others_lem :
    (f : Pc → ℕ) (ps : List Pc) (i : ℕ)
    → i < length ps
    → (sum_by f ps ≡ others f ps i + f (get_or ps i Pc.idle))
      × ((p : Pc) → sum_by f (set ps i p) ≡ others f ps i + f p)
unfolding sum_by others
others_lem f [] i h = absurd (omega arith)
others_lem f (x ∷ ps) zero h = (omega arith, λ p. omega arith)
others_lem f (x ∷ ps) (suc i) h =
    let (e, s) = others_lem f ps i (omega arith) in (omega (arith, e), λ p. omega (arith, s p))

others-le :
    (f g : Pc → ℕ) → ((p : Pc) → f p ≤ g p) → (ps : List Pc) (i : ℕ) → others f ps i ≤ others g ps i
unfolding others
others-le f g h [] i = omega arith
others-le f g h (x ∷ ps) zero = sum_by-le f g h ps
others-le f g h (x ∷ ps) (suc i) = omega (arith, h x, others-le f g h ps i)

move-IsSafe :
    (n i : ℕ) (c : Choice) (s : System) → n < flag_write → IsSafe n s → IsSafe n (move i c s)
unfolding move
move-IsSafe n i c s few v = elim (Bool-cases (ltb i (length s.threads))) [
  | inr e ↦ rw e v
  | inl e ↦
      let h = ltb→lt i _ e in
      let ps = s.threads in
      let (er, sr) = others_lem counted ps i h in
      let (ew, sw) = others_lem flagged ps i h in
      let (ea, sa) = others_lem alone ps i h in
      let (eb, sb) = others_lem broken ps i h in
      let (en, sn) = others_lem (λ p. 1) ps i h in
      let room : others counted ps i + 1 < flag_write = omega (
        arith,
        others-le counted (λ p. 1) (λ p. (counted-alone-le p).0) ps i,
        en,
        sum_by-one ps,
        v.width,
        few,
      ) in
      let t = step c s.value (get_or ps i Pc.idle) in
      let after =
        step-After c s.value (get_or ps i Pc.idle) (others counted ps i) (others flagged ps i)
          (others alone ps i) (others broken ps i) room
          (others-le alone flagged (λ p. (counted-alone-le p).1) ps i)
          (rw (sym er, sym ew, sym ea, sym eb) v.word) in
      rw e (record {
        width = length-set ps i t.1 ∙ v.width;
        word = rw (sr t.1, sw t.1, sa t.1, sb t.1) after;
      })
]

run-IsSafe :
    (n : ℕ) (ms : List (ℕ × Choice)) (s : System)
    → n < flag_write
    → IsSafe n s
    → IsSafe n (run ms s)
unfolding run
run-IsSafe n [] s few v = v
run-IsSafe n ((i, c) ∷ ms) s few v = run-IsSafe n ms (move i c s) few (move-IsSafe n i c s few v)

-- Whatever the schedule of fewer than 2 ^ 30 threads that share a new lock: at most one thread holds
-- it for writing, none holds it for reading then, and no check or assertion of the lock fails.
pub run-exclusive :
    (n : ℕ) (ms : List (ℕ × Choice))
    → n < flag_write
    → (sum_by is_writing (run ms (start n)).threads ≤ 1)
      × (0 < sum_by is_writing (run ms (start n)).threads
          → sum_by is_reading (run ms (start n)).threads ≡ 0)
      × (sum_by broken (run ms (start n)).threads ≡ 0)
run-exclusive n ms h =
    let s = run ms (start n) in
    let w = (run-IsSafe n ms (start n) h (start-IsSafe n h)).word in
    let writers = sum_by-le is_writing alone (λ p. (counted-alone-le p).2) s.threads in
    let readers = sum_by-le is_reading counted (λ p. (counted-alone-le p).3) s.threads in
    (
      omega (arith, w.one, w.part, writers),
      λ p. omega (arith, w.quiet (omega (arith, p, writers)), readers),
      w.well,
    )
