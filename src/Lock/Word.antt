-- ===== src/Lock/Word.antt =====
-- What the word of the lock says of the threads, and what a step of one thread makes of it.
use pgasus.Common.{
  ℕ, ◌+◌, ◌*◌, ◌≤◌, ◌<◌, ◌≡◌, bit_and, bit_and-flag, bit_or-flag, false, not, ◌||◌, ◌==◌, arith,
  if_intro,
}
use pgasus.Lock.{flag_write, Pc, Choice, is_spurious, has_flag, bad_read, step}

-- Whether a thread is counted in the word, has set the flag, has seen the flag alone, and has failed.
abbrev pub counted : Pc → ℕ
counted Pc.read_check = 1
counted Pc.reading = 1
counted Pc.read_leave = 1
counted Pc.read_dec = 1
counted _ = 0

abbrev pub flagged : Pc → ℕ
flagged Pc.write_drain = 1
flagged Pc.write_check = 1
flagged Pc.writing = 1
flagged Pc.write_leave = 1
flagged Pc.write_store = 1
flagged _ = 0

abbrev pub alone : Pc → ℕ
alone Pc.write_check = 1
alone Pc.writing = 1
alone Pc.write_leave = 1
alone Pc.write_store = 1
alone _ = 0

abbrev pub broken : Pc → ℕ
broken Pc.failed = 1
broken _ = 0

-- Whether a thread holds the lock for reading, or for writing.
abbrev pub is_reading : Pc → ℕ
is_reading Pc.reading = 1
is_reading _ = 0

abbrev pub is_writing : Pc → ℕ
is_writing Pc.writing = 1
is_writing _ = 0

-- The invariant, of the word and the four numbers.
pub record Word (v r w a b : ℕ) : Type 0 where
  pub few : r < flag_write
  pub sum : v ≡ r + w * flag_write
  pub one : w ≤ 1
  pub part : a ≤ w
  pub quiet : 0 < a → r ≡ 0
  pub well : b ≡ 0

-- The invariant for the outcome of a step of one thread, where the others contribute the four numbers.
abbrev pub After : ℕ → ℕ → ℕ → ℕ → ℕ × Pc → Type 0
After r w a b (v, p) = Word v (r + counted p) (w + flagged p) (a + alone p) (b + broken p)

-- A compare and exchange that succeeds finds the flag unset, in the value itself.
exchanged :
    (c : Choice) (v old : ℕ)
    → (has_flag old || is_spurious c || not (v == old)) ≡ false
    → (bit_and v flag_write ≡ 0) × (v ≡ old)
exchanged c v old e = (ground arith, ground arith)

unflagged :
    (v r w : ℕ) → bit_and v flag_write ≡ 0 → v ≡ r + w * flag_write → r < flag_write → w ≤ 1 → w ≡ 0
unflagged v r w e s f o = omega (arith, bit_and-flag 30 v, e, s, f, o)

pub step-After :
    (c : Choice) (v : ℕ) (p : Pc) (r w a b : ℕ)
    → r + 1 < flag_write
    → a ≤ w
    → After r w a b (v, p)
    → After r w a b (step c v p)
unfolding step
step-After Choice.go_on v Pc.idle r w a b h g i = i
step-After Choice.spurious v Pc.idle r w a b h g i = i
step-After Choice.to_write v Pc.idle r w a b h g i = i
step-After c v (Pc.read_loop old) r w a b h g i =
    if_intro {A = ℕ × Pc} (After r w a b) (has_flag old || is_spurious c || not (v == old)) (λ e. i)
      (λ e.
        let (free, same) = exchanged c v old e in
        let none : w + 0 ≡ 0 = unflagged v (r + 0) (w + 0) free i.sum i.few i.one in
        record {
          few = h;
          sum = omega (arith, i.sum, same, none, h);
          one = i.one;
          part = i.part;
          quiet = λ p. absurd (omega (arith, i.part, none, p));
          well = i.well;
        })
step-After c v Pc.read_check r w a b h g i =
    if_intro {A = ℕ × Pc} (After r w a b) (bad_read v)
      (λ e. absurd (ground (arith, i.sum, i.few, i.one))) (λ e. i)
step-After c v Pc.reading r w a b h g i = i
step-After c v Pc.read_leave r w a b h g i =
    if_intro {A = ℕ × Pc} (After r w a b) (bad_read v)
      (λ e. absurd (ground (arith, i.sum, i.few, i.one))) (λ e. i)
step-After c v Pc.read_dec r w a b h g i = record {
  few = omega (arith, i.few);
  sum = omega (arith, i.sum, i.few, i.one);
  one = i.one;
  part = i.part;
  quiet = λ p. absurd (omega (arith, i.quiet p));
  well = i.well;
}
step-After c v (Pc.write_loop old) r w a b h g i =
    if_intro {A = ℕ × Pc} (After r w a b) (has_flag old || is_spurious c || not (v == old)) (λ e. i)
      (λ e.
        let (free, same) = exchanged c v old e in
        let none : w + 0 ≡ 0 = unflagged v (r + 0) (w + 0) free i.sum i.few i.one in
        record {
          few = i.few;
          sum = omega (
            arith,
            bit_or-flag 30 old (omega (arith, i.sum, same, none, h)),
            i.sum,
            same,
            none,
            h,
          );
          one = omega (arith, none);
          part = omega (arith, i.part, none);
          quiet = λ p. absurd (omega (arith, i.part, none, p));
          well = i.well;
        })
step-After c v Pc.write_drain r w a b h g i =
    if_intro {A = ℕ × Pc} (After r w a b) (v == flag_write)
      (λ e. record {
        few = i.few;
        sum = i.sum;
        one = i.one;
        part = omega (arith, g);
        quiet = λ p. ground (arith, i.sum, i.few, i.one);
        well = i.well;
      })
      (λ e. i)
step-After c v Pc.write_check r w a b h g i =
    if_intro {A = ℕ × Pc} (After r w a b) (v == flag_write) (λ e. i)
      (λ e. absurd (ground (arith, i.sum, i.quiet, i.one)))
step-After c v Pc.writing r w a b h g i = i
step-After c v Pc.write_leave r w a b h g i =
    if_intro {A = ℕ × Pc} (After r w a b) (v == flag_write) (λ e. i)
      (λ e. absurd (ground (arith, i.sum, i.quiet, i.one)))
step-After c v Pc.write_store r w a b h g i = record {
  few = i.few;
  sum = omega (arith, i.sum, i.one, i.quiet (omega arith));
  one = omega (arith, i.one);
  part = omega (arith, i.one, i.part, g);
  quiet = λ p. i.quiet (omega arith);
  well = i.well;
}
step-After c v Pc.failed r w a b h g i = i
