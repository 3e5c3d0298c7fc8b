-- ===== src/Msource/Counter.antt =====
-- `BlockCount`: the blocks and the references of a source in one atomic word.
use pgasus.Common.{
  zero, suc, ltb, if◌then◌else◌, ◌>>=◌, ℕ, ◌+◌, ◌-◌, ◌*◌, ◌/◌, ◌%◌, ◌^◌, ◌<◌, ◌≡◌, refl, ◌∙◌, Bool,
  false, ◌&&◌, List, [], ◌∷◌, arith, ◌==◌, bit_and, bit_and-mask, Option, none, some, Option-cases,
  inl, inr,
}
use pgasus.Msource.Align.{word}

abbrev pub block_bits : ℕ
block_bits = 40

abbrev pub ref_bits : ℕ
ref_bits = 64 - block_bits

abbrev pub block_mask : ℕ
block_mask = 2 ^ block_bits - 1

-- The word of a new source.
abbrev pub new_count : ℕ
new_count = 0

abbrev pub blocks : ℕ → ℕ
blocks v = bit_and v block_mask

abbrev pub refs : ℕ → ℕ
refs v = v / 2 ^ block_bits

-- `fetch_add` and `fetch_sub` wrap around. The first result is the new word, the second the answer.
abbrev fetch_add : ℕ → ℕ → ℕ
fetch_add v d = (v + d) % word

abbrev pub is_last_deref : ℕ → ℕ → ℕ × Bool
is_last_deref v d = ((v + (word - d)) % word, v == d)

unfoldable pub ref : ℕ → ℕ
ref v = fetch_add v (2 ^ block_bits)

unfoldable pub deref : ℕ → ℕ × Bool
deref v = is_last_deref v (2 ^ block_bits)

unfoldable pub add_block : ℕ → ℕ
add_block v = fetch_add v 1

unfoldable pub remove_block : ℕ → ℕ × Bool
remove_block v = is_last_deref v 1

-- The calls of the four operations. An answer `true` tells the caller to destroy the source.
pub data Call : Type 0 where
  ref_it : Call
  deref_it : Call
  add_it : Call
  remove_it : Call

unfoldable pub call : Call → ℕ → ℕ × Bool
call Call.ref_it v = (ref v, false)
call Call.deref_it v = deref v
call Call.add_it v = (add_block v, false)
call Call.remove_it v = remove_block v

-- The last word, and the answers in order.
unfoldable pub calls : List Call → ℕ → ℕ × List Bool
calls [] v = (v, [])
calls (c ∷ cs) v =
    let (v', last) = call c v in let (w, answers) = calls cs v' in (w, last ∷ answers)

-- The two numbers that the word stands for: no call takes back what is not there, and neither number
-- outgrows its bits.
unfoldable pub count_call : Call → ℕ × ℕ → Option (ℕ × ℕ)
count_call Call.ref_it (b, r) = if ltb (suc r) (2 ^ ref_bits) then some (b, suc r) else none
count_call Call.deref_it (b, zero) = none
count_call Call.deref_it (b, suc r) = some (b, r)
count_call Call.add_it (b, r) = if ltb (suc b) (2 ^ block_bits) then some (suc b, r) else none
count_call Call.remove_it (zero, r) = none
count_call Call.remove_it (suc b, r) = some (b, r)

-- The numbers after the calls, and after which of them both numbers were zero.
unfoldable pub count_calls : List Call → ℕ × ℕ → Option ((ℕ × ℕ) × List Bool)
count_calls [] n = some (n, [])
count_calls (c ∷ cs) n = do
  n' ← count_call c n
  (m, answers) ← count_calls cs n'
  some (m, (n'.0 == 0 && n'.1 == 0) ∷ answers)

-- A word with these numbers.
abbrev pub IsCount : ℕ → ℕ × ℕ → Type 0
IsCount v (b, r) = (v ≡ b + r * 2 ^ block_bits) × (b < 2 ^ block_bits) × (r < 2 ^ ref_bits)

-- One call on such a word.
call-IsCount :
    (c : Call) (v : ℕ) (n n' : ℕ × ℕ)
    → IsCount v n
    → count_call c n ≡ some n'
    → IsCount (call c v).0 n' × ((call c v).1 ≡ (n'.0 == 0 && n'.1 == 0))
unfolding call count_call ref deref add_block remove_block
call-IsCount Call.ref_it v (b, r) (b', r') i e = ground arith
call-IsCount Call.deref_it v (b, zero) (b', r') i e = ground arith
call-IsCount Call.deref_it v (b, suc r) (b', r') i e = ground arith
call-IsCount Call.add_it v (b, r) (b', r') i e = ground arith
call-IsCount Call.remove_it v (zero, r) (b', r') i e = ground arith
call-IsCount Call.remove_it v (suc b, r) (b', r') i e = ground arith

calls-from :
    (cs : List Call) (v : ℕ) (n m : ℕ × ℕ) (answers : List Bool)
    → IsCount v n
    → count_calls cs n ≡ some (m, answers)
    → IsCount (calls cs v).0 m × ((calls cs v).1 ≡ answers)
unfolding calls count_calls
calls-from [] v n m answers i e = ground (arith, e, i)
calls-from (c ∷ cs) v n m answers i e = elim (Option-cases (count_call c n)) [
  | inl none_c ↦ absurd (ground (arith, none_c, e))
  | inr (n', some_n') ↦
      let (i', last) = call-IsCount c v n n' i some_n' in
      elim (Option-cases (count_calls cs n')) [
        | inl none_cs ↦ absurd (ground (arith, some_n', none_cs, e))
        | inr ((m1, told), rest) ↦
            let (j, es) = calls-from cs (call c v).0 n' m1 told i' rest in
            ground (arith, some_n', rest, j, es, e, last)
      ]
]

-- Any calls on the word of a new source that never take back a block or a reference that is not there
-- and stay below 2^40 blocks and 2^24 references: the word holds the two numbers, and a caller is
-- told to destroy the source exactly when its call makes both of them zero.
pub calls-counted :
    (cs : List Call) (m : ℕ × ℕ) (answers : List Bool)
    → count_calls cs (0, 0) ≡ some (m, answers)
    → (blocks (calls cs new_count).0 ≡ m.0)
      × (refs (calls cs new_count).0 ≡ m.1)
      × ((calls cs new_count).1 ≡ answers)
calls-counted cs m answers e =
    let (i, told) = calls-from cs new_count (0, 0) m answers (refl, omega arith, omega arith) e in
    (bit_and-mask block_bits (calls cs new_count).0 ∙ omega (arith, i), omega (arith, i), told)

pub add_block-IsCount :
    (v b r : ℕ) → IsCount v (b, r) → suc b < 2 ^ block_bits → IsCount (add_block v) (suc b, r)
unfolding add_block
add_block-IsCount v b r i room = ground (arith, i, room)

pub remove_block-IsCount :
    (v b r : ℕ)
    → IsCount v (suc b, r)
    → IsCount (remove_block v).0 (b, r) × ((remove_block v).1 ≡ (b == 0 && r == 0))
unfolding count_call call
remove_block-IsCount v b r i = call-IsCount Call.remove_it v (suc b, r) (b, r) i refl

pub deref-IsCount :
    (v b r : ℕ)
    → IsCount v (b, suc r)
    → IsCount (deref v).0 (b, r) × ((deref v).1 ≡ (b == 0 && r == 0))
unfolding count_call call
deref-IsCount v b r i = call-IsCount Call.deref_it v (b, suc r) (b, r) i refl

pub ref-IsCount : (v b r : ℕ) → IsCount v (b, r) → suc r < 2 ^ ref_bits → IsCount (ref v) (b, suc r)
unfolding ref
ref-IsCount v b r i room = ground (arith, i, room)

-- The parts of the word.
pub blocks-IsCount : (v b r : ℕ) → IsCount v (b, r) → blocks v ≡ b
blocks-IsCount v b r i = bit_and-mask block_bits v ∙ omega (arith, i)

pub refs-IsCount : (v b r : ℕ) → IsCount v (b, r) → refs v ≡ r
refs-IsCount v b r i = omega (arith, i)
