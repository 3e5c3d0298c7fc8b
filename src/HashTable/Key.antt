-- ===== src/HashTable/Key.antt =====
-- The template parameters `Key` and `Hash` of HashTable (include/PGASUS/hashtable/hashtable.hpp):
-- `==` decides equality of keys, and `Hash` maps a key to a 64-bit number.
use pgasus.Common.{ℕ, ◌≡◌, sym, ◌↔◌, Bool, true, arith}

pub record Key {ℓ} (K : Type ℓ) : Type ℓ where
  pub beq : K → K → Bool
  pub beq_iff : (a b : K) → (beq a b ≡ true) ↔ (a ≡ b)
  pub hash : K → ℕ

module _ {ℓ} {K : Type ℓ} ⦃key : Key K⦄ where
  infix 50 ◌=?◌
  abbrev pub ◌=?◌ : K → K → Bool
  a =? b = key.beq a b

  pub =?_refl : (a : K) → (a =? a) ≡ true
  =?_refl a = (key.beq_iff a a).1 (λ i. a)

  pub =?_symm : (a b : K) → a =? b ≡ b =? a
  =?_symm a b = ground (
    arith,
    λ (h : (a =? b) ≡ true). (key.beq_iff b a).1 (sym ((key.beq_iff a b).0 h)),
    λ (h : (b =? a) ≡ true). (key.beq_iff a b).1 (sym ((key.beq_iff b a).0 h)),
  )

  pub =?_congr : (a b c : K) → (a =? b) ≡ true → a =? c ≡ b =? c
  =?_congr a b c h = rw ((key.beq_iff a b).0 h)

  pub hash_congr : (a b : K) → (a =? b) ≡ true → key.hash a ≡ key.hash b
  hash_congr a b h = rw ((key.beq_iff a b).0 h)

  pub =?_right : (a b c : K) → (a =? b) ≡ true → c =? b ≡ c =? a
  =?_right a b c h = rw ((key.beq_iff a b).0 h)
