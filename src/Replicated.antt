-- ===== src/Replicated.antt =====
-- include/PGASUS/msource/node_replicated.hpp: an object for each logical node, made by the first `get` for the
-- node. Threads call `get` and move one after the other, an access to the array or the lock at a time.
-- An object is a number, and the log has the nodes for which objects were made, the last first.
pub mod Steps
pub mod Single
pub mod Tests
use pgasus.Common.{
  ℕ, suc, Bool, true, false, Option, none, some, List, [], ◌∷◌, ltb, if◌then◌else◌, length, get_or,
  set, replicate,
}

-- Where a thread stands in `get` for a node: before the first test, at the lock, before the second test, at the
-- construction, at the assignment, at the unlock, and at the return; with an object after it. The
-- assertion may have failed, and the reference may be of a null pointer.
pub data Pc : Type 0 where
  idle : Pc
  test acquire retest construct : ℕ → Pc
  store : (n p : ℕ) → Pc
  release load : ℕ → Pc
  got : (n p : ℕ) → Pc
  failed null : Pc

-- `_global_lock` and `_global_data`, with the log.
pub record Shared : Type 0 where
  pub locked : Bool
  pub data_ : List (Option ℕ)
  pub log : List ℕ

-- The next access of a thread, which may call `get` for the node `t`.
unfoldable pub step : ℕ → Shared → Pc → Shared × Pc
step t s idle = if ltb t (length s.data_) then (s, Pc.test t) else (s, Pc.failed)
step t s (test n) = elim (get_or s.data_ n none) [
  | none ↦ (s, Pc.acquire n)
  | some p ↦ (s, Pc.load n)
]
step t s (acquire n) =
    if s.locked then (s, Pc.acquire n) else (record s { locked = true }, Pc.retest n)
step t s (retest n) = elim (get_or s.data_ n none) [
  | none ↦ (s, Pc.construct n)
  | some p ↦ (s, Pc.release n)
]
step t s (construct n) = (record s { log = n ∷ s.log }, Pc.store n (length s.log))
step t s (store n p) = (record s { data_ = set s.data_ n (some p) }, Pc.release n)
step t s (release n) = (record s { locked = false }, Pc.load n)
step t s (load n) = elim (get_or s.data_ n none) [ none ↦ (s, Pc.null) | some p ↦ (s, Pc.got n p) ]
step t s (got n p) = (s, Pc.idle)
step t s failed = (s, Pc.failed)
step t s null = (s, Pc.null)

pub record System : Type 0 where
  pub shared : Shared
  pub threads : List Pc

-- `NodeReplicated()` for a number of logical nodes.
unfoldable pub start : (threads nodes : ℕ) → System
start threads nodes = record {
  shared = record { locked = false; data_ = replicate nodes none; log = [] };
  threads = replicate threads Pc.idle;
}

-- The move of thread `i`.
unfoldable pub move : (i t : ℕ) → System → System
move i t s =
    if ltb i (length s.threads)
    then (let (sh, p) = step t s.shared (get_or s.threads i Pc.idle) in
        record { shared = sh; threads = set s.threads i p })
    else s

unfoldable pub run : List (ℕ × ℕ) → System → System
run [] s = s
run ((i, t) ∷ ms) s = run ms (move i t s)

-- `get_all_registered`.
unfoldable pub get_all_registered : List (Option ℕ) → List ℕ
get_all_registered [] = []
get_all_registered (none ∷ ds) = get_all_registered ds
get_all_registered (some p ∷ ds) = p ∷ get_all_registered ds
