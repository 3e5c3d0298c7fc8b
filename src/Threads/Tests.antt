-- ===== src/Threads/Tests.antt =====
-- The theorems on threads at a manager of two cores.
use pgasus.Common.{
  ℕ, ◌≤◌, ◌<◌, ◌≡◌, refl, true, false, none, some, [], ◌∷◌, ◌++◌, ◌==◌, if◌then◌else◌, ltb, length,
  get_or, replicate, count, arith, inl,
}
use pgasus.Threads.{State, Manager, register_thread, deregister_all, cpu_to_idx}
use pgasus.Threads.Registering.{register_thread-shortest}
use pgasus.Threads.Ending.{Started, ended, all_threads, deregister_all-ended}

-- Thread 7 runs on core 0, which is processor 4; all others are new.
abbrev manager : Manager
manager = record {
  cpu_set = 4 ∷ 5 ∷ [];
  cpu_threads = (7 ∷ []) ∷ [] ∷ [];
  store = λ t.
      if t == 7
      then record { state = State.running; cpuid = 4; managed = true }
      else record { state = State.created; cpuid = 0; managed = false };
}

register_thread-shortest_example :
    (m' : Manager) × (core : ℕ) × (register_thread 8 none manager ≡ some (m', core))
    × (core < length manager.cpu_threads)
    × ((j : ℕ)
        → j < length manager.cpu_threads
        → length (get_or manager.cpu_threads core []) ≤ length (get_or manager.cpu_threads j []))
    × ((j : ℕ)
        → get_or m'.cpu_threads j [] ≡ (
            if core == j
            then get_or manager.cpu_threads core [] ++ 8 ∷ []
            else get_or manager.cpu_threads j []))
    × ((u : ℕ)
        → m'.store u ≡ (
            if 8 == u
            then record {
              state = State.running;
              cpuid = get_or manager.cpu_set core 0;
              managed = true;
            }
            else manager.store u))
register_thread-shortest_example = register_thread-shortest 8 manager refl (omega arith)

listed_once : (t : ℕ) → count t (all_threads manager.cpu_threads) ≤ 1
unfolding count all_threads
listed_once t = ground arith

listed_Started : (t : ℕ) → 0 < count t (all_threads manager.cpu_threads) → Started (manager.store t)
unfolding count all_threads Started
listed_Started t p = inl (ground arith)

deregister_all-ended_example :
    (m' : Manager) × (deregister_all manager ≡ some m')
    × (m'.cpu_threads ≡ replicate (length manager.cpu_threads) [])
    × ((t : ℕ)
        → m'.store t ≡ (
            if ltb 0 (count t (all_threads manager.cpu_threads))
            then ended (manager.store t)
            else manager.store t))
deregister_all-ended_example = deregister_all-ended manager listed_once listed_Started

listed_seven : 0 < count 7 (all_threads manager.cpu_threads)
unfolding count all_threads
listed_seven = omega arith

processor_core : cpu_to_idx (manager.store 7).cpuid 0 manager.cpu_set ≡ some 0
unfolding cpu_to_idx
processor_core = refl

on_core : 0 < count 7 (get_or manager.cpu_threads 0 [])
unfolding count
on_core = omega arith
