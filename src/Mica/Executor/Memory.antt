-- ===== src/Mica/Executor/Memory.antt =====
-- pkg/libmica/resource_manager.go: the memory threshold covers the memory and never falls.
use micrun.Prelude.{ℕ, ◌≤◌, ◌<◌, ◌≡◌, Bool, true, false, List, Bytes, arith, ◌⊎◌}
use micrun.Mica.Command.{MicaCommand}
use micrun.Mica.Executor.{
  Executor, new_executor, current_max_mem, record_memory_state, update_memory_threshold,
  update_memory, ensure_memory_limit,
}

-- What the comments promise: the threshold is never below the memory, which is a uint32.
pub record Covers (me : Executor) : Type 0 where
  pub covered : me.memory_mb ≤ me.memory_threshold_mb
  pub fits : me.memory_threshold_mb < 4294967296

pub new_executor-Covers : (id : Bytes) → Covers (new_executor id)
unfolding new_executor
new_executor-Covers id = record { covered = omega arith; fits = omega arith }

-- RecordMemoryState keeps the threshold above the memory if its caller does.
pub record_memory_state-Covers :
    (current threshold : ℕ) (me : Executor)
    → Covers me
    → current < 4294967296
    → threshold < 4294967296
    → (threshold ≡ 0) ⊎ (current ≤ threshold)
    → Covers (record_memory_state current threshold me)
unfolding record_memory_state
record_memory_state-Covers current threshold me v c t h = ground arith

-- What a step does to the memory and its threshold.
pub record Grows (me me' : Executor) : Type 0 where
  pub covers : Covers me'
  pub grows : me.memory_threshold_mb ≤ me'.memory_threshold_mb

module _ {W : Type 0} (ctl : MicaCommand → Bytes → List Bytes → W → W × Bool) where
  update_memory_threshold-Grows :
      (mb : ℕ) (me : Executor) (w : W)
      → Covers me
      → mb < 4294967296
      → Grows me (update_memory_threshold ctl mb me w).1
  unfolding update_memory_threshold
  update_memory_threshold-Grows mb me w v h = ground arith

  update_memory-Grows :
      (mb : ℕ) (me : Executor) (w : W)
      → Covers me
      → mb < 4294967296
      → Grows me (update_memory ctl mb me w).1
  unfolding update_memory
  update_memory-Grows mb me w v h = ground arith

  -- For a target of 32 bits and a record whose threshold covers its memory: EnsureMemoryLimit keeps
  -- it so and never lowers the threshold, also if micad fails half way. Without an error the memory is
  -- the one asked for, and the threshold at least that; with one the memory is as before.
  pub ensure_memory_limit_lem :
      (target : ℕ) (me : Executor) (w : W)
      → Covers me
      → target < 4294967296
      → let r = ensure_memory_limit ctl target me w in
        Grows me r.1
        × (r.2 ≡ true → (current_max_mem r.1 ≡ target) × (target ≤ r.1.memory_threshold_mb))
        × (r.2 ≡ false → r.1.memory_mb ≡ me.memory_mb)
  unfolding ensure_memory_limit current_max_mem
  ensure_memory_limit_lem target me w v h = (ground arith, λ e. ground arith, λ e. ground arith)
