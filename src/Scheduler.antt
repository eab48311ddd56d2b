-- ===== src/Scheduler.antt =====
-- `SQKScheduler` of src/core/core.hpp over an `MpscRing` of coroutine handles. A handle is one word
-- of 8 bytes. What a resumed coroutine does until it suspends is a parameter: the calls that it
-- makes on the scheduler, and its effect on a state of its own.
pub mod Refine
pub mod Returns
pub mod Ready
mod Tests
use sqkio.Common.{ℕ, zero, suc, Bool, true, false, ◌==◌, List, [], ◌∷◌}
use sqkio.Outcome.{Outcome, ok, hang, ◌>>=◌}
use sqkio.Ring.{Config, Ring, mt, st}
use sqkio.Ring.Copy.{Mem}
use sqkio.Ring.Calls

-- `MpscRing<std::coroutine_handle<>>`
abbrev pub mpsc_ring : Config
mpsc_ring = record {
  prod_sync = mt;
  cons_sync = st;
  transactional_prod = false;
  transactional_cons = false;
  esize = 8;
}

-- The memory of a local variable that holds a handle.
abbrev pub variable : {W : Type 0} → W → Mem W
variable handle q = handle

pub record SqkScheduler (W : Type 0) : Type 0 where
  pub stopped : Bool
  pub queue : Ring W

-- The calls of a coroutine on the scheduler.
pub data Act (W : Type 0) : Type 0 where
  spawn : W → Act W
  halt : Act W

module _ {W : Type 0} (fuel : ℕ) where
  -- The count that the ring's `enqueue` returns is dropped.
  unfoldable pub enqueue : W → SqkScheduler W → Outcome (ℕ × SqkScheduler W)
  enqueue handle s = Calls.enqueue mpsc_ring fuel (variable handle) s.queue >>= λ (n, queue).
      ok (0, record s { queue = queue })

  unfoldable pub stop : SqkScheduler W → SqkScheduler W
  stop s = record s { stopped = true }

  unfoldable pub perform : List (Act W) → SqkScheduler W → Outcome (SqkScheduler W)
  perform [] s = ok s
  perform (spawn handle ∷ acts) s = enqueue handle s >>= λ (rc, s'). perform acts s'
  perform (halt ∷ acts) s = perform acts (stop s)

  module _ {H : Type 0} (resume : W → H → List (Act W) × H) where
    -- The loop of `run`, `rounds` times at most; `handle` is its variable.
    unfoldable pub run : ℕ → W → H → SqkScheduler W → Outcome (H × SqkScheduler W)
    run zero handle h s = hang
    run (suc rounds) handle h s =
        Calls.dequeue mpsc_ring fuel (variable handle) s.queue >>= λ (n, out, queue).
        elim (n == 0) [
          | true ↦ run rounds (out 0) h (record s { queue = queue })
          | false ↦ perform (resume (out 0) h).0 (record s { queue = queue }) >>= λ s'.
              elim s'.stopped [
                | true ↦ ok ((resume (out 0) h).1, s')
                | false ↦ run rounds (out 0) (resume (out 0) h).1 s'
              ]
        ]
