-- ===== src/Scheduler/Tests.antt =====
-- A run of `SQKScheduler` (src/core/core.hpp) with two coroutines: the first makes the second ready, and
-- the second stops the scheduler.
use sqkio.Common.{ℕ, ◌+◌, ◌≡◌, refl, false, ◌==◌, if◌then◌else◌, List, [], ◌∷◌, ◌++◌, arith}
use sqkio.Outcome.{ok}
use sqkio.Queue
use sqkio.Ring.Elements.{scale}
use sqkio.Ring.Calls.Valid.{IsValid}
use sqkio.Scheduler.{SqkScheduler, Act, spawn, halt, run}
use sqkio.Scheduler.Refine.{outside, queue_run, queue_perform, run_resumes}
use sqkio.Scheduler.Returns.{run_returns}

-- The state outside lists the handles that were resumed.
abbrev resume : ℕ → List ℕ → List (Act ℕ) × List ℕ
resume handle resumed = (if handle == 1 then spawn 2 ∷ [] else halt ∷ [], resumed ++ handle ∷ [])

-- The first is in the queue.
abbrev one_ready : SqkScheduler ℕ
one_ready = record {
  stopped = false;
  queue = record {
    size = 4;
    mask = 3;
    capacity = 3;
    htd_max = 0;
    memzone_size = 512;
    prod = record { head = 1; tail = 1 };
    cons = record { head = 0; tail = 0 };
    mem = λ q. 1;
  };
}

one_ready-IsValid : IsValid 8 2 one_ready.queue
unfolding scale
one_ready-IsValid = omega arith

run_resumes_example : outside 2 0 resume (run 1 resume 5 0 [] one_ready) ≡ ok (1 ∷ 2 ∷ [])
unfolding queue_run queue_perform Queue.push Queue.pop scale
run_resumes_example = run_resumes 2 0 resume 5 0 [] one_ready one_ready-IsValid

-- The second coroutine alone, behind the first in the queue.
abbrev two_ready : SqkScheduler ℕ
two_ready = record {
  stopped = false;
  queue = record one_ready.queue { prod = record { head = 2; tail = 2 }; mem = λ q. q + 1 };
}

two_ready-IsValid : IsValid 8 2 two_ready.queue
unfolding scale
two_ready-IsValid = omega arith

run_returns_example : (h' : List ℕ) × (outside 2 0 resume (run 1 resume 2 0 [] two_ready) ≡ ok h')
unfolding scale
run_returns_example =
    run_returns 2 0 resume 2 (λ h. tt) ((1 ∷ []) ∷ []) [] 0 [] two_ready two_ready-IsValid refl refl
