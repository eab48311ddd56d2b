-- ===== src/Task/Reach.antt =====
-- The worlds that the scheduler and the events of a program over src/core/core.hpp can reach, with
-- assertions on.
pub mod Callers
use sqkio.Common.{ℕ, ◌≡◌, ◌≢◌, true}
use sqkio.Common.Update.{update}
use sqkio.Outcome.{Outcome, ok, ◌>>=◌}
use sqkio.Ring.{Ring}
use sqkio.Ring.Copy.{Mem}
use sqkio.Ring.Calls
use sqkio.Scheduler.{mpsc_ring, variable}
use sqkio.Awaker.{wake}
use sqkio.Task.{Point, initial, at_task, Caller, null, World, resume, run, enqueue_task, Body}
use sqkio.Task.Links.{AtTask}

-- Every step of a round of `SQKScheduler::run` and between two rounds: a task that has no caller is
-- enqueued, the scheduler finds its queue empty, or takes a frame and resumes it, an event wakes an
-- awaker. Any frame that the queue gives is resumed, as the loop does: also one that an awaker woken
-- twice has enqueued twice, and that now waits for something else.
pub data Reachable {V E : Type 0} (after_destroy : V → Outcome V) (moved_from : V → V) (fuel : ℕ)
    : World V E → Type 0 where
  started :
      (w : World V E)
      → ((h : ℕ) → (body : Body V E) × (w.point h ≡ initial body))
      → ((h : ℕ) → w.caller h ≡ null)
      → Reachable after_destroy moved_from fuel w
  enqueued :
      (t : ℕ) (w w' : World V E)
      → Reachable after_destroy moved_from fuel w
      → w.caller t ≡ null
      → enqueue_task fuel t w ≡ ok w'
      → Reachable after_destroy moved_from fuel w'
  idle :
      (last : ℕ) (out : Mem ℕ) (queue : Ring ℕ) (w : World V E)
      → Reachable after_destroy moved_from fuel w
      → Calls.dequeue mpsc_ring fuel (variable last) w.scheduler.queue ≡ ok (0, out, queue)
      → Reachable after_destroy moved_from fuel
          (record w { scheduler = record w.scheduler { queue = queue } })
  resumed :
      (depth last : ℕ) (out : Mem ℕ) (queue : Ring ℕ) (w w' : World V E)
      → Reachable after_destroy moved_from fuel w
      → Calls.dequeue mpsc_ring fuel (variable last) w.scheduler.queue ≡ ok (1, out, queue)
      → run after_destroy moved_from true fuel depth
          (resume (out 0))
          (record w { scheduler = record w.scheduler { queue = queue } })
        ≡ ok w'
      → Reachable after_destroy moved_from fuel w'
  woken :
      (a : ℕ) (v : V) (w w' : World V E)
      → Reachable after_destroy moved_from fuel w
      → (wake moved_from fuel v (w.awaker a) w.scheduler >>= λ (b, s).
          ok (record w { awaker = update w.awaker a b; scheduler = s }))
        ≡ ok w'
      → Reachable after_destroy moved_from fuel w'
