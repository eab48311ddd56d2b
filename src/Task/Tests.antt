-- ===== src/Task/Tests.antt =====
-- Two coroutines of src/core/core.hpp: the first awaits the second, which waits for an event and then
-- ends.
use sqkio.Common.{ℕ, zero, suc, some, ◌≡◌, refl, false, true, ◌==◌, if◌then◌else◌, none}
use sqkio.Common.Update.{update}
use sqkio.Outcome.{Outcome, ok, hang, abort, ◌>>=◌}
use sqkio.Ring.Calls
use sqkio.Ring.Calls.{enqueue_mt, dequeue_mt}
use sqkio.Ring.Copy.{
  copy_elems, rounds, fall_through, to_end, up_to, unrolled, Mem, enqueue_elems_64,
  dequeue_elems_64,
}
use sqkio.Ring.Elements.{enqueue_elements, dequeue_elements}
use sqkio.Ring.Heads.{
  clip, prod_loop, move_prod_head, cons_loop, move_cons_head, update_tail, wait_until_equal_32,
}
use sqkio.Scheduler
use sqkio.Scheduler.{mpsc_ring, variable}
use sqkio.Awaker.{await_suspend, await_resume, wake}
use sqkio.Ring.{Ring}
use sqkio.Task.Paths.{WaitsFor}
use sqkio.Task.Links.{AtTask, Waits}
use sqkio.Task.Returned.AtOnce.{awaits_ended}
use sqkio.Task.Reach.Callers.{awaited_is_suspended, Waits-LeadsToEvent, LeadsToEvent}
use sqkio.Task.Reach.{Reachable, started, enqueued, resumed, woken}
use sqkio.Task.{
  Completion, returned, raised, Body, co_return, co_throw, await_task, await_event, Point, initial,
  at_task, at_event, running, final, destroyed, Caller, null, noop, frame, World, resume, exec,
  set_point, set_result, run, enqueue_task, step, resume_frame, exec_body, await_transform,
  first_run, task_await_resume,
}

-- The value that a read behind `destroy()` gives, and what a move leaves: zero.
abbrev erased : ℕ → Outcome ℕ
erased v = ok 0

abbrev zeroed : ℕ → ℕ
zeroed v = 0

abbrev done : Completion ℕ ℕ → Body ℕ ℕ
done (returned v) = co_return v
done (raised e) = co_throw e

abbrev two_tasks : World ℕ ℕ
two_tasks = record {
  point = λ h. initial (
      if h == 0
      then await_task 1 done
      else if h == 1
      then await_event 0 (λ v. co_return v)
      else co_return 7);
  caller = λ h. null;
  result = λ h. returned 0;
  is_void = λ h. false;
  awaker = λ a. record { handle = none; ret = 0 };
  scheduler = record {
    stopped = false;
    queue = record {
      size = 4;
      mask = 3;
      capacity = 3;
      htd_max = 0;
      memzone_size = 512;
      prod = record { head = 0; tail = 0 };
      cons = record { head = 0; tail = 0 };
      mem = λ q. 9;
    };
  };
}

abbrev world_or : World ℕ ℕ → Outcome (World ℕ ℕ) → World ℕ ℕ
world_or w (ok w') = w'
world_or w hang = w
world_or w abort = w

-- What the scheduler takes from the queue of a world, and the world behind it.
abbrev taken : World ℕ ℕ → ℕ × Mem ℕ × Ring ℕ
taken w = elim (Calls.dequeue mpsc_ring 1 (variable 9) w.scheduler.queue) [
  | ok t ↦ t
  | _ ↦ (0, (λ q. 9), w.scheduler.queue)
]

abbrev next_round : World ℕ ℕ → World ℕ ℕ
next_round w = world_or w (
    run erased zeroed true 1 6 (resume ((taken w).1 0))
      (record w { scheduler = record w.scheduler { queue = (taken w).2 } }))

abbrev event_comes : ℕ → World ℕ ℕ → World ℕ ℕ
event_comes v w = world_or w (
    wake zeroed 1 v (w.awaker 0) w.scheduler >>= λ (b, s).
    ok (record w { awaker = update w.awaker 0 b; scheduler = s }))

-- The first frame waits for the event 0, then for the second, then for the third; these wait for the
-- event 1. The event 0 comes twice before the scheduler's next round, so the first frame is resumed
-- while it waits for the second.
abbrev three_tasks : World ℕ ℕ
three_tasks = record two_tasks {
  point = λ h. initial (
      if h == 0
      then await_event 0 (λ v. await_task 1 (λ c. await_task 2 done))
      else await_event 1 (λ v. co_return v));
}

abbrev enqueued_once : World ℕ ℕ
enqueued_once = world_or three_tasks (enqueue_task 1 0 three_tasks)

abbrev woken_once : World ℕ ℕ
woken_once = event_comes 5 (next_round enqueued_once)

abbrev woken_twice : World ℕ ℕ
woken_twice = event_comes 6 woken_once

abbrev resumed_once : World ℕ ℕ
resumed_once = next_round woken_twice

abbrev resumed_twice : World ℕ ℕ
resumed_twice = next_round resumed_once

resumed_once_lem : AtTask 1 (resumed_once.point 0)
unfolding enqueue_task wake Scheduler.enqueue Calls.enqueue enqueue_mt move_prod_head prod_loop clip
    update_tail wait_until_equal_32 enqueue_elements enqueue_elems_64 copy_elems rounds fall_through
    to_end up_to unrolled Calls.dequeue dequeue_mt move_cons_head cons_loop dequeue_elements
    dequeue_elems_64 run step resume_frame exec_body await_transform first_run task_await_resume
    await_suspend await_resume
resumed_once_lem = refl

resumed_twice-Reachable : Reachable erased zeroed 1 resumed_twice
unfolding enqueue_task wake Scheduler.enqueue Calls.enqueue enqueue_mt move_prod_head prod_loop clip
    update_tail wait_until_equal_32 enqueue_elements enqueue_elems_64 copy_elems rounds fall_through
    to_end up_to unrolled Calls.dequeue dequeue_mt move_cons_head cons_loop dequeue_elements
    dequeue_elems_64 run step resume_frame exec_body await_transform first_run task_await_resume
    await_suspend await_resume
resumed_twice-Reachable =
    resumed 6 9 (taken resumed_once).1 (taken resumed_once).2 resumed_once resumed_twice
      (resumed 6 9 (taken woken_twice).1 (taken woken_twice).2 woken_twice resumed_once
        (woken 0 6 woken_once woken_twice
          (woken 0 5 (next_round enqueued_once) woken_once
            (resumed 6 9 (taken enqueued_once).1 (taken enqueued_once).2 enqueued_once
              (next_round enqueued_once)
              (enqueued 0 three_tasks enqueued_once
                (started three_tasks (λ h. (_, refl)) (λ h. refl)) refl refl)
              refl refl)
            refl)
          refl)
        refl refl)
      refl refl

resumed_twice_lem :
    AtTask 2 (resumed_twice.point 0)
    × Waits (resumed_twice.point 0)
    × (resumed_twice.caller 1 ≡ frame 0)
unfolding enqueue_task wake Scheduler.enqueue Calls.enqueue enqueue_mt move_prod_head prod_loop clip
    update_tail wait_until_equal_32 enqueue_elements enqueue_elems_64 copy_elems rounds fall_through
    to_end up_to unrolled Calls.dequeue dequeue_mt move_cons_head cons_loop dequeue_elements
    dequeue_elems_64 run step resume_frame exec_body await_transform first_run task_await_resume
    await_suspend await_resume
resumed_twice_lem = (refl, tt, refl)

awaited_is_suspended_example :
    (resumed_twice.caller 2 ≡ frame 0)
    × Waits (resumed_twice.point 2)
    × ((g : ℕ) → AtTask 2 (resumed_twice.point g) → g ≡ 0)
awaited_is_suspended_example =
    awaited_is_suspended erased zeroed 1 resumed_twice 0 2 resumed_twice-Reachable
      resumed_twice_lem.0

Waits-LeadsToEvent_example :
    (¬ WaitsFor resumed_twice.point 0 0) × LeadsToEvent resumed_twice.point 0
Waits-LeadsToEvent_example =
    Waits-LeadsToEvent erased zeroed 1 resumed_twice 0 resumed_twice-Reachable resumed_twice_lem.1

-- The first frame resumed by hand: it awaits the second, which waits for the event 0.
abbrev both_wait : World ℕ ℕ
both_wait = record two_tasks {
  point =
      update
        (update (update (update two_tasks.point 0 running) 1 running) 1
          (at_event 0 (λ v. co_return v)))
        0 (at_task 1 done);
  caller = update two_tasks.caller 1 (frame 0);
  awaker = update two_tasks.awaker 0 (record { handle = some 1; ret = 0 });
}

both_wait_lem : run erased zeroed true 1 5 (resume 0) two_tasks ≡ ok both_wait
unfolding run step resume_frame exec_body await_transform first_run await_suspend
both_wait_lem = refl

-- The third frame ends at once by 7, and the first that awaits it reads zero.
awaits_ended_example :
    run erased zeroed true 1 4 (exec 0 (await_task 2 done)) two_tasks
    ≡ run erased zeroed true 1 3 (exec 0 (co_return 0)) (
        set_point 2 destroyed
          (set_point 2 final (set_result 2 (returned 7) (set_point 2 running two_tasks))))
awaits_ended_example = awaits_ended erased zeroed true 1 0 0 2 (returned 7) done two_tasks refl refl

abbrev second_runs : ℕ → Point ℕ ℕ
second_runs zero = at_task 1 done
second_runs (suc zero) = running
second_runs (suc (suc h)) = initial (co_return 7)

abbrev callers : ℕ → Caller
callers zero = noop
callers (suc zero) = frame 0
callers (suc (suc h)) = null

abbrev second_world : World ℕ ℕ
second_world = record two_tasks { point = second_runs; caller = callers }
