-- ===== src/Task.antt =====
-- `Task`, `Promise`, `MaybeSuspend` and `FinalSuspend` of src/core/core.hpp, with what the language does
-- around them: a coroutine is a frame, by number, at a point of its body; `resume` of a frame that is
-- not suspended, or is at its end, is undefined and is `abort` here, like a failed assertion. The code
-- of a coroutine between its suspensions is a `Body`.
pub mod Links
pub mod Paths
pub mod Moves
pub mod Steps
pub mod Left
pub mod Sound
pub mod Reach
pub mod Depth
pub mod Returned
mod Tests
use sqkio.Common.{ℕ, zero, suc, Bool, true, false, ◌&&◌, not, if◌then◌else◌, Option, none, some}
use sqkio.Common.Update.{update}
use sqkio.Outcome.{Outcome, ok, hang, abort, ◌>>=◌}
use sqkio.Scheduler.{SqkScheduler, enqueue}
use sqkio.Awaker.{Awaker, await_suspend, await_resume, wake, yield_await_suspend}

-- `result_`: `std::variant<T, std::exception_ptr>`; a task of `void` returns a value that stands for
-- none.
pub data Completion (V E : Type 0) : Type 0 where
  returned : V → Completion V E
  raised : E → Completion V E

-- `caller_`: null, `std::noop_coroutine()`, or a frame.
pub data Caller : Type 0 where
  null : Caller
  noop : Caller
  frame : ℕ → Caller

-- What a coroutine does next: ends by a value or an exception, awaits a task or an awaker, yields, or
-- wakes an awaker and goes on. What follows an awaited task sees its exception, to catch or to pass on.
pub data Body (V E : Type 0) : Type 0 where
  co_return : V → Body V E
  co_throw : E → Body V E
  await_task : ℕ → (Completion V E → Body V E) → Body V E
  await_event : ℕ → (V → Body V E) → Body V E
  co_yield : Body V E → Body V E
  wake_event : ℕ → V → Body V E → Body V E

-- Where a frame stands. `finishing` is inside `final_suspend`; `final` is suspended there.
pub data Point (V E : Type 0) : Type 0 where
  initial : Body V E → Point V E
  at_task : ℕ → (Completion V E → Body V E) → Point V E
  at_event : ℕ → (V → Body V E) → Point V E
  at_yield : Body V E → Point V E
  running finishing final destroyed : Point V E

-- The frames, their promises, the awakers by number, and the scheduler.
pub record World (V E : Type 0) : Type 0 where
  pub point : ℕ → Point V E
  pub caller : ℕ → Caller
  pub result : ℕ → Completion V E
  pub is_void : ℕ → Bool
  pub awaker : ℕ → Awaker ℕ V
  pub scheduler : SqkScheduler ℕ

-- A call: `resume()` of a frame, the run of a body in it, or its `final_suspend`.
pub data Command (V E : Type 0) : Type 0 where
  resume : ℕ → Command V E
  exec : ℕ → Body V E → Command V E
  finish : ℕ → Command V E

abbrev pub set_point : {V E : Type 0} → ℕ → Point V E → World V E → World V E
set_point h p w = record w { point = update w.point h p }

abbrev pub set_result : {V E : Type 0} → ℕ → Completion V E → World V E → World V E
set_result h c w = record w { result = update w.result h c }

abbrev pub is_null : Caller → Bool
is_null null = true
is_null _ = false

-- `after_destroy` is what a read of a value gives whose frame is destroyed.
module _ {V E : Type 0} (after_destroy : V → Outcome V) where
  -- `MaybeSuspend<T>::await_resume`: the value is returned by reference, and read after `destroy()`
  -- where the task had no caller. The exception is copied first.
  unfoldable pub task_await_resume : ℕ → World V E → Outcome (Completion V E × World V E)
  task_await_resume t w =
      let w' = if is_null (w.caller t) then set_point t destroyed w else w in
      elim (w.result t) [
        | returned v ↦
            if is_null (w.caller t)
            then if w.is_void t
              then ok (returned v, w')
              else (after_destroy v >>= λ v'. ok (returned v', w'))
            else ok (returned v, w')
        | raised e ↦ ok (raised e, w')
      ]

-- `moved_from` is what a move
-- leaves; `debug` tells that NDEBUG is not defined; `fuel` is that of the ring's loops.
module _ {V E : Type 0} (after_destroy : V → Outcome V) (moved_from : V → V) (debug : Bool)
    (fuel : ℕ) where
  module _ (self : Command V E → World V E → Outcome (World V E)) where
    unfoldable pub resume_frame : ℕ → World V E → Outcome (World V E)
    resume_frame h w =
        let w' = set_point h running w in
        elim (w.point h) [
          | initial body ↦ self (exec h body) w'
          | at_task t k ↦ task_await_resume after_destroy t w' >>= λ (c, w1). self (exec h (k c)) w1
          | at_event a k ↦
              let (v, awaker) = await_resume moved_from fuel (w.awaker a) in
              self (exec h (k v)) (record w' { awaker = update w.awaker a awaker })
          | at_yield body ↦ self (exec h body) w'
          | _ ↦ abort
        ]

    -- The task runs to its first suspension or to its end, and gets a caller where it has one.
    unfoldable pub first_run : ℕ → ℕ → (Completion V E → Body V E) → World V E → Outcome (World V E)
    first_run h t k w = self (resume t) w >>= λ w1. elim (w1.point t) [
      | final ↦ task_await_resume after_destroy t w1 >>= λ (c, w2). self (exec h (k c)) w2
      | destroyed ↦ abort
      | _ ↦ ok (set_point h (at_task t k) (record w1 { caller = update w1.caller t (frame h) }))
    ]

    -- `await_transform`, and then `MaybeSuspend::await_ready`.
    unfoldable pub await_transform :
        ℕ → ℕ → (Completion V E → Body V E) → World V E → Outcome (World V E)
    await_transform h t k w =
        if debug && not (is_null (w.caller t)) then abort else first_run h t k w

    unfoldable pub exec_body : ℕ → Body V E → World V E → Outcome (World V E)
    exec_body h (co_return v) w = self (finish h) (set_result h (returned v) w)
    exec_body h (co_throw e) w = self (finish h) (set_result h (raised e) w)
    exec_body h (await_task t k) w = await_transform h t k w
    exec_body h (await_event a k) w = ok (record (set_point h (at_event a k) w) {
      awaker = update w.awaker a (await_suspend moved_from fuel h (w.awaker a));
    })
    exec_body h (co_yield body) w = yield_await_suspend fuel h w.scheduler >>= λ s.
        ok (record (set_point h (at_yield body) w) { scheduler = s })
    exec_body h (wake_event a v body) w =
        wake moved_from fuel v (w.awaker a) w.scheduler >>= λ (awaker, s).
        self (exec h body) (record w { awaker = update w.awaker a awaker; scheduler = s })

    -- `final_suspend` and `resume_caller`: without a caller the frame stays suspended; otherwise the
    -- caller runs first, and the frame is destroyed when control comes back.
    unfoldable pub final_suspend : ℕ → World V E → Outcome (World V E)
    final_suspend h w = elim (w.caller h) [
      | null ↦ ok (set_point h final w)
      | noop ↦ ok (set_point h destroyed w)
      | frame c ↦ self (resume c) (set_point h finishing w) >>= λ w1. ok (set_point h destroyed w1)
    ]

    unfoldable pub step : Command V E → World V E → Outcome (World V E)
    step (resume h) w = resume_frame h w
    step (exec h body) w = exec_body h body w
    step (finish h) w = final_suspend h w

  -- `depth` bounds the calls inside each other.
  unfoldable pub run : ℕ → Command V E → World V E → Outcome (World V E)
  run zero command w = hang
  run (suc depth) command w = step (run depth) command w

-- `SQKScheduler::enqueue` of a task, whose frame it gives a caller that does nothing.
unfoldable pub enqueue_task : {V E : Type 0} → ℕ → ℕ → World V E → Outcome (World V E)
enqueue_task fuel t w = enqueue fuel t w.scheduler >>= λ (rc, s).
    ok (record w { scheduler = s; caller = update w.caller t noop })
