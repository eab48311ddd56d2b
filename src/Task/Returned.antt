-- ===== src/Task/Returned.antt =====
-- What a `co_await` of a task gives (src/core/core.hpp) where the task suspends before it ends.
pub mod AtOnce
use sqkio.Common.{ℕ, zero, suc, ◌≡◌, refl, Bool, true, false, ◌&&◌, not, ◌==◌, if◌then◌else◌}
use sqkio.Common.Update.{update}
use sqkio.Outcome.{Outcome, hang, abort}
use sqkio.Task.{
  Completion, returned, raised, Body, co_return, co_throw, await_task, initial, final, Caller, null,
  noop, World, Command, exec, finish, set_result, is_null, first_run, await_transform, exec_body,
  step, run,
}

-- How a body ends: by `co_return` or by an exception.
abbrev pub ending : {V E : Type 0} → Completion V E → Body V E
ending (returned v) = co_return v
ending (raised e) = co_throw e

module _ {V E : Type 0} (after_destroy : V → Outcome V) (moved_from : V → V) (debug : Bool)
    (fuel : ℕ) where
  abbrev call : ℕ → Command V E → World V E → Outcome (World V E)
  call = run after_destroy moved_from debug fuel

  pub run-suc :
      (depth : ℕ) (command : Command V E) (w : World V E)
      → call (suc depth) command w ≡ step after_destroy moved_from debug fuel (call depth) command w
  unfolding run
  run-suc depth command w = refl

  pub exec-ending :
      (self : Command V E → World V E → Outcome (World V E)) (h : ℕ) (r : Completion V E)
      (w : World V E)
      → step after_destroy moved_from debug fuel self (exec h (ending r)) w
        ≡ self (finish h) (set_result h r w)
  unfolding step exec_body
  exec-ending self h (returned v) w = refl
  exec-ending self h (raised e) w = refl
