-- ===== src/Task/Sound/Whole.antt =====
-- The frames under a call of `resume` (src/core/core.hpp), to any depth.
use sqkio.Common.{ℕ, zero, suc, ◌≡◌, true}
use sqkio.Outcome.{Outcome, ok}
use sqkio.Outcome.Laws.{hang-ok}
use sqkio.Task.{Command, resume, exec, finish, World, step, run}
use sqkio.Task.Paths.{IsHeld}
use sqkio.Task.Sound.{IsReady, IsKept, Keeps}
use sqkio.Task.Sound.Resume.{resume_frame-IsKept}
use sqkio.Task.Sound.Bodies.{exec_body-IsKept}
use sqkio.Task.Sound.Finish.{final_suspend-IsKept}

module _ {V E : Type 0} (after_destroy : V → Outcome V) (moved_from : V → V) (fuel : ℕ) where
  step-Keeps :
      (self : Command V E → World V E → Outcome (World V E))
      → Keeps {V = V} {E = E} self
      → Keeps {V = V} {E = E} (step after_destroy moved_from true fuel self)
  unfolding step
  step-Keeps self keeps (resume h) w w' ready l runs =
      resume_frame-IsKept after_destroy moved_from true fuel self keeps h w w' l runs
  step-Keeps self keeps (exec h body) w w' ready l runs =
      exec_body-IsKept after_destroy moved_from fuel self keeps h w w' ready l body runs
  step-Keeps self keeps (finish h) w w' ready l runs =
      final_suspend-IsKept after_destroy moved_from true fuel self keeps h w w' ready l runs

  run-Keeps : (depth : ℕ) → Keeps {V = V} {E = E} (run after_destroy moved_from true fuel depth)
  unfolding run
  run-Keeps zero command w w' ready l runs = hang-ok runs
  run-Keeps (suc depth) command w w' ready l runs =
      step-Keeps (run after_destroy moved_from true fuel depth) (run-Keeps depth) command w w' ready
        l runs

  -- A call that returns, of any frame or of a body in a running frame, where every frame that waits for
  -- a task is its caller, the task is not over and the waits close no circle: behind it the same holds, its frame has left the
  -- stack, still with the caller it had, every other frame on the stack stands where it stood with the
  -- caller it had, and no other got there. If its frame waits, itself or through other tasks, then for no
  -- task that was on the stack.
  pub run-IsKept :
      (depth : ℕ) (command : Command V E) (w w' : World V E)
      → IsReady command w
      → IsHeld w.point w.caller
      → run after_destroy moved_from true fuel depth command w ≡ ok w'
      → IsKept command w w'
  run-IsKept depth command w w' ready l runs = run-Keeps depth command w w' ready l runs
