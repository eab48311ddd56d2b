-- ===== src/Task/Sound.antt =====
-- What a call of `resume` (src/core/core.hpp) asks for, and what it keeps of the frames that wait.
pub mod Resume
pub mod Exec
pub mod Bodies
pub mod Finish
pub mod Whole
use mathlib.Core.Path.{subst}
use sqkio.Common.{ℕ, ◌≡◌, ◌≢◌, refl, sym, ap, ◌∙◌, Bool, true, false, if◌then◌else◌}
use sqkio.Common.Update.{update}
use sqkio.Outcome.{Outcome, ok, ◌>>=◌}
use sqkio.Outcome.Laws.{>>=-eq-ok, ok-inj}
use sqkio.Task.{
  Completion, returned, raised, Body, Point, Caller, null, noop, frame, running, finishing,
  destroyed, World, Command, resume, exec, finish, set_point, is_null, task_await_resume,
}
use sqkio.Task.Paths.{IsHeld}
use sqkio.Task.Steps.{CanStart}
use sqkio.Task.Left.{Left}

module _ {V E : Type 0} where
  abbrev pub frame_of : Command V E → ℕ
  frame_of (resume h) = h
  frame_of (exec h body) = h
  frame_of (finish h) = h

  -- When a command may be given: any handle may be resumed, a body runs in a running frame.
  abbrev pub IsReady : Command V E → World V E → Type 0
  IsReady (resume h) w = Unit
  IsReady (exec h body) w = w.point h ≡ running
  IsReady (finish h) w = w.point h ≡ running

  abbrev pub Began : Command V E → World V E → Type 0
  Began (resume h) w = CanStart (w.point h)
  Began (exec h body) w = Unit
  Began (finish h) w = Unit

  pub record IsKept (command : Command V E) (w w' : World V E) : Type 0 where
    pub held : IsHeld w'.point w'.caller
    pub left : Left (frame_of command) w.point w.caller w'.point w'.caller
    pub began : Began command w

  abbrev pub Keeps : (Command V E → World V E → Outcome (World V E)) → Type 0
  Keeps self =
      (command : Command V E) (w w' : World V E)
      → IsReady command w
      → IsHeld w.point w.caller
      → self command w ≡ ok w'
      → IsKept command w w'

-- `MaybeSuspend::await_resume` destroys a frame that has no caller, and touches no other.
pub task_await_resume-world :
    {V E : Type 0} (after_destroy : V → Outcome V) (t : ℕ) (w w' : World V E) (c : Completion V E)
    → task_await_resume after_destroy t w ≡ ok (c, w')
    → w' ≡ (if is_null (w.caller t) then set_point t destroyed w else w)
unfolding task_await_resume
task_await_resume-world {V} {E} after_destroy t w w' c e =
    by (w.result t) (is_null (w.caller t)) (w.is_void t) e
  where
    next : World V E
    next = if is_null (w.caller t) then set_point t destroyed w else w

    by :
        (r : Completion V E) (no_caller is_void : Bool)
        → ◌≡◌ {A = Outcome (Completion V E × World V E)}
            (elim r [
              | returned v ↦
                  if no_caller
                  then if is_void
                    then ok (returned v, next)
                    else (after_destroy v >>= λ v'. ok (returned v', next))
                  else ok (returned v, next)
              | raised x ↦ ok (raised x, next)
            ])
            (ok (c, w'))
        → w' ≡ next
    by (returned v) true true f = ap (λ (p : Completion V E × World V E). p.1) (sym (ok-inj f))
    by (returned v) true false f =
        let (v', reads, g) = >>=-eq-ok (after_destroy v) _ _ f in
        ap (λ (p : Completion V E × World V E). p.1) (sym (ok-inj g))
    by (returned v) false b f = ap (λ (p : Completion V E × World V E). p.1) (sym (ok-inj f))
    by (raised x) b b' f = ap (λ (p : Completion V E × World V E). p.1) (sym (ok-inj f))
