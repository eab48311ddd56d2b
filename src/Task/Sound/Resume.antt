-- ===== src/Task/Sound/Resume.antt =====
-- The frames under `resume()` of a suspended frame (src/core/core.hpp).
use mathlib.Core.Path.{subst}
use sqkio.Common.{ℕ, ◌≡◌, refl, sym, ap, ◌∙◌, Bool, if◌then◌else◌}
use sqkio.Common.Update.{update_self}
use sqkio.Outcome.{Outcome, ok}
use sqkio.Outcome.Laws.{>>=-eq-ok, abort-ok}
use sqkio.Awaker.{Awaker}
use sqkio.Task.{
  Body, Point, initial, at_task, at_event, at_yield, running, finishing, final, destroyed, Caller,
  World, Command, resume, exec, set_point, is_null, task_await_resume, resume_frame,
}
use sqkio.Task.Links.{AtTask}
use sqkio.Task.Paths.{IsHeld}
use sqkio.Task.Steps.{CanStart, start-IsHeld}
use sqkio.Task.Left.{Kept-Left, Kept-move}
use sqkio.Task.Sound.{IsKept, Keeps, task_await_resume-world}

module _ {V E : Type 0} (after_destroy : V → Outcome V) (moved_from : V → V) (debug : Bool)
    (fuel : ℕ) (self : Command V E → World V E → Outcome (World V E)) (keeps : Keeps self) (h : ℕ)
    (w w' : World V E) (l : IsHeld w.point w.caller) where
  -- The body goes on; the awakers may have changed.
  goes_on :
      (awaker : ℕ → Awaker ℕ V) (body : Body V E)
      → CanStart (w.point h)
      → self (exec h body) (record (set_point h running w) { awaker = awaker }) ≡ ok w'
      → IsKept (resume h) w w'
  goes_on awaker body starts runs =
      let started : World V E = record (set_point h running w) { awaker = awaker } in
      let kept =
        keeps (exec h body) started w' (update_self w.point h running)
          (start-IsHeld h w.point w.caller l) runs in
      record {
        held = kept.held;
        left =
            Kept-Left h w.point started.point w'.point w.caller w.caller w'.caller
              (Kept-move h w.point w.caller running tt) kept.left;
        began = starts;
      }

  pub resume_frame-IsKept :
      resume_frame after_destroy moved_from debug fuel self h w ≡ ok w' → IsKept (resume h) w w'
  unfolding resume_frame
  resume_frame-IsKept runs = by (w.point h) refl
    where
      by : (p : Point V E) → w.point h ≡ p → IsKept (resume h) w w'
      by (initial body) e =
          goes_on w.awaker body (subst CanStart (sym e) tt) (rw (resume_frame, e) at runs)
      by (at_task t k) e =
          let ((c, w1), awaits, rest) =
            >>=-eq-ok (task_await_resume after_destroy t (set_point h running w)) _ _
              (rw (resume_frame, e) at runs) in
          let called = l.called h t (subst (AtTask t) (sym e) refl) in
          let same =
            task_await_resume-world after_destroy t (set_point h running w) w1 c awaits
            ∙ ap
                (λ (b : Caller).
                  if is_null b
                  then set_point t destroyed (set_point h running w)
                  else set_point h running w)
                called in
          goes_on w.awaker (k c) (subst CanStart (sym e) tt)
            (ap (self (exec h (k c))) (sym same) ∙ rest)
      by (at_event a k) e = goes_on _ _ (subst CanStart (sym e) tt) (rw (resume_frame, e) at runs)
      by (at_yield body) e =
          goes_on w.awaker body (subst CanStart (sym e) tt) (rw (resume_frame, e) at runs)
      by running e = abort-ok (rw (resume_frame, e) at runs)
      by finishing e = abort-ok (rw (resume_frame, e) at runs)
      by final e = abort-ok (rw (resume_frame, e) at runs)
      by destroyed e = abort-ok (rw (resume_frame, e) at runs)
