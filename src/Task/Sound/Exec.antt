-- ===== src/Task/Sound/Exec.antt =====
-- The frames under the run of a body between two suspensions (src/core/core.hpp).
use mathlib.Core.Path.{subst}
use sqkio.Common.{ℕ, ◌≡◌, ◌≢◌, refl, sym, ap, ◌∙◌, true, inl, inr, if◌then◌else◌}
use sqkio.Common.Update.{update, update_self, update_ne}
use sqkio.Outcome.{Outcome, ok}
use sqkio.Task.{
  Completion, Body, await_task, Point, at_task, running, final, destroyed, Caller, null, noop,
  frame, World, Command, resume, exec, set_point, is_null, task_await_resume,
}
use sqkio.Task.Links.{AtTask, Waits, OnStack, IsLive, IsRested, IsRested-off}
use sqkio.Task.Paths.{WaitsFor-adopted, IsHeld}
use sqkio.Task.Steps.{CanStart, CanStart-off, leave-IsHeld, adopt-IsHeld, null-frame}
use sqkio.Task.Left.{Kept, Left, Kept-Left, Kept-trans, Kept-other, Left-move, Left-Kept}
use sqkio.Task.Sound.{IsKept, Keeps, task_await_resume-world}

pub is_null-eq : (c : Caller) → is_null c ≡ true → c ≡ null
is_null-eq null e = refl
is_null-eq noop e = absurd cc
is_null-eq (frame c) e = absurd cc

module _ {V E : Type 0} (after_destroy : V → Outcome V) (moved_from : V → V) (fuel : ℕ)
    (self : Command V E → World V E → Outcome (World V E)) (keeps : Keeps self) (h : ℕ)
    (w w' : World V E) (runs_now : w.point h ≡ running) (l : IsHeld w.point w.caller) where
  -- The frame suspends where it waits for no task.
  pub suspends :
      (p : Point V E)
      → IsRested p
      → ((t : ℕ) → ¬ AtTask t p)
      → ((g : ℕ) → AtTask h (w.point g) → IsLive p)
      → (body : Body V E) → w'.point ≡ update w.point h p
      → w'.caller ≡ w.caller
      → IsKept (exec h body) w w'
  suspends p rests no_task live body points callers = record {
    held = subst (IsHeld w'.point) (sym callers) (
        subst (λ (q : ℕ → Point V E). IsHeld q w.caller) (sym points)
          (leave-IsHeld h w.point w.caller p no_task live l));
    left = subst (Left h w.point w.caller w'.point) (sym callers) (
        subst (λ (q : ℕ → Point V E). Left h w.point w.caller q w.caller) (sym points)
          (Left-move h w.point w.caller p rests no_task));
    began = tt;
  }

  -- A task without a caller, other than the frame itself, ran to its end: it is destroyed, and the
  -- frame goes on.
  pub task_ended :
      (t : ℕ) (k : Completion V E → Body V E) (w1 w2 : World V E) (c : Completion V E)
      → w.caller t ≡ null
      → h ≢ t
      → CanStart (w.point t)
      → IsKept (resume t) w w1
      → w1.point t ≡ final
      → task_await_resume after_destroy t w1 ≡ ok (c, w2)
      → self (exec h (k c)) w2 ≡ ok w'
      → IsKept (exec h (await_task t k)) w w'
  task_ended t k w1 w2 c no_caller ne starts first over awaits rest = record {
    held = kept.held;
    left =
        Kept-Left h w.point gone.point w'.point w.caller gone.caller w'.caller
          (Kept-trans h w.point w1.point gone.point w.caller w1.caller gone.caller
            (Left-Kept h w.point w.caller t w1.point w1.caller ne on
              (CanStart-off (w.point t) starts) (IsRested-off (w1.point t) first.left.rested)
              first.left)
            (Kept-other h w1.point w1.caller t destroyed ne
              (IsRested-off (w1.point t) first.left.rested) (λ d. d)))
          kept.left;
    began = tt;
  }
    where
      gone : World V E
      gone = set_point t destroyed w1

      on : OnStack (w.point h)
      on = subst OnStack (sym runs_now) tt

      ended : w1.caller t ≡ null
      ended = first.left.same_caller ∙ no_caller

      same : w2 ≡ gone
      same =
          task_await_resume-world after_destroy t w1 w2 c awaits
          ∙ ap (λ (b : Caller). if is_null b then set_point t destroyed w1 else w1) ended

      still_runs : gone.point h ≡ running
      still_runs =
          update_ne w1.point t h destroyed (λ s. ne (sym s))
          ∙ (first.left.stack h (λ s. ne (sym s)) on).0
          ∙ runs_now

      held_gone : IsHeld gone.point gone.caller
      held_gone =
          leave-IsHeld t w1.point w1.caller destroyed (λ u e. e)
            (λ g e. null-frame ended (first.held.called g t e)) first.held

      kept : IsKept (exec h (k c)) gone w'
      kept =
          keeps (exec h (k c)) gone w' still_runs held_gone
            (ap (self (exec h (k c))) (sym same) ∙ rest)

  -- It suspended: the frame waits for it, and is its caller.
  pub task_waits :
      (t : ℕ) (k : Completion V E → Body V E) (w1 : World V E)
      → w.caller t ≡ null
      → h ≢ t
      → CanStart (w.point t)
      → IsKept (resume t) w w1
      → Waits (w1.point t)
      → set_point h (at_task t k) (record w1 { caller = update w1.caller t (frame h) }) ≡ w'
      → IsKept (exec h (await_task t k)) w w'
  task_waits t k w1 no_caller ne starts first waits same =
      subst (IsKept (exec h (await_task t k)) w) same (record {
        held =
            adopt-IsHeld h w1.point w1.caller t k runs1 waits (first.left.same_caller ∙ no_caller)
              (λ path. first.left.fresh h path on) first.held;
        left = record {
          stack = λ g ng held.
              let (point1, caller1) = kept.stack g ng held in
              (
                update_ne w1.point h g (at_task t k) ng ∙ point1,
                update_ne w1.caller t g (frame h) (not_t g held) ∙ caller1,
              );
          no_more = λ g ng held.
              kept.no_more g ng (subst OnStack (update_ne w1.point h g (at_task t k) ng) held);
          same_caller = update_ne w1.caller t h (frame h) (λ s. ne (sym s)) ∙ kept.same_caller;
          rested = subst IsRested (sym (update_self w1.point h (at_task t k))) tt;
          fresh = λ u path.
              elim (WaitsFor-adopted w1.point h t k ne (λ back. first.left.fresh h back on) u
                path) [
                  | inl e ↦
                      subst (λ (v : ℕ). ¬ OnStack (w.point v)) e (CanStart-off (w.point t) starts)
                  | inr there ↦ first.left.fresh u there
                ];
        };
        began = tt;
      })
    where
      on : OnStack (w.point h)
      on = subst OnStack (sym runs_now) tt

      kept : Kept h w.point w.caller w1.point w1.caller
      kept =
          Left-Kept h w.point w.caller t w1.point w1.caller ne on (CanStart-off (w.point t) starts)
            (IsRested-off (w1.point t) first.left.rested) first.left

      runs1 : w1.point h ≡ running
      runs1 = (first.left.stack h (λ s. ne (sym s)) on).0 ∙ runs_now

      not_t : (g : ℕ) → OnStack (w.point g) → t ≢ g
      not_t g held s =
          CanStart-off (w.point t) starts (subst (λ (v : ℕ). OnStack (w.point v)) (sym s) held)
