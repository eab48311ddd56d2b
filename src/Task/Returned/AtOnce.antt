-- ===== src/Task/Returned/AtOnce.antt =====
-- What a `co_await` of a task gives (src/core/core.hpp) where the task ends at once.
use sqkio.Common.{ℕ, suc, ◌≡◌, refl, ap, ◌∙◌, Bool, true, false, ◌&&◌, not, if◌then◌else◌}
use sqkio.Common.Update.{update_self}
use sqkio.Outcome.{Outcome, ok, abort, ◌>>=◌}
use sqkio.Outcome.Laws.{>>=-assoc}
use sqkio.Task.{
  Completion, returned, raised, Body, await_task, initial, running, final, destroyed, null, World,
  Command, resume, exec, finish, set_point, set_result, is_null, task_await_resume, resume_frame,
  first_run, await_transform, exec_body, final_suspend, step, run,
}
use sqkio.Task.Returned.{ending, run-suc, exec-ending}

module _ {V E : Type 0} (after_destroy : V → Outcome V) (moved_from : V → V) (debug : Bool)
    (fuel : ℕ) where
  abbrev call : ℕ → Command V E → World V E → Outcome (World V E)
  call = run after_destroy moved_from debug fuel

  -- What a read of the result of a task that is destroyed gives: an exception was copied before, and
  -- a task of `void` has no value.
  abbrev pub read_destroyed : Bool → Completion V E → Outcome (Completion V E)
  read_destroyed true r = ok r
  read_destroyed false (returned v) = after_destroy v >>= λ v'. ok (returned v')
  read_destroyed false (raised e) = ok (raised e)

  await-uncalled :
      (t : ℕ) (r : Completion V E) (w : World V E) {B : Type 0}
      (f : Completion V E → World V E → Outcome B)
      → w.caller t ≡ null
      → w.result t ≡ r
      → (task_await_resume after_destroy t w >>= λ (c, w'). f c w')
        ≡ (read_destroyed (w.is_void t) r >>= λ c. f c (set_point t destroyed w))
  unfolding task_await_resume
  await-uncalled t r w f no_caller has = by r (w.is_void t) refl has
    where
      by :
          (r : Completion V E) (b : Bool)
          → w.is_void t ≡ b
          → w.result t ≡ r
          → (task_await_resume after_destroy t w >>= λ (c, w'). f c w')
            ≡ (read_destroyed (w.is_void t) r >>= λ c. f c (set_point t destroyed w))
      by (returned v) true e g = rw (task_await_resume, g, no_caller, e)
      by (returned v) false e g = rw (task_await_resume, g, no_caller, e, >>=-assoc, >>=-assoc)
      by (raised x) true e g = rw (task_await_resume, g, no_caller, e)
      by (raised x) false e g = rw (task_await_resume, g, no_caller, e)

  module _ (self : Command V E → World V E → Outcome (World V E)) (t : ℕ) (w : World V E)
      (no_caller : w.caller t ≡ null) where
    exec-await :
        (h : ℕ) (k : Completion V E → Body V E)
        → step after_destroy moved_from debug fuel self (exec h (await_task t k)) w
          ≡ first_run after_destroy moved_from debug fuel self h t k w
    unfolding step exec_body await_transform
    exec-await h k = by debug
      where
        by :
            (b : Bool)
            → (if b && not (is_null (w.caller t))
                then abort
                else first_run after_destroy moved_from debug fuel self h t k w)
              ≡ first_run after_destroy moved_from debug fuel self h t k w
        by true = rw no_caller
        by false = refl

    finish-null :
        step after_destroy moved_from debug fuel self (finish t) w ≡ ok (set_point t final w)
    unfolding step final_suspend
    finish-null = rw (step, final_suspend, no_caller)

    resume-initial :
        (body : Body V E)
        → w.point t ≡ initial body
        → step after_destroy moved_from debug fuel self (resume t) w
          ≡ self (exec t body) (set_point t running w)
    unfolding step resume_frame
    resume-initial body e = rw (step, resume_frame, e)

    first_run-final :
        (h : ℕ) (k : Completion V E → Body V E) (r : Completion V E) (w1 : World V E)
        → self (resume t) w ≡ ok w1
        → w1.point t ≡ final
        → w1.result t ≡ r
        → w1.caller t ≡ null
        → w1.is_void t ≡ w.is_void t
        → first_run after_destroy moved_from debug fuel self h t k w ≡ (
            read_destroyed (w.is_void t) r >>= λ r'.
            self (exec h (k r')) (set_point t destroyed w1))
    unfolding first_run
    first_run-final h k r w1 runs over has uncalled void =
        rw (first_run, runs, over)
          (await-uncalled t r w1 (λ c w2. self (exec h (k c)) w2) uncalled has
            ∙ ap
                (λ (b : Bool).
                  read_destroyed b r >>= λ r'. self (exec h (k r')) (set_point t destroyed w1))
                void)

  -- A task that has not started and has no caller, and ends at once by the value or the exception `r`:
  -- the `co_await` runs it, destroys its frame, and goes on with what a read of the value behind
  -- `destroy()` gives; an exception, and a task of `void`, are read before.
  pub awaits_ended :
      (depth h t : ℕ) (r : Completion V E) (k : Completion V E → Body V E) (w : World V E)
      → w.point t ≡ initial (ending r)
      → w.caller t ≡ null
      → run after_destroy moved_from debug fuel
          (suc (suc (suc (suc depth))))
          (exec h (await_task t k))
          w
        ≡ (read_destroyed (w.is_void t) r >>= λ r'.
            run after_destroy moved_from debug fuel
              (suc (suc (suc depth)))
              (exec h (k r'))
              (set_point t destroyed (set_point t final (set_result t r (set_point t running w)))))
  awaits_ended depth h t r k w at_start no_caller =
      run-suc after_destroy moved_from debug fuel (suc (suc (suc depth))) (exec h (await_task t k))
        w
      ∙ exec-await (call (suc (suc (suc depth)))) t w no_caller h k
      ∙ first_run-final (call (suc (suc (suc depth)))) t w no_caller h k r (set_point t final ran)
          resume-ended (update_self ran.point t final) (update_self w.result t r) no_caller refl
    where
      ran : World V E
      ran = set_result t r (set_point t running w)

      resume-ended : call (suc (suc (suc depth))) (resume t) w ≡ ok (set_point t final ran)
      resume-ended =
          run-suc after_destroy moved_from debug fuel (suc (suc depth)) (resume t) w
          ∙ resume-initial (call (suc (suc depth))) t w no_caller (ending r) at_start
          ∙ run-suc after_destroy moved_from debug fuel (suc depth) (exec t (ending r))
              (set_point t running w)
          ∙ exec-ending after_destroy moved_from debug fuel (call (suc depth)) t r
              (set_point t running w)
          ∙ run-suc after_destroy moved_from debug fuel depth (finish t) ran
          ∙ finish-null (call depth) t ran no_caller
