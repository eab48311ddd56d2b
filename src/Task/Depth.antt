-- ===== src/Task/Depth.antt =====
-- The bound on the calls of `resume` inside each other (src/core/core.hpp).
use sqkio.Common.{ℕ, zero, suc, ◌≤◌, ◌≡◌, arith, refl, Bool, ◌&&◌, not, inl, inr, Bool-cases}
use sqkio.Common.Update.{update}
use sqkio.Outcome.{Outcome, ok, abort, ◌>>=◌}
use sqkio.Outcome.Laws.{>>=-eq-ok, abort-ok, hang-ok}
use sqkio.Awaker.{wake}
use sqkio.Task.{
  Completion, Body, co_return, co_throw, await_task, await_event, co_yield, wake_event, Point,
  initial, at_task, at_event, at_yield, running, finishing, final, destroyed, Caller, null, noop,
  frame, World, Command, resume, exec, finish, set_point, is_null, task_await_resume, resume_frame,
  first_run, await_transform, exec_body, final_suspend, step, run,
}

module _ {V E : Type 0} where
  abbrev Extends :
      (Command V E → World V E → Outcome (World V E))
      → (Command V E → World V E → Outcome (World V E))
      → Type 0
  Extends self self' =
      (command : Command V E) (w w' : World V E) → self command w ≡ ok w' → self' command w ≡ ok w'

module _ {V E : Type 0} (after_destroy : V → Outcome V) (moved_from : V → V) (debug : Bool)
    (fuel : ℕ) (self self' : Command V E → World V E → Outcome (World V E))
    (extends : Extends self self') (h : ℕ) (w w' : World V E) where
  resume_frame-more :
      resume_frame after_destroy moved_from debug fuel self h w ≡ ok w'
      → resume_frame after_destroy moved_from debug fuel self' h w ≡ ok w'
  unfolding resume_frame
  resume_frame-more runs = by (w.point h) refl
    where
      by :
          (p : Point V E)
          → w.point h ≡ p
          → resume_frame after_destroy moved_from debug fuel self' h w ≡ ok w'
      by (initial body) e = rw (resume_frame, e) (extends _ _ _ (rw (resume_frame, e) at runs))
      by (at_task t k) e =
          let ((c, w1), awaits, rest) =
            >>=-eq-ok (task_await_resume after_destroy t (set_point h running w)) _ _
              (rw (resume_frame, e) at runs) in
          rw (resume_frame, e, awaits) (extends _ _ _ rest)
      by (at_event a k) e = rw (resume_frame, e) (extends _ _ _ (rw (resume_frame, e) at runs))
      by (at_yield body) e = rw (resume_frame, e) (extends _ _ _ (rw (resume_frame, e) at runs))
      by running e = abort-ok (rw (resume_frame, e) at runs)
      by finishing e = abort-ok (rw (resume_frame, e) at runs)
      by final e = abort-ok (rw (resume_frame, e) at runs)
      by destroyed e = abort-ok (rw (resume_frame, e) at runs)

  first_run-more :
      (t : ℕ) (k : Completion V E → Body V E)
      → first_run after_destroy moved_from debug fuel self h t k w ≡ ok w'
      → first_run after_destroy moved_from debug fuel self' h t k w ≡ ok w'
  unfolding first_run
  first_run-more t k runs =
      let (w1, resumes, rest) = >>=-eq-ok (self (resume t) w) _ _ runs in
      rw (first_run, extends (resume t) w w1 resumes) (by w1 (w1.point t) rest)
    where
      rest_of :
          (Command V E → World V E → Outcome (World V E))
          → World V E
          → Point V E
          → Outcome (World V E)
      rest_of next w1 p = elim p [
        | final ↦ task_await_resume after_destroy t w1 >>= λ (c, w2). next (exec h (k c)) w2
        | destroyed ↦ abort
        | _ ↦ ok (set_point h (at_task t k) (record w1 { caller = update w1.caller t (frame h) }))
      ]

      by : (w1 : World V E) (p : Point V E) → rest_of self w1 p ≡ ok w' → rest_of self' w1 p ≡ ok w'
      by w1 final rest =
          let ((c, w2), awaits, goes) = >>=-eq-ok (task_await_resume after_destroy t w1) _ _ rest in
          rw awaits (extends _ _ _ goes)
      by w1 destroyed rest = abort-ok rest
      by w1 _ rest = rest

  exec_body-more :
      (body : Body V E)
      → exec_body after_destroy moved_from debug fuel self h body w ≡ ok w'
      → exec_body after_destroy moved_from debug fuel self' h body w ≡ ok w'
  unfolding exec_body await_transform
  exec_body-more (co_return v) runs = extends _ _ _ runs
  exec_body-more (co_throw e) runs = extends _ _ _ runs
  exec_body-more (await_task t k) runs = elim (Bool-cases (debug && not (is_null (w.caller t)))) [
    | inl bad ↦ abort-ok (rw (await_transform, bad) at runs)
    | inr fine ↦
        rw (exec_body, await_transform, fine)
          (first_run-more t k (rw (await_transform, fine) at runs))
  ]
  exec_body-more (await_event a k) runs = runs
  exec_body-more (co_yield body) runs = runs
  exec_body-more (wake_event a v body) runs =
      let ((awaker, s), wakes, rest) =
        >>=-eq-ok (wake moved_from fuel v (w.awaker a) w.scheduler) _ _ runs in
      rw (exec_body, wakes) (extends _ _ _ rest)

  final_suspend-more :
      final_suspend after_destroy moved_from debug fuel self h w ≡ ok w'
      → final_suspend after_destroy moved_from debug fuel self' h w ≡ ok w'
  unfolding final_suspend
  final_suspend-more runs = by (w.caller h) refl
    where
      by :
          (c : Caller)
          → w.caller h ≡ c
          → final_suspend after_destroy moved_from debug fuel self' h w ≡ ok w'
      by null e = rw (final_suspend, e) (rw (final_suspend, e) at runs)
      by noop e = rw (final_suspend, e) (rw (final_suspend, e) at runs)
      by (frame c) e =
          let (w1, resumes, rest) =
            >>=-eq-ok (self (resume c) (set_point h finishing w)) _ _
              (rw (final_suspend, e) at runs) in
          rw (final_suspend, e, extends _ _ _ resumes) rest

module _ {V E : Type 0} (after_destroy : V → Outcome V) (moved_from : V → V) (debug : Bool)
    (fuel : ℕ) where
  step-more :
      (self self' : Command V E → World V E → Outcome (World V E))
      → Extends self self'
      → Extends
          (step after_destroy moved_from debug fuel self)
          (step after_destroy moved_from debug fuel self')
  unfolding step
  step-more self self' extends (resume h) w w' runs =
      resume_frame-more after_destroy moved_from debug fuel self self' extends h w w' runs
  step-more self self' extends (exec h body) w w' runs =
      exec_body-more after_destroy moved_from debug fuel self self' extends h w w' body runs
  step-more self self' extends (finish h) w w' runs =
      final_suspend-more after_destroy moved_from debug fuel self self' extends h w w' runs

  -- A call that returns below one bound on the calls inside each other returns the same world below
  -- any greater bound.
  pub run_deeper :
      (depth deeper : ℕ) (command : Command V E) (w w' : World V E)
      → depth ≤ deeper
      → run after_destroy moved_from debug fuel depth command w ≡ ok w'
      → run after_destroy moved_from debug fuel deeper command w ≡ ok w'
  unfolding run
  run_deeper zero deeper command w w' le runs = hang-ok runs
  run_deeper (suc depth) zero command w w' le runs = absurd (omega arith)
  run_deeper (suc depth) (suc deeper) command w w' le runs =
      step-more (run after_destroy moved_from debug fuel depth)
        (run after_destroy moved_from debug fuel deeper)
        (λ c v v' r. run_deeper depth deeper c v v' (omega arith) r) command w w' runs
