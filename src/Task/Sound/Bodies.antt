-- ===== src/Task/Sound/Bodies.antt =====
-- The frames under each kind of body (src/core/core.hpp), with assertions on.
use mathlib.Core.Path.{subst}
use sqkio.Common.{ℕ, ◌≡◌, ◌≢◌, refl, sym, ap, ◌∙◌, true, inl, inr, Bool-cases}
use sqkio.Common.Update.{update}
use sqkio.Outcome.{Outcome, ok, abort, ◌>>=◌}
use sqkio.Outcome.Laws.{>>=-eq-ok, ok-inj, abort-ok}
use sqkio.Awaker.{wake, yield_await_suspend}
use sqkio.Task.{
  Completion, returned, raised, Body, co_return, co_throw, await_task, await_event, co_yield,
  wake_event, Point, initial, at_task, at_event, at_yield, running, finishing, final, destroyed,
  null, frame, World, Command, resume, exec, finish, set_point, set_result, is_null,
  task_await_resume, first_run, await_transform, exec_body,
}
use sqkio.Task.Links.{Waits, IsRested}
use sqkio.Task.Paths.{IsHeld}
use sqkio.Task.Steps.{CanStart}
use sqkio.Task.Sound.{IsKept, Keeps}
use sqkio.Task.Sound.Exec.{is_null-eq, suspends, task_ended, task_waits}

module _ {V E : Type 0} (after_destroy : V → Outcome V) (moved_from : V → V) (fuel : ℕ)
    (self : Command V E → World V E → Outcome (World V E)) (keeps : Keeps self) (h : ℕ)
    (w w' : World V E) (runs_now : w.point h ≡ running) (l : IsHeld w.point w.caller) where
  first_run-IsKept :
      (t : ℕ) (k : Completion V E → Body V E)
      → w.caller t ≡ null
      → first_run after_destroy moved_from true fuel self h t k w ≡ ok w'
      → IsKept (exec h (await_task t k)) w w'
  unfolding first_run
  first_run-IsKept t k no_caller runs =
      let (w1, resumes, rest) = >>=-eq-ok (self (resume t) w) _ _ runs in
      let first = keeps (resume t) w w1 tt l resumes in by w1 first (w1.point t) refl rest
    where
      apart : CanStart (w.point t) → h ≢ t
      apart starts same = subst CanStart (ap w.point (sym same) ∙ runs_now) starts

      by :
          (w1 : World V E)
          → IsKept (resume t) w w1
          → (p : Point V E) → w1.point t ≡ p
          → elim (w1.point t) [
            | final ↦ task_await_resume after_destroy t w1 >>= λ (c, w2). self (exec h (k c)) w2
            | destroyed ↦ abort
            | _ ↦
                ok (set_point h (at_task t k) (record w1 { caller = update w1.caller t (frame h) }))
          ]
            ≡ ok w'
          → IsKept (exec h (await_task t k)) w w'
      by w1 first final e rest =
          let ((c, w2), awaits, goes) =
            >>=-eq-ok (task_await_resume after_destroy t w1) _ _ (rw e at rest) in
          task_ended after_destroy moved_from fuel self keeps h w w' runs_now l t k w1 w2 c
            no_caller (apart first.began) first.began first e awaits goes
      by w1 first destroyed e rest = abort-ok (rw e at rest)
      by w1 first (initial body) e rest = absurd (subst IsRested e first.left.rested)
      by w1 first running e rest = absurd (subst IsRested e first.left.rested)
      by w1 first finishing e rest = absurd (subst IsRested e first.left.rested)
      by w1 first (at_task u k') e rest =
          task_waits after_destroy moved_from fuel self keeps h w w' runs_now l t k w1 no_caller
            (apart first.began) first.began first (subst Waits (sym e) tt) (ok-inj (rw e at rest))
      by w1 first (at_event a k') e rest =
          task_waits after_destroy moved_from fuel self keeps h w w' runs_now l t k w1 no_caller
            (apart first.began) first.began first (subst Waits (sym e) tt) (ok-inj (rw e at rest))
      by w1 first (at_yield body) e rest =
          task_waits after_destroy moved_from fuel self keeps h w w' runs_now l t k w1 no_caller
            (apart first.began) first.began first (subst Waits (sym e) tt) (ok-inj (rw e at rest))

  await_transform-IsKept :
      (t : ℕ) (k : Completion V E → Body V E)
      → await_transform after_destroy moved_from true fuel self h t k w ≡ ok w'
      → IsKept (exec h (await_task t k)) w w'
  unfolding await_transform
  await_transform-IsKept t k runs = elim (Bool-cases (is_null (w.caller t))) [
    | inl free ↦ first_run-IsKept t k (is_null-eq (w.caller t) free) (rw free at runs)
    | inr taken ↦ abort-ok (rw taken at runs)
  ]

  pub exec_body-IsKept :
      (body : Body V E)
      → exec_body after_destroy moved_from true fuel self h body w ≡ ok w'
      → IsKept (exec h body) w w'
  unfolding exec_body
  exec_body-IsKept (co_return v) runs =
      let kept = keeps (finish h) (set_result h (returned v) w) w' runs_now l runs in
      record { held = kept.held; left = kept.left; began = tt }
  exec_body-IsKept (co_throw e) runs =
      let kept = keeps (finish h) (set_result h (raised e) w) w' runs_now l runs in
      record { held = kept.held; left = kept.left; began = tt }
  exec_body-IsKept (await_task t k) runs = await_transform-IsKept t k runs
  exec_body-IsKept (await_event a k) runs =
      suspends after_destroy moved_from fuel self keeps h w w' runs_now l (at_event a k) tt
        (λ t e. e) (λ g e. tt) (await_event a k) (ap World.point (sym (ok-inj runs)))
        (ap World.caller (sym (ok-inj runs)))
  exec_body-IsKept (co_yield body) runs =
      let (s, yields, rest) = >>=-eq-ok (yield_await_suspend fuel h w.scheduler) _ _ runs in
      suspends after_destroy moved_from fuel self keeps h w w' runs_now l (at_yield body) tt
        (λ t e. e) (λ g e. tt) (co_yield body) (ap World.point (sym (ok-inj rest)))
        (ap World.caller (sym (ok-inj rest)))
  exec_body-IsKept (wake_event a v body) runs =
      let ((awaker, s), wakes, rest) =
        >>=-eq-ok (wake moved_from fuel v (w.awaker a) w.scheduler) _ _ runs in
      let woken : World V E = record w { awaker = update w.awaker a awaker; scheduler = s } in
      let kept = keeps (exec h body) woken w' runs_now l rest in
      record { held = kept.held; left = kept.left; began = tt }
