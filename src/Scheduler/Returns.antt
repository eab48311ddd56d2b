-- ===== src/Scheduler/Returns.antt =====
-- How `run` of `SQKScheduler` (src/core/core.hpp) comes to an end.
use sqkio.Common.{
  ℕ, suc, ◌-◌, ◌^◌, ◌≡◌, refl, sym, ap, ap₂, ◌∙◌, inl, inr, Bool-cases, Bool, true, false, ltb,
  List, [], ◌∷◌, ◌++◌, append-nil, append_assoc, length,
}
use sqkio.Outcome.{ok}
use sqkio.Queue
use sqkio.Ring.Calls.Valid.{contents, IsValid}
use sqkio.Scheduler.{SqkScheduler, Act, spawn, halt, run}
use sqkio.Scheduler.Refine.{outside, queue_perform, queue_run, handle_of, run_resumes}

-- One of the calls is `stop`.
abbrev pub Halts : {W : Type 0} → List (Act W) → Type 0
Halts [] = ⊥
Halts (spawn handle ∷ acts) = Halts acts
Halts (halt ∷ acts) = Unit

module _ {W : Type 0} (cap : ℕ) where
  push-prefix :
      (q : List (List W)) (x : List W)
      → (more : List (List W)) × ((Queue.push cap q x).1 ≡ q ++ more)
  unfolding Queue.push
  push-prefix q x = elim (Bool-cases (ltb (length q) cap)) [
    | inl room ↦ (x ∷ [], rw room)
    | inr full ↦ ([], rw full (sym (append-nil q)))
  ]

  -- What is in the queue stays there, in its order, under the calls of a coroutine.
  queue_perform-prefix :
      (acts : List (Act W)) (b : Bool) (q : List (List W))
      → (more : List (List W)) × ((queue_perform cap acts (b, q)).1 ≡ q ++ more)
  unfolding queue_perform
  queue_perform-prefix [] b q = ([], sym (append-nil q))
  queue_perform-prefix (spawn handle ∷ acts) b q =
      let (more, e) = push-prefix q (handle ∷ []) in
      let (rest, f) = queue_perform-prefix acts b (Queue.push cap q (handle ∷ [])).1 in
      (more ++ rest, f ∙ ap (λ (t : List (List W)). t ++ rest) e ∙ append_assoc q more rest)
  queue_perform-prefix (halt ∷ acts) b q = queue_perform-prefix acts true q

  queue_perform-stopped :
      (acts : List (Act W)) (q : List (List W)) → (queue_perform cap acts (true, q)).0 ≡ true
  unfolding queue_perform
  queue_perform-stopped [] q = refl
  queue_perform-stopped (spawn handle ∷ acts) q = queue_perform-stopped acts _
  queue_perform-stopped (halt ∷ acts) q = queue_perform-stopped acts q

  queue_perform-Halts :
      (acts : List (Act W)) (b : Bool) (q : List (List W))
      → Halts acts
      → (queue_perform cap acts (b, q)).0 ≡ true
  unfolding queue_perform
  queue_perform-Halts [] b q h = elim h [ ]
  queue_perform-Halts (spawn handle ∷ acts) b q h = queue_perform-Halts acts b _ h
  queue_perform-Halts (halt ∷ acts) b q h = queue_perform-stopped acts q

  module _ {H : Type 0} (resume : W → H → List (Act W) × H) (x : W)
      (stops : (h : H) → Halts (resume x h).0) where
    queue_run_returns :
        (before after : List (List W)) (handle : W) (h : H)
        → (h' : H) × (queue_run cap resume
              (suc (length before))
              handle
              h
              false
              (before ++ (x ∷ []) ∷ after)
            ≡ ok h')
    unfolding queue_run Queue.pop
    queue_run_returns [] after handle h =
        ((resume x h).1, rw (queue_run, queue_perform-Halts (resume x h).0 false after (stops h)))
    queue_run_returns (y ∷ before) after handle h =
        let next = handle_of handle y in
        let q1 : List (List W) = before ++ (x ∷ []) ∷ after in
        let (more, e) = queue_perform-prefix (resume next h).0 false q1 in
        let regroup = e ∙ append_assoc before ((x ∷ []) ∷ after) more in
        let (h', later) = queue_run_returns before (after ++ more) next (resume next h).1 in
        elim (Bool-cases (queue_perform cap (resume next h).0 (false, q1)).0) [
          | inl stopped ↦ ((resume next h).1, rw (queue_run, stopped))
          | inr goes_on ↦ (
            h',
            rw (queue_run, goes_on)
                (ap (queue_run cap resume (suc (length before)) next (resume next h).1 false)
                    regroup
                  ∙ later),
          )
        ]

-- In a scheduler that is not stopped and whose ring of 2^k slots is sound, with any positive fuel of
-- the ring's loops: where the queue has a handle whose coroutine calls `stop` whenever it is resumed,
-- behind `before`, `run` returns after at most as many rounds as `before` has handles and one more,
-- whatever the other coroutines do.
pub run_returns :
    {W H : Type 0} (k fuel : ℕ) (resume : W → H → List (Act W) × H) (x : W)
    → ((h : H) → Halts (resume x h).0)
    → (before after : List (List W)) (handle : W) (h : H) (s : SqkScheduler W) → IsValid 8 k s.queue
    → s.stopped ≡ false
    → contents 8 s.queue ≡ before ++ (x ∷ []) ∷ after
    → (h' : H) × (outside k fuel resume (run (suc fuel) resume (suc (length before)) handle h s)
        ≡ ok h')
run_returns k fuel resume x stops before after handle h s v running held =
    let (h', returns) = queue_run_returns (2 ^ k - 1) resume x stops before after handle h in
    (
      h',
      run_resumes k fuel resume (suc (length before)) handle h s v
          ∙ ap₂ (queue_run (2 ^ k - 1) resume (suc (length before)) handle h) running held
          ∙ returns,
    )
