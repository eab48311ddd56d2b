-- ===== src/Scheduler/Refine.antt =====
-- `SQKScheduler` of src/core/core.hpp beside a scheduler whose queue is a list of handles.
use sqkio.Common.{
  ℕ, zero, suc, inl, inr, Bool-cases, ◌-◌, ◌^◌, ◌≡◌, ◌≢◌, refl, ap, ap₂, ◌∙◌, Bool, true, false,
  ◌==◌, List, [], ◌∷◌,
}
use sqkio.Outcome.{Outcome, ok, hang, ◌>>=◌}
use sqkio.Queue
use sqkio.Ring.{Ring, mt, st, mt_rts}
use sqkio.Ring.Elements.{scale}
use sqkio.Ring.Calls.Valid.{contents, IsValid}
use sqkio.Ring.Calls.Refine.{enqueue_refines, dequeue_refines}
use sqkio.Scheduler.{
  mpsc_ring, variable, SqkScheduler, Act, spawn, halt, enqueue, stop, perform, run,
}

-- The one word of an entry.
abbrev pub handle_of : {W : Type 0} → W → List W → W
handle_of old [] = old
handle_of old (w ∷ ws) = w

module _ {W : Type 0} (cap : ℕ) where
  -- The calls on the list: a handle that finds it full is dropped.
  unfoldable pub queue_perform : List (Act W) → Bool × List (List W) → Bool × List (List W)
  queue_perform [] (stopped, q) = (stopped, q)
  queue_perform (spawn handle ∷ acts) (stopped, q) =
      queue_perform acts (stopped, (Queue.push cap q (handle ∷ [])).1)
  queue_perform (halt ∷ acts) (stopped, q) = queue_perform acts (true, q)

  module _ {H : Type 0} (resume : W → H → List (Act W) × H) where
    -- Resume the oldest handle and perform its calls, until one is `stop`; wait where there is none.
    unfoldable pub queue_run : ℕ → W → H → Bool → List (List W) → Outcome H
    queue_run zero handle h stopped q = hang
    queue_run (suc rounds) handle h stopped q =
        let (n, x, q1) = Queue.pop q (handle ∷ []) in
        let next = handle_of handle x in
        let (stopped', q2) = queue_perform (resume next h).0 (stopped, q1) in
        elim (n == 0) [
          | true ↦ queue_run rounds next h stopped q1
          | false ↦ elim stopped' [
            | true ↦ ok (resume next h).1
            | false ↦ queue_run rounds next (resume next h).1 false q2
          ]
        ]

mt_coded : mt ≢ mt_rts
mt_coded e = absurd cc

st_coded : st ≢ mt_rts
st_coded e = absurd cc

module _ {W : Type 0} (k fuel : ℕ) where
  -- A handle goes to the end of the queue, or is dropped where the queue is full.
  pub enqueue_lem :
      (handle : W) (s : SqkScheduler W)
      → IsValid 8 k s.queue
      → (s' : SqkScheduler W) × (enqueue (suc fuel) handle s ≡ ok (0, s'))
        × IsValid 8 k s'.queue
        × (contents 8 s'.queue ≡ (Queue.push (2 ^ k - 1) (contents 8 s.queue) (handle ∷ [])).1)
        × (s'.stopped ≡ s.stopped)
  unfolding enqueue scale
  enqueue_lem handle s v =
      let (r, n, runs, valid, pushed, same) =
        enqueue_refines mpsc_ring k fuel (variable handle) s.queue mt_coded v in
      (record s { queue = r }, rw runs, valid, ap (λ (p : ℕ × List (List W)). p.1) pushed, refl)

  perform_refines :
      (acts : List (Act W)) (s : SqkScheduler W)
      → IsValid 8 k s.queue
      → (s' : SqkScheduler W) × (perform (suc fuel) acts s ≡ ok s')
        × IsValid 8 k s'.queue
        × (◌≡◌ {A = Bool × List (List W)}
            (s'.stopped, contents 8 s'.queue)
            (queue_perform (2 ^ k - 1) acts (s.stopped, contents 8 s.queue)))
  unfolding perform queue_perform stop
  perform_refines [] s v = (s, refl, v, refl)
  perform_refines (spawn handle ∷ acts) s v =
      let (s1, runs, valid, pushed, same) = enqueue_lem handle s v in
      let (s', rest, valid', ends) = perform_refines acts s1 valid in
      (
        s',
        rw runs rest,
        valid',
        ends
            ∙ ap₂ (λ (b : Bool) (q : List (List W)). queue_perform (2 ^ k - 1) acts (b, q)) same
                pushed,
      )
  perform_refines (halt ∷ acts) s v = perform_refines acts (record s { stopped = true }) v

module _ {W H : Type 0} (k fuel : ℕ) (resume : W → H → List (Act W) × H) where
  -- What the outside sees when `run` returns.
  abbrev pub outside : Outcome (H × SqkScheduler W) → Outcome H
  outside o = o >>= λ (h, s). ok h

  module _ (rounds : ℕ)
      (later : (handle : W) (h : H) (s : SqkScheduler W)
        → IsValid 8 k s.queue
        → outside (run (suc fuel) resume rounds handle h s)
          ≡ queue_run (2 ^ k - 1) resume rounds handle h s.stopped (contents 8 s.queue)) where
    abbrev by_queue : H → Bool → Bool → W → List (List W) → Outcome H
    by_queue h stopped b next q = elim b [
      | true ↦ queue_run (2 ^ k - 1) resume rounds next h stopped q
      | false ↦ elim (queue_perform (2 ^ k - 1) (resume next h).0 (stopped, q)).0 [
        | true ↦ ok (resume next h).1
        | false ↦
            queue_run (2 ^ k - 1) resume rounds next (resume next h).1 false
              (queue_perform (2 ^ k - 1) (resume next h).0 (stopped, q)).1
      ]
    ]

    abbrev go_on : W → H → Bool × List (List W) → Outcome H
    go_on next h' p = elim p.0 [
      | true ↦ ok h'
      | false ↦ queue_run (2 ^ k - 1) resume rounds next h' false p.1
    ]

    after_stop :
        (next : W) (h' : H) (s' : SqkScheduler W)
        → IsValid 8 k s'.queue
        → outside (elim s'.stopped [
          | true ↦ ok (h', s')
          | false ↦ run (suc fuel) resume rounds next h' s'
        ])
          ≡ go_on next h' (s'.stopped, contents 8 s'.queue)
    after_stop next h' s' valid = elim (Bool-cases s'.stopped) [
      | inl e ↦ rw e
      | inr e ↦ rw e (
          later next h' s' valid
          ∙ ap (λ (b : Bool). queue_run (2 ^ k - 1) resume rounds next h' b (contents 8 s'.queue))
              e)
    ]

    after_pop :
        (h : H) (s : SqkScheduler W) (b : Bool) (next : W) (r : Ring W)
        → IsValid 8 k r
        → outside (elim b [
          | true ↦ run (suc fuel) resume rounds next h (record s { queue = r })
          | false ↦ perform (suc fuel) (resume next h).0 (record s { queue = r }) >>= λ s'.
              elim s'.stopped [
                | true ↦ ok ((resume next h).1, s')
                | false ↦ run (suc fuel) resume rounds next (resume next h).1 s'
              ]
        ])
          ≡ by_queue h s.stopped b next (contents 8 r)
    after_pop h s true next r valid = later next h (record s { queue = r }) valid
    after_pop h s false next r valid =
        let (s', runs, valid', ends) =
          perform_refines k fuel (resume next h).0 (record s { queue = r }) valid in
        rw runs (after_stop next (resume next h).1 s' valid')
        ∙ ap (go_on next (resume next h).1) ends

  -- For a sound ring of 2^k slots, any positive fuel of the ring's loops and any number of rounds:
  -- `run` resumes the handles, and returns or goes on, as the scheduler whose queue is a list of at
  -- most 2^k - 1 handles, first in first out, which drops a handle that finds the list full.
  pub run_resumes :
      (rounds : ℕ) (handle : W) (h : H) (s : SqkScheduler W)
      → IsValid 8 k s.queue
      → outside (run (suc fuel) resume rounds handle h s)
        ≡ queue_run (2 ^ k - 1) resume rounds handle h s.stopped (contents 8 s.queue)
  unfolding run queue_run scale
  run_resumes zero handle h s v = refl
  run_resumes (suc rounds) handle h s v =
      let (r, n, out, runs, valid, popped, rest, same) =
        dequeue_refines mpsc_ring k fuel (variable handle) s.queue st_coded v in
      rw runs (after_pop rounds (run_resumes rounds) h s (n == 0) (out 0) r valid)
      ∙ ap
          (λ (p : ℕ × List W × List (List W)).
            by_queue rounds (run_resumes rounds) h s.stopped (p.0 == 0) (handle_of handle p.1) p.2)
          popped
