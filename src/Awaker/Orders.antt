-- ===== src/Awaker/Orders.antt =====
-- The order of `co_await` and `wake` on the awakers of src/core/core.hpp.
use sqkio.Common.{
  ℕ, suc, ◌+◌, ◌-◌, ◌^◌, ◌<◌, ◌≡◌, refl, ap, ◌∙◌, List, [], ◌∷◌, ◌++◌, none, some, true, false,
  length, arith, append_assoc, length-append,
}
use sqkio.Outcome.{ok, ◌>>=◌}
use sqkio.Ring.Calls.Valid.{contents, IsValid}
use sqkio.Scheduler.{SqkScheduler}
use sqkio.Awaker.{
  Awaker, CheckableAwaker, resumes, suspends, await_suspend, await_resume, wake, checkable_wake,
  checkable_await_suspend, checkable_await_resume, checkable_co_await,
}
use sqkio.Awaker.Laws.{wake-idle, wake-waiting}

module _ {W V : Type 0} (moved_from : V → V) (k fuel : ℕ) (handle : W) (ret : V)
    (s : SqkScheduler W) where
  -- For a `CheckableAwaker` that nobody waits on and nobody woke, a sound queue with room, and any
  -- positive fuel of the ring's loops, both orders give the coroutine the value, once. After `wake` the
  -- `co_await` goes on at once with the value, and the queue is as before. After the `co_await`, which
  -- suspends, `wake` puts the coroutine at the end of the queue, and its resumption gives the value.
  pub checkable_orders :
      (c : CheckableAwaker W V)
      → c.awaker.handle ≡ none
      → c.awaked ≡ false
      → IsValid 8 k s.queue
      → length (contents 8 s.queue) < 2 ^ k - 1
      → ((c' : CheckableAwaker W V) × (checkable_wake moved_from (suc fuel) ret c s ≡ ok (c', s))
          × ((checkable_co_await moved_from (suc fuel) handle c').0 ≡ resumes ret))
        × ((checkable_co_await moved_from (suc fuel) handle c).0 ≡ suspends)
        × (c' : CheckableAwaker W V) × (s' : SqkScheduler W) × (checkable_wake moved_from
              (suc fuel)
              ret
              (checkable_co_await moved_from (suc fuel) handle c).1
              s
            ≡ ok (c', s'))
        × (contents 8 s'.queue ≡ contents 8 s.queue ++ (handle ∷ []) ∷ [])
        × ((checkable_await_resume moved_from (suc fuel) c').0 ≡ ret)
  unfolding checkable_wake checkable_co_await checkable_await_resume checkable_await_suspend
      await_suspend await_resume
  checkable_orders c idle fresh v room =
      let waiting : Awaker W V = record c.awaker { handle = some handle } in
      let (s', runs, valid, held, same) =
        wake-waiting moved_from k fuel ret waiting s handle refl v room in
      (
        (
          record { awaker = record c.awaker { ret = ret }; awaked = true },
          rw (wake-idle moved_from k (suc fuel) ret c.awaker s idle),
          refl,
        ),
        rw fresh,
        record { awaker = record { handle = some handle; ret = ret }; awaked = true },
        s',
        rw (fresh, runs),
        held,
        refl,
      )

  -- Two calls of `wake` before the coroutine that waits is resumed, with room in a sound queue for
  -- both, put it into the queue twice.
  pub wake-wake :
      (a : Awaker W V) (again : V)
      → a.handle ≡ some handle
      → IsValid 8 k s.queue
      → length (contents 8 s.queue) + 1 < 2 ^ k - 1
      → (a' : Awaker W V) × (s' : SqkScheduler W) × (wake moved_from (suc fuel) ret a s
            >>= (λ (a1, s1). wake moved_from (suc fuel) again a1 s1)
          ≡ ok (a', s'))
        × (contents 8 s'.queue ≡ contents 8 s.queue ++ (handle ∷ []) ∷ (handle ∷ []) ∷ [])
  wake-wake a again waits v room =
      let (s1, runs1, valid1, held1, same1) =
        wake-waiting moved_from k fuel ret a s handle waits v (omega arith) in
      let (s2, runs2, valid2, held2, same2) =
        wake-waiting moved_from k fuel again (record { handle = some handle; ret = ret }) s1 handle
          refl valid1
          (omega
            (arith, ap length held1, length-append (contents 8 s.queue) ((handle ∷ []) ∷ []))) in
      (
        record { handle = some handle; ret = again },
        s2,
        rw (runs1, runs2),
        held2
            ∙ ap (λ (q : List (List W)). q ++ (handle ∷ []) ∷ []) held1
            ∙ append_assoc (contents 8 s.queue) ((handle ∷ []) ∷ []) ((handle ∷ []) ∷ []),
      )

  -- After a `wake` and a `co_await` that went on with its value, the next `co_await` on the same
  -- `CheckableAwaker` goes on too, with no `wake` between, and gets what the move left.
  pub checkable_awaits_again :
      (c : CheckableAwaker W V)
      → c.awaker.handle ≡ none
      → (c1 : CheckableAwaker W V) × (c2 : CheckableAwaker W V) × (c3 : CheckableAwaker W V)
        × (checkable_wake moved_from fuel ret c s ≡ ok (c1, s))
        × (checkable_co_await moved_from fuel handle c1 ≡ (resumes ret, c2))
        × (checkable_co_await moved_from fuel handle c2 ≡ (resumes (moved_from ret), c3))
  unfolding checkable_wake checkable_co_await checkable_await_resume await_resume
  checkable_awaits_again c idle = (
    record { awaker = record c.awaker { ret = ret }; awaked = true },
    _,
    _,
    rw (wake-idle moved_from k fuel ret c.awaker s idle),
    refl,
    refl,
  )
