-- ===== src/Fabric/Events/Lost.antt =====
-- Connection requests, `next`, and the wake-up of `accept` (src/net/fabric/fabric.hpp).
use sqkio.Common.{
  ℕ, suc, ◌-◌, ◌^◌, ◌<◌, ◌≡◌, refl, ap, ◌∙◌, [], ◌∷◌, ◌++◌, length, none, some, true,
}
use sqkio.Common.Update.{update, update_self}
use sqkio.Outcome.{Outcome, ok, ◌>>=◌}
use sqkio.Ring.Calls.Valid.{contents, IsValid}
use sqkio.Scheduler.{SqkScheduler}
use sqkio.Awaker.{Awaker, VoidAwaker, suspends, co_await, await_suspend, await_resume}
use sqkio.Awaker.Laws.{wake-idle, wake-waiting, void_wake-waiting}
use sqkio.Fabric.Events.{
  passive, Fabric, connreq, other, event_read, bytes_read, next, next_resumed, accept, poll,
  emplace, wake_accept,
}
use sqkio.Fabric.Events.Reach.{Reach, awaited, polled}
use sqkio.Fabric.Events.Polls.{connreq_finds}

module _ {W I : Type 0} (moved_from : I → I) (k fuel : ℕ) (f : Fabric W I) (fid bytes : ℕ) where
  next-suspends :
      (p : ℕ) (handle : W) (g : Fabric W I) (a : Awaker W I)
      → g.object p ≡ passive fid a
      → next moved_from (suc fuel) p handle g
        ≡ ok (
          suspends,
          record g { object = update g.object p (passive fid (record a { handle = some handle })) },
        )
  unfolding next co_await await_suspend
  next-suspends p handle g a e = rw (next, e)

  resumed-ret :
      (p : ℕ) (g : Fabric W I) (a : Awaker W I)
      → g.object p ≡ passive fid a
      → (g' : Fabric W I) × (next_resumed moved_from (suc fuel) p g ≡ ok (a.ret, g'))
  unfolding next_resumed await_resume
  resumed-ret p g a e = (
    record g { object = update g.object p (passive fid (await_resume moved_from (suc fuel) a).1) },
    rw (next_resumed, e),
  )

  -- In a reachable state with a sound queue and room in it, nobody waits in `next` of an open passive
  -- endpoint. A connection request `first` comes, then `next` is called, then a request `second` comes:
  -- `next` suspends in spite of `first`, `second` puts its coroutine into the queue, and what it returns is
  -- `second`.
  pub request_lost :
      (p : ℕ) (a : Awaker W I) (handle : W) (first second : I)
      → Reach moved_from (suc fuel) f
      → f.object p ≡ passive fid a
      → a.handle ≡ none
      → IsValid 8 k f.scheduler.queue
      → length (contents 8 f.scheduler.queue) < 2 ^ k - 1
      → (f1 : Fabric W I) × (f2 : Fabric W I) × (f3 : Fabric W I) × (f4 : Fabric W I) × (poll
            moved_from
            (suc fuel)
            (event_read bytes connreq fid first)
            f
          ≡ ok (bytes_read bytes, f1))
        × (next moved_from (suc fuel) p handle f1 ≡ ok (suspends, f2))
        × (poll moved_from (suc fuel) (event_read bytes connreq fid second) f2
            ≡ ok (bytes_read bytes, f3))
        × (contents 8 f3.scheduler.queue ≡ contents 8 f.scheduler.queue ++ (handle ∷ []) ∷ [])
        × (next_resumed moved_from (suc fuel) p f3 ≡ ok (second, f4))
  request_lost p a handle first second reached here idle v room =
      let kept : Awaker W I = record a { ret = first } in
      let waiting : Awaker W I = record a { handle = some handle; ret = first } in
      let woken : Awaker W I = record a { handle = some handle; ret = second } in
      let f1 : Fabric W I = record f { object = update f.object p (passive fid kept) } in
      let f2 : Fabric W I = record f1 { object = update f1.object p (passive fid waiting) } in
      let at1 = update_self f.object p (passive fid kept) in
      let at2 = update_self f1.object p (passive fid waiting) in
      let polls1 : poll moved_from (suc fuel) (event_read bytes connreq fid first) f
          ≡ ok (bytes_read bytes, f1) =
        connreq_finds moved_from (suc fuel) f fid bytes first p a reached here
        ∙ ap
            (λ (o : Outcome (Awaker W I × SqkScheduler W)). o >>= λ (b, s). ok (
              bytes_read bytes,
              record f { object = update f.object p (passive fid b); scheduler = s },
            ))
            (wake-idle moved_from k (suc fuel) first a f.scheduler idle) in
      let suspends2 = next-suspends p handle f1 kept at1 in
      let (s', wakes, valid, held, same) =
        wake-waiting moved_from k fuel second waiting f.scheduler handle refl v room in
      let f3 : Fabric W I = record f2 {
        object = update f2.object p (passive fid woken);
        scheduler = s';
      } in
      let polls3 : poll moved_from (suc fuel) (event_read bytes connreq fid second) f2
          ≡ ok (bytes_read bytes, f3) =
        connreq_finds moved_from (suc fuel) f2 fid bytes second p waiting
          (awaited p handle suspends f1 f2 (polled _ _ f f1 reached polls1) suspends2) at2
        ∙ ap
            (λ (o : Outcome (Awaker W I × SqkScheduler W)). o >>= λ (b, s). ok (
              bytes_read bytes,
              record f2 { object = update f2.object p (passive fid b); scheduler = s },
            ))
            wakes in
      let (f4, gives) = resumed-ret p f3 woken (update_self f2.object p (passive fid woken)) in
      (f1, f2, f3, f4, polls1, suspends2, polls3, held, gives)

  -- With nobody waiting in `accept` on the fid, a sound queue and room in it: after `accept` the next event
  -- on the fid that is neither a request nor a shutdown puts the coroutine into the queue, and one more
  -- such event changes nothing.
  pub accept_woken_once :
      (addr code : ℕ) (handle : W) (info : I)
      → f.map fid ≡ none
      → IsValid 8 k f.scheduler.queue
      → length (contents 8 f.scheduler.queue) < 2 ^ k - 1
      → (f1 : Fabric W I) × (f2 : Fabric W I) × (accept true fid addr handle f ≡ some f1)
        × (poll moved_from (suc fuel) (event_read bytes (other code) fid info) f1
            ≡ ok (bytes_read bytes, f2))
        × (contents 8 f2.scheduler.queue ≡ contents 8 f.scheduler.queue ++ (handle ∷ []) ∷ [])
        × (poll moved_from (suc fuel) (event_read bytes (other code) fid info) f2
            ≡ ok (bytes_read bytes, f2))
  unfolding accept poll
  accept_woken_once addr code handle info free v room =
      let waiting : VoidAwaker W = record { handle = some handle } in
      let (s', wakes, held) = void_wake-waiting k fuel waiting f.scheduler handle refl v room in
      let f1 : Fabric W I = record f {
        map = update f.map fid (some addr);
        signal = update f.signal addr waiting;
      } in
      let f2 : Fabric W I = record f1 {
        map = update f1.map fid none;
        signal = update f1.signal addr waiting;
        scheduler = s';
      } in
      (
        f1,
        f2,
        rw (accept, emplace, free),
        rw (
          poll,
          wake_accept,
          update_self f.map fid (some addr),
          update_self f.signal addr waiting,
          wakes,
        ),
        held,
        rw (poll, wake_accept, update_self f1.map fid none),
      )
