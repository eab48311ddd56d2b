-- ===== src/Fabric/Events/Polls.antt =====
-- What `EventQueue::poll` does with a connection request and a shutdown (src/net/fabric/fabric.hpp).
use mathlib.Core.Path.{subst}
use sqkio.Common.{ℕ, ◌≡◌, refl, sym, Option, none, some}
use sqkio.Common.Update.{update}
use sqkio.Outcome.{ok, abort, ◌>>=◌}
use sqkio.Outcome.Laws.{>>=-assoc}
use sqkio.Awaker.{Awaker, VoidAwaker, wake, void_wake}
use sqkio.Fabric.Events.{
  passive, active, Fabric, connreq, shutdown, event_read, bytes_read, poll, wake_passive,
  wake_active,
}
use sqkio.Fabric.Events.Registered.{HasFid}
use sqkio.Fabric.Events.Reach.{Reach, Reach-IsRegistered}

module _ {W I : Type 0} (moved_from : I → I) (fuel : ℕ) (f : Fabric W I) (fid bytes : ℕ)
    (info : I) where
  pub connreq_finds :
      (p : ℕ) (a : Awaker W I)
      → Reach moved_from fuel f
      → f.object p ≡ passive fid a
      → poll moved_from fuel (event_read bytes connreq fid info) f ≡ (
          wake moved_from fuel info a f.scheduler >>= λ (b, s). ok (
            bytes_read bytes,
            record f { object = update f.object p (passive fid b); scheduler = s },
          ))
  unfolding poll
  connreq_finds p a reached e =
      let found =
        (Reach-IsRegistered moved_from fuel f reached).named fid p
          (subst (HasFid fid) (sym e) refl) in
      rw (poll, found, wake_passive, e) (>>=-assoc (wake moved_from fuel info a f.scheduler) _ _)

  shutdown_finds :
      (p : ℕ) (a : VoidAwaker W)
      → Reach moved_from fuel f
      → f.object p ≡ active fid a
      → poll moved_from fuel (event_read bytes shutdown fid info) f ≡ (
          void_wake fuel a f.scheduler >>= λ (b, s).
          ok (
            bytes_read bytes,
            record f { object = update f.object p (active fid b); scheduler = s },
          ))
  unfolding poll
  shutdown_finds p a reached e =
      let found =
        (Reach-IsRegistered moved_from fuel f reached).named fid p
          (subst (HasFid fid) (sym e) refl) in
      rw (poll, found, wake_active, e) (>>=-assoc (void_wake fuel a f.scheduler) _ _)

  -- In every reachable state: after a connection request or a shutdown for a fid that no open endpoint
  -- has, the code goes on behind its warning and uses an iterator at the end of the map.
  pub poll_unregistered :
      Reach moved_from fuel f
      → ((p : ℕ) → ¬ HasFid fid (f.object p))
      → (poll moved_from fuel (event_read bytes connreq fid info) f ≡ abort)
        × (poll moved_from fuel (event_read bytes shutdown fid info) f ≡ abort)
  unfolding poll
  poll_unregistered reached unused = by (f.peps fid) refl
    where
      by :
          (x : Option ℕ)
          → f.peps fid ≡ x
          → (poll moved_from fuel (event_read bytes connreq fid info) f ≡ abort)
            × (poll moved_from fuel (event_read bytes shutdown fid info) f ≡ abort)
      by none e = (rw (poll, e), rw (poll, e))
      by (some p) e =
          absurd (unused p ((Reach-IsRegistered moved_from fuel f reached).there fid p e))

-- In every reachable state: a connection request for the fid of an open passive endpoint wakes the awaker
-- of that endpoint with the request's info, and a shutdown for the fid of an open endpoint wakes its
-- `stop_waker_`; no other object changes.
pub poll_finds :
    {W I : Type 0} (moved_from : I → I) (fuel : ℕ) (f : Fabric W I) (bytes : ℕ) (info : I)
    (listener p : ℕ) (a : Awaker W I) (peer q : ℕ) (b : VoidAwaker W)
    → Reach moved_from fuel f
    → f.object p ≡ passive listener a
    → f.object q ≡ active peer b
    → (poll moved_from fuel (event_read bytes connreq listener info) f ≡ (
        wake moved_from fuel info a f.scheduler >>= λ (a', s). ok (
          bytes_read bytes,
          record f { object = update f.object p (passive listener a'); scheduler = s },
        )))
      × (poll moved_from fuel (event_read bytes shutdown peer info) f ≡ (
          void_wake fuel b f.scheduler >>= λ (b', s). ok (
            bytes_read bytes,
            record f { object = update f.object q (active peer b'); scheduler = s },
          )))
poll_finds moved_from fuel f bytes info listener p a peer q b reached at_p at_q = (
  connreq_finds moved_from fuel f listener bytes info p a reached at_p,
  shutdown_finds moved_from fuel f peer bytes info q b reached at_q,
)
