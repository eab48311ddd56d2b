-- ===== src/Fabric/Events.antt =====
-- `EventQueue`, `PassiveEndpoint` and the connection part of `Endpoint` of src/net/fabric/fabric.hpp. The
-- objects and the awakers stand in stores by address; a `fid` is a number. To dereference the end of a
-- map, or an object as another type than its own, is undefined, and is `abort` here.
pub mod Registered
pub mod Reach
pub mod Polls
pub mod Lost
use sqkio.Common.{ℕ, Bool, true, false, Option, none, some, if◌then◌else◌}
use sqkio.Common.Update.{update}
use sqkio.Outcome.{Outcome, ok, abort, ◌>>=◌}
use sqkio.Scheduler.{SqkScheduler}
use sqkio.Awaker.{
  Awaker, VoidAwaker, Awaited, resumes, suspends, co_await, await_resume, wake, void_wake,
}

-- `PassiveEndpoint` with `awaker_`, `Endpoint` with `stop_waker_`, each with its fid; or no object.
pub data Object (W I : Type 0) : Type 0 where
  passive : ℕ → Awaker W I → Object W I
  active : ℕ → VoidAwaker W → Object W I
  gone : Object W I

-- `map_` and `peps_` of the `EventQueue`, and what their pointers lead to: the awakers of `accept`, and the
-- endpoints.
pub record Fabric (W I : Type 0) : Type 0 where
  pub map : ℕ → Option ℕ
  pub peps : ℕ → Option ℕ
  pub signal : ℕ → VoidAwaker W
  pub object : ℕ → Object W I
  pub scheduler : SqkScheduler W

pub data Event : Type 0 where
  connreq shutdown : Event
  other : ℕ → Event

-- What `fi_eq_read` gives: the bytes read, with the event and its entry, or a code that is not positive.
pub data EqRead (I : Type 0) : Type 0 where
  event_read : ℕ → Event → ℕ → I → EqRead I
  none_read : ℕ → EqRead I

-- What `poll` returns: the bytes read, or a code that is not positive.
pub data Ret : Type 0 where
  bytes_read : ℕ → Ret
  failed : ℕ → Ret

-- `unordered_map::emplace` leaves an entry that is there.
abbrev pub emplace : ℕ → ℕ → (ℕ → Option ℕ) → ℕ → Option ℕ
emplace key value map = elim (map key) [ none ↦ update map key (some value) | some value' ↦ map ]

module _ {W I : Type 0} where
  unfoldable pub add_ep : ℕ → ℕ → Fabric W I → Fabric W I
  add_ep fid p f = record f { peps = emplace fid p f.peps }

  unfoldable pub del_ep : ℕ → Fabric W I → Fabric W I
  del_ep fid f = record f { peps = update f.peps fid none }

  -- The constructors, where no call of libfabric fails: the new object stands at `p`.
  unfoldable pub open_passive : ℕ → ℕ → I → Fabric W I → Fabric W I
  open_passive fid p info f =
      add_ep fid p (record f {
        object = update f.object p (passive fid (record { handle = none; ret = info }));
      })

  unfoldable pub open_active : ℕ → ℕ → Fabric W I → Fabric W I
  open_active fid p f =
      add_ep fid p (record f { object = update f.object p (active fid (record { handle = none })) })

  -- The destructors.
  unfoldable pub close_endpoint : ℕ → ℕ → Fabric W I → Fabric W I
  close_endpoint fid p f = del_ep fid (record f { object = update f.object p gone })

  -- `accept` in the coroutine `handle`, with its awaker at `a`, up to its suspension; without success
  -- of `fi_accept` it throws.
  unfoldable pub accept : Bool → ℕ → ℕ → W → Fabric W I → Option (Fabric W I)
  accept accepted fid a handle f =
      if accepted
      then some (record f {
        map = emplace fid a f.map;
        signal = update f.signal a (record { handle = some handle });
      })
      else none

module _ {W I : Type 0} (moved_from : I → I) (fuel : ℕ) where
  -- `next` in the coroutine `handle`: its `co_await` on `awaker_`, and what follows it.
  unfoldable pub next : ℕ → W → Fabric W I → Outcome (Awaited I × Fabric W I)
  next p handle f = elim (f.object p) [
    | passive fid a ↦
        let (awaited, a') = co_await moved_from fuel handle a in
        ok (awaited, record f { object = update f.object p (passive fid a') })
    | _ ↦ abort
  ]

  unfoldable pub next_resumed : ℕ → Fabric W I → Outcome (I × Fabric W I)
  next_resumed p f = elim (f.object p) [
    | passive fid a ↦
        let (info, a') = await_resume moved_from fuel a in
        ok (info, record f { object = update f.object p (passive fid a') })
    | _ ↦ abort
  ]

  -- `wait_disconn` in the coroutine `handle`.
  unfoldable pub wait_disconn : ℕ → W → Fabric W I → Outcome (Fabric W I)
  wait_disconn p handle f = elim (f.object p) [
    | active fid a ↦
        ok
          (record f { object = update f.object p (active fid (record a { handle = some handle })) })
    | _ ↦ abort
  ]

  abbrev pub wake_passive : ℕ → I → Fabric W I → Outcome (Fabric W I)
  wake_passive p info f = elim (f.object p) [
    | passive fid a ↦ wake moved_from fuel info a f.scheduler >>= λ (a', s).
        ok (record f { object = update f.object p (passive fid a'); scheduler = s })
    | _ ↦ abort
  ]

  abbrev pub wake_active : ℕ → Fabric W I → Outcome (Fabric W I)
  wake_active p f = elim (f.object p) [
    | active fid a ↦ void_wake fuel a f.scheduler >>= λ (a', s).
        ok (record f { object = update f.object p (active fid a'); scheduler = s })
    | _ ↦ abort
  ]

  -- The awaker of `accept` is woken, and forgotten.
  abbrev pub wake_accept : ℕ → Fabric W I → Outcome (Fabric W I)
  wake_accept fid f = elim (f.map fid) [
    | some a ↦ void_wake fuel (f.signal a) f.scheduler >>= λ (b, s).
        ok (record f { map = update f.map fid none; signal = update f.signal a b; scheduler = s })
    | none ↦ ok f
  ]

  -- `EventQueue::poll`; the test for the end of `peps_` only logs.
  unfoldable pub poll : EqRead I → Fabric W I → Outcome (Ret × Fabric W I)
  poll (none_read code) f = ok (failed code, f)
  poll (event_read bytes connreq fid info) f = elim (f.peps fid) [
    | some p ↦ wake_passive p info f >>= λ f'. ok (bytes_read bytes, f')
    | none ↦ abort
  ]
  poll (event_read bytes shutdown fid info) f = elim (f.peps fid) [
    | some p ↦ wake_active p f >>= λ f'. ok (bytes_read bytes, f')
    | none ↦ abort
  ]
  poll (event_read bytes (other code) fid info) f =
      wake_accept fid f >>= λ f'. ok (bytes_read bytes, f')
