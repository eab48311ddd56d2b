-- ===== src/Fabric/Resources.antt =====
-- The constructors and destructors of src/net/fabric/fabric.hpp that open and close objects of
-- libfabric. Whether each call of libfabric succeeds is an argument. A constructor that throws does
-- not run the destructor of its object.
pub mod Ends
use sqkio.Common.{ℕ, Bool, true, false, not, ◌||◌, if◌then◌else◌, Option, none, some}
use sqkio.Common.Update.{update}
use sqkio.Outcome.{Outcome, ok, abort}
use sqkio.Fabric.Events.{Fabric, gone, open_passive, open_active, close_endpoint}

-- The event queue with its endpoints, and which fids are open in libfabric.
pub record Library (W I : Type 0) : Type 0 where
  pub queue : Fabric W I
  pub is_open : ℕ → Bool

-- How a constructor ends.
pub data Made (W I : Type 0) : Type 0 where
  constructed : Library W I → Made W I
  threw : Library W I → Made W I

-- Which calls of the constructor of `Endpoint` succeed; `bind_av` has none where it gets no address
-- vector.
pub record EndpointAnswers : Type 0 where
  pub endpoint : Bool
  pub bind_eq : Bool
  pub bind_cq : Bool
  pub bind_av : Option Bool
  pub enable : Bool

-- The bind to the address vector, which is left out without one.
abbrev pub bound : Option Bool → Bool
bound none = true
bound (some b) = b

module _ {W I : Type 0} where
  abbrev pub opened : ℕ → Library W I → Library W I
  opened fid l = record l { is_open = update l.is_open fid true }

  -- `HAS_FID_DTOR`
  unfoldable pub close_fid : ℕ → Library W I → Library W I
  close_fid fid l = record l { is_open = update l.is_open fid false }

  -- The constructors of `Fabric`, `EventQueue`, `Domain`, `CompletionQueue`, `MemoryRegion` and
  -- `AddressVector`: one call, and its test.
  unfoldable pub open_resource : Bool → ℕ → Library W I → Made W I
  open_resource opens fid l = if opens then constructed (opened fid l) else threw l

  -- An object whose constructor throws is gone, with its awaker.
  abbrev pub without_object : ℕ → Library W I → Library W I
  without_object p l = record l { queue = record l.queue { object = update l.queue.object p gone } }

  -- `Endpoint::Endpoint`, at `p`.
  unfoldable pub construct_endpoint : EndpointAnswers → ℕ → ℕ → Library W I → Made W I
  construct_endpoint a fid p l =
      if not a.endpoint
      then threw l
      else if not a.bind_eq
      then threw (opened fid l)
      else (let l' = record (opened fid l) { queue = open_active fid p l.queue } in
          if not a.bind_cq
          then threw (without_object p l')
          else if not (bound a.bind_av)
          then threw (without_object p l')
          else if not a.enable
          then threw (without_object p l')
          else constructed l')

  -- `~Endpoint`: `fi_shutdown` reads the endpoint, which must not be closed.
  unfoldable pub destroy_endpoint : ℕ → ℕ → Library W I → Outcome (Library W I)
  destroy_endpoint fid p l =
      if l.is_open fid
      then ok
          (record l { queue = close_endpoint fid p l.queue; is_open = update l.is_open fid false })
      else abort

  -- `Endpoint::close`, or `none` where it throws.
  unfoldable pub close : Bool → ℕ → Library W I → Option (Library W I)
  close closes fid l =
      if closes then some (record l { is_open = update l.is_open fid false }) else none

  -- `PassiveEndpoint::PassiveEndpoint`, at `p`; `info` is what its awaker holds at first.
  unfoldable pub construct_passive : Bool → Bool → ℕ → ℕ → I → Library W I → Made W I
  construct_passive endpoint bind fid p info l =
      if not endpoint
      then threw l
      else if not bind
      then threw (opened fid l)
      else constructed (record (opened fid l) { queue = open_passive fid p info l.queue })

  -- `~PassiveEndpoint`
  unfoldable pub destroy_passive : ℕ → ℕ → Library W I → Library W I
  destroy_passive fid p l = record l {
    queue = close_endpoint fid p l.queue;
    is_open = update l.is_open fid false;
  }
