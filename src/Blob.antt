-- ===== src/Blob.antt =====
-- The operations of `Blob`, `BlobStore` and `BlobDev` in src/io/blob/blob.hpp: each gives SPDK an `Awaker`
-- of its own, with a callback that wakes it. SPDK makes the callback inside the call, or later.
pub mod Orders
pub mod Setup
pub mod Make
mod Tests
use sqkio.Common.{ℕ, Bool, ◌&&◌, not, Option, none, some, if◌then◌else◌}
use sqkio.Outcome.{Outcome, ok, abort, ◌>>=◌}
use sqkio.Scheduler.{SqkScheduler}
use sqkio.Awaker.{Awaker, Awaited, co_await, await_resume, wake}

-- What SPDK's callback is given: a result, and whether its `bserrno` is 0.
pub record Completion (R : Type 0) : Type 0 where
  pub result : R
  pub succeeded : Bool

module _ {W R : Type 0} (moved_from : R → R) (fuel : ℕ) where
  -- `common_cb`: the result is `bserrno` itself.
  unfoldable pub common_cb :
      Completion R → Awaker W R → SqkScheduler W → Outcome (Awaker W R × SqkScheduler W)
  common_cb c a s = wake moved_from fuel c.result a s

  -- The callbacks of `make_blob` and `init_blobstore`, with `debug` where NDEBUG is not defined.
  unfoldable pub asserting_cb :
      Bool → Completion R → Awaker W R → SqkScheduler W → Outcome (Awaker W R × SqkScheduler W)
  asserting_cb debug c a s =
      if debug && not c.succeeded then abort else wake moved_from fuel c.result a s

  module _
      (callback : Completion R
        → Awaker W R
        → SqkScheduler W
        → Outcome (Awaker W R × SqkScheduler W)) where
    -- The call of SPDK and the `co_await` behind it, in the coroutine `handle`; `unset` is the awaker's
    -- value before it is set, and `inside` what the callback is given if it is made in the call.
    unfoldable pub start :
        (unset : R)
        → Option (Completion R)
        → W
        → SqkScheduler W
        → Outcome (Awaited R × Awaker W R × SqkScheduler W)
    start unset none handle s =
        let (awaited, a) =
          co_await moved_from fuel handle (record { handle = none; ret = unset }) in
        ok (awaited, a, s)
    start unset (some c) handle s =
        callback c (record { handle = none; ret = unset }) s >>= λ (a, s').
        let (awaited, a') = co_await moved_from fuel handle a in ok (awaited, a', s')

  -- `resize`, `sync_meta_data`, `write` and `read`, up to their suspension.
  unfoldable pub blob_call :
      (unset : R)
      → Option (Completion R)
      → W
      → SqkScheduler W
      → Outcome (Awaited R × Awaker W R × SqkScheduler W)
  blob_call = start common_cb

  -- Either call of `make_blob`, and that of `init_blobstore`.
  unfoldable pub store_call :
      Bool
      → (unset : R) → Option (Completion R)
      → W
      → SqkScheduler W
      → Outcome (Awaited R × Awaker W R × SqkScheduler W)
  store_call debug = start (asserting_cb debug)
