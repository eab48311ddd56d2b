-- ===== src/Blob/Make.antt =====
-- `make_blob` of `BlobStore` in src/io/blob/blob.hpp as a coroutine: what it does up to its first
-- suspension, and each time that it is resumed. `channel` is what `spdk_bs_alloc_io_channel` gives.
pub mod Ends
use sqkio.Common.{ℕ, Bool, Option}
use sqkio.Outcome.{Outcome, ok, abort, ◌>>=◌}
use sqkio.Scheduler.{SqkScheduler}
use sqkio.Awaker.{Awaker, Awaited, resumes, suspends, await_resume}
use sqkio.Blob.{Completion, asserting_cb, store_call}

-- `Blob`, by the pointers that `Blob(blob, channel)` stores.
pub record BlobObject (P C : Type 0) : Type 0 where
  pub blob : P
  pub channel : C

-- Where the coroutine stands: at the `co_await` for the new id, at that for the blob of an id, or
-- at its end.
pub data MakeBlob (W I P C : Type 0) : Type 0 where
  creating : Awaker W I → MakeBlob W I P C
  opening : I → Awaker W P → MakeBlob W I P C
  made : BlobObject P C → MakeBlob W I P C

module _ {W I P C : Type 0} (moved_id : I → I) (moved_blob : P → P) (debug : Bool) (fuel : ℕ)
    (unset_id : I) (unset_blob : P) (channel : C) where
  -- Behind the second `co_await`.
  unfoldable pub opened : P → MakeBlob W I P C
  opened blob = made (record { blob = blob; channel = channel })

  -- Behind the first `co_await`: the blob of `id` is opened.
  unfoldable pub created :
      I → Option (Completion P) → W → SqkScheduler W → Outcome (MakeBlob W I P C × SqkScheduler W)
  created id inside handle s =
      store_call moved_blob fuel debug unset_blob inside handle s >>= λ (awaited, a, s').
      elim awaited [ resumes blob ↦ ok (opened blob, s') | suspends ↦ ok (opening id a, s') ]

  -- `make_blob` in the coroutine `handle`; `inside` and `inside'` are what SPDK's callbacks are
  -- given if they are made in the calls.
  unfoldable pub make_blob :
      Option (Completion I)
      → Option (Completion P)
      → W
      → SqkScheduler W
      → Outcome (MakeBlob W I P C × SqkScheduler W)
  make_blob inside inside' handle s =
      store_call moved_id fuel debug unset_id inside handle s >>= λ (awaited, a, s'). elim awaited [
        | resumes id ↦ created id inside' handle s'
        | suspends ↦ ok (creating a, s')
      ]

  -- The coroutine is resumed where it stands.
  unfoldable pub make_blob_resumed :
      Option (Completion P)
      → W
      → MakeBlob W I P C
      → SqkScheduler W
      → Outcome (MakeBlob W I P C × SqkScheduler W)
  make_blob_resumed inside' handle (creating a) s =
      let (id, a') = await_resume moved_id fuel a in created id inside' handle s
  make_blob_resumed inside' handle (opening id a) s =
      let (blob, a') = await_resume moved_blob fuel a in ok (opened blob, s)
  make_blob_resumed inside' handle (made b) s = abort

  -- The callbacks behind the calls, on the awaker in the coroutine's frame.
  unfoldable pub id_arrives :
      Completion I → MakeBlob W I P C → SqkScheduler W → Outcome (MakeBlob W I P C × SqkScheduler W)
  id_arrives c (creating a) s =
      asserting_cb moved_id fuel debug c a s >>= λ (a', s'). ok (creating a', s')
  id_arrives c _ s = abort

  unfoldable pub blob_arrives :
      Completion P → MakeBlob W I P C → SqkScheduler W → Outcome (MakeBlob W I P C × SqkScheduler W)
  blob_arrives c (opening id a) s =
      asserting_cb moved_blob fuel debug c a s >>= λ (a', s'). ok (opening id a', s')
  blob_arrives c _ s = abort
