-- ===== src/Blob/Orders.antt =====
-- The callback inside the call of SPDK, and behind it (src/io/blob/blob.hpp).
use sqkio.Common.{ℕ, suc, ◌-◌, ◌^◌, ◌<◌, ◌≡◌, refl, [], ◌∷◌, ◌++◌, length, none, some}
use sqkio.Outcome.{ok}
use sqkio.Ring.Calls.Valid.{contents, IsValid}
use sqkio.Scheduler.{SqkScheduler}
use sqkio.Awaker.{Awaker, suspends, await_suspend, await_resume, co_await}
use sqkio.Awaker.Laws.{wake-idle, wake-waiting}
use sqkio.Blob.{Completion, common_cb, start, blob_call}

module _ {W R : Type 0} (moved_from : R → R) (k fuel : ℕ) (unset : R) (handle : W)
    (c : Completion R) (s : SqkScheduler W) where
  -- With a sound queue and room in it, for `resize`, `sync_meta_data`, `write` and `read`: where SPDK makes
  -- the callback behind the call, the coroutine suspends, the callback puts it into the queue once, and it
  -- resumes with the callback's result. Where SPDK makes the callback inside the call, the coroutine suspends
  -- too, with the result in its awaker, and the scheduler is as it was.
  pub blob_orders :
      IsValid 8 k s.queue
      → length (contents 8 s.queue) < 2 ^ k - 1
      → ((a : Awaker W R) × (a' : Awaker W R) × (s' : SqkScheduler W) × (blob_call moved_from
              (suc fuel)
              unset
              none
              handle
              s
            ≡ ok (suspends, a, s))
          × (common_cb moved_from (suc fuel) c a s ≡ ok (a', s'))
          × (contents 8 s'.queue ≡ contents 8 s.queue ++ (handle ∷ []) ∷ [])
          × ((await_resume moved_from (suc fuel) a').0 ≡ c.result))
        × (blob_call moved_from (suc fuel) unset (some c) handle s
            ≡ ok (suspends, record { handle = some handle; ret = c.result }, s))
  unfolding blob_call start common_cb co_await await_suspend await_resume
  blob_orders v room =
      let waiting : Awaker W R = record { handle = some handle; ret = unset } in
      let (s', runs, valid, held, same) =
        wake-waiting moved_from k fuel c.result waiting s handle refl v room in
      (
        (waiting, record { handle = some handle; ret = c.result }, s', refl, runs, held, refl),
        rw (
          blob_call,
          start,
          common_cb,
          wake-idle moved_from k (suc fuel) c.result (record { handle = none; ret = unset }) s refl,
        ),
      )
