-- ===== src/Blob/Tests.antt =====
-- Calls of SPDK, and a `setup` whose second callback fails (src/io/blob/blob.hpp).
use sqkio.Common.{ℕ, zero, suc, ◌≡◌, refl, [], ◌∷◌, true, Option, none, some, ◌==◌, arith}
use sqkio.Outcome.{ok}
use sqkio.Ring.Calls.Valid.{contents}
use sqkio.Ring.Elements.{scale}
use sqkio.Scheduler.{SqkScheduler}
use sqkio.Scheduler.Ready.{one_ready, one_ready-IsValid}
use sqkio.Awaker.{Awaker, resumes, suspends, await_resume}
use sqkio.Blob.{Completion, common_cb, blob_call}
use sqkio.Blob.Orders.{blob_orders}
use sqkio.Blob.Make.Ends.{Runs, make_blob_ends}
use sqkio.Blob.Setup.{Spdk, setup}
use sqkio.Blob.Setup.Ends.{setup_returns}

abbrev zeroed : ℕ → ℕ
zeroed rc = 0

abbrev done : Completion ℕ
done = record { result = 22; succeeded = true }

blob_orders_example :
    ((a : Awaker ℕ ℕ) × (a' : Awaker ℕ ℕ) × (s' : SqkScheduler ℕ) × (blob_call zeroed 1 0 none 5
          one_ready
        ≡ ok (suspends, a, one_ready))
      × (common_cb zeroed 1 done a one_ready ≡ ok (a', s'))
      × (contents 8 s'.queue ≡ (9 ∷ []) ∷ (5 ∷ []) ∷ [])
      × ((await_resume zeroed 1 a').0 ≡ 22))
    × (blob_call zeroed 1 0 (some done) 5 one_ready
        ≡ ok (suspends, record { handle = some 5; ret = 22 }, one_ready))
unfolding scale
blob_orders_example = blob_orders zeroed 2 0 0 5 done one_ready one_ready-IsValid (omega arith)

-- The polls 1 and 3 make a callback; the second has the code 12. The thread exits at the third look.
abbrev fails_late : Spdk
fails_late = record {
  env_init = 0;
  thread_lib_init = 0;
  has_thread = true;
  in_runtime = true;
  callback = calls;
  exited = λ look. look == 2;
}
  where
    calls : ℕ → Option ℕ
    calls zero = none
    calls (suc zero) = some 0
    calls (suc (suc zero)) = none
    calls (suc (suc (suc n))) = some 12

setup_returns_example : setup zeroed true 1 fails_late 9 0 5 one_ready ≡ ok (resumes 12, one_ready)
setup_returns_example =
    setup_returns zeroed true 1 fails_late 0 one_ready 4 2 9 12 5 refl refl (omega arith) refl
      (omega arith)

abbrev done_blob : Completion ℕ
done_blob = record { result = 90; succeeded = true }

make_blob_ends_example :
    Runs {C = ℕ} zeroed zeroed true 2 0 0 0 7 5 done done_blob one_ready one_ready one_ready
      one_ready one_ready
make_blob_ends_example =
    make_blob_ends zeroed zeroed true 2 0 0 0 7 5 done done_blob one_ready one_ready one_ready
      one_ready one_ready refl refl one_ready-IsValid (omega arith) one_ready-IsValid (omega arith)
