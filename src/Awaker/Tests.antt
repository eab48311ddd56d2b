-- ===== src/Awaker/Tests.antt =====
-- The awakers of src/core/core.hpp over a scheduler with one handle in its queue.
use sqkio.Common.{ℕ, ◌≡◌, refl, [], ◌∷◌, none, some, false, arith}
use sqkio.Outcome.{ok}
use sqkio.Ring.Elements.{scale}
use sqkio.Ring.Calls.Valid.{contents}
use sqkio.Scheduler.{SqkScheduler}
use sqkio.Scheduler.Ready.{one_ready, one_ready-IsValid}
use sqkio.Awaker.{
  Awaker, CheckableAwaker, resumes, suspends, checkable_wake, checkable_await_resume,
  checkable_co_await,
}
use sqkio.Awaker.Orders.{checkable_orders}

-- What a move leaves: zero.
abbrev zeroed : ℕ → ℕ
zeroed v = 0

abbrev idle : Awaker ℕ ℕ
idle = record { handle = none; ret = 0 }

abbrev waits : Awaker ℕ ℕ
waits = record { handle = some 5; ret = 0 }

abbrev fresh : CheckableAwaker ℕ ℕ
fresh = record { awaker = idle; awaked = false }

checkable_orders_example :
    ((c' : CheckableAwaker ℕ ℕ) × (checkable_wake zeroed 1 42 fresh one_ready ≡ ok (c', one_ready))
      × ((checkable_co_await zeroed 1 5 c').0 ≡ resumes 42))
    × ((checkable_co_await zeroed 1 5 fresh).0 ≡ suspends)
    × (c' : CheckableAwaker ℕ ℕ) × (s' : SqkScheduler ℕ) × (checkable_wake zeroed 1 42
          (checkable_co_await zeroed 1 5 fresh).1
          one_ready
        ≡ ok (c', s'))
    × (contents 8 s'.queue ≡ (9 ∷ []) ∷ (5 ∷ []) ∷ [])
    × ((checkable_await_resume zeroed 1 c').0 ≡ 42)
unfolding scale
checkable_orders_example =
    checkable_orders zeroed 2 0 5 42 one_ready fresh refl refl one_ready-IsValid (omega arith)
