-- ===== src/Awaker.antt =====
-- `Awaker`, `CheckableAwaker` and `SuspendYield` of src/core/core.hpp, and the `co_await` of each. The
-- scheduler is that of Scheduler.antt; a null handle is `none`.
pub mod Laws
pub mod Orders
mod Tests
use sqkio.Common.{ℕ, Bool, true, false, Option, none, some}
use sqkio.Outcome.{Outcome, ok, ◌>>=◌}
use sqkio.Scheduler.{SqkScheduler, enqueue}

-- `Awaker<T>`; `Awaker<void>` has no `ret_`.
pub record Awaker (W V : Type 0) : Type 0 where
  pub handle : Option W
  pub ret : V

pub record VoidAwaker (W : Type 0) : Type 0 where
  pub handle : Option W

pub record CheckableAwaker (W V : Type 0) : Type 0 where
  pub awaker : Awaker W V
  pub awaked : Bool

-- What an expression `co_await` does to the coroutine: it goes on with the value, or suspends.
pub data Awaited (V : Type 0) : Type 0 where
  resumes : V → Awaited V
  suspends : Awaited V

-- `moved_from` is what `std::move` leaves of a value; `fuel` is that of the ring's loops.
module _ {W V : Type 0} (moved_from : V → V) (fuel : ℕ) where
  abbrev pub await_ready : Awaker W V → Bool
  await_ready a = false

  unfoldable pub await_suspend : W → Awaker W V → Awaker W V
  await_suspend handle a = record a { handle = some handle }

  unfoldable pub await_resume : Awaker W V → V × Awaker W V
  await_resume a = (a.ret, record a { handle = none; ret = moved_from a.ret })

  unfoldable pub wake : V → Awaker W V → SqkScheduler W → Outcome (Awaker W V × SqkScheduler W)
  wake ret a s = elim a.handle [
    | none ↦ ok (record a { ret = ret }, s)
    | some handle ↦ enqueue fuel handle s >>= λ (rc, s'). ok (record a { ret = ret }, s')
  ]

  -- `co_await` on an `Awaker` in the coroutine `handle`.
  unfoldable pub co_await : W → Awaker W V → Awaited V × Awaker W V
  co_await handle a = elim (await_ready a) [
    | true ↦ let (ret, a') = await_resume a in (resumes ret, a')
    | false ↦ (suspends, await_suspend handle a)
  ]

  abbrev pub is_awaked : CheckableAwaker W V → Bool
  is_awaked c = c.awaked

  abbrev pub checkable_await_ready : CheckableAwaker W V → Bool
  checkable_await_ready c = c.awaked

  unfoldable pub checkable_wake :
      V → CheckableAwaker W V → SqkScheduler W → Outcome (CheckableAwaker W V × SqkScheduler W)
  checkable_wake ret c s =
      wake ret c.awaker s >>= λ (a, s'). ok (record { awaker = a; awaked = true }, s')

  unfoldable pub checkable_await_suspend : W → CheckableAwaker W V → CheckableAwaker W V
  checkable_await_suspend handle c = record {
    awaker = await_suspend handle c.awaker;
    awaked = false;
  }

  unfoldable pub checkable_await_resume : CheckableAwaker W V → V × CheckableAwaker W V
  checkable_await_resume c = let (ret, a) = await_resume c.awaker in (ret, record c { awaker = a })

  -- `co_await` on a `CheckableAwaker`.
  unfoldable pub checkable_co_await : W → CheckableAwaker W V → Awaited V × CheckableAwaker W V
  checkable_co_await handle c = elim (checkable_await_ready c) [
    | true ↦ let (ret, c') = checkable_await_resume c in (resumes ret, c')
    | false ↦ (suspends, checkable_await_suspend handle c)
  ]

module _ {W : Type 0} (fuel : ℕ) where
  unfoldable pub void_await_resume : VoidAwaker W → VoidAwaker W
  void_await_resume a = record a { handle = none }

  unfoldable pub void_wake : VoidAwaker W → SqkScheduler W → Outcome (VoidAwaker W × SqkScheduler W)
  void_wake a s = elim a.handle [
    | none ↦ ok (a, s)
    | some handle ↦ enqueue fuel handle s >>= λ (rc, s'). ok (a, s')
  ]

  -- `SuspendYield::await_suspend`: the coroutine goes to the end of the queue.
  unfoldable pub yield_await_suspend : W → SqkScheduler W → Outcome (SqkScheduler W)
  yield_await_suspend handle s = enqueue fuel handle s >>= λ (rc, s'). ok s'
