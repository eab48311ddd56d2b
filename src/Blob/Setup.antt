-- ===== src/Blob/Setup.antt =====
-- `BlobEnv::setup` in src/io/blob/blob.hpp: the chain of SPDK's callbacks that loads the configuration, and
-- the loops that poll its thread. A code is an `int` in 32 bits. What SPDK answers is an argument.
pub mod Ends
use sqkio.Common.{
  ℕ, zero, suc, ◌-◌, ◌^◌, Bool, true, false, ◌&&◌, not, ◌==◌, Option, none, some, if◌then◌else◌,
}
use sqkio.Outcome.{Outcome, ok, hang, abort, ◌>>=◌}
use sqkio.Scheduler.{SqkScheduler}
use sqkio.Awaker.{
  CheckableAwaker, Awaited, resumes, suspends, is_awaked, checkable_wake, checkable_co_await,
}

-- The call whose callback is due: the first `spdk_subsystem_load_config`, `spdk_subsystem_init`, or the
-- second `spdk_subsystem_load_config`; or none.
pub data Stage : Type 0 where
  loading initializing loading_again settled : Stage

-- `loadConfigArg`, with the call that is under way.
pub record Arg (W : Type 0) : Type 0 where
  pub stage : Stage
  pub waker : CheckableAwaker W ℕ

-- What SPDK answers: the codes of `spdk_env_init` and `spdk_thread_lib_init`, whether there is a thread,
-- whether the state of the RPC server is the one set, the code of the callback that poll `n` makes, if it
-- makes one, and whether the thread has exited at look `n`.
pub record Spdk : Type 0 where
  pub env_init : ℕ
  pub thread_lib_init : ℕ
  pub has_thread : Bool
  pub in_runtime : Bool
  pub callback : ℕ → Option ℕ
  pub exited : ℕ → Bool

-- `while (!spdk_thread_is_exited(thread))`, from look `n` on; the callbacks are over. It gives the look
-- that ends it.
unfoldable pub drain : (ℕ → Bool) → ℕ → ℕ → Outcome ℕ
drain exited zero n = hang
drain exited (suc looks) n =
    let rest = drain exited looks (suc n) in if exited n then ok n else rest

module _ {W : Type 0} (moved_from : ℕ → ℕ) (debug : Bool) (fuel : ℕ) (spdk : Spdk) where
  abbrev pub settle : ℕ → Arg W → SqkScheduler W → Outcome (Arg W × SqkScheduler W)
  settle rc arg s = checkable_wake moved_from fuel rc arg.waker s >>= λ (waker, s').
      ok (record { stage = settled; waker = waker }, s')

  -- The three callbacks. One without a call is no behaviour of SPDK.
  unfoldable pub call_back : ℕ → Arg W → SqkScheduler W → Outcome (Arg W × SqkScheduler W)
  call_back rc arg s = elim arg.stage [
    | loading ↦ if rc == 0 then ok (record arg { stage = initializing }, s) else settle rc arg s
    | initializing ↦
        if rc == 0
        then (if debug && not spdk.in_runtime
            then abort
            else ok (record arg { stage = loading_again }, s))
        else settle rc arg s
    | loading_again ↦ settle rc arg s
    | settled ↦ abort
  ]

  unfoldable pub thread_poll : ℕ → Arg W → SqkScheduler W → Outcome (Arg W × SqkScheduler W)
  thread_poll n arg s = elim (spdk.callback n) [ none ↦ ok (arg, s) | some rc ↦ call_back rc arg s ]

  -- `while (!arg.waker_.is_awaked())`, from poll `n` on.
  unfoldable pub wait : ℕ → ℕ → Arg W → SqkScheduler W → Outcome (Arg W × SqkScheduler W)
  wait zero n arg s = hang
  wait (suc polls) n arg s = elim (is_awaked moved_from fuel arg.waker) [
    | true ↦ ok (arg, s)
    | false ↦ thread_poll n arg s >>= λ (arg', s'). wait polls (suc n) arg' s'
  ]

  -- `setup` in the coroutine `handle`, for at most `polls` rounds of either loop; `unset` is the awaker's
  -- value before it is set. The thread that is not made gives -1.
  unfoldable pub setup :
      (polls unset : ℕ) → W → SqkScheduler W → Outcome (Awaited ℕ × SqkScheduler W)
  setup polls unset handle s =
      if not (spdk.env_init == 0)
      then ok (resumes spdk.env_init, s)
      else (if not (spdk.thread_lib_init == 0)
          then ok (resumes spdk.thread_lib_init, s)
          else (if not spdk.has_thread
              then ok (resumes (2 ^ 32 - 1), s)
              else (wait polls 0
                    (record {
                      stage = loading;
                      waker = record {
                        awaker = record { handle = none; ret = unset };
                        awaked = false;
                      };
                    })
                    s
                  >>= λ (arg, s'). drain spdk.exited polls 0 >>= λ look.
                      ok ((checkable_co_await moved_from fuel handle arg.waker).0, s'))))
