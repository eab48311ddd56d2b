-- ===== src/Blob/Setup/Ends.antt =====
-- How `BlobEnv::setup` ends (src/io/blob/blob.hpp).
use mathlib.Core.Path.{subst}
use sqkio.Common.{
  ℕ, zero, suc, ◌+◌, ◌-◌, ◌^◌, ◌<◌, ◌≡◌, refl, sym, ap, List, [], ◌∷◌, Bool, true, false, ◌&&◌, not,
  ◌==◌, Option, none, some, if◌then◌else◌, inl, inr, Bool-cases, arith,
}
use sqkio.Common.Options.{some-inj, none-some}
use sqkio.Outcome.{Outcome, ok}
use sqkio.Scheduler.{SqkScheduler}
use sqkio.Awaker.{
  CheckableAwaker, Awaited, resumes, await_resume, checkable_wake, checkable_co_await,
  checkable_await_resume,
}
use sqkio.Awaker.Laws.{wake-idle}
use sqkio.Blob.Setup.{
  Stage, loading, initializing, loading_again, settled, Arg, Spdk, settle, call_back, thread_poll,
  wait, drain, setup,
}

-- The codes of the callbacks that `n` polls make, from poll `m` on.
abbrev pub codes : (ℕ → Option ℕ) → ℕ → ℕ → List ℕ
codes callback zero m = []
codes callback (suc n) m =
    let rest = codes callback n (suc m) in elim (callback m) [ none ↦ rest | some rc ↦ rc ∷ rest ]

-- The code that a chain of callbacks comes to: the first that is not 0, or the last.
abbrev pub verdict : Stage → List ℕ → Option ℕ
verdict stage [] = none
verdict loading (rc ∷ rest) = if rc == 0 then verdict initializing rest else some rc
verdict initializing (rc ∷ rest) = if rc == 0 then verdict loading_again rest else some rc
verdict loading_again (rc ∷ rest) = some rc
verdict settled (rc ∷ rest) = none

-- The code that `setup` is to return, with the callbacks of `n` polls.
abbrev pub setup_code : Spdk → ℕ → Option ℕ
setup_code spdk n =
    if not (spdk.env_init == 0)
    then some spdk.env_init
    else (if not (spdk.thread_lib_init == 0)
        then some spdk.thread_lib_init
        else (if not spdk.has_thread
            then some (2 ^ 32 - 1)
            else verdict loading (codes spdk.callback n 0)))

&&-false : (b : Bool) → (b && false) ≡ false
&&-false true = refl
&&-false false = refl

module _ {W : Type 0} (moved_from : ℕ → ℕ) (debug : Bool) (fuel : ℕ) (spdk : Spdk) (unset : ℕ)
    (s : SqkScheduler W) where
  abbrev fresh : CheckableAwaker W ℕ
  fresh = record { awaker = record { handle = none; ret = unset }; awaked = false }

  abbrev awaked_with : ℕ → Arg W
  awaked_with rc = record {
    stage = settled;
    waker = record { awaker = record { handle = none; ret = rc }; awaked = true };
  }

  abbrev waits_in : Stage → Arg W
  waits_in stage = record { stage = stage; waker = fresh }

  settle-fresh :
      (rc : ℕ) (stage : Stage)
      → settle moved_from debug fuel spdk rc (waits_in stage) s ≡ ok (awaked_with rc, s)
  unfolding checkable_wake
  settle-fresh rc stage = rw (
    settle,
    checkable_wake,
    wake-idle moved_from 0 fuel rc (record { handle = none; ret = unset }) s refl,
  )

  wait-awaked :
      (polls m rc : ℕ)
      → 0 < polls
      → wait moved_from debug fuel spdk polls m (awaked_with rc) s ≡ ok (awaked_with rc, s)
  unfolding wait
  wait-awaked zero m rc lt = absurd (omega arith)
  wait-awaked (suc polls) m rc lt = refl

  -- One round of the loop, where the rounds behind it come to the code.
  wait-round :
      (n polls m rc : ℕ) (stage : Stage)
      → spdk.in_runtime ≡ true
      → ((next : Stage)
          → verdict next (codes spdk.callback n (suc m)) ≡ some rc
          → wait moved_from debug fuel spdk polls (suc m) (waits_in next) s
            ≡ ok (awaked_with rc, s))
      → 0 < polls
      → verdict stage (codes spdk.callback (suc n) m) ≡ some rc
      → wait moved_from debug fuel spdk (suc polls) m (waits_in stage) s ≡ ok (awaked_with rc, s)
  unfolding wait thread_poll call_back
  wait-round n polls m rc stage up rounds lt comes = by (spdk.callback m) refl stage comes
    where
      settles :
          (c : ℕ) (stage : Stage)
          → spdk.callback m ≡ some c
          → call_back moved_from debug fuel spdk c (waits_in stage) s
            ≡ settle moved_from debug fuel spdk c (waits_in stage) s
          → some c ≡ some rc
          → wait moved_from debug fuel spdk (suc polls) m (waits_in stage) s
            ≡ ok (awaked_with rc, s)
      settles c stage e calls same =
          rw (wait, thread_poll, e, calls, settle-fresh c stage)
            (subst
              (λ (d : ℕ).
                wait moved_from debug fuel spdk polls (suc m) (awaked_with d) s
                ≡ ok (awaked_with rc, s))
              (sym (some-inj same)) (wait-awaked polls (suc m) rc lt))

      by :
          (x : Option ℕ)
          → spdk.callback m ≡ x
          → (stage : Stage) → verdict stage (codes spdk.callback (suc n) m) ≡ some rc
          → wait moved_from debug fuel spdk (suc polls) m (waits_in stage) s
            ≡ ok (awaked_with rc, s)
      by none e stage comes = rw (wait, thread_poll, e) (rounds stage (rw (codes, e) at comes))
      by (some c) e loading comes = elim (Bool-cases (c == 0)) [
        | inl good ↦
            rw (wait, thread_poll, e, call_back, good)
              (rounds initializing (rw (codes, e, good) at comes))
        | inr bad ↦ settles c loading e (rw (call_back, bad)) (rw (codes, e, bad) at comes)
      ]
      by (some c) e initializing comes = elim (Bool-cases (c == 0)) [
        | inl good ↦
            rw (wait, thread_poll, e, call_back, good, up, &&-false debug)
              (rounds loading_again (rw (codes, e, good) at comes))
        | inr bad ↦ settles c initializing e (rw (call_back, bad)) (rw (codes, e, bad) at comes)
      ]
      by (some c) e loading_again comes = settles c loading_again e refl (rw (codes, e) at comes)
      by (some c) e settled comes = absurd (none-some (rw (codes, e) at comes))

  wait-verdict :
      (n polls m rc : ℕ) (stage : Stage)
      → spdk.in_runtime ≡ true
      → verdict stage (codes spdk.callback n m) ≡ some rc
      → n < polls
      → wait moved_from debug fuel spdk polls m (waits_in stage) s ≡ ok (awaked_with rc, s)
  wait-verdict n zero m rc stage up comes lt = absurd (omega arith)
  wait-verdict zero (suc polls) m rc stage up comes lt = none-some comes
  wait-verdict (suc n) (suc polls) m rc stage up comes lt =
      wait-round n polls m rc stage up
        (λ next e. wait-verdict n polls (suc m) rc next up e (omega arith)) (omega arith) comes

-- The loop ends at the first look at which the thread has exited.
drain-returns :
    (exited : ℕ → Bool) (j looks n : ℕ)
    → exited (n + j) ≡ true
    → j < looks
    → (look : ℕ) × (drain exited looks n ≡ ok look)
unfolding drain
drain-returns exited j zero n e lt = absurd (omega arith)
drain-returns exited zero (suc looks) n e lt =
    let now : exited n ≡ true =
      subst (λ (i : ℕ). exited i ≡ true) {x = n + 0} {y = n} (omega arith) e in
    (n, rw now)
drain-returns exited (suc j) (suc looks) n e lt = elim (Bool-cases (exited n)) [
  | inl now ↦ (n, rw now)
  | inr later ↦
      let (look, ends) =
        drain-returns exited j looks (suc n)
          (subst (λ (i : ℕ). exited i ≡ true) {x = n + suc j} {y = suc n + j} (omega arith) e)
          (omega arith) in
      (look, rw later ends)
]

-- With no limit on the polls but that they are more than those that make the callbacks that settle the
-- code `rc`, and than the look at which the thread has exited, and with the RPC server in the state that
-- was set: `setup` returns `rc` without suspending, and enqueues nobody.
pub setup_returns :
    {W : Type 0} (moved_from : ℕ → ℕ) (debug : Bool) (fuel : ℕ) (spdk : Spdk) (unset : ℕ)
    (s : SqkScheduler W) (n j polls rc : ℕ) (handle : W)
    → setup_code spdk n ≡ some rc
    → spdk.in_runtime ≡ true
    → n < polls
    → spdk.exited j ≡ true
    → j < polls
    → setup moved_from debug fuel spdk polls unset handle s ≡ ok (resumes rc, s)
unfolding setup checkable_co_await checkable_await_resume await_resume
setup_returns {W} moved_from debug fuel spdk unset s n j polls rc handle comes up lt exits lt' =
    elim (Bool-cases (spdk.env_init == 0)) [
      | inr bad ↦ rw (setup, bad) (gives (rw bad at comes))
      | inl good ↦ elim (Bool-cases (spdk.thread_lib_init == 0)) [
        | inr bad ↦ rw (setup, good, bad) (gives (rw (good, bad) at comes))
        | inl fine ↦ elim (Bool-cases spdk.has_thread) [
          | inr bad ↦ rw (setup, good, fine, bad) (gives (rw (good, fine, bad) at comes))
          | inl made ↦
              let (look, ends) = drain-returns spdk.exited j polls 0 (exits_at exits) lt' in
              rw (
                setup,
                good,
                fine,
                wait-verdict moved_from debug fuel spdk unset s n polls 0 rc loading up
                    (rw (good, fine, made) at comes) lt,
                ends,
                made,
              )
        ]
      ]
    ]
  where
    gives :
        {c : ℕ}
        → some c ≡ some rc
        → ◌≡◌ {A = Outcome (Awaited ℕ × SqkScheduler W)} (ok (resumes c, s)) (ok (resumes rc, s))
    gives e = ap (λ (c : ℕ). ok (resumes c, s)) (some-inj e)

    exits_at : spdk.exited j ≡ true → spdk.exited (0 + j) ≡ true
    exits_at e = subst (λ (i : ℕ). spdk.exited i ≡ true) {x = j} {y = 0 + j} (omega arith) e
