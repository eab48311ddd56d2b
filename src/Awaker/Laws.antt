-- ===== src/Awaker/Laws.antt =====
-- `wake` of src/core/core.hpp with a coroutine that waits and without, over a scheduler whose ring is
-- sound.
use sqkio.Common.{
  ℕ, suc, ◌-◌, ◌^◌, ◌<◌, ◌≡◌, ap, ◌∙◌, List, [], ◌∷◌, ◌++◌, none, some, length, lt→ltb,
}
use sqkio.Outcome.{ok}
use sqkio.Queue
use sqkio.Ring.Calls.Valid.{contents, IsValid}
use sqkio.Scheduler.{SqkScheduler}
use sqkio.Scheduler.Refine.{enqueue_lem}
use sqkio.Awaker.{Awaker, VoidAwaker, wake, void_wake}

pub push-room {ℓ} :
    {A : Type ℓ} (cap : ℕ) (q : List A) (x : A)
    → length q < cap
    → Queue.push cap q x ≡ (1, q ++ x ∷ [])
unfolding Queue.push
push-room cap q x room = rw (lt→ltb _ _ room)

module _ {W V : Type 0} (moved_from : V → V) (k fuel : ℕ) (ret : V) (a : Awaker W V)
    (s : SqkScheduler W) where
  pub wake-idle : a.handle ≡ none → wake moved_from fuel ret a s ≡ ok (record a { ret = ret }, s)
  unfolding wake
  wake-idle e = rw e

  -- With room in the queue the coroutine that waits goes to its end.
  pub wake-waiting :
      (handle : W)
      → a.handle ≡ some handle
      → IsValid 8 k s.queue
      → length (contents 8 s.queue) < 2 ^ k - 1
      → (s' : SqkScheduler W) × (wake moved_from (suc fuel) ret a s
          ≡ ok (record { handle = some handle; ret = ret }, s'))
        × IsValid 8 k s'.queue
        × (contents 8 s'.queue ≡ contents 8 s.queue ++ (handle ∷ []) ∷ [])
        × (s'.stopped ≡ s.stopped)
  unfolding wake
  wake-waiting handle e v room =
      let (s', runs, valid, held, same) = enqueue_lem k fuel handle s v in
      (
        s',
        rw (e, runs),
        valid,
        held
            ∙ ap (λ (p : ℕ × List (List W)). p.1)
                (push-room (2 ^ k - 1) (contents 8 s.queue) (handle ∷ []) room),
        same,
      )

-- The same for an awaker of `void`.
pub void_wake-waiting :
    {W : Type 0} (k fuel : ℕ) (a : VoidAwaker W) (s : SqkScheduler W) (handle : W)
    → a.handle ≡ some handle
    → IsValid 8 k s.queue
    → length (contents 8 s.queue) < 2 ^ k - 1
    → (s' : SqkScheduler W) × (void_wake (suc fuel) a s ≡ ok (a, s'))
      × (contents 8 s'.queue ≡ contents 8 s.queue ++ (handle ∷ []) ∷ [])
unfolding void_wake
void_wake-waiting {W} k fuel a s handle e v room =
    let (s', runs, valid, held, same) = enqueue_lem k fuel handle s v in
    (
      s',
      rw (e, runs),
      held
          ∙ ap (λ (p : ℕ × List (List W)). p.1)
              (push-room (2 ^ k - 1) (contents 8 s.queue) (handle ∷ []) room),
    )
