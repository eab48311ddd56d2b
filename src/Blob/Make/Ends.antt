-- ===== src/Blob/Make/Ends.antt =====
-- `make_blob` of src/io/blob/blob.hpp from its call to its end, with SPDK's callbacks behind the
-- calls.
use sqkio.Common.{
  ℕ, suc, ◌-◌, ◌^◌, ◌<◌, ◌≡◌, refl, Bool, false, ◌&&◌, not, [], ◌∷◌, ◌++◌, length, none, some,
}
use sqkio.Outcome.{ok}
use sqkio.Ring.Calls.Valid.{contents, IsValid}
use sqkio.Scheduler.{SqkScheduler}
use sqkio.Awaker.{await_suspend, await_resume, co_await}
use sqkio.Awaker.Laws.{wake-waiting}
use sqkio.Blob.{Completion, asserting_cb, start, store_call}
use sqkio.Blob.Make.{
  MakeBlob, creating, opening, made, opened, created, make_blob, make_blob_resumed, id_arrives,
  blob_arrives,
}

-- The callback of a coroutine that waits puts it into the queue.
asserting_cb-waiting :
    {W R : Type 0} (moved_from : R → R) (k fuel : ℕ) (debug : Bool) (handle : W) (unset : R)
    (c : Completion R) (s : SqkScheduler W)
    → (debug && not c.succeeded) ≡ false
    → IsValid 8 k s.queue
    → length (contents 8 s.queue) < 2 ^ k - 1
    → (s' : SqkScheduler W) × (asserting_cb moved_from
          (suc fuel)
          debug
          c
          (record { handle = some handle; ret = unset })
          s
        ≡ ok (record { handle = some handle; ret = c.result }, s'))
      × (contents 8 s'.queue ≡ contents 8 s.queue ++ (handle ∷ []) ∷ [])
unfolding asserting_cb
asserting_cb-waiting moved_from k fuel debug handle unset c s passes v room =
    let (s', runs, valid, held, same) =
      wake-waiting moved_from k fuel c.result (record { handle = some handle; ret = unset }) s
        handle refl v room in
    (s', rw (asserting_cb, passes) runs, held)

module _ {W I P C : Type 0} (moved_id : I → I) (moved_blob : P → P) (debug : Bool) (k fuel : ℕ)
    (unset_id : I) (unset_blob : P) (channel : C) (handle : W) (id : Completion I)
    (blob : Completion P) (s0 s1 s2 s3 s4 : SqkScheduler W) where
  -- What the five parts of a run of `make_blob` do: the call, the first callback, the first
  -- resumption, the second callback and the second resumption, at the schedulers that each of them
  -- finds.
  abbrev pub Runs : Type 0
  Runs =
      (m1 m2 m3 m4 : MakeBlob W I P C) × (t1 t3 : SqkScheduler W) × (make_blob moved_id moved_blob
          debug (suc fuel) unset_id unset_blob channel none none handle s0
        ≡ ok (m1, s0))
      × (id_arrives moved_id moved_blob debug (suc fuel) unset_id unset_blob channel id m1 s1
          ≡ ok (m2, t1))
      × (contents 8 t1.queue ≡ contents 8 s1.queue ++ (handle ∷ []) ∷ [])
      × (make_blob_resumed moved_id moved_blob debug (suc fuel) unset_id unset_blob channel none
            handle m2 s2
          ≡ ok (m3, s2))
      × (m3 ≡ opening id.result (record { handle = some handle; ret = unset_blob }))
      × (blob_arrives moved_id moved_blob debug (suc fuel) unset_id unset_blob channel blob m3 s3
          ≡ ok (m4, t3))
      × (contents 8 t3.queue ≡ contents 8 s3.queue ++ (handle ∷ []) ∷ [])
      × (make_blob_resumed moved_id moved_blob debug (suc fuel) unset_id unset_blob channel none
            handle m4 s4
          ≡ ok (made (record { blob = blob.result; channel = channel }), s4))

  -- Where both callbacks come behind their calls with `bserrno` 0, or in a build with NDEBUG with
  -- any, and each finds a sound queue with room: `make_blob` suspends, the first callback puts its
  -- coroutine into the queue once; resumed, it asks for the blob of the id that this callback was
  -- given and suspends again, and the second puts it into the queue once; resumed again, it ends
  -- with the second callback's blob and the channel.
  pub make_blob_ends :
      (debug && not id.succeeded) ≡ false
      → (debug && not blob.succeeded) ≡ false
      → IsValid 8 k s1.queue
      → length (contents 8 s1.queue) < 2 ^ k - 1
      → IsValid 8 k s3.queue
      → length (contents 8 s3.queue) < 2 ^ k - 1
      → Runs
  unfolding make_blob make_blob_resumed id_arrives blob_arrives created opened store_call start
      co_await await_suspend await_resume
  make_blob_ends passes passes' v1 room1 v3 room3 =
      let (t1, wakes, held) =
        asserting_cb-waiting moved_id k fuel debug handle unset_id id s1 passes v1 room1 in
      let (t3, wakes', held') =
        asserting_cb-waiting moved_blob k fuel debug handle unset_blob blob s3 passes' v3 room3 in
      (
        creating (record { handle = some handle; ret = unset_id }),
        creating (record { handle = some handle; ret = id.result }),
        opening id.result (record { handle = some handle; ret = unset_blob }),
        opening id.result (record { handle = some handle; ret = blob.result }),
        t1,
        t3,
        refl,
        rw (id_arrives, wakes) refl,
        held,
        refl,
        refl,
        rw (blob_arrives, wakes') refl,
        held',
        refl,
      )
