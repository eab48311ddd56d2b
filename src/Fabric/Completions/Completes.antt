-- ===== src/Fabric/Completions/Completes.antt =====
-- From the start of a transfer to its completion (src/net/fabric/fabric.hpp).
use sqkio.Common.{
  ℕ, zero, suc, ◌-◌, ◌^◌, ◌<◌, ◌≡◌, ◌≢◌, ◌⊎◌, inl, inr, refl, ◌∙◌, [], ◌∷◌, ◌++◌, length, some,
  true, false, arith,
}
use sqkio.Common.Update.{update, update_self}
use sqkio.Outcome.{ok, hang}
use sqkio.Ring.Calls.Valid.{contents, IsValid}
use sqkio.Awaker.{Awaker}
use sqkio.Awaker.Laws.{wake-waiting}
use sqkio.Fabric.Completions.{
  Waker, address_waker, void_waker, Transfers, MsgEntry, ErrEntry, one, CqRead, entry_read,
  error_available, returned, copied, wake_address, dispatch, cq_poll, Posted, waiting, thrown,
  Answer, success, try_again, refused, waits_at, send, recv, read, recv_resumed,
}

module _ {W : Type 0} (k fuel : ℕ) (t : Transfers W) (handle : W) (context : ℕ) where
  -- The state in which the coroutine waits on `w` at its context.
  abbrev posted : Waker W → Transfers W
  posted w = record t { waker = update t.waker context w }

  -- A completion that is taken for one of `recv`.
  received :
      (fresh : ℕ) (e : MsgEntry)
      → e.op_context ≡ context
      → e.flags.is_recv ≡ true
      → IsValid 8 k t.scheduler.queue
      → length (contents 8 t.scheduler.queue) < 2 ^ k - 1
      → (t' : Transfers W) × (dispatch
            (suc fuel)
            one
            e
            (posted (address_waker (record { handle = some handle; ret = fresh })))
          ≡ ok (returned one, t'))
        × (contents 8 t'.scheduler.queue ≡ contents 8 t.scheduler.queue ++ (handle ∷ []) ∷ [])
        × (recv_resumed context t' ≡ ok e.addr)
  unfolding dispatch recv_resumed
  received fresh e at is v room =
      let a : Awaker W ℕ = record { handle = some handle; ret = fresh } in
      let b : Awaker W ℕ = record { handle = some handle; ret = e.addr } in
      let (s', wakes, valid, held, same) =
        wake-waiting (λ x. x) k fuel e.addr a t.scheduler handle refl v room in
      (
        record {
          waker = update (update t.waker context (address_waker a)) context (address_waker b);
          scheduler = s';
        },
        rw (
          dispatch,
          is,
          at,
          wake_address,
          update_self t.waker context (address_waker a),
          wakes,
          at,
        ),
        held,
        rw (
          recv_resumed,
          update_self (update t.waker context (address_waker a)) context (address_waker b),
        ),
      )

  -- With a sound queue and room in it: `recv` that was posted waits; a completion with its context and the
  -- flag FI_RECV, or the entry of a transfer that failed with those, puts its coroutine into the queue
  -- once. `recv` then returns the address of the completion, or the `buf` of the error entry, alike.
  pub recv_completes :
      (errno fresh : ℕ) (e : MsgEntry) (failure : ErrEntry) (read : CqRead)
      → e.op_context ≡ context
      → e.flags.is_recv ≡ true
      → (read ≡ entry_read e) ⊎ ((read ≡ error_available one failure) × (copied failure ≡ e))
      → IsValid 8 k t.scheduler.queue
      → length (contents 8 t.scheduler.queue) < 2 ^ k - 1
      → (t1 : Transfers W) × (t2 : Transfers W) × (recv errno fresh success context handle t
          ≡ waiting t1)
        × (cq_poll (suc fuel) read t1 ≡ ok (returned one, t2))
        × (contents 8 t2.scheduler.queue ≡ contents 8 t.scheduler.queue ++ (handle ∷ []) ∷ [])
        × (recv_resumed context t2 ≡ ok e.addr)
  unfolding recv cq_poll
  recv_completes errno fresh e failure read at is gives v room =
      let w : Waker W = address_waker (record { handle = some handle; ret = fresh }) in
      let (t2, polls, held, resumes) = received fresh e at is v room in
      (posted w, t2, refl, dispatched read gives ∙ polls, held, resumes)
    where
      dispatched :
          (read : CqRead)
          → (read ≡ entry_read e) ⊎ ((read ≡ error_available one failure) × (copied failure ≡ e))
          → cq_poll
              (suc fuel)
              read
              (posted (address_waker (record { handle = some handle; ret = fresh })))
            ≡ dispatch
                (suc fuel)
                one
                e
                (posted (address_waker (record { handle = some handle; ret = fresh })))
      dispatched read (inl whole) = rw whole
      dispatched read (inr (failed, same)) = rw (failed, same)

  -- `read` waits whatever `fi_read` answers, and a completion with the flag FI_READ and no other of the
  -- flags that are tested is dropped: neither it nor the call changes the scheduler.
  pub read_lost :
      (answer : Answer) (e : MsgEntry)
      → e.flags.is_recv ≡ false
      → e.flags.is_send ≡ false
      → e.flags.is_write ≡ false
      → (t1 : Transfers W) × (read answer context handle t ≡ waiting t1)
        × (t1.scheduler ≡ t.scheduler)
        × (cq_poll (suc fuel) (entry_read e) t1 ≡ ok (returned one, t1))
  unfolding read cq_poll dispatch
  read_lost answer e not_recv not_send not_write = (
    posted (void_waker (record { handle = some handle })),
    refl,
    refl,
    rw (dispatch, not_recv, not_send, not_write),
  )

-- What `send` is behind its last call.
abbrev pub sent : {W : Type 0} → ℕ → W → Transfers W → Answer → Posted W
sent context handle t (refused c) = thrown c
sent context handle t _ = waits_at context (void_waker (record { handle = some handle })) t

module _ {W : Type 0} (t : Transfers W) (handle : W) (context : ℕ) where
  send-once :
      (calls : ℕ) (answers : ℕ → Answer)
      → answers 0 ≢ try_again
      → send (suc calls) answers context handle t ≡ ok (sent context handle t (answers 0))
  unfolding send
  send-once calls answers last = by (answers 0) refl
    where
      by :
          (a : Answer)
          → answers 0 ≡ a
          → send (suc calls) answers context handle t ≡ ok (sent context handle t (answers 0))
      by success e = rw (send, e)
      by (refused c) e = rw (send, e)
      by try_again e = absurd (last e)

  -- Where the first `n` calls of `fi_send` answer `-EAGAIN` and the next does not: `send` makes just one
  -- call more, and waits, or throws that answer where it is no success; after `n` calls it has not come back.
  pub send_returns :
      (n calls : ℕ) (answers : ℕ → Answer)
      → ((i : ℕ) → i < n → answers i ≡ try_again)
      → answers n ≢ try_again
      → n < calls
      → (send calls answers context handle t ≡ ok (sent context handle t (answers n)))
        × (send n answers context handle t ≡ hang)
  unfolding send
  send_returns n zero answers again last lt = absurd (omega arith)
  send_returns zero (suc calls) answers again last lt = (send-once calls answers last, refl)
  send_returns (suc n) (suc calls) answers again last lt =
      let (returns, hangs) =
        send_returns n calls (λ i. answers (suc i)) (λ i less. again (suc i) (omega arith)) last
          (omega arith) in
      (rw (send, again 0 (omega arith)) returns, rw (send, again 0 (omega arith)) hangs)
