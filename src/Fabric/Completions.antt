-- ===== src/Fabric/Completions.antt =====
-- `CompletionQueue::poll` and the transfers of `Endpoint` in src/net/fabric/fabric.hpp. The awakers of the
-- transfers stand in a store by the address that they give libfabric as the context.
pub mod Completes
use sqkio.Common.{ℕ, zero, suc, Bool, true, false, some, ◌||◌, ◌==◌, if◌then◌else◌}
use sqkio.Common.Update.{update}
use sqkio.Outcome.{Outcome, ok, hang, abort, ◌>>=◌}
use sqkio.Scheduler.{SqkScheduler}
use sqkio.Awaker.{Awaker, VoidAwaker, await_resume, void_await_resume, wake, void_wake}

-- The awaker of a transfer: `recv` and `write` have an `Awaker<Address>`, `send` and `read` one of `void`.
pub data Waker (W : Type 0) : Type 0 where
  address_waker : Awaker W ℕ → Waker W
  void_waker : VoidAwaker W → Waker W

pub record Transfers (W : Type 0) : Type 0 where
  pub waker : ℕ → Waker W
  pub scheduler : SqkScheduler W

-- The flags of a completion that the code tests; `is_read` stands for FI_READ, which it does not.
pub record Flags : Type 0 where
  pub is_recv : Bool
  pub is_send : Bool
  pub is_write : Bool
  pub is_read : Bool

-- `fi_cq_msg_entry` with the address that `fi_cq_readfrom` gave; the length is not read.
pub record MsgEntry : Type 0 where
  pub op_context : ℕ
  pub flags : Flags
  pub addr : ℕ

-- The first fields of `fi_cq_err_entry`: `buf` stands where the address of a message entry stands.
pub record ErrEntry : Type 0 where
  pub op_context : ℕ
  pub flags : Flags
  pub buf : ℕ

-- A return code: 1, or another.
pub data Rc : Type 0 where
  one : Rc
  code : ℕ → Rc

-- What `fi_cq_readfrom` gives: an entry, `-EAGAIN`, or `-FI_EAVAIL` with what `fi_cq_readerr` then gives, or
-- another code.
pub data CqRead : Type 0 where
  entry_read : MsgEntry → CqRead
  again : CqRead
  error_available : Rc → ErrEntry → CqRead
  failed : ℕ → CqRead

-- What `poll` returns.
pub data Polled : Type 0 where
  nothing : Polled
  returned : Rc → Polled

-- `memcpy(&ent, &err_ent, sizeof(ent))`
abbrev pub copied : ErrEntry → MsgEntry
copied e = record { op_context = e.op_context; flags = e.flags; addr = e.buf }

module _ {W : Type 0} (fuel : ℕ) where
  -- The awaker is used as an `Awaker<Address>`: a write of its value, past the end of one of `void`.
  abbrev pub wake_address : ℕ → ℕ → Transfers W → Outcome (Transfers W)
  wake_address context addr t = elim (t.waker context) [
    | address_waker a ↦ wake (λ v. v) fuel addr a t.scheduler >>= λ (b, s).
        ok (record { waker = update t.waker context (address_waker b); scheduler = s })
    | void_waker a ↦ abort
  ]

  -- The awaker is used as an `Awaker<void>`: its base.
  abbrev pub wake_void : ℕ → Transfers W → Outcome (Transfers W)
  wake_void context t = elim (t.waker context) [
    | address_waker a ↦ void_wake fuel (record { handle = a.handle }) t.scheduler >>= λ (b, s).
        ok (record {
          waker = update t.waker context (address_waker (record a { handle = b.handle }));
          scheduler = s;
        })
    | void_waker a ↦ void_wake fuel a t.scheduler >>= λ (b, s).
        ok (record { waker = update t.waker context (void_waker b); scheduler = s })
  ]

  unfoldable pub dispatch : Rc → MsgEntry → Transfers W → Outcome (Polled × Transfers W)
  dispatch (code c) e t = ok (returned (code c), t)
  dispatch one e t =
      if e.flags.is_recv
      then (wake_address e.op_context e.addr t >>= λ t'. ok (returned one, t'))
      else (if e.flags.is_send || e.flags.is_write
          then (wake_void e.op_context t >>= λ t'. ok (returned one, t'))
          else ok (returned one, t))

  unfoldable pub cq_poll : CqRead → Transfers W → Outcome (Polled × Transfers W)
  cq_poll again t = ok (nothing, t)
  cq_poll (entry_read e) t = dispatch one e t
  cq_poll (error_available rc e) t = dispatch rc (copied e) t
  cq_poll (failed c) t =
      dispatch (code c)
        (record {
          op_context = 0;
          flags = record { is_recv = false; is_send = false; is_write = false; is_read = false };
          addr = 0;
        })
        t

-- How a transfer begins: its coroutine waits, or it throws.
pub data Posted (W : Type 0) : Type 0 where
  waiting : Transfers W → Posted W
  thrown : ℕ → Posted W

-- The answer of a call that posts: success, `-EAGAIN`, or another code.
pub data Answer : Type 0 where
  success try_again : Answer
  refused : ℕ → Answer

module _ {W : Type 0} where
  -- The transfer's awaker stands at `context`, with the coroutine that waits on it.
  abbrev pub waits_at : ℕ → Waker W → Transfers W → Posted W
  waits_at context w t = waiting (record t { waker = update t.waker context w })

  -- `send`: the call is made again while it answers `-EAGAIN`; `answer` has the answer of each.
  unfoldable pub send : (fuel : ℕ) → (ℕ → Answer) → ℕ → W → Transfers W → Outcome (Posted W)
  send zero answer context handle t = hang
  send (suc fuel) answer context handle t =
      let rest = send fuel (λ n. answer (suc n)) context handle t in
      elim (answer 0) [
        | success ↦ ok (waits_at context (void_waker (record { handle = some handle })) t)
        | try_again ↦ rest
        | refused c ↦ ok (thrown c)
      ]

  -- `recv` and `write`: any answer but success is thrown, as `errno`; `fresh` is what the awaker's value is
  -- before it is set.
  unfoldable pub recv : (errno fresh : ℕ) → Answer → ℕ → W → Transfers W → Posted W
  recv errno fresh success context handle t =
      waits_at context (address_waker (record { handle = some handle; ret = fresh })) t
  recv errno fresh _ context handle t = thrown errno

  unfoldable pub write : (errno fresh : ℕ) → Answer → ℕ → W → Transfers W → Posted W
  write errno fresh success context handle t =
      waits_at context (address_waker (record { handle = some handle; ret = fresh })) t
  write errno fresh _ context handle t = thrown errno

  -- `read` does not look at the answer.
  unfoldable pub read : Answer → ℕ → W → Transfers W → Posted W
  read answer context handle t = waits_at context (void_waker (record { handle = some handle })) t

  -- What `recv` returns when it is resumed.
  unfoldable pub recv_resumed : ℕ → Transfers W → Outcome ℕ
  recv_resumed context t = elim (t.waker context) [
    | address_waker a ↦ ok a.ret
    | void_waker a ↦ abort
  ]
