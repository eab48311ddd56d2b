-- ===== src/Ring/Calls.antt =====
-- `enqueue` and `dequeue` of src/common/include/ring.hpp, and the sequences of calls that a client
-- makes. An entry is the memory behind the reference that the caller passes.
pub mod Valid
pub mod Slots
pub mod Steps
pub mod Items
pub mod Enqueue
pub mod Dequeue
pub mod Refine
use sqkio.Common.{ℕ, zero, suc, List, [], ◌∷◌, Bool, true, false, ◌==◌, if◌then◌else◌}
use sqkio.Outcome.{Outcome, ok, abort, ◌>>=◌}
use sqkio.Ring.{SyncType, mt, st, mt_rts, mt_hts, Config, HeadTail, Ring}
use sqkio.Ring.Copy.{Mem}
use sqkio.Ring.Elements.{enqueue_elements, dequeue_elements}
use sqkio.Ring.Heads.{
  Moved, move_prod_head, move_cons_head, hts_move_prod_head, hts_move_cons_head, update_tail,
  hts_update_tail,
}

-- `type == RingSyncType::SQK_RING_SYNC_ST`
abbrev pub is_st : SyncType → Bool
is_st st = true
is_st _ = false

module _ {ℓ} {W : Type ℓ} (cfg : Config) (fuel : ℕ) where
  -- The variables that `enqueue` does not set before the call are 0 here; they are not read.
  unfoldable pub enqueue_mt : Mem W → Ring W → Outcome (ℕ × Ring W)
  enqueue_mt entry r0 = move_prod_head cfg fuel 1 0 r0 >>= λ (m, r).
      if m.n == 0
      then ok (0, r)
      else enqueue_elements cfg.esize r m.old_head entry m.n >>= λ mem.
          update_tail fuel r.prod m.old_head m.new_head (is_st cfg.prod_sync) >>= λ prod.
          ok (m.n, record r { mem = mem; prod = prod })

  pub enqueue_hts : Mem W → Ring W → Outcome (ℕ × Ring W)
  enqueue_hts entry r0 = hts_move_prod_head cfg fuel 1 r0 >>= λ (m, r).
      if m.n == 0
      then ok (m.n, r)
      else enqueue_elements cfg.esize r m.old_head entry m.n >>= λ mem.
          ok (m.n, record r { mem = mem; prod = hts_update_tail r.prod m.old_head m.n })

  -- The mode RTS has no code but `assert(0)`.
  unfoldable pub enqueue : Mem W → Ring W → Outcome (ℕ × Ring W)
  enqueue entry r = elim cfg.prod_sync [
    | mt ↦ enqueue_mt entry r
    | st ↦ enqueue_mt entry r
    | mt_rts ↦ abort
    | mt_hts ↦ enqueue_hts entry r
  ]

  unfoldable pub dequeue_mt : Mem W → Ring W → Outcome (ℕ × Mem W × Ring W)
  dequeue_mt entry r0 = move_cons_head cfg fuel 1 0 r0 >>= λ (m, r).
      if m.n == 0
      then ok (0, entry, r)
      else dequeue_elements cfg.esize r m.old_head entry m.n >>= λ out.
          update_tail fuel r.cons m.old_head m.new_head (is_st cfg.cons_sync) >>= λ cons.
          ok (m.n, out, record r { cons = cons })

  pub dequeue_hts : Mem W → Ring W → Outcome (ℕ × Mem W × Ring W)
  dequeue_hts entry r0 = hts_move_cons_head cfg fuel 1 r0 >>= λ (m, r).
      if m.n == 0
      then ok (m.n, entry, r)
      else dequeue_elements cfg.esize r m.old_head entry m.n >>= λ out.
          ok (m.n, out, record r { cons = hts_update_tail r.cons m.old_head m.n })

  unfoldable pub dequeue : Mem W → Ring W → Outcome (ℕ × Mem W × Ring W)
  dequeue entry r = elim cfg.cons_sync [
    | mt ↦ dequeue_mt entry r
    | st ↦ dequeue_mt entry r
    | mt_rts ↦ abort
    | mt_hts ↦ dequeue_hts entry r
  ]
