-- ===== src/Ring/Calls/Steps.antt =====
-- A successful call of `enqueue` or `dequeue` (src/common/include/ring.hpp) on any ring with its heads
-- at its tails: which slot is written or read.
use sqkio.Common.{ℕ, suc, ◌*◌, ◌<◌, ◌≡◌, ◌≢◌, sym, bit_and, arith}
use sqkio.Common.Word.{add32}
use sqkio.Outcome.{ok}
use sqkio.Ring.{mt_rts, Config, Ring}
use sqkio.Ring.Copy.{Mem}
use sqkio.Ring.Copy.Result.{written, read}
use sqkio.Ring.Elements.{enqueue_elements, dequeue_elements, scale}
use sqkio.Ring.Elements.Laws.{InRing, enqueue_elements_lem, dequeue_elements_lem}
use sqkio.Ring.Heads.{hts_update_tail}
use sqkio.Ring.Heads.Laws.{
  free_of, prod_taken, move_prod_head-room, hts_move_prod_head-room, entries_of, cons_taken,
  move_cons_head-some, hts_move_cons_head-some, update_tail_lem,
}
use sqkio.Ring.Calls.{is_st, enqueue_mt, enqueue_hts, enqueue, dequeue_mt, dequeue_hts, dequeue}

module _ {W : Type 0} (r : Ring W) where
  -- The slots that the next element goes into and comes out of.
  abbrev pub put_slot : ℕ
  put_slot = bit_and r.prod.head r.mask

  abbrev pub take_slot : ℕ
  take_slot = bit_and r.cons.head r.mask

  -- The ring after an element went in.
  abbrev pub after_put : Mem W → Ring W
  after_put mem = record r {
    mem = mem;
    prod = record { head = add32 r.prod.head 1; tail = add32 r.prod.head 1 };
  }

  -- The ring after an element went out.
  abbrev pub after_take : Ring W
  after_take = record r { cons = record { head = add32 r.cons.head 1; tail = add32 r.cons.head 1 } }

module _ {W : Type 0} (cfg : Config) (fuel : ℕ) (r : Ring W) (entry : Mem W) where
  module _ (mem : Mem W)
      (runs : enqueue_elements cfg.esize (prod_taken cfg fuel r).1 r.prod.head entry 1 ≡ ok mem)
      (done : r.prod.head ≡ r.prod.tail) (room : 0 < free_of r) where
    enqueue_mt_step : enqueue_mt cfg (suc fuel) entry r ≡ ok (1, after_put r mem)
    unfolding enqueue_mt
    enqueue_mt_step = rw (
      move_prod_head-room cfg fuel r 0 room,
      runs,
      update_tail_lem fuel (prod_taken cfg fuel r).1.prod r.prod.head (add32 r.prod.head 1)
          (is_st cfg.prod_sync) (sym done),
    )

    enqueue_hts_step : enqueue_hts cfg (suc fuel) entry r ≡ ok (1, after_put r mem)
    unfolding enqueue_hts hts_update_tail
    enqueue_hts_step = rw (hts_move_prod_head-room cfg fuel r done room, runs)

    enqueue_modes :
        cfg.prod_sync ≢ mt_rts → enqueue cfg (suc fuel) entry r ≡ ok (1, after_put r mem)
    unfolding enqueue
    enqueue_modes coded = ground (arith, enqueue_mt_step, enqueue_hts_step)

  module _ (out : Mem W)
      (runs : dequeue_elements cfg.esize (cons_taken cfg fuel r).1 r.cons.head entry 1 ≡ ok out)
      (done : r.cons.head ≡ r.cons.tail) (held : 0 < entries_of r) where
    dequeue_mt_step : dequeue_mt cfg (suc fuel) entry r ≡ ok (1, out, after_take r)
    unfolding dequeue_mt
    dequeue_mt_step = rw (
      move_cons_head-some cfg fuel r 0 held,
      runs,
      update_tail_lem fuel (cons_taken cfg fuel r).1.cons r.cons.head (add32 r.cons.head 1)
          (is_st cfg.cons_sync) (sym done),
    )

    dequeue_hts_step : dequeue_hts cfg (suc fuel) entry r ≡ ok (1, out, after_take r)
    unfolding dequeue_hts hts_update_tail
    dequeue_hts_step = rw (hts_move_cons_head-some cfg fuel r done held, runs)

    dequeue_modes :
        cfg.cons_sync ≢ mt_rts → dequeue cfg (suc fuel) entry r ≡ ok (1, out, after_take r)
    unfolding dequeue
    dequeue_modes coded = ground (arith, dequeue_mt_step, dequeue_hts_step)

  -- The word of the ring, or of the caller's entry, after the call.
  abbrev pub PutWords : Mem W → Type 0
  PutWords mem =
      (p : ℕ)
      → mem p
        ≡ written (r.size * scale cfg.esize) (put_slot r * scale cfg.esize) entry
            (1 * scale cfg.esize) r.mem p

  abbrev pub TookWords : Mem W → Type 0
  TookWords out =
      (q : ℕ)
      → out q
        ≡ read (r.size * scale cfg.esize) (take_slot r * scale cfg.esize) r.mem
            (1 * scale cfg.esize) entry q

  pub enqueue_step :
      cfg.prod_sync ≢ mt_rts
      → r.prod.head ≡ r.prod.tail
      → 0 < free_of r
      → InRing cfg.esize r.size (put_slot r) 1
      → (mem : Mem W) × (enqueue cfg (suc fuel) entry r ≡ ok (1, after_put r mem)) × PutWords mem
  enqueue_step coded done room slot =
      let (mem, runs, same) =
        enqueue_elements_lem cfg.esize 1 r.prod.head (prod_taken cfg fuel r).1 entry slot in
      (mem, enqueue_modes mem runs done room coded, same)

  pub dequeue_step :
      cfg.cons_sync ≢ mt_rts
      → r.cons.head ≡ r.cons.tail
      → 0 < entries_of r
      → InRing cfg.esize r.size (take_slot r) 1
      → (out : Mem W) × (dequeue cfg (suc fuel) entry r ≡ ok (1, out, after_take r)) × TookWords out
  dequeue_step coded done held slot =
      let (out, runs, same) =
        dequeue_elements_lem cfg.esize 1 r.cons.head (cons_taken cfg fuel r).1 entry slot in
      (out, dequeue_modes out runs done held coded, same)
