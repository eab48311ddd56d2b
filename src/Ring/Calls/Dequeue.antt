-- ===== src/Ring/Calls/Dequeue.antt =====
-- `dequeue` of src/common/include/ring.hpp on a sound ring, with an entry and without.
use sqkio.Common.{ℕ, suc, ◌*◌, ◌≤◌, ◌<◌, ◌≡◌, ◌≢◌, refl, sym, ap, ap₂, ◌∙◌, ◌∷◌, bit_and, arith}
use sqkio.Common.Word.{add32}
use sqkio.Outcome.{ok}
use sqkio.Ring.{mt_rts, Config, Ring}
use sqkio.Ring.Copy.{Mem}
use sqkio.Ring.Copy.Result.{read_outside}
use sqkio.Ring.Elements.{scale}
use sqkio.Ring.Elements.Laws.{InRing}
use sqkio.Ring.Heads.Laws.{entries_of, move_cons_head-none, hts_move_cons_head-none}
use sqkio.Ring.Calls.{dequeue_mt, dequeue_hts, dequeue}
use sqkio.Ring.Calls.Valid.{words, item, window, count, contents, IsValid}
use sqkio.Ring.Calls.Steps.{take_slot, after_take, TookWords, dequeue_step}
use sqkio.Ring.Calls.Items.{item-read_self}
use sqkio.Ring.Calls.Slots.{slot-lt}
use sqkio.Ring.Calls.Enqueue.{IsValid-pow}

module _ {W : Type 0} (cfg : Config) (k : ℕ) (r : Ring W) (v : IsValid cfg.esize k r) where
  -- The entries that the consumer computes are those held.
  pub entries_of_lem : entries_of r ≡ count cfg.esize r
  entries_of_lem = omega (arith, v)

  pub take_slot-lt : take_slot r < r.size
  take_slot-lt = omega (arith, ap (bit_and r.cons.head) v.mask_ok, slot-lt k r.cons.head, v.size_ok)

  pub take-InRing : InRing cfg.esize r.size (take_slot r) 1
  take-InRing = record {
    slot = take_slot-lt;
    few = omega (arith, take_slot-lt);
    words = omega (arith, v.fits, ap (λ (t : ℕ). t * scale cfg.esize) v.size_ok);
    whole = v.whole;
  }

  after_take-IsValid : 0 < count cfg.esize r → IsValid cfg.esize k (after_take r)
  after_take-IsValid some_left = omega (arith, IsValid-pow v, v)

  module _ (entry out : Mem W) (same : TookWords cfg 0 r entry out) where
    took_item : item cfg.esize r.mem (take_slot r) ≡ words (scale cfg.esize) out 0
    took_item = item-read_self cfg.esize r.size (take_slot r) entry r.mem out take_slot-lt same

    took_contents :
        0 < count cfg.esize r
        → contents cfg.esize r ≡ words (scale cfg.esize) out 0 ∷ contents cfg.esize (after_take r)
    took_contents held =
        ap (window cfg.esize r.mask r.mem r.cons.tail) shorter ∙ ap₂ ◌∷◌ (first ∙ took_item) rest
      where
        shorter : count cfg.esize r ≡ suc (count cfg.esize (after_take r))
        shorter = omega (arith, v)

        first :
            item cfg.esize r.mem (bit_and r.cons.tail r.mask) ≡ item cfg.esize r.mem (take_slot r)
        first = ap (λ (t : ℕ). item cfg.esize r.mem (bit_and t r.mask)) (sym v.cons_done)

        rest :
            window cfg.esize r.mask r.mem (add32 r.cons.tail 1) (count cfg.esize (after_take r))
            ≡ contents cfg.esize (after_take r)
        rest =
            ap
              (λ (t : ℕ).
                window cfg.esize r.mask r.mem (add32 t 1) (count cfg.esize (after_take r)))
              (sym v.cons_done)

    kept_rest : (q : ℕ) → scale cfg.esize ≤ q → out q ≡ entry q
    kept_rest q h =
        same q
        ∙ read_outside (r.size * scale cfg.esize) (take_slot r * scale cfg.esize)
            (1 * scale cfg.esize) r.mem entry q (omega arith)

  -- On a ring that holds entries `dequeue` returns 1, keeps the ring sound, and moves the words of
  -- the oldest entry, and no more, to the caller's.
  pub dequeue-head :
      (fuel : ℕ) (entry : Mem W)
      → cfg.cons_sync ≢ mt_rts
      → 0 < count cfg.esize r
      → (out : Mem W) × (r' : Ring W) × (dequeue cfg (suc fuel) entry r ≡ ok (1, out, r'))
        × IsValid cfg.esize k r'
        × (contents cfg.esize r ≡ words (scale cfg.esize) out 0 ∷ contents cfg.esize r')
        × ((q : ℕ) → scale cfg.esize ≤ q → out q ≡ entry q)
        × (r'.memzone_size ≡ r.memzone_size)
  dequeue-head fuel entry coded held =
      let (out, runs, same) =
        dequeue_step cfg fuel r entry coded v.cons_done has_entry take-InRing in
      (
        out,
        after_take r,
        runs,
        after_take-IsValid held,
        took_contents entry out same held,
        kept_rest entry out same,
        refl,
      )
    where
      has_entry : 0 < entries_of r
      has_entry = omega (arith, entries_of_lem)

  -- On an empty ring `dequeue` returns 0 and changes neither the ring nor the caller's entry.
  pub dequeue-empty :
      (fuel : ℕ) (entry : Mem W)
      → cfg.cons_sync ≢ mt_rts
      → count cfg.esize r ≡ 0
      → dequeue cfg (suc fuel) entry r ≡ ok (0, entry, r)
  unfolding dequeue
  dequeue-empty fuel entry coded none_held = ground (arith, by_mt, by_hts)
    where
      none_left : entries_of r ≡ 0
      none_left = omega (arith, entries_of_lem)

      by_mt : dequeue_mt cfg (suc fuel) entry r ≡ ok (0, entry, r)
      by_mt = unfold dequeue_mt in rw (move_cons_head-none cfg fuel r 0 none_left)

      by_hts : dequeue_hts cfg (suc fuel) entry r ≡ ok (0, entry, r)
      by_hts = unfold dequeue_hts in rw (hts_move_cons_head-none cfg fuel r v.cons_done none_left)
