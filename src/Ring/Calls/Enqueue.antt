-- ===== src/Ring/Calls/Enqueue.antt =====
-- `enqueue` of src/common/include/ring.hpp on a sound ring, with room and without.
use native.Mathlib.Nat.{one-le-pow, pow-le-pow_right}
use sqkio.Common.{
  ℕ, suc, ◌+◌, ◌-◌, ◌*◌, ◌^◌, ◌≤◌, ◌<◌, ◌≡◌, ◌≢◌, refl, sym, ap, ap₂, ◌∙◌, [], ◌∷◌, ◌++◌, bit_and,
  arith,
}
use sqkio.Common.Word.{add32, sub32}
use sqkio.Outcome.{ok}
use sqkio.Ring.{mt_rts, Config, Ring}
use sqkio.Ring.Copy.{Mem}
use sqkio.Ring.Elements.{scale}
use sqkio.Ring.Elements.Laws.{InRing}
use sqkio.Ring.Heads.Laws.{free_of, move_prod_head-full, hts_move_prod_head-full}
use sqkio.Ring.Calls.{enqueue_mt, enqueue_hts, enqueue}
use sqkio.Ring.Calls.Valid.{words, item, window, count, contents, IsValid}
use sqkio.Ring.Calls.Steps.{put_slot, after_put, PutWords, enqueue_step}
use sqkio.Ring.Calls.Slots.{slot-lt}
use sqkio.Ring.Calls.Items.{window-append, item-written_ne, item-written_self}

-- A bound on 2^k that `omega` can use.
pub IsValid-pow :
    {W : Type 0} {esize k : ℕ} {r : Ring W} → IsValid esize k r → (1 ≤ 2 ^ k) × (2 ^ k ≤ 2 ^ 30)
IsValid-pow {k} v = (one-le-pow k 2 (omega arith), pow-le-pow_right (omega arith) v.small)

module _ {W : Type 0} (cfg : Config) (k : ℕ) (r : Ring W) (v : IsValid cfg.esize k r) where
  -- The free entries that the producer computes are the capacity less the entries held.
  pub free_of_lem : free_of r + count cfg.esize r ≡ 2 ^ k - 1
  free_of_lem = omega (arith, IsValid-pow v, v)

  put_slot-eq : put_slot r ≡ bit_and (add32 r.cons.tail (count cfg.esize r)) (2 ^ k - 1)
  put_slot-eq = ap₂ bit_and (omega (arith, v)) v.mask_ok

  pub put_slot-lt : put_slot r < r.size
  put_slot-lt =
      omega (arith, put_slot-eq, slot-lt k (add32 r.cons.tail (count cfg.esize r)), v.size_ok)

  pub put-InRing : InRing cfg.esize r.size (put_slot r) 1
  put-InRing = record {
    slot = put_slot-lt;
    few = omega (arith, put_slot-lt);
    words = omega (arith, v.fits, ap (λ (t : ℕ). t * scale cfg.esize) v.size_ok);
    whole = v.whole;
  }

  after_put-IsValid :
      (mem : Mem W) → count cfg.esize r < 2 ^ k - 1 → IsValid cfg.esize k (after_put r mem)
  after_put-IsValid mem room = omega (arith, IsValid-pow v, v)

  module _ (mem entry : Mem W) (same : PutWords cfg 0 r entry mem)
      (room : count cfg.esize r < 2 ^ k - 1) where
    longer : sub32 (add32 r.prod.head 1) r.cons.tail ≡ suc (count cfg.esize r)
    longer = omega (arith, IsValid-pow v, v)

    keep :
        (s : ℕ)
        → s < 2 ^ k
        → s ≢ bit_and (add32 r.cons.tail (count cfg.esize r)) (2 ^ k - 1)
        → item cfg.esize mem s ≡ item cfg.esize r.mem s
    keep s lt ne =
        item-written_ne cfg.esize r.size (put_slot r) s entry r.mem mem put_slot-lt
          (omega (arith, v.size_ok)) (λ e. ne (e ∙ put_slot-eq)) same

    new :
        item cfg.esize mem (bit_and (add32 r.cons.tail (count cfg.esize r)) (2 ^ k - 1))
        ≡ words (scale cfg.esize) entry 0
    new =
        rw put_slot-eq at
          (item-written_self cfg.esize r.size (put_slot r) entry r.mem mem put_slot-lt same)

    after_put-contents :
        contents cfg.esize (after_put r mem)
        ≡ contents cfg.esize r ++ words (scale cfg.esize) entry 0 ∷ []
    after_put-contents =
        ap (λ (t : ℕ). window cfg.esize t mem r.cons.tail (sub32 (add32 r.prod.head 1) r.cons.tail))
          v.mask_ok
        ∙ ap (window cfg.esize (2 ^ k - 1) mem r.cons.tail) longer
        ∙ window-append cfg.esize k r.mem mem r.cons.tail (count cfg.esize r)
            (words (scale cfg.esize) entry 0) (omega (arith, v.small)) v.cons_in
            (omega (arith, room)) keep new
        ∙ ap
            (λ (t : ℕ).
              window cfg.esize t r.mem r.cons.tail (count cfg.esize r)
              ++ words (scale cfg.esize) entry 0 ∷ [])
            (sym v.mask_ok)

  -- With room, `enqueue` returns 1, keeps the ring sound and appends the element to its entries.
  pub enqueue-append :
      (fuel : ℕ) (entry : Mem W)
      → cfg.prod_sync ≢ mt_rts
      → count cfg.esize r < 2 ^ k - 1
      → (r' : Ring W) × (enqueue cfg (suc fuel) entry r ≡ ok (1, r'))
        × IsValid cfg.esize k r'
        × (contents cfg.esize r' ≡ contents cfg.esize r ++ words (scale cfg.esize) entry 0 ∷ [])
        × (r'.memzone_size ≡ r.memzone_size)
  enqueue-append fuel entry coded room =
      let (mem, runs, same) = enqueue_step cfg fuel r entry coded v.prod_done has_room put-InRing in
      (
        after_put r mem,
        runs,
        after_put-IsValid mem room,
        after_put-contents mem entry same room,
        refl,
      )
    where
      has_room : 0 < free_of r
      has_room = omega (arith, free_of_lem)

  -- On a full ring `enqueue` returns 0 and changes nothing.
  pub enqueue-full :
      (fuel : ℕ) (entry : Mem W)
      → cfg.prod_sync ≢ mt_rts
      → count cfg.esize r ≡ 2 ^ k - 1
      → enqueue cfg (suc fuel) entry r ≡ ok (0, r)
  unfolding enqueue
  enqueue-full fuel entry coded full = ground (arith, by_mt, by_hts)
    where
      none_free : free_of r ≡ 0
      none_free = omega (arith, free_of_lem)

      by_mt : enqueue_mt cfg (suc fuel) entry r ≡ ok (0, r)
      by_mt = unfold enqueue_mt in rw (move_prod_head-full cfg fuel r 0 none_free)

      by_hts : enqueue_hts cfg (suc fuel) entry r ≡ ok (0, r)
      by_hts = unfold enqueue_hts in rw (hts_move_prod_head-full cfg fuel r v.prod_done none_free)
