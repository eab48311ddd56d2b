-- ===== src/Ring/Create/Lost.antt =====
-- `of` of src/common/include/ring.hpp for counts that are no power of two: it hands `cnt` itself to
-- `init`, not the rounded count.
use Prim.Native.Nat.{bit_and-bitwise}
use sqkio.Common.{
  ℕ, suc, ◌*◌, ◌/◌, ◌%◌, ◌^◌, ◌≤◌, ◌<◌, ◌≡◌, ◌≢◌, refl, sym, ap, ◌∙◌, List, [], ◌∷◌, Option, some,
  inl, bit_and, bit_and_digit, arith,
}
use sqkio.Common.Word.{sub32}
use sqkio.Outcome.{Outcome, ok}
use sqkio.Ring.{mt_rts, Config, Ring, init}
use sqkio.Ring.Copy.{Mem}
use sqkio.Ring.Elements.{scale}
use sqkio.Ring.Elements.Laws.{InRing}
use sqkio.Ring.Calls.Valid.{words, item}
use sqkio.Ring.Calls.Items.{item-written_self, item-read_self}
use sqkio.Ring.Calls.Steps.{after_take, enqueue_step, dequeue_step}
use sqkio.Ring.Calls.Refine.{Reply, enq, deq, run}
use sqkio.Ring.Calls.{enqueue, dequeue}
use sqkio.Ring.Create.{made, of, ring_bytes}
use sqkio.Ring.Create.Accepts.{slots, fresh, of-made}

zero-bit_and : (m : ℕ) → bit_and 0 m ≡ 0
zero-bit_and m = simp bit_and-bitwise

-- A mask that is 1 modulo 4 sends the positions 0 and 2 to the slot 0.
slot_1 : (m : ℕ) → m % 4 ≡ 1 → bit_and 1 m ≡ 1
slot_1 m h = omega (arith, bit_and_digit 1 m, zero-bit_and (m / 2))

slot_2 : (m : ℕ) → m % 4 ≡ 1 → bit_and 2 m ≡ 0
slot_2 m h = omega (arith, bit_and_digit 2 m, bit_and_digit 1 (m / 2), zero-bit_and (m / 2 / 2))

module _ {W : Type 0} (cfg : Config) (header line cnt : ℕ) (allocate : ℕ → Option (Mem W))
    (buf : Mem W) (odd : cnt % 4 ≡ 2) (six : 6 ≤ cnt) (low : cnt < 2 ^ 30)
    (fits : cnt * scale cfg.esize ≤ 2 ^ 31) (whole : 1 ≤ scale cfg.esize) where
  abbrev mask : ℕ
  mask = sub32 cnt 1

  in_ring : (slot : ℕ) → slot < 2 → InRing cfg.esize cnt slot 1
  in_ring slot h = omega (arith)

  -- The ring of `of` after `h` elements went in, with the memory `m`.
  abbrev holding : ℕ → Mem W → Ring W
  holding h m = record (fresh header line cfg.esize allocate cnt buf) {
    mem = m;
    prod = record { head = h; tail = h };
  }

  put_second :
      (fuel : ℕ) (y m : Mem W)
      → cfg.prod_sync ≢ mt_rts
      → (m' : Mem W) × (enqueue cfg (suc fuel) y (holding 1 m) ≡ ok (1, holding 2 m'))
  unfolding init
  put_second fuel y m cp =
      let (m', runs, same) =
        enqueue_step cfg fuel (holding 1 m) y cp refl (omega arith)
          (in_ring (bit_and 1 mask) (omega (arith, slot_1 mask))) in
      (m', runs)

  put_first :
      (fuel : ℕ) (x m : Mem W)
      → cfg.prod_sync ≢ mt_rts
      → (m' : Mem W) × (enqueue cfg (suc fuel) x (holding 0 m) ≡ ok (1, holding 1 m'))
  unfolding init
  put_first fuel x m cp =
      let (m', runs, same) =
        enqueue_step cfg fuel (holding 0 m) x cp refl (omega arith)
          (in_ring (bit_and 0 mask) (omega (arith, zero-bit_and mask))) in
      (m', runs)

  put_third :
      (fuel : ℕ) (z m : Mem W)
      → cfg.prod_sync ≢ mt_rts
      → (m' : Mem W) × (enqueue cfg (suc fuel) z (holding 2 m) ≡ ok (1, holding 3 m'))
        × (item cfg.esize m' (bit_and 2 mask) ≡ words (scale cfg.esize) z 0)
  unfolding init
  put_third fuel z m cp =
      let (m', runs, same) =
        enqueue_step cfg fuel (holding 2 m) z cp refl (omega arith)
          (in_ring (bit_and 2 mask) (omega (arith, slot_2 mask))) in
      (
        m',
        runs,
        item-written_self cfg.esize cnt (bit_and 2 mask) z m m' (omega (arith, slot_2 mask)) same,
      )

  take_first :
      (fuel : ℕ) (entry m : Mem W)
      → cfg.cons_sync ≢ mt_rts
      → (out : Mem W) × (dequeue cfg (suc fuel) entry (holding 3 m)
          ≡ ok (1, out, after_take (holding 3 m)))
        × (item cfg.esize m (bit_and 0 mask) ≡ words (scale cfg.esize) out 0)
  unfolding init
  take_first fuel entry m cc =
      let (out, runs, same) =
        dequeue_step cfg fuel (holding 3 m) entry cc refl (omega arith)
          (in_ring (bit_and 0 mask) (omega (arith, zero-bit_and mask))) in
      (
        out,
        runs,
        item-read_self cfg.esize cnt (bit_and 0 mask) entry m out (omega (arith, zero-bit_and mask))
            same,
      )

  same_slot : bit_and 2 mask ≡ bit_and 0 mask
  same_slot = omega (arith, slot_2 mask, zero-bit_and mask)

  four_calls :
      (fuel : ℕ) (x y z entry out : Mem W) (r0 r1 r2 r3 r4 : Ring W)
      → enqueue cfg fuel x r0 ≡ ok (1, r1)
      → enqueue cfg fuel y r1 ≡ ok (1, r2)
      → enqueue cfg fuel z r2 ≡ ok (1, r3)
      → dequeue cfg fuel entry r3 ≡ ok (1, out, r4)
      → run cfg fuel (enq x ∷ enq y ∷ enq z ∷ deq entry ∷ []) r0
        ≡ ok ((1, []) ∷ (1, []) ∷ (1, []) ∷ (1, words (scale cfg.esize) out 0) ∷ [], r4)
  unfolding run
  four_calls fuel x y z entry out r0 r1 r2 r3 r4 a b c d = rw (a, b, c, d)

  -- For a count of 6, 10, 14, … below 2^30 whose words fit 31 bits, an element size of 4 or more,
  -- modes other than RTS, any positive fuel and an allocator that has the bytes: `of` makes a ring,
  -- three calls of `enqueue` on it return 1, and the `dequeue` after them returns 1 with the third
  -- element in place of the first.
  pub third_overwrites_first :
      (fuel : ℕ) (x y z entry : Mem W)
      → cfg.prod_sync ≢ mt_rts
      → cfg.cons_sync ≢ mt_rts
      → allocate (ring_bytes header line cfg.esize (slots cnt)) ≡ some buf
      → (r : Ring W) × (r' : Ring W) × (of header line cfg.esize allocate cnt ≡ made r)
        × (run cfg (suc fuel) (enq x ∷ enq y ∷ enq z ∷ deq entry ∷ []) r
            ≡ ok ((1, []) ∷ (1, []) ∷ (1, []) ∷ (1, words (scale cfg.esize) z 0) ∷ [], r'))
  unfolding init
  third_overwrites_first fuel x y z entry cp cc got =
      let (m1, a) = put_first fuel x buf cp in
      let (m2, b) = put_second fuel y m1 cp in
      let (m3, c, stored) = put_third fuel z m2 cp in
      let (out, d, taken) = take_first fuel entry m3 cc in
      (
        holding 0 buf,
        after_take (holding 3 m3),
        of-made header line cfg.esize allocate cnt (omega arith) (inl low) got,
        four_calls (suc fuel) x y z entry out (holding 0 buf) (holding 1 m1) (holding 2 m2)
              (holding 3 m3) (after_take (holding 3 m3)) a b c d
            ∙ replaced out (sym taken ∙ ap (item cfg.esize m3) (sym same_slot) ∙ stored)
                (after_take (holding 3 m3)),
      )
    where
      replaced :
          (out : Mem W)
          → words (scale cfg.esize) out 0 ≡ words (scale cfg.esize) z 0
          → (r' : Ring W)
          → ◌≡◌ {A = Outcome (List (Reply W) × Ring W)}
              (ok ((1, []) ∷ (1, []) ∷ (1, []) ∷ (1, words (scale cfg.esize) out 0) ∷ [], r'))
              (ok ((1, []) ∷ (1, []) ∷ (1, []) ∷ (1, words (scale cfg.esize) z 0) ∷ [], r'))
      replaced out e r' = rw e
