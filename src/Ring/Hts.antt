-- ===== src/Ring/Hts.antt =====
-- A ring of src/common/include/ring.hpp whose producers and consumers both have the mode HTS, under
-- several threads: any of them may call `enqueue` or `dequeue`, one access of shared memory at a
-- time, in any interleaving of sequentially consistent accesses. An entry is one slot, as in
-- Ring/Threads.
pub mod View
pub mod Invariant
pub mod Reach
pub mod Order
mod Tests
use sqkio.Common.{ℕ, suc, ◌+◌, bit_and, Bool, true, false, ◌==◌}
use sqkio.Common.Word.{add32, sub32}
use sqkio.Common.Update.{update}
use sqkio.Ring.{HeadTail, Ring}
use sqkio.Ring.Heads.{clip, same_raw}
use sqkio.Ring.Threads.{Shared}

-- Where a thread stands, with its variables: `op`, the pair of words that was read, and `pos`, its
-- head counted without a wrap.
pub data Pc (W : Type 0) : Type 0 where
  returned : (n : ℕ) → Pc W  -- between two calls, with what the last gave
  put_start : (entry : W) → Pc W  -- before the first load of `prod_.ht.raw_`
  put_seen : (entry : W) (op : HeadTail) (pos : ℕ) → Pc W  -- in `hts_head_wait`, or before the load of `cons_.tail_`
  put_free : (entry : W) (op : HeadTail) (pos : ℕ) → Pc W  -- before the compare-exchange
  put_copy : (entry : W) (old_head pos : ℕ) → Pc W  -- before the copy into the ring
  put_publish : (entry : W) (old_head pos : ℕ) → Pc W  -- before the store of the producers' tail
  get_start : Pc W  -- before the first load of `cons_.ht.raw_`
  get_seen : (op : HeadTail) (pos : ℕ) → Pc W  -- in `hts_head_wait`, or before the load of `prod_.tail_`
  get_found : (op : HeadTail) (pos : ℕ) → Pc W  -- before the compare-exchange
  get_copy : (old_head pos : ℕ) → Pc W  -- before the copy out of the ring
  get_publish : (old_head pos : ℕ) (entry : W) → Pc W  -- before the store of the consumers' tail

module _ {W : Type 0} where
  -- One access of one thread. While the pair that was read has two words, it is read again.
  unfoldable pub advance : Pc W → Shared W → Shared W × Pc W
  advance (returned n) s = (s, returned n)
  advance (put_start v) s = (s, put_seen v s.ring.prod s.prod_head)
  advance (put_seen v op p) s = elim (op.head == op.tail) [
    | true ↦
        let free_entries = sub32 (add32 s.ring.capacity s.ring.cons.tail) op.head in
        elim (clip false 1 free_entries == 0) [
          | true ↦ (s, returned 0)
          | false ↦ (s, put_free v op p)
        ]
    | false ↦ (s, put_seen v s.ring.prod s.prod_head)
  ]
  advance (put_free v op p) s = elim (same_raw s.ring.prod op) [
    | true ↦ (
      record s {
        ring = record s.ring { prod = record { head = add32 op.head 1; tail = op.tail } };
        prod_head = s.prod_head + 1;
        sent = update s.sent s.prod_head v;
      },
      put_copy v op.head p,
    )
    | false ↦ (s, put_seen v s.ring.prod s.prod_head)
  ]
  advance (put_copy v h p) s = (
    record s { ring = record s.ring { mem = update s.ring.mem (bit_and h s.ring.mask) v } },
    put_publish v h p,
  )
  advance (put_publish v h p) s = (
    record s {
      ring = record s.ring { prod = record s.ring.prod { tail = add32 h 1 } };
      prod_tail = s.prod_tail + 1;
    },
    returned 1,
  )
  advance get_start s = (s, get_seen s.ring.cons s.cons_head)
  advance (get_seen op p) s = elim (op.head == op.tail) [
    | true ↦
        let entries = sub32 s.ring.prod.tail op.head in
        elim (clip false 1 entries == 0) [ true ↦ (s, returned 0) | false ↦ (s, get_found op p) ]
    | false ↦ (s, get_seen s.ring.cons s.cons_head)
  ]
  advance (get_found op p) s = elim (same_raw s.ring.cons op) [
    | true ↦ (
      record s {
        ring = record s.ring { cons = record { head = add32 op.head 1; tail = op.tail } };
        cons_head = s.cons_head + 1;
      },
      get_copy op.head p,
    )
    | false ↦ (s, get_seen s.ring.cons s.cons_head)
  ]
  advance (get_copy h p) s = (s, get_publish h p (s.ring.mem (bit_and h s.ring.mask)))
  advance (get_publish h p v) s = (
    record s {
      ring = record s.ring { cons = record s.ring.cons { tail = add32 h 1 } };
      cons_tail = s.cons_tail + 1;
      received = update s.received s.cons_tail v;
    },
    returned 1,
  )
