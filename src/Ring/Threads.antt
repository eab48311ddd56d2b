-- ===== src/Ring/Threads.antt =====
-- `MpscRing` of src/common/include/ring.hpp under several threads: `enqueue` in the mode MT by any
-- of them and `dequeue` in the mode ST, one access of shared memory at a time, in any interleaving
-- of sequentially consistent accesses. An entry is one slot, which a copy writes or reads at once.
pub mod View
pub mod Invariant
pub mod Slots
pub mod Reach
pub mod Order
pub mod Answers
pub mod Turns
pub mod Alone
mod Schedule
mod Tests
use sqkio.Common.{ℕ, suc, ◌+◌, ◌-◌, ◌^◌, ◌≡◌, bit_and, Bool, true, false, ◌==◌}
use sqkio.Common.Word.{add32, sub32}
use sqkio.Common.Update.{update}
use sqkio.Ring.{Ring}
use sqkio.Ring.Heads.{clip}

-- Where a thread stands, with its variables: `old_head`, the entry, and `pos`, the position that
-- was read counted without a wrap.
pub data Pc (W : Type 0) : Type 0 where
  returned : (n : ℕ) → Pc W  -- between two calls, with what the last gave
  put_start : (entry : W) → Pc W  -- before the first load of `prod_.head_`
  put_loaded : (entry : W) (old_head pos : ℕ) → Pc W  -- before the load of `cons_.tail_`
  put_free : (entry : W) (old_head pos : ℕ) → Pc W  -- before the compare-exchange
  put_copy : (entry : W) (old_head pos : ℕ) → Pc W  -- before the copy into the ring
  put_wait : (entry : W) (old_head pos : ℕ) → Pc W  -- in `sqk_wait_until_equal_32`
  put_publish : (entry : W) (old_head pos : ℕ) → Pc W  -- before the store of `prod_.tail_`
  get_start : Pc W  -- before the load of `cons_.head_`
  get_loaded : (old_head : ℕ) → Pc W  -- before the load of `prod_.tail_`
  get_found : (old_head : ℕ) → Pc W  -- before the store of `cons_.head_`
  get_copy : (old_head : ℕ) → Pc W  -- before the copy out of the ring
  get_publish : (old_head : ℕ) (entry : W) → Pc W  -- before the store of `cons_.tail_`

-- The ring, and a history that no step tests: how far heads and tails have moved, counted without a
-- wrap, the entry of each position that an enqueue won, and the entry that each dequeue gave.
pub record Shared (W : Type 0) : Type 0 where
  pub ring : Ring W
  pub prod_head : ℕ
  pub prod_tail : ℕ
  pub cons_head : ℕ
  pub cons_tail : ℕ
  pub sent : ℕ → W
  pub received : ℕ → W

module _ {W : Type 0} where
  -- One access of one thread.
  unfoldable pub advance : Pc W → Shared W → Shared W × Pc W
  advance (returned n) s = (s, returned n)
  advance (put_start v) s = (s, put_loaded v s.ring.prod.head s.prod_head)
  advance (put_loaded v h p) s =
      let free_entries = sub32 (add32 s.ring.capacity s.ring.cons.tail) h in
      elim (clip false 1 free_entries == 0) [ true ↦ (s, returned 0) | false ↦ (s, put_free v h p) ]
  advance (put_free v h p) s = elim (s.ring.prod.head == h) [
    | true ↦ (
      record s {
        ring = record s.ring { prod = record s.ring.prod { head = add32 h 1 } };
        prod_head = s.prod_head + 1;
        sent = update s.sent s.prod_head v;
      },
      put_copy v h p,
    )
    | false ↦ (s, put_loaded v s.ring.prod.head s.prod_head)
  ]
  advance (put_copy v h p) s = (
    record s { ring = record s.ring { mem = update s.ring.mem (bit_and h s.ring.mask) v } },
    put_wait v h p,
  )
  advance (put_wait v h p) s = elim (s.ring.prod.tail == h) [
    | true ↦ (s, put_publish v h p)
    | false ↦ (s, put_wait v h p)
  ]
  advance (put_publish v h p) s = (
    record s {
      ring = record s.ring { prod = record s.ring.prod { tail = add32 h 1 } };
      prod_tail = s.prod_tail + 1;
    },
    returned 1,
  )
  advance get_start s = (s, get_loaded s.ring.cons.head)
  advance (get_loaded h) s =
      let entries = sub32 s.ring.prod.tail h in
      elim (clip false 1 entries == 0) [ true ↦ (s, returned 0) | false ↦ (s, get_found h) ]
  advance (get_found h) s = (
    record s {
      ring = record s.ring { cons = record s.ring.cons { head = add32 h 1 } };
      cons_head = s.cons_head + 1;
    },
    get_copy h,
  )
  advance (get_copy h) s = (s, get_publish h (s.ring.mem (bit_and h s.ring.mask)))
  advance (get_publish h v) s = (
    record s {
      ring = record s.ring { cons = record s.ring.cons { tail = add32 h 1 } };
      cons_tail = s.cons_tail + 1;
      received = update s.received s.cons_tail v;
    },
    returned 1,
  )
