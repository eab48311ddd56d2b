-- ===== src/Ring/Hts/Invariant.antt =====
-- What holds of an HTS ring of src/common/include/ring.hpp and the threads on it between any two
-- accesses.
pub mod Counts
pub mod Entries
pub mod Keeps
use sqkio.Common.{ℕ, suc, ◌+◌, ◌-◌, ◌%◌, ◌^◌, ◌≤◌, ◌<◌, ◌≡◌, bit_and, Bool, true, false}
use sqkio.Ring.Threads.{Shared}
use sqkio.Ring.Threads.Invariant.{slot}
use sqkio.Ring.Hts.{
  Pc, returned, put_start, put_seen, put_free, put_copy, put_publish, get_start, get_seen,
  get_found, get_copy, get_publish,
}

module _ {W : Type 0} where
  -- A thread between its compare-exchange and its store of the tail.
  abbrev pub writes : Pc W → Bool
  writes (put_copy v h p) = true
  writes (put_publish v h p) = true
  writes _ = false

  abbrev pub reads : Pc W → Bool
  reads (get_copy h p) = true
  reads (get_publish h p v) = true
  reads _ = false

  -- No thread sleeps between its read of a head and its compare-exchange while the head moves on by
  -- 2^32 less the capacity.
  abbrev pub IsTimely : Shared W → Pc W → Type 0
  IsTimely s (put_seen v op p) = s.prod_head + s.ring.capacity < p + 2 ^ 32
  IsTimely s (put_free v op p) = s.prod_head + s.ring.capacity < p + 2 ^ 32
  IsTimely s (get_seen op p) = s.cons_head + s.ring.capacity < p + 2 ^ 32
  IsTimely s (get_found op p) = s.cons_head + s.ring.capacity < p + 2 ^ 32
  IsTimely s _ = Unit

  -- The positions that the variables of a thread stand for.
  abbrev pub IsPlaced : Shared W → Pc W → Type 0
  IsPlaced s (put_seen v op p) = (op.head ≡ p % 2 ^ 32) × (p ≤ s.prod_head)
  IsPlaced s (put_free v op p) =
      (op.head ≡ p % 2 ^ 32)
      × (op.head ≡ op.tail)
      × (p ≤ s.prod_head)
      × (p < s.cons_tail + s.ring.capacity)
  IsPlaced s (put_copy v h p) =
      (h ≡ p % 2 ^ 32) × (p ≡ s.prod_tail) × (s.prod_head ≡ s.prod_tail + 1)
  IsPlaced s (put_publish v h p) =
      (h ≡ p % 2 ^ 32) × (p ≡ s.prod_tail) × (s.prod_head ≡ s.prod_tail + 1)
  IsPlaced s (get_seen op p) = (op.head ≡ p % 2 ^ 32) × (p ≤ s.cons_head)
  IsPlaced s (get_found op p) =
      (op.head ≡ p % 2 ^ 32) × (op.head ≡ op.tail) × (p ≤ s.cons_head) × (p < s.prod_tail)
  IsPlaced s (get_copy h p) = (h ≡ p % 2 ^ 32) × (p ≡ s.cons_tail) × (s.cons_head ≡ s.cons_tail + 1)
  IsPlaced s (get_publish h p v) =
      (h ≡ p % 2 ^ 32) × (p ≡ s.cons_tail) × (s.cons_head ≡ s.cons_tail + 1)
  IsPlaced s _ = Unit

  -- The entries that the variables of a thread stand for.
  abbrev pub IsStored : Shared W → Pc W → Type 0
  IsStored s (put_copy v h p) = s.sent p ≡ v
  IsStored s (put_publish v h p) = (s.sent p ≡ v) × (s.ring.mem (slot s p) ≡ v)
  IsStored s (get_publish h p v) = s.sent p ≡ v
  IsStored s _ = Unit

  -- The counters and the words that wrap.
  pub record IsCounted (k : ℕ) (s : Shared W) : Type 0 where
    pub width : k ≤ 31
    pub mask_ok : s.ring.mask ≡ 2 ^ k - 1
    pub capacity_ok : s.ring.capacity ≡ 2 ^ k - 1
    pub small : s.ring.capacity < 2 ^ 31
    pub prod_head_ok : s.ring.prod.head ≡ s.prod_head % 2 ^ 32
    pub prod_tail_ok : s.ring.prod.tail ≡ s.prod_tail % 2 ^ 32
    pub cons_head_ok : s.ring.cons.head ≡ s.cons_head % 2 ^ 32
    pub cons_tail_ok : s.ring.cons.tail ≡ s.cons_tail % 2 ^ 32
    pub taken : s.cons_tail ≤ s.cons_head
    pub one_taken : s.cons_head ≤ s.cons_tail + 1
    pub published : s.cons_head ≤ s.prod_tail
    pub won : s.prod_tail ≤ s.prod_head
    pub one_won : s.prod_head ≤ s.prod_tail + 1
    pub fits : s.prod_head ≤ s.cons_tail + s.ring.capacity

  pub record Inv (k : ℕ) (s : Shared W) (pc : ℕ → Pc W) : Type 0 where
    pub counted : IsCounted k s
    pub placed : (i : ℕ) → IsPlaced s (pc i)
    pub stored : (i : ℕ) → IsStored s (pc i)
    pub lone_writer : (i j : ℕ) → writes (pc i) ≡ true → writes (pc j) ≡ true → i ≡ j
    pub lone_reader : (i j : ℕ) → reads (pc i) ≡ true → reads (pc j) ≡ true → i ≡ j
    pub held : (q : ℕ) → s.cons_tail ≤ q → q < s.prod_tail → s.ring.mem (slot s q) ≡ s.sent q
    pub given : (q : ℕ) → q < s.cons_tail → s.received q ≡ s.sent q
