-- ===== src/Ring/Threads/Invariant.antt =====
-- What holds of a ring of src/common/include/ring.hpp and the threads on it between any two
-- accesses.
pub mod Counts
pub mod Claims
pub mod Entries
pub mod Keeps
use sqkio.Common.{
  ℕ, suc, ◌+◌, ◌-◌, ◌%◌, ◌^◌, ◌≤◌, ◌<◌, ◌≡◌, ◌≢◌, bit_and, Bool, true, false, Option, none, some,
}
use sqkio.Ring.Threads.{
  Pc, returned, put_start, put_loaded, put_free, put_copy, put_wait, put_publish, get_start,
  get_loaded, get_found, get_copy, get_publish, Shared,
}

module _ {W : Type 0} where
  -- The slot of a position.
  abbrev pub slot : Shared W → ℕ → ℕ
  slot s q = bit_and (q % 2 ^ 32) s.ring.mask

  -- The position that a thread won and has not published.
  abbrev pub claim : Pc W → Option ℕ
  claim (put_copy v h p) = some p
  claim (put_wait v h p) = some p
  claim (put_publish v h p) = some p
  claim _ = none

  abbrev pub dequeues : Pc W → Bool
  dequeues get_start = true
  dequeues (get_loaded h) = true
  dequeues (get_found h) = true
  dequeues (get_copy h) = true
  dequeues (get_publish h v) = true
  dequeues _ = false

  -- How many entries a thread has taken and not given back the slot of.
  abbrev pub takes : Pc W → ℕ
  takes (get_copy h) = 1
  takes (get_publish h v) = 1
  takes _ = 0

  -- No thread sleeps between its read of the head and its compare-exchange while the head moves on
  -- by 2^32 less the capacity.
  abbrev pub IsTimely : Shared W → Pc W → Type 0
  IsTimely s (put_loaded v h p) = s.prod_head + s.ring.capacity < p + 2 ^ 32
  IsTimely s (put_free v h p) = s.prod_head + s.ring.capacity < p + 2 ^ 32
  IsTimely s _ = Unit

  -- The positions that the variables of a thread stand for.
  abbrev pub IsPlaced : Shared W → Pc W → Type 0
  IsPlaced s (put_loaded v h p) = (h ≡ p % 2 ^ 32) × (p ≤ s.prod_head)
  IsPlaced s (put_free v h p) =
      (h ≡ p % 2 ^ 32) × (p ≤ s.prod_head) × (p < s.cons_tail + s.ring.capacity)
  IsPlaced s (put_copy v h p) = (h ≡ p % 2 ^ 32) × (s.prod_tail ≤ p) × (p < s.prod_head)
  IsPlaced s (put_wait v h p) = (h ≡ p % 2 ^ 32) × (s.prod_tail ≤ p) × (p < s.prod_head)
  IsPlaced s (put_publish v h p) = (h ≡ p % 2 ^ 32) × (s.prod_tail ≡ p) × (p < s.prod_head)
  IsPlaced s (get_loaded h) = h ≡ s.cons_head % 2 ^ 32
  IsPlaced s (get_found h) = (h ≡ s.cons_head % 2 ^ 32) × (s.cons_head < s.prod_tail)
  IsPlaced s (get_copy h) = h ≡ s.cons_tail % 2 ^ 32
  IsPlaced s (get_publish h v) = h ≡ s.cons_tail % 2 ^ 32
  IsPlaced s _ = Unit

  -- The entries that the variables of a thread stand for.
  abbrev pub IsStored : Shared W → Pc W → Type 0
  IsStored s (put_copy v h p) = s.sent p ≡ v
  IsStored s (put_wait v h p) = (s.sent p ≡ v) × (s.ring.mem (slot s p) ≡ v)
  IsStored s (put_publish v h p) = (s.sent p ≡ v) × (s.ring.mem (slot s p) ≡ v)
  IsStored s (get_publish h v) = s.sent s.cons_tail ≡ v
  IsStored s _ = Unit

  -- The counters, the words that wrap, and the thread `owner` that dequeues.
  pub record IsCounted (k owner : ℕ) (s : Shared W) (pc : ℕ → Pc W) : Type 0 where
    pub width : k ≤ 31
    pub mask_ok : s.ring.mask ≡ 2 ^ k - 1
    pub capacity_ok : s.ring.capacity ≡ 2 ^ k - 1
    pub small : s.ring.capacity < 2 ^ 31
    pub prod_head_ok : s.ring.prod.head ≡ s.prod_head % 2 ^ 32
    pub prod_tail_ok : s.ring.prod.tail ≡ s.prod_tail % 2 ^ 32
    pub cons_head_ok : s.ring.cons.head ≡ s.cons_head % 2 ^ 32
    pub cons_tail_ok : s.ring.cons.tail ≡ s.cons_tail % 2 ^ 32
    pub taken : s.cons_head ≡ s.cons_tail + takes (pc owner)
    pub published : s.cons_head ≤ s.prod_tail
    pub won : s.prod_tail ≤ s.prod_head
    pub fits : s.prod_head ≤ s.cons_tail + s.ring.capacity

  pub record Inv (k owner : ℕ) (s : Shared W) (pc : ℕ → Pc W) : Type 0 where
    pub counted : IsCounted k owner s pc
    pub placed : (i : ℕ) → IsPlaced s (pc i)
    pub stored : (i : ℕ) → IsStored s (pc i)
    pub alone : (i : ℕ) → dequeues (pc i) ≡ true → i ≡ owner
    pub unique : (i j p : ℕ) → claim (pc i) ≡ some p → claim (pc j) ≡ some p → i ≡ j
    pub covered : (p : ℕ) → s.prod_tail ≤ p → p < s.prod_head → (i : ℕ) × (claim (pc i) ≡ some p)
    pub held : (q : ℕ) → s.cons_tail ≤ q → q < s.prod_tail → s.ring.mem (slot s q) ≡ s.sent q
    pub given : (q : ℕ) → q < s.cons_tail → s.received q ≡ s.sent q
