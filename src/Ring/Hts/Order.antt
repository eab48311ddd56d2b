-- ===== src/Ring/Hts/Order.antt =====
-- What the entries of an HTS ring of src/common/include/ring.hpp are under threads, and which
-- threads touch them.
use native.Mathlib.Decide.{dec_lt}
use sqkio.Common.{ℕ, ◌%◌, ◌^◌, ◌≤◌, ◌<◌, ◌≡◌, ◌≢◌, ◌⊎◌, inl, inr, bit_and, true, arith}
use sqkio.Ring.Threads.{Shared}
use sqkio.Ring.Hts.{Pc}
use sqkio.Ring.Hts.Invariant.{writes, reads}
use sqkio.Ring.Hts.Reach.{Reach, Reach-Inv}

module _ {W : Type 0} {k : ℕ} {s : Shared W} {pc : ℕ → Pc W} (reach : Reach k s pc) where
  -- In every reachable state of an HTS ring no two threads are between their compare-exchange and
  -- their store of the tail in an enqueue, and no two in a dequeue.
  pub hts_exclusive :
      (i j : ℕ)
      → i ≢ j
      → ¬ ((writes (pc i) ≡ true) × (writes (pc j) ≡ true))
        × ¬ ((reads (pc i) ≡ true) × (reads (pc j) ≡ true))
  hts_exclusive i j other =
      let inv = Reach-Inv reach in
      (λ (ei, ej). other (inv.lone_writer i j ei ej), λ (ei, ej). other (inv.lone_reader i j ei ej))

  -- In every reachable state of an HTS ring the position q of each published entry is one of two: a
  -- dequeue of some thread has given it back, and gave the entry with which the compare-exchange of
  -- an enqueue won q, or it waits, and that entry stands in the slot of q.
  pub hts_fifo :
      (q : ℕ)
      → q < s.prod_tail
      → ((q < s.cons_tail) × (s.received q ≡ s.sent q))
        ⊎ ((s.cons_tail ≤ q) × (s.ring.mem (bit_and (q % 2 ^ 32) s.ring.mask) ≡ s.sent q))
  hts_fifo q lt =
      let inv = Reach-Inv reach in
      elim (dec_lt q s.cons_tail) [
        | yes gone ↦ inl (gone, inv.given q gone)
        | no waits ↦ inr (omega arith, inv.held q (omega arith) lt)
      ]
