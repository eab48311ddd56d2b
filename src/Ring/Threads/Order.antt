-- ===== src/Ring/Threads/Order.antt =====
-- What the entries of a ring of src/common/include/ring.hpp under threads are, and where they
-- stand.
use native.Mathlib.Decide.{dec_lt}
use sqkio.Common.{
  ℕ, ◌+◌, ◌-◌, ◌%◌, ◌^◌, ◌≤◌, ◌<◌, ◌≡◌, ◌≢◌, ◌⊎◌, inl, inr, refl, sym, ap, ◌∙◌, bit_and, Option,
  none, some, arith,
}
use sqkio.Ring.{Ring}
use sqkio.Ring.Threads.{Pc, returned, put_copy, get_copy, get_publish, Shared}
use sqkio.Ring.Threads.Invariant.{slot, claim, dequeues, takes, IsPlaced, Inv}
use sqkio.Ring.Threads.Slots.{same_slot}
use sqkio.Ring.Threads.Invariant.Entries.{IsCounted-HasSlots}
use sqkio.Ring.Threads.Reach.{Reach, Reach-Inv}

module _ {W : Type 0} {k owner : ℕ} {s : Shared W} {pc : ℕ → Pc W}
    (reach : Reach k owner s pc) where
  -- In every reachable state of a ring of 2^k slots, k ≤ 31: the heads and tails, counted without a
  -- wrap, stand in the order consumer's tail, consumer's head, producers' tail, producers' head;
  -- the consumer's head is at most one ahead of its tail and the producers' head at most 2^k - 1
  -- ahead of it; and the four words of the ring are these counts modulo 2^32.
  pub counts_lem :
      (s.cons_tail ≤ s.cons_head)
      × (s.cons_head ≤ s.cons_tail + 1)
      × (s.cons_head ≤ s.prod_tail)
      × (s.prod_tail ≤ s.prod_head)
      × (s.prod_head ≤ s.cons_tail + (2 ^ k - 1))
      × (s.ring.cons.tail ≡ s.cons_tail % 2 ^ 32)
      × (s.ring.cons.head ≡ s.cons_head % 2 ^ 32)
      × (s.ring.prod.tail ≡ s.prod_tail % 2 ^ 32)
      × (s.ring.prod.head ≡ s.prod_head % 2 ^ 32)
  counts_lem =
      let c = (Reach-Inv reach).counted in
      (
        omega (arith, c.taken),
        omega (arith, c.taken, takes_most (pc owner)),
        c.published,
        c.won,
        omega (arith, c.fits, c.capacity_ok),
        c.cons_tail_ok,
        c.cons_head_ok,
        c.prod_tail_ok,
        c.prod_head_ok,
      )
    where
      takes_most : (p : Pc W) → takes p ≤ 1
      takes_most (get_copy h) = omega arith
      takes_most (get_publish h v) = omega arith
      takes_most _ = omega arith

  -- In every reachable state the position q of each published entry is one of two: the dequeues
  -- have given it back, and gave the entry with which the compare-exchange of an enqueue won q, or
  -- it waits, and that entry stands in the slot of q.
  pub fifo_lem :
      (q : ℕ)
      → q < s.prod_tail
      → ((q < s.cons_tail) × (s.received q ≡ s.sent q))
        ⊎ ((s.cons_tail ≤ q) × (s.ring.mem (bit_and (q % 2 ^ 32) s.ring.mask) ≡ s.sent q))
  fifo_lem q lt =
      let inv = Reach-Inv reach in
      elim (dec_lt q s.cons_tail) [
        | yes gone ↦ inl (gone, inv.given q gone)
        | no waits ↦ inr (omega arith, inv.held q (omega arith) lt)
      ]

-- The slot that the next access of a thread reads or writes.
abbrev pub slot_in_use : {W : Type 0} → Ring W → Pc W → Option ℕ
slot_in_use r (put_copy v h p) = some (bit_and h r.mask)
slot_in_use r (get_copy h) = some (bit_and h r.mask)
slot_in_use r _ = none

-- The position whose slot the next access of a thread reads or writes.
abbrev place_in_use : {W : Type 0} → Shared W → Pc W → Option ℕ
place_in_use s (put_copy v h p) = some p
place_in_use s (get_copy h) = some s.cons_tail
place_in_use s _ = none

module _ {W : Type 0} {k owner : ℕ} {s : Shared W} {pc : ℕ → Pc W} (inv : Inv k owner s pc) where
  in_use-place :
      (i a : ℕ) (x : Pc W)
      → pc i ≡ x
      → IsPlaced s x
      → slot_in_use s.ring x ≡ some a
      → (q : ℕ) × (place_in_use s x ≡ some q)
        × (slot s q ≡ a)
        × (s.cons_tail ≤ q)
        × (q < s.prod_head)
  in_use-place i a (put_copy v h p) at place e =
      let c = inv.counted in
      (p, refl, ground arith, omega (arith, c.published, c.taken, place.1), place.2)
  in_use-place i a (get_copy h) at place e =
      let c = inv.counted in
      (s.cons_tail, refl, ground arith, omega arith, ground (arith, inv.alone i))
  in_use-place i a (returned n) at place e = cc
  in_use-place i a _ at place e = cc

  -- A position that is read has been published, and one that is written has not.
  reads_or_writes :
      (i q h g r : ℕ) (w : W)
      → pc i ≡ get_copy h
      → some s.cons_tail ≡ some q
      → some r ≡ some q
      → ¬ (IsPlaced s (put_copy w g r))
  reads_or_writes i q h g r w at reads writes place =
      let c = inv.counted in ground (arith, inv.alone i)

  same_place-thread :
      (i j q : ℕ) (x y : Pc W)
      → pc i ≡ x
      → pc j ≡ y
      → place_in_use s x ≡ some q
      → place_in_use s y ≡ some q
      → IsPlaced s x
      → IsPlaced s y
      → i ≡ j
  same_place-thread i j q (put_copy v h p) (put_copy w g r) ix iy ex ey px py =
      inv.unique i j q (ap claim ix ∙ ex) (ap claim iy ∙ ey)
  same_place-thread i j q (get_copy h) (get_copy g) ix iy ex ey px py =
      inv.alone i (ap dequeues ix) ∙ sym (inv.alone j (ap dequeues iy))
  same_place-thread i j q (get_copy h) (put_copy w g r) ix iy ex ey px py =
      absurd (reads_or_writes i q h g r w ix ex ey py)
  same_place-thread i j q (put_copy w g r) (get_copy h) ix iy ex ey px py =
      absurd (reads_or_writes j q h g r w iy ey ex px)
  same_place-thread i j q (put_copy v h p) _ ix iy ex ey px py = cc
  same_place-thread i j q (get_copy h) _ ix iy ex ey px py = cc
  same_place-thread i j q _ y ix iy ex ey px py = cc

module _ {W : Type 0} {k owner : ℕ} {s : Shared W} {pc : ℕ → Pc W}
    (reach : Reach k owner s pc) where
  -- In every reachable state the next accesses of two different threads are not to the same slot:
  -- no entry is written while another thread writes or reads it.
  pub slots_apart :
      (i j a b : ℕ)
      → i ≢ j
      → slot_in_use s.ring (pc i) ≡ some a
      → slot_in_use s.ring (pc j) ≡ some b
      → a ≢ b
  slots_apart i j a b other ei ej e =
      let inv = Reach-Inv reach in
      let (p, pi, si, lo, hi) = in_use-place inv i a (pc i) refl (inv.placed i) ei in
      let (q, qj, sj, lo', hi') = in_use-place inv j b (pc j) refl (inv.placed j) ej in
      let same = same_slot (IsCounted-HasSlots inv.counted) p q lo hi lo' hi' (si ∙ e ∙ sym sj) in
      other (
        same_place-thread inv i j q (pc i) (pc j) refl refl (pi ∙ ap some same) qj (inv.placed i)
          (inv.placed j))
