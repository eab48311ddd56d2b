-- ===== src/Ring/Threads/Invariant/Entries.antt =====
-- An access of src/common/include/ring.hpp by one thread: the entries in the slots, and those given
-- out.
use native.Mathlib.Decide.{ℕ_discrete}
use sqkio.Common.{ℕ, ◌%◌, ◌^◌, ◌≤◌, ◌<◌, ◌≡◌, ◌≢◌, some, arith}
use sqkio.Common.Update.{update}
use sqkio.Ring.Threads.Slots.{HasSlots, same_slot}
use sqkio.Ring.Threads.{Pc, put_copy, put_wait, put_publish, get_publish, Shared}
use sqkio.Ring.Threads.View.{copied, Move, rest, copy_in, copy_out}
use sqkio.Ring.Threads.Invariant.{slot, claim, IsPlaced, IsStored, IsCounted, Inv}
use sqkio.Ring.Threads.Invariant.Counts.{Mover, guard}

pub IsCounted-HasSlots :
    {W : Type 0} {k owner : ℕ} {s : Shared W} {pc : ℕ → Pc W}
    → IsCounted k owner s pc
    → HasSlots k s
IsCounted-HasSlots c = record {
  width = c.width;
  mask_ok = c.mask_ok;
  capacity_ok = c.capacity_ok;
  fits = c.fits;
}

module _ {W : Type 0} {k owner : ℕ} {s : Shared W} {pc : ℕ → Pc W} (inv : Inv k owner s pc)
    (i : ℕ) where
  open inv use {placed, stored, alone, unique, covered, held, given}

  pub Move-given :
      {p p' : Pc W} {s' : Shared W}
      → Move s p s' p'
      → Mover inv i p
      → IsStored s p
      → (q : ℕ) → q < s'.cons_tail
      → s'.received q ≡ s'.sent q
  Move-given rest f st q lt = given q lt
  Move-given mv f st q lt = let c = inv.counted in ground (arith, guard mv, given q)

  pub Move-held :
      {p p' : Pc W} {s' : Shared W}
      → Move s p s' p'
      → Mover inv i p
      → IsStored s p
      → (q : ℕ) → s'.cons_tail ≤ q
      → q < s'.prod_tail
      → s'.ring.mem (slot s' q) ≡ s'.sent q
  Move-held rest f st q lo hi = held q lo hi
  Move-held {p = put_copy v h p} copy_in f st q lo hi =
      let c = inv.counted in ground (arith, held q, same_slot (IsCounted-HasSlots inv.counted) q p)
  Move-held mv f st q lo hi = let c = inv.counted in ground (arith, guard mv, held q)

  -- A copy to the slot of `p` leaves the entries of the threads that won other positions.
  copied-IsStored :
      (v : W) (h p : ℕ) (x : Pc W)
      → h ≡ p % 2 ^ 32
      → s.prod_tail ≤ p
      → p < s.prod_head
      → IsPlaced s x
      → IsStored s x
      → ((q : ℕ) → claim x ≡ some q → q ≢ p)
      → IsStored (copied v h s) x
  copied-IsStored v h p (put_wait w g q) e lo hi pl st ne =
      let c = inv.counted in ground (arith, same_slot (IsCounted-HasSlots inv.counted) q p, ne q)
  copied-IsStored v h p (put_publish w g q) e lo hi pl st ne =
      let c = inv.counted in ground (arith, same_slot (IsCounted-HasSlots inv.counted) q p, ne q)
  copied-IsStored v h p (put_copy w g q) e lo hi pl st ne = st
  copied-IsStored v h p (get_publish g w) e lo hi pl st ne = st
  copied-IsStored v h p _ e lo hi pl st ne = tt

  pub Move-IsStored :
      {p p' : Pc W} {s' : Shared W}
      → Move s p s' p'
      → Mover inv i p
      → IsStored s p
      → (j : ℕ) → IsStored s' (update pc i p' j)
  Move-IsStored rest f st j = ground (arith, stored j)
  Move-IsStored {p = put_copy v h p} copy_in f st j = elim (ℕ_discrete i j) [
    | yes same ↦ ground arith
    | no other ↦
        let kept =
          copied-IsStored v h p (pc j) f.place.0 f.place.1 f.place.2 (placed j) (stored j)
            (λ q e e'. other (unique i j p (ground arith) (ground arith))) in
        ground arith
  ]
  Move-IsStored copy_out f st j =
      let c = inv.counted in ground (arith, stored j, alone i, held s.cons_tail)
  Move-IsStored mv f st j =
      let c = inv.counted in ground (arith, guard mv, stored j, placed j, alone i, alone j)
