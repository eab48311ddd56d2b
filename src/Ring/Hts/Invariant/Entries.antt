-- ===== src/Ring/Hts/Invariant/Entries.antt =====
-- An access of an HTS ring of src/common/include/ring.hpp by one thread: the entries in the slots,
-- and those given out.
use sqkio.Common.{ℕ, ◌≤◌, ◌<◌, ◌≡◌, arith}
use sqkio.Common.Update.{update}
use sqkio.Ring.Threads.{Shared}
use sqkio.Ring.Threads.Invariant.{slot}
use sqkio.Ring.Threads.Slots.{HasSlots, same_slot}
use sqkio.Ring.Hts.{Pc, put_copy}
use sqkio.Ring.Hts.View.{Move, rest, copy_in, copy_out}
use sqkio.Ring.Hts.Invariant.{IsStored, IsCounted, Inv}
use sqkio.Ring.Hts.Invariant.Counts.{Mover, guard}

IsCounted-HasSlots : {W : Type 0} {k : ℕ} {s : Shared W} → IsCounted k s → HasSlots k s
IsCounted-HasSlots c = record {
  width = c.width;
  mask_ok = c.mask_ok;
  capacity_ok = c.capacity_ok;
  fits = c.fits;
}

module _ {W : Type 0} {k : ℕ} {s : Shared W} {pc : ℕ → Pc W} (inv : Inv k s pc) (i : ℕ) where
  open inv use {placed, stored, lone_writer, lone_reader, held, given}

  pub Move-given :
      {p p' : Pc W} {s' : Shared W}
      → Move s p s' p'
      → Mover inv i p
      → IsStored s p
      → (q : ℕ) → q < s'.cons_tail
      → s'.received q ≡ s'.sent q
  Move-given rest f st q lt = given q lt
  Move-given mv f st q lt = let c = inv.counted in ground (arith, guard mv, given q)

  pub Move-held :
      {p p' : Pc W} {s' : Shared W}
      → Move s p s' p'
      → Mover inv i p
      → IsStored s p
      → (q : ℕ) → s'.cons_tail ≤ q
      → q < s'.prod_tail
      → s'.ring.mem (slot s' q) ≡ s'.sent q
  Move-held rest f st q lo hi = held q lo hi
  Move-held {p = put_copy v h p} copy_in f st q lo hi =
      let c = inv.counted in ground (arith, held q, same_slot (IsCounted-HasSlots inv.counted) q p)
  Move-held mv f st q lo hi = let c = inv.counted in ground (arith, guard mv, held q)

  pub Move-IsStored :
      {p p' : Pc W} {s' : Shared W}
      → Move s p s' p'
      → Mover inv i p
      → IsStored s p
      → (j : ℕ) → IsStored s' (update pc i p' j)
  Move-IsStored rest f st j = ground (arith, stored j)
  Move-IsStored copy_out f st j = let c = inv.counted in ground (arith, stored j, held s.cons_tail)
  Move-IsStored mv f st j =
      let c = inv.counted in
      ground (arith, guard mv, stored j, placed j, lone_writer i j, lone_reader i j)
