-- ===== src/Ring/Threads/Invariant/Counts.antt =====
-- An access of src/common/include/ring.hpp by one thread: the counters, and where the threads
-- stand.
use sqkio.Common.{ℕ, ◌≡◌, ◌≢◌, true, arith}
use sqkio.Common.Update.{update}
use sqkio.Ring.Threads.{Pc, Shared}
use sqkio.Ring.Threads.View.{
  free_seen, entries_seen, Move, rest, full, room, won, lost, spin, turn, empty, found,
}
use sqkio.Ring.Threads.Invariant.{dequeues, IsTimely, IsPlaced, IsCounted, Inv}

-- The outcome of the test of an access, for the catch-all clauses.
abbrev pub Guard : {W : Type 0} {s s' : Shared W} {p p' : Pc W} → Move s p s' p' → Type 0
Guard {s = s} (full {h = h} _) = free_seen s h ≡ 0
Guard {s = s} (room {h = h} _) = free_seen s h ≢ 0
Guard {s = s} (won {h = h} _) = s.ring.prod.head ≡ h
Guard {s = s} (lost {h = h} _) = s.ring.prod.head ≢ h
Guard {s = s} (spin {h = h} _) = s.ring.prod.tail ≢ h
Guard {s = s} (turn {h = h} _) = s.ring.prod.tail ≡ h
Guard {s = s} (empty {h = h} _) = entries_seen s h ≡ 0
Guard {s = s} (found {h = h} _) = entries_seen s h ≢ 0
Guard _ = Unit

pub guard : {W : Type 0} {s s' : Shared W} {p p' : Pc W} (mv : Move s p s' p') → Guard mv
guard (full g) = g
guard (room g) = g
guard (won g) = g
guard (lost g) = g
guard (spin g) = g
guard (turn g) = g
guard (empty g) = g
guard (found g) = g
guard _ = tt

module _ {W : Type 0} {k owner : ℕ} {s : Shared W} {pc : ℕ → Pc W} (inv : Inv k owner s pc)
    (i : ℕ) where
  open inv use {placed, stored, alone, unique, covered, held, given}

  pub record Mover (p : Pc W) : Type 0 where
    pub here : pc i ≡ p
    pub place : IsPlaced s p
    pub timely : IsTimely s p

  pub Move-IsCounted :
      {p p' : Pc W} {s' : Shared W}
      → Move s p s' p'
      → Mover p
      → IsCounted k owner s' (update pc i p')
  Move-IsCounted rest f = let c = inv.counted in ground (arith, alone i)
  Move-IsCounted mv f = let c = inv.counted in ground (arith, guard mv, alone i)

  pub Move-IsPlaced :
      {p p' : Pc W} {s' : Shared W}
      → Move s p s' p'
      → Mover p
      → (j : ℕ) → IsPlaced s' (update pc i p' j)
  Move-IsPlaced rest f j = let c = inv.counted in ground (arith, placed j)
  Move-IsPlaced mv f j =
      let c = inv.counted in
      ground (arith, guard mv, placed j, alone i, alone j, unique i j s.prod_tail)

  pub Move-alone :
      {p p' : Pc W} {s' : Shared W}
      → Move s p s' p'
      → Mover p
      → (j : ℕ) → dequeues (update pc i p' j) ≡ true
      → j ≡ owner
  Move-alone rest f j e = ground (arith, alone j)
  Move-alone mv f j e = ground (arith, alone i, alone j)
