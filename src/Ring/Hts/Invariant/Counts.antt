-- ===== src/Ring/Hts/Invariant/Counts.antt =====
-- An access of an HTS ring of src/common/include/ring.hpp by one thread: the counters, and where
-- the threads stand.
use sqkio.Common.{ℕ, ◌≡◌, ◌≢◌, true, arith}
use sqkio.Common.Update.{update}
use sqkio.Ring.Threads.{Shared}
use sqkio.Ring.Threads.View.{free_seen, entries_seen}
use sqkio.Ring.Hts.{Pc}
use sqkio.Ring.Hts.View.{Move, rest, prod_busy, full, room, won, cons_busy, empty, found, take}
use sqkio.Ring.Hts.Invariant.{writes, reads, IsTimely, IsPlaced, IsCounted, Inv}

-- The outcome of the test of an access, for the catch-all clauses.
abbrev pub Guard : {W : Type 0} {s s' : Shared W} {p p' : Pc W} → Move s p s' p' → Type 0
Guard (prod_busy {op = op} _) = op.head ≢ op.tail
Guard {s = s} (full {op = op} _ _) = (op.head ≡ op.tail) × (free_seen s op.head ≡ 0)
Guard {s = s} (room {op = op} _ _) = (op.head ≡ op.tail) × (free_seen s op.head ≢ 0)
Guard {s = s} (won {op = op} _ _) = (s.ring.prod.head ≡ op.head) × (s.ring.prod.tail ≡ op.tail)
Guard (cons_busy {op = op} _) = op.head ≢ op.tail
Guard {s = s} (empty {op = op} _ _) = (op.head ≡ op.tail) × (entries_seen s op.head ≡ 0)
Guard {s = s} (found {op = op} _ _) = (op.head ≡ op.tail) × (entries_seen s op.head ≢ 0)
Guard {s = s} (take {op = op} _ _) = (s.ring.cons.head ≡ op.head) × (s.ring.cons.tail ≡ op.tail)
Guard _ = Unit

pub guard : {W : Type 0} {s s' : Shared W} {p p' : Pc W} (mv : Move s p s' p') → Guard mv
guard (prod_busy g) = g
guard (full g h) = (g, h)
guard (room g h) = (g, h)
guard (won g h) = (g, h)
guard (cons_busy g) = g
guard (empty g h) = (g, h)
guard (found g h) = (g, h)
guard (take g h) = (g, h)
guard _ = tt

module _ {W : Type 0} {k : ℕ} {s : Shared W} {pc : ℕ → Pc W} (inv : Inv k s pc) (i : ℕ) where
  open inv use {placed, lone_writer, lone_reader}

  pub record Mover (p : Pc W) : Type 0 where
    pub here : pc i ≡ p
    pub place : IsPlaced s p
    pub timely : IsTimely s p

  pub Move-IsCounted : {p p' : Pc W} {s' : Shared W} → Move s p s' p' → Mover p → IsCounted k s'
  Move-IsCounted rest f = inv.counted
  Move-IsCounted mv f = let c = inv.counted in ground (arith, guard mv)

  pub Move-IsPlaced :
      {p p' : Pc W} {s' : Shared W}
      → Move s p s' p'
      → Mover p
      → (j : ℕ) → IsPlaced s' (update pc i p' j)
  Move-IsPlaced rest f j = let c = inv.counted in ground (arith, placed j)
  Move-IsPlaced mv f j =
      let c = inv.counted in ground (arith, guard mv, placed j, lone_writer i j, lone_reader i j)

  pub Move-lone_writer :
      {p p' : Pc W} {s' : Shared W}
      → Move s p s' p'
      → Mover p
      → (a b : ℕ) → writes (update pc i p' a) ≡ true
      → writes (update pc i p' b) ≡ true
      → a ≡ b
  Move-lone_writer rest f a b ea eb = ground (arith, lone_writer a b)
  Move-lone_writer mv f a b ea eb =
      let c = inv.counted in ground (arith, guard mv, lone_writer a b, placed a, placed b)

  pub Move-lone_reader :
      {p p' : Pc W} {s' : Shared W}
      → Move s p s' p'
      → Mover p
      → (a b : ℕ) → reads (update pc i p' a) ≡ true
      → reads (update pc i p' b) ≡ true
      → a ≡ b
  Move-lone_reader rest f a b ea eb = ground (arith, lone_reader a b)
  Move-lone_reader mv f a b ea eb =
      let c = inv.counted in ground (arith, guard mv, lone_reader a b, placed a, placed b)
