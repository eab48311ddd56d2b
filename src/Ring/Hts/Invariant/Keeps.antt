-- ===== src/Ring/Hts/Invariant/Keeps.antt =====
-- The start, the calls and the accesses of the threads on an HTS ring of
-- src/common/include/ring.hpp under the invariant.
use sqkio.Common.{ℕ, ◌≡◌, refl, false, arith}
use sqkio.Common.Update.{update}
use sqkio.Ring.Threads.{Shared}
use sqkio.Ring.Hts.{Pc, put_start, get_start, advance}
use sqkio.Ring.Hts.View.{Move, advance-Move}
use sqkio.Ring.Hts.Invariant.{writes, reads, IsTimely, IsPlaced, IsStored, Inv}
use sqkio.Ring.Hts.Invariant.Counts.{
  Mover, Move-IsCounted, Move-IsPlaced, Move-lone_writer, Move-lone_reader,
}
use sqkio.Ring.Hts.Invariant.Entries.{Move-given, Move-held, Move-IsStored}

module _ {W : Type 0} {k : ℕ} {s : Shared W} {pc : ℕ → Pc W} (inv : Inv k s pc) (i : ℕ) where
  open inv use {placed, stored, lone_writer, lone_reader, held, given}

  pub advance-Inv :
      IsTimely s (pc i) → Inv k (advance (pc i) s).0 (update pc i (advance (pc i) s).1)
  advance-Inv timely = record {
    counted = Move-IsCounted inv i mv f;
    placed = Move-IsPlaced inv i mv f;
    stored = Move-IsStored inv i mv f (stored i);
    lone_writer = Move-lone_writer inv i mv f;
    lone_reader = Move-lone_reader inv i mv f;
    held = Move-held inv i mv f (stored i);
    given = Move-given inv i mv f (stored i);
  }
    where
      mv : Move s (pc i) (advance (pc i) s).0 (advance (pc i) s).1
      mv = advance-Move (pc i) s

      f : Mover inv i (pc i)
      f = record { here = refl; place = placed i; timely = timely }

  -- A thread between two calls begins one.
  call-Inv :
      (p : Pc W)
      → writes p ≡ false
      → reads p ≡ false
      → IsPlaced s p
      → IsStored s p
      → Inv k s (update pc i p)
  call-Inv p no_write no_read place store = record {
    counted = inv.counted;
    placed = λ j. ground (arith, placed j);
    stored = λ j. ground (arith, stored j);
    lone_writer = λ a b ea eb. ground (arith, lone_writer a b);
    lone_reader = λ a b ea eb. ground (arith, lone_reader a b);
    held = held;
    given = given;
  }

  pub put_start-Inv : (v : W) → Inv k s (update pc i (put_start v))
  put_start-Inv v = call-Inv (put_start v) refl refl tt tt

  pub get_start-Inv : Inv k s (update pc i get_start)
  get_start-Inv = call-Inv get_start refl refl tt tt
