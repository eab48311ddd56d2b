-- ===== src/Ring/Threads/Invariant/Keeps.antt =====
-- The start, the calls and the accesses of the threads of src/common/include/ring.hpp under the
-- invariant.
use sqkio.Common.{ℕ, ◌-◌, ◌^◌, ◌≤◌, ◌≡◌, refl, true, none, arith}
use native.Mathlib.Nat.{pow-le-pow_right}
use sqkio.Common.Update.{update}
use sqkio.Ring.{Ring}
use sqkio.Ring.Threads.{Pc, returned, put_start, get_start, Shared, advance}
use sqkio.Ring.Threads.View.{Move, advance-Move}
use sqkio.Ring.Threads.Invariant.{claim, dequeues, takes, IsTimely, IsPlaced, IsStored, Inv}
use sqkio.Ring.Threads.Invariant.Counts.{Mover, Move-IsCounted, Move-IsPlaced, Move-alone}
use sqkio.Ring.Threads.Invariant.Claims.{Move-unique, Move-covered}
use sqkio.Ring.Threads.Invariant.Entries.{Move-given, Move-held, Move-IsStored}

module _ {W : Type 0} {k owner : ℕ} {s : Shared W} {pc : ℕ → Pc W} (inv : Inv k owner s pc)
    (i : ℕ) where
  open inv use {placed, stored, alone, unique, covered, held, given}

  pub advance-Inv :
      IsTimely s (pc i) → Inv k owner (advance (pc i) s).0 (update pc i (advance (pc i) s).1)
  advance-Inv timely = record {
    counted = Move-IsCounted inv i mv f;
    placed = Move-IsPlaced inv i mv f;
    stored = Move-IsStored inv i mv f (stored i);
    alone = Move-alone inv i mv f;
    unique = Move-unique inv i mv f;
    covered = Move-covered inv i mv f;
    held = Move-held inv i mv f (stored i);
    given = Move-given inv i mv f (stored i);
  }
    where
      mv : Move s (pc i) (advance (pc i) s).0 (advance (pc i) s).1
      mv = advance-Move (pc i) s

      f : Mover inv i (pc i)
      f = record { here = refl; place = placed i; timely = timely }

  -- A thread between two calls begins one.
  call-Inv :
      (n : ℕ) (p : Pc W)
      → pc i ≡ returned n
      → claim p ≡ none
      → takes p ≡ 0
      → IsPlaced s p
      → IsStored s p
      → (dequeues p ≡ true → i ≡ owner)
      → Inv k owner s (update pc i p)
  call-Inv n p at no_claim no_take place store may = record {
    counted =
        let c = inv.counted in
        record {
          width = c.width;
          mask_ok = c.mask_ok;
          capacity_ok = c.capacity_ok;
          small = c.small;
          prod_head_ok = c.prod_head_ok;
          prod_tail_ok = c.prod_tail_ok;
          cons_head_ok = c.cons_head_ok;
          cons_tail_ok = c.cons_tail_ok;
          taken = ground arith;
          published = c.published;
          won = c.won;
          fits = c.fits;
        };
    placed = λ j. ground (arith, placed j);
    stored = λ j. ground (arith, stored j);
    alone = λ j e. ground (arith, alone j, may);
    unique = λ a b q ea eb. ground (arith, unique a b q);
    covered = λ q lo hi. let (j, has) = covered q lo hi in (j, ground arith);
    held = held;
    given = given;
  }

  pub put_start-Inv :
      (n : ℕ) (v : W) → pc i ≡ returned n → Inv k owner s (update pc i (put_start v))
  put_start-Inv n v at = call-Inv n (put_start v) at refl refl tt tt (λ e. cc)

  pub get_start-Inv :
      (n : ℕ) → pc i ≡ returned n → i ≡ owner → Inv k owner s (update pc i get_start)
  get_start-Inv n at own = call-Inv n get_start at refl refl tt tt (λ e. own)

-- A ring that was just made, with all threads between two calls.
pub start-Inv :
    {W : Type 0} (k owner : ℕ) (ring : Ring W) (sent received : ℕ → W)
    → k ≤ 31
    → ring.mask ≡ 2 ^ k - 1
    → ring.capacity ≡ 2 ^ k - 1
    → ring.prod ≡ record { head = 0; tail = 0 }
    → ring.cons ≡ record { head = 0; tail = 0 }
    → Inv k owner
        (record {
          ring = ring;
          prod_head = 0;
          prod_tail = 0;
          cons_head = 0;
          cons_tail = 0;
          sent = sent;
          received = received;
        })
        (λ i. returned 0)
start-Inv k owner ring sent received width mask capacity prod cons = record {
  counted = record {
    width = width;
    mask_ok = mask;
    capacity_ok = capacity;
    small = omega (arith, capacity, pow-le-pow_right {n = 2} (omega arith) {i = k} {j = 31} width);
    prod_head_ok = ground arith;
    prod_tail_ok = ground arith;
    cons_head_ok = ground arith;
    cons_tail_ok = ground arith;
    taken = refl;
    published = omega arith;
    won = omega arith;
    fits = omega arith;
  };
  placed = λ i. tt;
  stored = λ i. tt;
  alone = λ i e. cc;
  unique = λ i j p e. cc;
  covered = λ p lo hi. absurd (omega arith);
  held = λ q lo hi. absurd (omega arith);
  given = λ q lt. absurd (omega arith);
}
