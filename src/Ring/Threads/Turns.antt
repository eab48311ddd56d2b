-- ===== src/Ring/Threads/Turns.antt =====
-- The wait of the producers for their turn on a ring of src/common/include/ring.hpp.
use sqkio.Common.{ℕ, zero, suc, ◌+◌, ◌≤◌, ◌<◌, ◌≡◌, refl, true, ◌==◌, some, arith}
use sqkio.Ring.Threads.{Pc, returned, put_copy, put_wait, put_publish, Shared, advance}
use sqkio.Ring.Threads.Invariant.{claim, IsPlaced, IsCounted}
use sqkio.Ring.Threads.Reach.{Reach, Reach-Inv}

-- `n` accesses of one thread, with none of the others between.
unfoldable pub solo : {W : Type 0} → ℕ → Pc W → Shared W → Shared W × Pc W
solo zero p s = (s, p)
solo (suc n) p s = solo n (advance p s).1 (advance p s).0

module _ {W : Type 0} {k owner : ℕ} {s : Shared W} {pc : ℕ → Pc W} where
  -- Whoever has won the position of the tail publishes it within three accesses.
  publishes :
      IsCounted k owner s pc
      → (x : Pc W) → IsPlaced s x
      → claim x ≡ some s.prod_tail
      → (n : ℕ) × (n ≤ 3)
        × ((solo n x s).0.prod_tail ≡ s.prod_tail + 1)
        × ((solo n x s).1 ≡ returned 1)
  unfolding solo advance
  publishes c (put_copy v h p) place e =
      let its_turn : (s.ring.prod.tail == h) ≡ true = ground arith in
      (3, omega arith, rw (solo, advance, its_turn), rw (solo, advance, its_turn))
  publishes c (put_wait v h p) place e =
      let its_turn : (s.ring.prod.tail == h) ≡ true = ground arith in
      (2, omega arith, rw (solo, advance, its_turn), rw (solo, advance, its_turn))
  publishes c (put_publish v h p) place e = (1, omega arith, refl, refl)
  publishes c (returned n) place e = cc
  publishes c _ place e = cc

  -- In every reachable state in which some position has been won and not published, some thread is
  -- the one whose turn it is: with at most three accesses of its own, and none of the others', it
  -- moves the producers' tail on by one and returns 1.
  pub turn_passes :
      Reach k owner s pc
      → s.prod_tail < s.prod_head
      → (j n : ℕ) × (n ≤ 3)
        × ((solo n (pc j) s).0.prod_tail ≡ s.prod_tail + 1)
        × ((solo n (pc j) s).1 ≡ returned 1)
  turn_passes reach some_won =
      let inv = Reach-Inv reach in
      let (j, its) = inv.covered s.prod_tail (omega arith) some_won in
      let (n, few, moved, done) = publishes inv.counted (pc j) (inv.placed j) its in
      (j, n, few, moved, done)
