-- ===== src/Ring/Threads/Invariant/Claims.antt =====
-- An access of src/common/include/ring.hpp by one thread: the positions that the threads have won.
use sqkio.Common.{ℕ, ◌≤◌, ◌<◌, ◌≡◌, some, arith}
use native.Mathlib.Decide.{dec_lt}
use sqkio.Common.Update.{update}
use sqkio.Ring.Threads.{Pc, returned, Shared}
use sqkio.Ring.Threads.View.{Move, rest, won, publish}
use sqkio.Ring.Threads.Invariant.{claim, IsPlaced, Inv}
use sqkio.Ring.Threads.Invariant.Counts.{Mover, guard}

module _ {W : Type 0} {k owner : ℕ} {s : Shared W} {pc : ℕ → Pc W} (inv : Inv k owner s pc)
    (i : ℕ) where
  open inv use {placed, stored, alone, unique, covered, held, given}

  -- A position that a thread has won lies between the tail and the head.
  pub claim_bounds :
      (p : Pc W) (q : ℕ) → IsPlaced s p → claim p ≡ some q → (s.prod_tail ≤ q) × (q < s.prod_head)
  claim_bounds (returned n) q pl e = cc
  claim_bounds p q pl e = ground arith

  pub Move-unique :
      {p p' : Pc W} {s' : Shared W}
      → Move s p s' p'
      → Mover inv i p
      → (a b q : ℕ) → claim (update pc i p' a) ≡ some q
      → claim (update pc i p' b) ≡ some q
      → a ≡ b
  Move-unique rest f a b q ea eb = ground (arith, unique a b q)
  Move-unique mv f a b q ea eb =
      let c = inv.counted in
      ground (
        arith,
        guard mv,
        unique a b q,
        claim_bounds (pc a) q (placed a),
        claim_bounds (pc b) q (placed b),
      )

  pub Move-covered :
      {p p' : Pc W} {s' : Shared W}
      → Move s p s' p'
      → Mover inv i p
      → (q : ℕ) → s'.prod_tail ≤ q
      → q < s'.prod_head
      → (j : ℕ) × (claim (update pc i p' j) ≡ some q)
  Move-covered (won g) f q lo hi = elim (dec_lt q s.prod_head) [
    | yes old ↦ let (j, has) = covered q lo old in (j, ground arith)
    | no new ↦ let c = inv.counted in (i, ground arith)
  ]
  Move-covered publish f q lo hi =
      let (j, has) = covered q (omega arith) hi in (j, ground (arith, unique i j q))
  Move-covered mv f q lo hi = let (j, has) = covered q lo hi in (j, ground (arith, guard mv))
