-- ===== src/Ring/Threads/Answers.antt =====
-- What a thread on a ring of src/common/include/ring.hpp finds out by a test, and what then holds
-- of the ring.
use sqkio.Common.{ℕ, ◌+◌, ◌-◌, ◌^◌, ◌<◌, ◌≡◌, ◌↔◌, refl, sym, arith}
use mathlib.Core.Path.{subst}
use sqkio.Ring.Threads.{Pc, returned, put_loaded, put_free, put_copy, get_loaded, Shared, advance}
use sqkio.Ring.Threads.View.{Move, advance-Move, full, room, won, lost, empty, found}
use sqkio.Ring.Threads.Invariant.{IsPlaced, Inv}
use sqkio.Ring.Threads.Reach.{Reach, Reach-Inv}

module _ {W : Type 0} {k owner : ℕ} {s : Shared W} {pc : ℕ → Pc W} (reach : Reach k owner s pc)
    (i : ℕ) where
  -- In every reachable state, where a thread that enqueues has read the head at position p and has
  -- not slept while it moved on by 2^32 less the capacity: its next access makes it return 0
  -- exactly if the head still is p and is 2^k - 1 ahead of the consumer's tail.
  pub enqueue_full_iff :
      (v : W) (h p : ℕ)
      → pc i ≡ put_loaded v h p
      → s.prod_head + s.ring.capacity < p + 2 ^ 32
      → ((advance (pc i) s).1 ≡ returned 0)
        ↔ ((p ≡ s.prod_head) × (s.prod_head ≡ s.cons_tail + (2 ^ k - 1)))
  enqueue_full_iff v h p at timely =
      subst (λ (t : Pc W). ((advance t s).1 ≡ returned 0) ↔ Full) (sym at)
        (decide (advance-Move (put_loaded v h p) s) (subst (IsPlaced s) at (inv.placed i)))
    where
      inv : Inv k owner s pc
      inv = Reach-Inv reach

      Full : Type 0
      Full = (p ≡ s.prod_head) × (s.prod_head ≡ s.cons_tail + (2 ^ k - 1))

      decide :
          {s' : Shared W} {y : Pc W}
          → Move s (put_loaded v h p) s' y
          → IsPlaced s (put_loaded v h p)
          → (y ≡ returned 0) ↔ Full
      decide (full g) place = let c = inv.counted in (λ e. (ground arith, ground arith), λ e. refl)
      decide (room g) place = let c = inv.counted in (λ e. cc, λ (e, e'). absurd (ground arith))

  -- In every reachable state, where a thread that enqueues has found room behind position p and has
  -- not slept while the head moved on by 2^32 less the capacity: its compare-exchange succeeds
  -- exactly if the head still is p, so never because the word came round.
  pub exchange_iff :
      (v : W) (h p : ℕ)
      → pc i ≡ put_free v h p
      → s.prod_head + s.ring.capacity < p + 2 ^ 32
      → ((advance (pc i) s).1 ≡ put_copy v h p) ↔ (p ≡ s.prod_head)
  exchange_iff v h p at timely =
      subst (λ (t : Pc W). ((advance t s).1 ≡ put_copy v h p) ↔ (p ≡ s.prod_head)) (sym at)
        (decide (advance-Move (put_free v h p) s) (subst (IsPlaced s) at (inv.placed i)))
    where
      inv : Inv k owner s pc
      inv = Reach-Inv reach

      decide :
          {s' : Shared W} {y : Pc W}
          → Move s (put_free v h p) s' y
          → IsPlaced s (put_free v h p)
          → (y ≡ put_copy v h p) ↔ (p ≡ s.prod_head)
      decide (won g) place = let c = inv.counted in (λ e. ground arith, λ e. refl)
      decide (lost g) place = let c = inv.counted in (λ e. cc, λ e. absurd (ground arith))

  -- In every reachable state, where a thread is about to load the producers' tail in a dequeue: it
  -- returns 0 exactly if every published entry has been taken.
  pub dequeue_empty_iff :
      (h : ℕ)
      → pc i ≡ get_loaded h
      → ((advance (pc i) s).1 ≡ returned 0) ↔ (s.prod_tail ≡ s.cons_head)
  dequeue_empty_iff h at =
      subst (λ (t : Pc W). ((advance t s).1 ≡ returned 0) ↔ (s.prod_tail ≡ s.cons_head)) (sym at)
        (decide (advance-Move (get_loaded h) s) (subst (IsPlaced s) at (inv.placed i)))
    where
      inv : Inv k owner s pc
      inv = Reach-Inv reach

      decide :
          {s' : Shared W} {y : Pc W}
          → Move s (get_loaded h) s' y
          → IsPlaced s (get_loaded h)
          → (y ≡ returned 0) ↔ (s.prod_tail ≡ s.cons_head)
      decide (empty g) place = let c = inv.counted in (λ e. ground arith, λ e. refl)
      decide (found g) place = let c = inv.counted in (λ e. cc, λ e. absurd (ground arith))
