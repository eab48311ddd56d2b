-- ===== src/Ring/Threads/Slots.antt =====
-- The slots of a ring of src/common/include/ring.hpp that lie between the consumer's tail and the
-- producers' head.
use native.Mathlib.Decide.{dec_lt}
use sqkio.Common.{ℕ, ◌+◌, ◌-◌, ◌%◌, ◌^◌, ◌≤◌, ◌<◌, ◌≡◌, ◌≢◌, sym, ap, ◌∙◌, bit_and, arith}
use sqkio.Common.Word.{add32}
use sqkio.Ring.Calls.Slots.{slot-ne}
use sqkio.Ring.Threads.{Shared}
use sqkio.Ring.Threads.Invariant.{slot}

-- What tells the slots of the entries in a ring apart.
pub record HasSlots {W : Type 0} (k : ℕ) (s : Shared W) : Type 0 where
  pub width : k ≤ 31
  pub mask_ok : s.ring.mask ≡ 2 ^ k - 1
  pub capacity_ok : s.ring.capacity ≡ 2 ^ k - 1
  pub fits : s.prod_head ≤ s.cons_tail + s.ring.capacity

module _ {W : Type 0} {k : ℕ} {s : Shared W} (c : HasSlots k s) where
  slot-lt-ne : (q p : ℕ) → s.cons_tail ≤ q → q < p → p < s.prod_head → slot s p ≢ slot s q
  slot-lt-ne q p lo lt hi same =
      slot-ne k (q % 2 ^ 32) (p - q) (omega (arith, c.width)) (omega arith)
        (omega (arith, c.fits, c.capacity_ok))
        (ap (λ (t : ℕ). bit_and t (2 ^ k - 1)) ahead
          ∙ ap (bit_and (p % 2 ^ 32)) (sym c.mask_ok)
          ∙ same
          ∙ ap (bit_and (q % 2 ^ 32)) c.mask_ok)
    where
      ahead : add32 (q % 2 ^ 32) (p - q) ≡ p % 2 ^ 32
      ahead = omega arith

  -- Two positions between the consumer's tail and the producers' head that have one slot are one.
  pub same_slot :
      (q p : ℕ)
      → s.cons_tail ≤ q
      → q < s.prod_head
      → s.cons_tail ≤ p
      → p < s.prod_head
      → slot s q ≡ slot s p
      → q ≡ p
  same_slot q p lo hi lo' hi' same = elim (dec_lt q p) [
    | yes lt ↦ absurd (slot-lt-ne q p lo lt hi' (sym same))
    | no ge ↦ elim (dec_lt p q) [
      | yes gt ↦ absurd (slot-lt-ne p q lo' gt hi same)
      | no le ↦ omega arith
    ]
  ]
