-- ===== src/Ring/Calls/Slots.antt =====
-- The `& mask` of src/common/include/ring.hpp: positions, slots and words.
use native.Mathlib.Nat.{
  mod-eq_of_lt, mod-lt, mod-add-mod, mod-eq-sub-mod, mod-mod_of_dvd, dvd-mul_right, one-le-pow,
  mul-le-mul_right,
}
use Prim.Native.Nat.{◌∣◌}
use native.Mathlib.Decide.{dec_lt}
use sqkio.Common.{
  ℕ, suc, ◌+◌, ◌-◌, ◌*◌, ◌%◌, ◌^◌, ◌≤◌, ◌<◌, ◌≡◌, ◌≢◌, sym, ap, ◌∙◌, bit_and, bit_and_mask, arith,
}
use sqkio.Ring.Copy.Effect.{ahead}
use sqkio.Common.Word.{add32, pow-add}

-- Fewer than `s` steps round `s` places do not come back to the start.
step-ne : (s pos n : ℕ) → 0 < n → n < s → (pos + n) % s ≢ pos % s
step-ne s pos n pos_n lt = elim (dec_lt (pos % s + n) s) [
  | yes h ↦ omega (arith, mod-add-mod pos s n, mod-eq_of_lt h)
  | no h ↦ omega (
    arith,
    mod-add-mod pos s n,
    mod-eq-sub-mod {n = pos % s + n} {m = s} (omega arith),
    mod-eq_of_lt {n = pos % s + n - s} {m = s} (omega (arith, mod-lt pos {m = s} (omega arith))),
    mod-lt pos {m = s} (omega arith),
  )
]

-- A counter that wraps at 2^32 keeps its slot, since 2^k divides 2^32.
pub slot-add32 : (k pos n : ℕ) → k ≤ 32 → bit_and (add32 pos n) (2 ^ k - 1) ≡ (pos + n) % 2 ^ k
slot-add32 k pos n h = bit_and_mask k (add32 pos n) ∙ mod-mod_of_dvd (2 ^ k) (pos + n) divides
  where
    whole : 2 ^ k * 2 ^ (32 - k) ≡ 2 ^ 32
    whole = sym (pow-add k (32 - k)) ∙ ap (λ (t : ℕ). 2 ^ t) sum
      where
        sum : k + (32 - k) ≡ 32
        sum = omega arith

    divides : 2 ^ k ∣ 2 ^ 32
    divides = rw whole at (dvd-mul_right (2 ^ k) (2 ^ (32 - k)))

pub slot-lt : (k pos : ℕ) → bit_and pos (2 ^ k - 1) < 2 ^ k
slot-lt k pos = omega (arith, bit_and_mask k pos, mod-lt pos (one-le-pow k 2 (omega arith)))

pub slot-ne :
    (k pos n : ℕ)
    → k ≤ 32
    → 0 < n
    → n < 2 ^ k
    → bit_and (add32 pos n) (2 ^ k - 1) ≢ bit_and pos (2 ^ k - 1)
slot-ne k pos n h p lt =
    omega (arith, slot-add32 k pos n h, bit_and_mask k pos, step-ne (2 ^ k) pos n p lt)

-- A word of a slot is none of another's.
pub ahead-far :
    (size k s t j : ℕ)
    → s < size
    → t < size
    → s ≢ t
    → j < k
    → k ≤ ahead (size * k) (t * k) (s * k + j)
ahead-far size k s t j hs ht ne lt = elim (dec_lt s t) [
  | yes low ↦ ground (
    arith,
    mul-le-mul_right {m = suc s} {n = t} k low,
    mul-le-mul_right {m = suc t} {n = size} k ht,
  )
  | no high ↦ ground (arith, mul-le-mul_right {m = suc t} {n = s} k (omega arith))
]

-- A word of a slot, counted from the slot's first.
pub ahead-near : (size k t j : ℕ) → t < size → j < k → ahead (size * k) (t * k) (t * k + j) ≡ j
ahead-near size k t j ht lt = ground arith

pub slot_word-lt : (size k t j : ℕ) → t < size → j < k → t * k + j < size * k
slot_word-lt size k t j ht lt = omega (arith, mul-le-mul_right {m = suc t} {n = size} k ht)
