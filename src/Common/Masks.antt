-- ===== src/Common/Masks.antt =====
-- `&` with the complement of a low mask, at a word size.
use Prim.Native.Nat.{ℕ, ◌+◌, ◌-◌, ◌*◌, ◌/◌, ◌^◌, ◌≤◌, ◌<◌, bit_and}
use mathlib.Core.Path.{◌≡◌, sym, ap, ◌∙◌}
use native.Mathlib.Nat.{one-le-pow, mod-eq_of_lt, div-lt_iff_lt-mul}
use native.Mathlib.Omega.{arith}
use sqkio.Common.Bits.{bit_and_high_mask}
use sqkio.Common.Word.{pow-add}

-- `x & ~(2^c - 1)` at `w` bits rounds down to a multiple of 2^c.
pub bit_and_round_down :
    (w c x : ℕ) → c ≤ w → x < 2 ^ w → bit_and x (2 ^ w - 2 ^ c) ≡ x / 2 ^ c * 2 ^ c
bit_and_round_down w c x h lt =
    ap (bit_and x) mask
    ∙ bit_and_high_mask (w - c) c x
    ∙ ap (λ (t : ℕ). t * 2 ^ c) (mod-eq_of_lt fits)
  where
    sum : w - c + c ≡ w
    sum = omega arith

    whole : 2 ^ (w - c) * 2 ^ c ≡ 2 ^ w
    whole = sym (pow-add (w - c) c) ∙ ap (λ (t : ℕ). 2 ^ t) sum

    positive : 2 ^ (w - c) ≡ 2 ^ (w - c) - 1 + 1
    positive = omega (arith, one-le-pow (w - c) 2)

    mask : 2 ^ w - 2 ^ c ≡ (2 ^ (w - c) - 1) * 2 ^ c
    mask = omega (arith, whole, ap (λ (t : ℕ). t * 2 ^ c) positive)

    fits : x / 2 ^ c < 2 ^ (w - c)
    fits = (div-lt_iff_lt-mul {k = 2 ^ c} (one-le-pow c 2 (omega arith))).1 (rw whole lt)
