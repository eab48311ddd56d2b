-- ===== src/Common/Word.antt =====
-- Unsigned arithmetic of 32 and 64 bits, and powers of two.
use Prim.Native.Nat.{ℕ, zero, suc, ◌+◌, ◌-◌, ◌*◌, ◌%◌, ◌^◌}
use mathlib.Core.Path.{◌≡◌, ap, ◌∙◌}
use native.Mathlib.Nat.{pow-suc}
use native.Mathlib.Omega.{arith}

abbrev pub add32 : ℕ → ℕ → ℕ
add32 a b = (a + b) % 2 ^ 32

abbrev pub sub32 : ℕ → ℕ → ℕ
sub32 a b = (a + 2 ^ 32 - b) % 2 ^ 32

pub pow-add : (a b : ℕ) → 2 ^ (a + b) ≡ 2 ^ a * 2 ^ b
pow-add zero b = ap (λ (t : ℕ). 2 ^ t) here ∙ unit
  where
    here : 0 + b ≡ b
    here = omega arith

    unit : 2 ^ b ≡ 1 * 2 ^ b
    unit = omega arith
pow-add (suc a) b =
    ap (λ (t : ℕ). 2 ^ t) after
    ∙ omega (
      arith,
      pow-suc 2 (a + b),
      pow-suc 2 a,
      ap (λ (t : ℕ). t * 2 ^ b) (pow-suc 2 a),
      pow-add a b,
    )
  where
    after : suc a + b ≡ suc (a + b)
    after = omega arith
