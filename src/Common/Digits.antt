-- ===== src/Common/Digits.antt =====
-- Binary digits by position, and numbers that are `2^k - 1`.
use Prim.Native.Nat.{ℕ, zero, suc, ◌+◌, ◌/◌, ◌%◌, ◌^◌, ◌≤◌, ◌<◌, max, bit_or}
use mathlib.Core.Path.{◌≡◌, sym, ap, ◌∙◌}
use native.Mathlib.Nat.{pow-suc, pow-succ', div-div-eq-div-mul}
use native.Mathlib.Decide.{dec_lt}
use native.Mathlib.Omega.{arith}
use sqkio.Common.Bits.{bit_or_digit}

abbrev pub digit : ℕ → ℕ → ℕ
digit x zero = x % 2
digit x (suc i) = digit (x / 2) i

pub digit-bit_or : (i x y : ℕ) → digit (bit_or x y) i ≡ max (digit x i) (digit y i)
digit-bit_or zero x y = omega (arith, bit_or_digit x y)
digit-bit_or (suc i) x y = ap (λ (t : ℕ). digit t i) half ∙ digit-bit_or i (x / 2) (y / 2)
  where
    half : bit_or x y / 2 ≡ bit_or (x / 2) (y / 2)
    half = omega (arith, bit_or_digit x y)

pub digit-le-one : (i x : ℕ) → digit x i ≤ 1
digit-le-one zero x = omega arith
digit-le-one (suc i) x = digit-le-one i (x / 2)

pub bit_or-lt : (k x y : ℕ) → x < 2 ^ k → y < 2 ^ k → bit_or x y < 2 ^ k
bit_or-lt zero zero zero p q = omega (arith, bit_or_digit 0 0)
bit_or-lt zero zero (suc y) p q = absurd (omega arith)
bit_or-lt zero (suc x) y p q = absurd (omega arith)
bit_or-lt (suc k) x y p q = omega (
  arith,
  bit_or_digit x y,
  pow-suc 2 k,
  bit_or-lt k (x / 2) (y / 2) (omega (arith, pow-suc 2 k)) (omega (arith, pow-suc 2 k)),
)

-- A number of `k` digits that are all ones.
pub eq_of_ones : (k x : ℕ) → x < 2 ^ k → ((i : ℕ) → i < k → digit x i ≡ 1) → x + 1 ≡ 2 ^ k
eq_of_ones zero x h ones = omega arith
eq_of_ones (suc k) x h ones = omega (
  arith,
  pow-suc 2 k,
  ones 0 (omega arith),
  eq_of_ones k (x / 2) (omega (arith, pow-suc 2 k)) (λ i lt. ones (suc i) (omega arith)),
)

-- The number of binary digits of a positive number.
pub top_digit : (k x : ℕ) → 0 < x → x < 2 ^ k → (j : ℕ) × (j < k) × (2 ^ j ≤ x) × (x < 2 ^ suc j)
top_digit zero x p h = absurd (omega arith)
top_digit (suc k) x p h = elim (dec_lt x (2 ^ k)) [
  | yes low ↦ let (j, lt, above, below) = top_digit k x p low in (j, omega arith, above, below)
  | no high ↦ (k, omega arith, omega arith, h)
]

pub digit-top : (j x : ℕ) → 2 ^ j ≤ x → x < 2 ^ suc j → digit x j ≡ 1
digit-top zero x lo hi = omega arith
digit-top (suc j) x lo hi =
    digit-top j (x / 2) (omega (arith, pow-suc 2 j)) (omega (arith, pow-suc 2 j, pow-suc 2 (suc j)))

-- A shift to the right moves the digits down.
pub digit-shift : (s i x : ℕ) → digit (x / 2 ^ s) i ≡ digit x (s + i)
digit-shift zero i x = ap (λ (t : ℕ). digit t i) one ∙ ap (digit x) here
  where
    one : x / 1 ≡ x
    one = omega arith

    here : i ≡ 0 + i
    here = omega arith
digit-shift (suc s) i x =
    ap (λ (t : ℕ). digit t i) halved ∙ digit-shift s i (x / 2) ∙ ap (digit x) after
  where
    halved : x / 2 ^ suc s ≡ x / 2 / 2 ^ s
    halved = ap (λ (t : ℕ). x / t) (pow-succ' 2 s) ∙ sym (div-div-eq-div-mul x 2 (2 ^ s))

    after : suc (s + i) ≡ suc s + i
    after = omega arith
