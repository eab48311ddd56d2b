-- ===== src/Common/Bits.antt =====
-- Laws of `&` and `|` at variables: one binary digit at a time, and from there masks of low bits.
use Prim.Native.Nat.{
  ℕ, zero, suc, ◌+◌, ◌-◌, ◌*◌, ◌/◌, ◌%◌, ◌^◌, ◌≤◌, ◌<◌, min, max, bit_and, bit_or, digits, bitwise,
  bit_and-bitwise, bit_or-bitwise,
}
use mathlib.Core.Path.{◌≡◌, refl, sym, ap, ◌∙◌, ◌≡⟨◌⟩◌, ◌∎}
use native.Mathlib.Nat.{
  pow-suc, one-le-pow, add-mul-mod_self_left, mod-eq_of_lt, mod-lt, div-add-mod, pow-succ',
  div-div-eq-div-mul,
}
use native.Mathlib.Omega.{arith}

-- What `bitwise` computes does not depend on how much more fuel than its first number it has.
module _ (rest : ℕ → ℕ) (op : ℕ → ℕ → ℕ) where
  enough_fuel : (f g x y : ℕ) → x ≤ f → x ≤ g → digits rest op f x y ≡ digits rest op g x y
  enough_fuel zero zero x y _ _ = refl
  enough_fuel zero (suc g) zero y _ _ = refl
  enough_fuel zero (suc g) (suc x) y h _ = absurd (omega arith)
  enough_fuel (suc f) zero zero y _ _ = refl
  enough_fuel (suc f) zero (suc x) y _ h = absurd (omega arith)
  enough_fuel (suc f) (suc g) zero y _ _ = refl
  enough_fuel (suc f) (suc g) (suc x) y p q =
      ap (λ (t : ℕ). t * 2 + op (suc x % 2) (y % 2))
        (enough_fuel f g (suc x / 2) (y / 2) (omega arith) (omega arith))

  bitwise_digit :
      (x y : ℕ)
      → bitwise rest op (suc x) y ≡ bitwise rest op (suc x / 2) (y / 2) * 2 + op (suc x % 2) (y % 2)
  bitwise_digit x y =
      ap (λ (t : ℕ). t * 2 + op (suc x % 2) (y % 2))
        (enough_fuel x (suc x / 2) (suc x / 2) (y / 2) (omega arith) (omega arith))

pub bit_and_digit : (x y : ℕ) → bit_and x y ≡ bit_and (x / 2) (y / 2) * 2 + min (x % 2) (y % 2)
bit_and_digit zero y = simp bit_and-bitwise (omega arith)
bit_and_digit (suc x) y = simp bit_and-bitwise (bitwise_digit (λ _. 0) min x y)

pub bit_or_digit : (x y : ℕ) → bit_or x y ≡ bit_or (x / 2) (y / 2) * 2 + max (x % 2) (y % 2)
bit_or_digit zero y = simp bit_or-bitwise (omega arith)
bit_or_digit (suc x) y = simp bit_or-bitwise (bitwise_digit (λ z. z) max x y)

bit_and-zero_below : (n x : ℕ) → x ≤ n → bit_and x 0 ≡ 0
bit_and-zero_below n zero h = simp bit_and-bitwise
bit_and-zero_below zero (suc x) h = absurd (omega arith)
bit_and-zero_below (suc n) (suc x) h =
    omega (arith, bit_and_digit (suc x) 0, bit_and-zero_below n (suc x / 2) (omega arith))

pub bit_and-zero : (x : ℕ) → bit_and x 0 ≡ 0
bit_and-zero x = bit_and-zero_below x x (omega arith)

-- The lowest digit of a remainder by an even number.
pub mod-double : (x p : ℕ) → 0 < p → x % (p * 2) ≡ x / 2 % p * 2 + x % 2
mod-double x p h =
    x % (p * 2)
    ≡⟨ ap (λ (t : ℕ). t % (p * 2)) split ⟩ (x / 2 % p * 2 + x % 2 + p * 2 * (x / 2 / p)) % (p * 2)
    ≡⟨ add-mul-mod_self_left (x / 2 % p * 2 + x % 2) (p * 2) (x / 2 / p) ⟩
      (x / 2 % p * 2 + x % 2) % (p * 2)
    ≡⟨ mod-eq_of_lt (omega (arith, mod-lt (x / 2) h)) ⟩ x / 2 % p * 2 + x % 2 ∎
  where
    split : x ≡ x / 2 % p * 2 + x % 2 + p * 2 * (x / 2 / p)
    split = omega (arith, div-add-mod (x / 2) p)

-- `x & (2^k - 1)` is the remainder by `2^k`.
pub bit_and_mask : (k x : ℕ) → bit_and x (2 ^ k - 1) ≡ x % 2 ^ k
bit_and_mask zero x = omega (arith, bit_and-zero x)
bit_and_mask (suc k) x = omega (
  arith,
  bit_and_digit x (2 ^ suc k - 1),
  half_mask,
  odd_mask,
  bit_and_mask k (x / 2),
  ap (λ (t : ℕ). x % t) (pow-suc 2 k),
  mod-double x (2 ^ k) (one-le-pow k 2 (omega arith)),
)
  where
    half_mask : bit_and (x / 2) ((2 ^ suc k - 1) / 2) ≡ bit_and (x / 2) (2 ^ k - 1)
    half_mask = ap (bit_and (x / 2)) (omega (arith, pow-suc 2 k, one-le-pow k 2))

    odd_mask : (2 ^ suc k - 1) % 2 ≡ 1
    odd_mask = omega (arith, pow-suc 2 k, one-le-pow k 2)

-- `x & ~(2^k - 1)` for a mask of `m` ones above `k` zeros.
pub bit_and_high_mask : (m k x : ℕ) → bit_and x ((2 ^ m - 1) * 2 ^ k) ≡ x / 2 ^ k % 2 ^ m * 2 ^ k
bit_and_high_mask m zero x = omega (arith, same, bit_and_mask m x, quotient)
  where
    same : bit_and x ((2 ^ m - 1) * 1) ≡ bit_and x (2 ^ m - 1)
    same = ap (bit_and x) (omega arith)

    quotient : x / 1 % 2 ^ m ≡ x % 2 ^ m
    quotient = ap (λ (t : ℕ). t % 2 ^ m) (omega arith)
bit_and_high_mask m (suc k) x = omega (
  arith,
  bit_and_digit x mask,
  half_mask,
  doubled,
  bit_and_high_mask m k (x / 2),
  quotient,
  ap (λ (t : ℕ). x / 2 / 2 ^ k % 2 ^ m * t) (pow-suc 2 k),
)
  where
    mask : ℕ
    mask = (2 ^ m - 1) * 2 ^ suc k

    doubled : mask ≡ (2 ^ m - 1) * 2 ^ k * 2
    doubled = omega (arith, ap (λ (t : ℕ). (2 ^ m - 1) * t) (pow-suc 2 k))

    half_mask : bit_and (x / 2) (mask / 2) ≡ bit_and (x / 2) ((2 ^ m - 1) * 2 ^ k)
    half_mask = ap (bit_and (x / 2)) (omega (arith, doubled))

    quotient : x / 2 ^ suc k % 2 ^ m * 2 ^ suc k ≡ x / 2 / 2 ^ k % 2 ^ m * 2 ^ suc k
    quotient =
        ap (λ (t : ℕ). t % 2 ^ m * 2 ^ suc k)
          (ap (λ (t : ℕ). x / t) (pow-succ' 2 k) ∙ sym (div-div-eq-div-mul x 2 (2 ^ k)))
