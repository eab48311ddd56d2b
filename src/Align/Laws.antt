-- ===== src/Align/Laws.antt =====
-- The rounding functions of src/common/include/ring.hpp, for every argument in their range.
use native.Mathlib.Nat.{
  pow-suc, one-le-pow, pow-le-pow_right, mul-mod_left, mod-lt, div-add-mod', div-le_self,
  div-eq_of_lt, mod-eq_of_lt,
}
use native.Mathlib.Decide.{dec_le}
use sqkio.Common.{
  ℕ, zero, suc, ◌+◌, ◌-◌, ◌*◌, ◌/◌, ◌%◌, ◌^◌, ◌≤◌, ◌<◌, ◌≡◌, ◌⊎◌, ◌∙◌, refl, ap, bit_and,
  bit_and_high_mask, bit_and_round_down, ==_iff, bit_or, arith, true,
}
use sqkio.Common.Word.{add32, sub32}
use sqkio.Common.Digits.{digit, digit-bit_or, digit-le-one, digit-shift, digit-top}
use sqkio.Common.Digits.{bit_or-lt, eq_of_ones, top_digit}
use sqkio.Align.{combine32ms1b, align32pow2, power_of_2, align_floor, align_ceil}

-- The `j` highest of the `k` digits of `x` are ones.
record TopOnes (j k x : ℕ) : Type 0 where
  fits : x < 2 ^ k
  ones : (i : ℕ) → i < k → k ≤ i + j → digit x i ≡ 1

-- `x | x >> s` makes a run of at least `s` ones longer by `s`.
smear : (s : ℕ) {j k x : ℕ} → s ≤ j → TopOnes j k x → TopOnes (j + s) k (bit_or x (x / 2 ^ s))
smear s {j} {k} {x} le t = record {
  fits = bit_or-lt k x (x / 2 ^ s) t.fits (omega (arith, t.fits, div-le_self x (2 ^ s)));
  ones = λ i lt near. elim (dec_le k (i + j)) [
    | yes old ↦
        omega (arith, digit-bit_or i x (x / 2 ^ s), digit-le-one i (x / 2 ^ s), t.ones i lt old)
    | no new ↦ omega (
      arith,
      digit-bit_or i x (x / 2 ^ s),
      digit-le-one i x,
      digit-shift s i x,
      t.ones (s + i) (omega arith) (omega arith),
    )
  ];
}

-- All digits below the highest become ones.
combine32ms1b_lem : (j x : ℕ) → j < 32 → 2 ^ j ≤ x → x < 2 ^ suc j → combine32ms1b x + 1 ≡ 2 ^ suc j
unfolding combine32ms1b
combine32ms1b_lem j x few lo hi =
    let run = smear 16 le_16 (smear 8 le_8 (smear 4 le_4 (smear 2 le_2 (smear 1 le_1 first)))) in
    eq_of_ones (suc j) _ run.fits (λ i lt. run.ones i lt (omega arith))
  where
    first : TopOnes 1 (suc j) x
    first = record {
      fits = hi;
      ones = λ i lt near. let e : i ≡ j = omega arith in rw e (digit-top j x lo hi);
    }

    le_1 : 1 ≤ 1
    le_1 = omega arith

    le_2 : 2 ≤ 2
    le_2 = omega arith

    le_4 : 4 ≤ 4
    le_4 = omega arith

    le_8 : 8 ≤ 8
    le_8 = omega arith

    le_16 : 16 ≤ 16
    le_16 = omega arith

combine32ms1b-zero : combine32ms1b 0 ≡ 0
unfolding combine32ms1b
combine32ms1b-zero = refl

-- For 0 < x ≤ 2^31, `align32pow2` gives a power of two, at most 2^31, that is at least x and less
-- than 2 * x.
pub align32pow2_lem :
    (x : ℕ)
    → 0 < x
    → x ≤ 2 ^ 31
    → (k : ℕ) × (k ≤ 31) × (align32pow2 x ≡ 2 ^ k) × (x ≤ 2 ^ k) × (2 ^ k < 2 * x)
unfolding align32pow2
align32pow2_lem zero p h = absurd (omega arith)
align32pow2_lem (suc zero) p h =
    (0, omega arith, omega (arith, combine32ms1b-zero), omega arith, omega arith)
align32pow2_lem (suc (suc x)) p h =
    let (j, few, lo, hi) = top_digit 31 (suc x) (omega arith) (omega arith) in
    (suc j, few, rounded j few lo hi, omega arith, omega (arith, pow-suc 2 j))
  where
    before : sub32 (suc (suc x)) 1 ≡ suc x
    before = omega arith

    rounded :
        (j : ℕ)
        → j < 31
        → 2 ^ j ≤ suc x
        → suc x < 2 ^ suc j
        → add32 (combine32ms1b (sub32 (suc (suc x)) 1)) 1 ≡ 2 ^ suc j
    rounded j few lo hi = rw before (
        omega (
          arith,
          combine32ms1b_lem j (suc x) (omega arith) lo hi,
          pow-le-pow_right {n = 2} (omega arith) {i = suc j} {j = 31} few,
        ))

-- For x = 0, and for 2^31 < x < 2^32, `align32pow2` gives 0.
pub align32pow2_wraps : (x : ℕ) → x < 2 ^ 32 → (x ≡ 0) ⊎ (2 ^ 31 < x) → align32pow2 x ≡ 0
unfolding align32pow2
align32pow2_wraps x h out =
    omega (arith, combine32ms1b_lem 31 (sub32 x 1) (omega arith) (omega arith) (omega arith))

-- `POWEROF2` accepts every power of two that a `uint32_t` holds, and 0.
pub power_of_2_lem : (k : ℕ) → k < 32 → power_of_2 (2 ^ k) ≡ true
unfolding power_of_2
power_of_2_lem k h = (==_iff _ 0).1 (
    omega (
      arith,
      bit_and_high_mask 1 k (sub32 (2 ^ k) 1),
      ap (bit_and (sub32 (2 ^ k) 1)) one_bit,
      below,
    ))
  where
    one_bit : (2 ^ 1 - 1) * 2 ^ k ≡ 2 ^ k
    one_bit = omega arith

    none_left : sub32 (2 ^ k) 1 / 2 ^ k ≡ 0
    none_left = div-eq_of_lt (
        omega (
          arith,
          pow-le-pow_right {n = 2} (omega arith) {i = k} {j = 31} (omega arith),
          one-le-pow k 2,
        ))

    below : sub32 (2 ^ k) 1 / 2 ^ k % 2 ^ 1 * 2 ^ k ≡ 0
    below = omega (arith, ap (λ (t : ℕ). t % 2 * 2 ^ k) none_left)

pub power_of_2-zero : power_of_2 0 ≡ true
unfolding power_of_2
power_of_2-zero = refl

-- Rounding to an alignment 2^c is to a multiple of it, less than 2^c away.
pub align_floor_lem : (c x : ℕ) → c ≤ 64 → x < 2 ^ 64 → align_floor x (2 ^ c) ≡ x / 2 ^ c * 2 ^ c
unfolding align_floor
align_floor_lem c x h lt = bit_and_round_down 64 c x h lt

-- For c ≤ 63 and x + 2^c ≤ 2^64, `SQK_ALIGN` at the alignment 2^c gives a multiple of 2^c that is
-- at least x and less than x + 2^c.
pub align_ceil_lem :
    (c x : ℕ)
    → c ≤ 63
    → x + 2 ^ c ≤ 2 ^ 64
    → (align_ceil x (2 ^ c) % 2 ^ c ≡ 0)
      × (x ≤ align_ceil x (2 ^ c))
      × (align_ceil x (2 ^ c) < x + 2 ^ c)
unfolding align_ceil
align_ceil_lem c x h fits = rw rounded (
  mul-mod_left q (2 ^ c),
  omega (arith, parts, mod-lt (x + (2 ^ c - 1)) pos),
  omega (arith, parts, pos),
)
  where
    pos : 0 < 2 ^ c
    pos = one-le-pow c 2 (omega arith)

    q : ℕ
    q = (x + (2 ^ c - 1)) / 2 ^ c

    parts : q * 2 ^ c + (x + (2 ^ c - 1)) % 2 ^ c ≡ x + (2 ^ c - 1)
    parts = div-add-mod' (x + (2 ^ c - 1)) (2 ^ c)

    rounded : align_floor ((x + (2 ^ c - 1)) % 2 ^ 64) (2 ^ c) ≡ q * 2 ^ c
    rounded =
        ap (λ (t : ℕ). align_floor t (2 ^ c)) (mod-eq_of_lt (omega (arith, pos)))
        ∙ align_floor_lem c (x + (2 ^ c - 1)) (omega arith) (omega (arith, pos))
