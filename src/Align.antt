-- ===== src/Align.antt =====
-- The rounding macros and functions at the top of src/common/include/ring.hpp.
pub mod Laws
mod Tests
use sqkio.Common.{ℕ, ◌+◌, ◌-◌, ◌/◌, ◌^◌, ◌%◌, Bool, bit_and, bit_or, ◌==◌}
use sqkio.Common.Word.{add32, sub32}

-- `x |= x >> s` for s = 1, 2, 4, 8, 16.
unfoldable pub combine32ms1b : ℕ → ℕ
combine32ms1b x0 =
    let x1 = bit_or x0 (x0 / 2 ^ 1) in
    let x2 = bit_or x1 (x1 / 2 ^ 2) in
    let x3 = bit_or x2 (x2 / 2 ^ 4) in let x4 = bit_or x3 (x3 / 2 ^ 8) in bit_or x4 (x4 / 2 ^ 16)

unfoldable pub align32pow2 : ℕ → ℕ
align32pow2 x = add32 (combine32ms1b (sub32 x 1)) 1

-- `POWEROF2` at `uint32_t`.
unfoldable pub power_of_2 : ℕ → Bool
power_of_2 x = bit_and (sub32 x 1) x == 0

-- `SQK_ALIGN_FLOOR` and `SQK_ALIGN_CEIL` at a 64-bit `val`: `~(align - 1)` is `2^64 - align`.
unfoldable pub align_floor : ℕ → ℕ → ℕ
align_floor val align = bit_and val (2 ^ 64 - align)

unfoldable pub align_ceil : ℕ → ℕ → ℕ
align_ceil val align = align_floor ((val + (align - 1)) % 2 ^ 64) align
