-- ===== src/Slab/Sizes.antt =====
-- The sizes and classes of `SlabPoolAllocator` (src/common/include/allocator.hpp).
use sqkio.Common.{ℕ, ◌+◌, ◌-◌, ◌*◌, ◌/◌, ◌%◌, ◌^◌, ◌≤◌, ◌<◌, ◌≡◌, bit_and_mask, arith}
use sqkio.Slab.{roundup, size2ind}

-- Of a size of 64 bits `ROUNDUP` gives the least multiple of 8 that is at least the size, modulo 2^64:
-- from 2^64 - 7 on that is 0.
pub roundup_lem : (size : ℕ) → size < 2 ^ 64 → roundup size ≡ (size + 7) / 8 * 8 % 2 ^ 64
unfolding roundup
roundup_lem size h = omega (arith, bit_and_mask 3 ((2 ^ 64 - 1 - size + 1) % 2 ^ 64))

-- Up to 2^35 - 8 the class of a size is that of its rounding, which holds it.
pub roundup_small :
    (size : ℕ)
    → size ≤ 2 ^ 35 - 8
    → (size ≤ roundup size)
      × (roundup size < size + 8)
      × (roundup size ≤ 2 ^ 35 - 8)
      × (8 * size2ind (roundup size) ≡ roundup size)
unfolding size2ind
roundup_small size h = omega (arith, roundup_lem size)
