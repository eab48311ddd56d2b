-- ===== src/Align/Tests.antt =====
-- Runs of the rounding functions of src/common/include/ring.hpp, and their theorems at numbers.
use sqkio.Common.{◌≡◌, refl, true, false}
use sqkio.Align.{align32pow2, combine32ms1b, power_of_2, align_floor, align_ceil}

align32pow2_runs : (align32pow2 11 ≡ 16) × (align32pow2 1024 ≡ 1024) × (align32pow2 1025 ≡ 2048)
unfolding align32pow2 combine32ms1b
align32pow2_runs = (refl, refl, refl)

power_of_2_runs : (power_of_2 16 ≡ true) × (power_of_2 10 ≡ false)
unfolding power_of_2
power_of_2_runs = (refl, refl)

align_ceil_runs : align_ceil 4000 64 ≡ 4032
unfolding align_ceil align_floor
align_ceil_runs = refl
