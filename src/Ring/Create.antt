-- ===== src/Ring/Create.antt =====
-- `Ring::of` and `Ring::free` of src/common/include/ring.hpp. The allocator is a parameter: it maps a
-- number of bytes to the words behind the header, or fails. `header` is `sizeof(Ring)` and `line`
-- the cache line size, which the build finds out.
pub mod Accepts
pub mod Sound
pub mod Lost
use sqkio.Common.{
  ℕ, ◌+◌, ◌*◌, ◌%◌, ◌^◌, Bool, true, false, ◌||◌, not, ltb, if◌then◌else◌, Option, none, some,
}
use sqkio.Common.Word.{add32}
use sqkio.Align.{align32pow2, power_of_2, align_ceil}
use sqkio.Ring.{Ring, init}
use sqkio.Ring.Copy.{Mem}

-- `SQK_RING_SZ_MASK`
abbrev pub sz_mask : ℕ
sz_mask = 0x7fffffff

-- The ring, the `system_error` of EINVAL, or the `bad_alloc` of the allocator.
pub data Created {ℓ} (W : Type ℓ) : Type ℓ where
  made : Ring W → Created W
  einval : Created W
  bad_alloc : Created W

-- The bytes that `of` asks for: `count` and `esize` are `uint32_t`, and so is their product.
unfoldable pub ring_bytes : ℕ → ℕ → ℕ → ℕ → ℕ
ring_bytes header line esize count = align_ceil (header + count * esize % 2 ^ 32) line

unfoldable pub of {ℓ} : {W : Type ℓ} (header line esize : ℕ) → (ℕ → Option (Mem W)) → ℕ → Created W
of header line esize allocate cnt =
    let count = align32pow2 (add32 cnt 1) in
    let sz = ring_bytes header line esize count in
    if not (power_of_2 count) || ltb sz_mask count then einval else elim (allocate sz) [
      | none ↦ bad_alloc
      | some buf ↦ made (record (init cnt buf) { memzone_size = sz })
    ]

-- The number of bytes that `free` hands back.
unfoldable pub freed_bytes {ℓ} : {W : Type ℓ} → Ring W → ℕ
freed_bytes r = r.memzone_size
