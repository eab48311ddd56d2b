-- ===== src/Slab.antt =====
-- `SlabPoolAllocator` of src/common/include/allocator.hpp: size classes, the header before each block,
-- and the stacks of free blocks of one thread. The global `operator new` and `operator delete` are
-- a parameter. An address is a number of 64 bits.
pub mod Sizes
pub mod Sound
pub mod Pop
pub mod Fresh
pub mod Alloc
pub mod Dealloc
pub mod Reach
pub mod Truncated
pub mod RoundTrip
pub mod Operators
mod Tests
use sqkio.Common.{
  ℕ, ◌+◌, ◌-◌, ◌/◌, ◌%◌, ◌^◌, min, bit_and, Bool, true, false, ◌&&◌, not, ltb, ◌==◌, if◌then◌else◌,
  List, [], ◌∷◌, Option, none, some,
}
use sqkio.Common.Update.{update}
use sqkio.Outcome.{Outcome, ok, abort}

-- `::operator new`, which fails by an exception, and `::operator delete`, over their own state.
pub record GlobalNew {ℓ} (H : Type ℓ) : Type ℓ where
  pub new : H → ℕ → Option (ℕ × H)
  pub delete : H → ℕ → H

-- `SlabHeader`
pub record SlabHeader : Type 0 where
  pub ind : ℕ
  pub magic : ℕ

-- `tcache` is `tcache_` of the thread; `header` is the memory read as a `SlabHeader` at each address.
pub record Slab {ℓ} (H : Type ℓ) : Type ℓ where
  pub heap : H
  pub header : ℕ → SlabHeader
  pub tcache : ℕ → List ℕ

-- `SLAB_MAGIC`, `LOOKUP_MAX_CLASS`, `SLAB_OVERHEAD`
abbrev pub slab_magic : ℕ
slab_magic = 0xaa55

abbrev pub lookup_max_class : ℕ
lookup_max_class = 512

abbrev pub slab_overhead : ℕ
slab_overhead = 8

-- `ROUNDUP(size, BASE_SIZE)` with BASE_SIZE = 8: `~size + 1` is the negation modulo 2^64.
unfoldable pub roundup : ℕ → ℕ
roundup size = (bit_and ((2 ^ 64 - 1 - size + 1) % 2 ^ 64) (8 - 1) + size) % 2 ^ 64

-- The result type `uint32_t` cuts the shifted size.
unfoldable pub size2ind : ℕ → ℕ
size2ind size = size / 2 ^ 3 % 2 ^ 32

abbrev pub ptr2header : ℕ → ℕ
ptr2header ptr = (ptr + 2 ^ 64 - slab_overhead) % 2 ^ 64

-- `debug` tells that NDEBUG is not defined.
module _ {ℓ} {H : Type ℓ} (gl : GlobalNew H) (debug : Bool) where
  -- A new block: what its header held before stays in `magic` in a build with NDEBUG. The function is
  -- `noexcept`, so an exception of `operator new` ends the program.
  unfoldable pub slow_path : ℕ → ℕ → Slab H → Outcome (ℕ × Slab H)
  slow_path rsize ind s = elim (gl.new s.heap ((rsize + slab_overhead) % 2 ^ 64)) [
    | none ↦ abort
    | some (base, heap) ↦
        let ptr = base + slab_overhead in
        let old = s.header (ptr2header ptr) in
        let header : SlabHeader = record {
          ind = min ind lookup_max_class % 2 ^ 10;
          magic = if debug then slab_magic else old.magic;
        } in
        ok (ptr, record s { heap = heap; header = update s.header (ptr2header ptr) header })
  ]

  unfoldable pub slab_alloc : ℕ → Slab H → Outcome (ℕ × Slab H)
  slab_alloc size s =
      let rsize = roundup size in
      let ind = size2ind rsize in
      elim (ltb ind lookup_max_class) [
        | true ↦ elim (s.tcache ind) [
          | [] ↦ slow_path rsize ind s
          | ptr ∷ rest ↦ ok (ptr, record s { tcache = update s.tcache ind rest })
        ]
        | false ↦ slow_path rsize ind s
      ]

  unfoldable pub slab_dealloc : ℕ → Slab H → Outcome (Slab H)
  slab_dealloc ptr s =
      let header = s.header (ptr2header ptr) in
      if debug && not (header.magic == slab_magic)
      then abort
      else if ltb header.ind lookup_max_class
      then ok (record s { tcache = update s.tcache header.ind (ptr ∷ s.tcache header.ind) })
      else ok (record s { heap = gl.delete s.heap (ptr2header ptr) })
