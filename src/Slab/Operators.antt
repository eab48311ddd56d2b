-- ===== src/Slab/Operators.antt =====
-- The operators of `SlabPoolAllocator` (src/common/include/allocator.hpp). Those for arrays go to the
-- global ones.
pub mod Laws
use sqkio.Common.{ℕ, Bool, ◌==◌, if◌then◌else◌, Option, none, some}
use sqkio.Outcome.{Outcome, ok, Thrown, given, bad_alloc, ◌>>=◌}
use sqkio.Slab.{GlobalNew, Slab, slab_alloc, slab_dealloc}

module _ {ℓ} {H : Type ℓ} (gl : GlobalNew H) (debug : Bool) where
  unfoldable pub operator_new : ℕ → Slab H → Outcome (Thrown ℕ × Slab H)
  operator_new size s = slab_alloc gl debug size s >>= λ (ptr, s').
      if ptr == 0 then ok (bad_alloc, s') else ok (given ptr, s')

  unfoldable pub operator_new_nothrow : ℕ → Slab H → Outcome (ℕ × Slab H)
  operator_new_nothrow size s = slab_alloc gl debug size s

  -- `operator delete`, with `std::nothrow` and without.
  unfoldable pub operator_delete : ℕ → Slab H → Outcome (Slab H)
  operator_delete ptr s = slab_dealloc gl debug ptr s

  unfoldable operator_new_array : ℕ → Slab H → Outcome (Thrown ℕ × Slab H)
  operator_new_array size s = elim (gl.new s.heap size) [
    | none ↦ ok (bad_alloc, s)
    | some (ptr, heap) ↦ ok (given ptr, record s { heap = heap })
  ]

  -- The global operator gives the null pointer where the one above throws.
  unfoldable operator_new_array_nothrow : ℕ → Slab H → Outcome (ℕ × Slab H)
  operator_new_array_nothrow size s = elim (gl.new s.heap size) [
    | none ↦ ok (0, s)
    | some (ptr, heap) ↦ ok (ptr, record s { heap = heap })
  ]

  unfoldable operator_delete_array : ℕ → Slab H → Outcome (Slab H)
  operator_delete_array ptr s = ok (record s { heap = gl.delete s.heap ptr })
