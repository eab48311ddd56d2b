-- ===== src/Slab/Operators/Laws.antt =====
-- `operator new` and `operator delete` of `SlabPoolAllocator` (src/common/include/allocator.hpp) on a
-- sound state.
use sqkio.Common.{
  ℕ, ◌+◌, ◌-◌, ◌^◌, ◌≤◌, ◌<◌, ◌≡◌, ◌⊎◌, inl, inr, Bool, false, ◌==◌, none, some, arith,
}
use sqkio.Outcome.{given, ok, abort}
use sqkio.Common.Update.{update, update_self}
use sqkio.Slab.{GlobalNew, Slab, roundup, slab_overhead}
use sqkio.Slab.Sound.{GlobalLaws, Used, IsSound}
use sqkio.Slab.Alloc.{slab_alloc_lem}
use sqkio.Slab.Dealloc.{slab_dealloc_lem}
use sqkio.Slab.Operators.{operator_new, operator_new_nothrow, operator_delete}

module _ {H : Type 0} (gl : GlobalNew H) (live : H → ℕ → ℕ → Type 0) (laws : GlobalLaws gl live)
    (debug : Bool) (s : Slab H) (used : Used) (v : IsSound live debug s used) (size : ℕ)
    (fits : size ≤ 2 ^ 35 - 8) where
  -- In a sound state, for a size up to 2^35 - 8 and an `operator new` that keeps its laws: the two
  -- operators `new` of the class never report a lack of memory to their caller, neither by
  -- `std::bad_alloc` nor by the null pointer. Either the global operator has none, and both end the
  -- program; or both give the same pointer, not null and not held before, and `operator delete` of it
  -- in the state they leave ends in a sound state with the pointer not held.
  pub operator_new_lem :
      ((operator_new gl debug size s ≡ abort)
        × (operator_new_nothrow gl debug size s ≡ abort)
        × (gl.new s.heap (roundup size + slab_overhead) ≡ none))
      ⊎ ((ptr : ℕ) × (s' : Slab H) × (operator_new gl debug size s ≡ ok (given ptr, s'))
          × (operator_new_nothrow gl debug size s ≡ ok (ptr, s'))
          × (0 < ptr)
          × (used ptr ≡ none)
          × (s'' : Slab H) × (operator_delete gl debug ptr s' ≡ ok s'')
          × IsSound live debug s'' (update (update used ptr (some size)) ptr none))
  unfolding operator_new operator_new_nothrow operator_delete
  operator_new_lem = elim (slab_alloc_lem gl live laws debug s used v size fits) [
    | inl (refused, none_left) ↦ inl (rw refused, refused, none_left)
    | inr (ptr, s', runs, fresh, sound) ↦
        let held = update_self used ptr (some size) in
        let block = sound.in_use ptr size held in
        let (s'', deletes, after) =
          slab_dealloc_lem gl live laws debug s' (update used ptr (some size)) sound ptr size
            held in
        let not_null : (ptr == 0) ≡ false = ground (arith, block.above) in
        inr (
          ptr,
          s',
          rw (runs, not_null),
          runs,
          omega (arith, block.above),
          fresh,
          s'',
          deletes,
          after,
        )
  ]
