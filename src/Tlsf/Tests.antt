-- ===== src/Tlsf/Tests.antt =====
-- The operators of `TlsfPoolAllocator` (src/common/tlsf_allocator.cc) over a `tlsf_malloc` of one block.
use sqkio.Common.{ℕ, ◌≡◌, refl, Bool, true, false, if◌then◌else◌}
use sqkio.Outcome.{given}
use sqkio.Tlsf.{TlsfCalls, new_impl, operator_new}

-- The state tells whether the block is taken.
abbrev one_block : TlsfCalls Bool
one_block = record {
  malloc = λ (taken : Bool) (size : ℕ). if taken then (0, true) else (4096, true);
  free = λ (taken : Bool) (ptr : ℕ). false;
}

block_given : operator_new one_block 16 false ≡ (given 4096, true)
unfolding operator_new new_impl
block_given = refl
