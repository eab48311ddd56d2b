-- ===== src/Tlsf.antt =====
-- `TlsfPoolAllocator` of src/common/tlsf_allocator.cc. `tlsf_malloc` and `tlsf_free` are a parameter, over
-- their own state; 0 is the null pointer.
pub mod Laws
mod Tests
use sqkio.Common.{ℕ, Bool, true, false, ◌==◌, if◌then◌else◌}
use sqkio.Outcome.{Thrown, given, bad_alloc}

pub record TlsfCalls {ℓ} (H : Type ℓ) : Type ℓ where
  pub malloc : H → ℕ → ℕ × H
  pub free : H → ℕ → H

module _ {ℓ} {H : Type ℓ} (tlsf : TlsfCalls H) where
  -- `newImpl<IsNoExcept>`
  unfoldable pub new_impl : Bool → ℕ → H → Thrown ℕ × H
  new_impl is_noexcept size h =
      let (ptr, h') = tlsf.malloc h size in
      if is_noexcept then (given ptr, h') else if ptr == 0 then (bad_alloc, h') else (given ptr, h')

  -- `freeImpl`
  unfoldable pub free_impl : ℕ → H → H
  free_impl ptr h = tlsf.free h ptr

  unfoldable pub operator_new : ℕ → H → Thrown ℕ × H
  operator_new size h = new_impl false size h

  unfoldable pub operator_new_array : ℕ → H → Thrown ℕ × H
  operator_new_array size h = new_impl false size h

  unfoldable pub operator_new_nothrow : ℕ → H → Thrown ℕ × H
  operator_new_nothrow size h = new_impl true size h

  unfoldable pub operator_new_array_nothrow : ℕ → H → Thrown ℕ × H
  operator_new_array_nothrow size h = new_impl true size h

  unfoldable pub operator_delete : ℕ → H → H
  operator_delete ptr h = free_impl ptr h

  unfoldable pub operator_delete_array : ℕ → H → H
  operator_delete_array ptr h = free_impl ptr h
