-- ===== src/Tlsf/Laws.antt =====
-- The operators of `TlsfPoolAllocator` (src/common/tlsf_allocator.cc) beside each other.
use native.Mathlib.Decide.{ℕ_discrete}
use sqkio.Common.{ℕ, ◌≡◌, ◌≢◌, ◌⊎◌, inl, inr, refl, ap, false, ◌==◌, arith}
use sqkio.Outcome.{given, bad_alloc}
use sqkio.Tlsf.{
  TlsfCalls, new_impl, free_impl, operator_new, operator_new_array, operator_new_nothrow,
  operator_new_array_nothrow, operator_delete, operator_delete_array,
}

module _ {H : Type 0} (tlsf : TlsfCalls H) (size : ℕ) (h : H) where
  abbrev ptr : ℕ
  ptr = (tlsf.malloc h size).0

  abbrev after : H
  after = (tlsf.malloc h size).1

  -- The four operators `new` agree. Where `tlsf_malloc` has no memory, the two that throw give
  -- `std::bad_alloc` and the two that do not give the null pointer. Otherwise all four give the same
  -- pointer, not null, and both operators `delete` of it leave what `tlsf_free` of it leaves.
  pub operator_new_agrees :
      ((ptr ≡ 0)
        × (operator_new tlsf size h ≡ (bad_alloc, after))
        × (operator_new_array tlsf size h ≡ (bad_alloc, after))
        × (operator_new_nothrow tlsf size h ≡ (given 0, after))
        × (operator_new_array_nothrow tlsf size h ≡ (given 0, after)))
      ⊎ ((p : ℕ) × (p ≢ 0)
          × (operator_new tlsf size h ≡ (given p, after))
          × (operator_new_array tlsf size h ≡ (given p, after))
          × (operator_new_nothrow tlsf size h ≡ (given p, after))
          × (operator_new_array_nothrow tlsf size h ≡ (given p, after))
          × (operator_delete tlsf p after ≡ tlsf.free after p)
          × (operator_delete_array tlsf p after ≡ tlsf.free after p))
  unfolding operator_new operator_new_array operator_new_nothrow operator_new_array_nothrow
      operator_delete operator_delete_array new_impl free_impl
  operator_new_agrees = elim (ℕ_discrete ptr 0) [
    | yes none ↦ inl (
      none,
      rw none,
      rw none,
      ap (λ (t : ℕ). (given t, after)) none,
      ap (λ (t : ℕ). (given t, after)) none,
    )
    | no got ↦
        let here : (ptr == 0) ≡ false = ground (arith, got) in
        inr (ptr, got, rw here, rw here, refl, refl, refl, refl)
  ]
