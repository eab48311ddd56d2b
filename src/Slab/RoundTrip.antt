-- ===== src/Slab/RoundTrip.antt =====
-- `slab_dealloc` of src/common/include/allocator.hpp and then `slab_alloc` of the same size class,
-- and the other way round.
use sqkio.Common.{ℕ, ◌-◌, ◌<◌, ◌≡◌, refl, sym, ap, ◌∙◌, Bool, lt→ltb, List, ◌∷◌, some, arith}
use sqkio.Outcome.{Outcome, ok, ◌>>=◌}
use sqkio.Common.Update.{update, update_self}
use sqkio.Slab.{
  GlobalNew, Slab, lookup_max_class, slab_overhead, ptr2header, roundup, size2ind, slab_alloc,
  slab_dealloc,
}
use sqkio.Slab.Sound.{Used, IsSound}

-- A stack that was written twice and holds what it held at first.
update_back : {A : Type 0} (f : ℕ → A) (k : ℕ) (v : A) → update (update f k v) k (f k) ≡ f
update_back f k v i p = same p i
  where
    same : (q : ℕ) → update (update f k v) k (f k) q ≡ f q
    same q = ground arith

module _ {H : Type 0} (gl : GlobalNew H) (live : H → ℕ → ℕ → Type 0) (debug : Bool) (s : Slab H)
    (used : Used) (v : IsSound live debug s used) (size : ℕ) where
  abbrev class : ℕ
  class = size2ind (roundup size)

  -- The state after `ptr` went onto the stack of the class.
  abbrev stacked : ℕ → Slab H
  stacked ptr = record s { tcache = update s.tcache class (ptr ∷ s.tcache class) }

  taken_back :
      (ptr : ℕ) → class < lookup_max_class → slab_alloc gl debug size (stacked ptr) ≡ ok (ptr, s)
  unfolding slab_alloc
  taken_back ptr low =
      rw (slab_alloc, lt→ltb _ _ low, update_self s.tcache class (ptr ∷ s.tcache class))
        (ap (λ (t : ℕ → List ℕ). ok (ptr, record s { tcache = t }))
          (update_back s.tcache class (ptr ∷ s.tcache class)))

  -- In a sound state, for a pointer that the caller holds and a size whose class is that of the
  -- pointer's block, one of the small classes: freeing the pointer and allocating the size gives
  -- the pointer back, and the heap, the headers and the stacks of free blocks are as before.
  pub dealloc-alloc :
      (ptr n : ℕ)
      → used ptr ≡ some n
      → (s.header (ptr2header ptr)).ind ≡ class
      → class < lookup_max_class
      → (slab_dealloc gl debug ptr s >>= slab_alloc gl debug size) ≡ ok (ptr, s)
  unfolding slab_dealloc
  dealloc-alloc ptr n held same low =
      ap (λ (o : Outcome (Slab H)). o >>= slab_alloc gl debug size) freed ∙ taken_back ptr low
    where
      there : ptr2header ptr ≡ ptr - slab_overhead
      there = omega (arith, v.in_use ptr n held)

      freed : slab_dealloc gl debug ptr s ≡ ok (stacked ptr)
      freed =
          let checked = (v.in_use ptr n held).checked in
          let here : (s.header (ptr - slab_overhead)).ind ≡ class =
            ap (λ (t : ℕ). (s.header t).ind) (sym there) ∙ same in
          rw (slab_dealloc, there, checked, here, lt→ltb _ _ low) refl
