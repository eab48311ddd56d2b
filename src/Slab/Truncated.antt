-- ===== src/Slab/Truncated.antt =====
-- Sizes from 2^35 on in `slab_alloc` of src/common/include/allocator.hpp: `size2ind` returns a
-- `uint32_t`.
use sqkio.Common.{ℕ, ◌+◌, ◌^◌, ◌≤◌, ◌<◌, ◌≡◌, ap, ◌∙◌, sym, Bool, lt→ltb, List, ◌∷◌, arith}
use sqkio.Outcome.{ok}
use sqkio.Common.Update.{update}
use sqkio.Slab.{GlobalNew, Slab, lookup_max_class, roundup, size2ind, slab_alloc}
use sqkio.Slab.Sizes.{roundup_lem, roundup_small}

same_class : (size : ℕ) → size ≤ 4088 → size2ind (roundup (2 ^ 35 + size)) ≡ size2ind (roundup size)
unfolding size2ind
same_class size h = omega (arith, roundup_lem size, roundup_lem (2 ^ 35 + size))

low_class : (size : ℕ) → size ≤ 4088 → size2ind (roundup size) < lookup_max_class
low_class size h = omega (arith, roundup_small size)

fast_path :
    {H : Type 0} (gl : GlobalNew H) (debug : Bool) (s : Slab H) (size ptr : ℕ) (rest : List ℕ)
    → size2ind (roundup size) < lookup_max_class
    → s.tcache (size2ind (roundup size)) ≡ ptr ∷ rest
    → slab_alloc gl debug size s
      ≡ ok (ptr, record s { tcache = update s.tcache (size2ind (roundup size)) rest })
unfolding slab_alloc
fast_path gl debug s size ptr rest low top = rw (slab_alloc, lt→ltb _ _ low, top)

-- For a size up to 4088 whose class has a cached block, `slab_alloc` of 2^35 bytes more returns that
-- same block, in the same state.
pub slab_alloc-same :
    {H : Type 0} (gl : GlobalNew H) (debug : Bool) (s : Slab H) (size ptr : ℕ) (rest : List ℕ)
    → size ≤ 4088
    → s.tcache (size2ind (roundup size)) ≡ ptr ∷ rest
    → (slab_alloc gl debug (2 ^ 35 + size) s ≡ slab_alloc gl debug size s)
      × (slab_alloc gl debug size s
          ≡ ok (ptr, record s { tcache = update s.tcache (size2ind (roundup size)) rest }))
slab_alloc-same gl debug s size ptr rest h top =
    let small = fast_path gl debug s size ptr rest (low_class size h) top in
    (
      fast_path gl debug s (2 ^ 35 + size) ptr rest
            (omega (arith, same_class size h, low_class size h))
            (ap s.tcache (same_class size h) ∙ top)
          ∙ ap (λ (t : ℕ). ok (ptr, record s { tcache = update s.tcache t rest }))
              (same_class size h)
          ∙ sym small,
      small,
    )
