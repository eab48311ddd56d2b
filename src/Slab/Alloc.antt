-- ===== src/Slab/Alloc.antt =====
-- `slab_alloc` of src/common/include/allocator.hpp on a sound state: both of its paths.
use native.Mathlib.Decide.{dec_lt}
use sqkio.Common.{
  ℕ, ◌+◌, ◌-◌, ◌%◌, ◌^◌, ◌≤◌, ◌<◌, ◌≡◌, ◌⊎◌, refl, ap, ◌∙◌, inl, inr, Bool, lt→ltb, le→ltb, List,
  [], ◌∷◌, Option, none, some, arith,
}
use sqkio.Outcome.{ok, abort}
use sqkio.Common.Update.{update}
use sqkio.Slab.{
  GlobalNew, Slab, lookup_max_class, slab_overhead, roundup, size2ind, slow_path, slab_alloc,
}
use sqkio.Slab.Sound.{GlobalLaws, Used, IsSound}
use sqkio.Slab.Pop.{popped, popped-IsSound, top-Cached}
use sqkio.Slab.Fresh.{asked_bytes, grown, slow_path-grown, grown-idle, grown-IsSound}

-- What a caller can rely on: a pointer that it does not hold, in a sound state; or the end of the
-- program, where `operator new` has no memory.
abbrev pub AllocResult :
    {H : Type 0} (gl : GlobalNew H) (live : H → ℕ → ℕ → Type 0) (debug : Bool)
    → Slab H
    → Used
    → ℕ
    → Type 0
AllocResult {H = H} gl live debug s used size =
    ((slab_alloc gl debug size s ≡ abort) × (gl.new s.heap (roundup size + slab_overhead) ≡ none))
    ⊎ ((ptr : ℕ) × (s' : Slab H) × (slab_alloc gl debug size s ≡ ok (ptr, s'))
        × (used ptr ≡ none)
        × IsSound live debug s' (update used ptr (some size)))

module _ {H : Type 0} (gl : GlobalNew H) (live : H → ℕ → ℕ → Type 0) (laws : GlobalLaws gl live)
    (debug : Bool) (s : Slab H) (used : Used) (v : IsSound live debug s used) (size : ℕ)
    (fits : size ≤ 2 ^ 35 - 8) where
  abbrev class : ℕ
  class = size2ind (roundup size)

  slow_path-refused :
      gl.new s.heap (roundup size + slab_overhead) ≡ none
      → slow_path gl debug (roundup size) class s ≡ abort
  unfolding slow_path
  slow_path-refused none_left = rw (slow_path, asked)
    where
      asked : gl.new s.heap ((roundup size + slab_overhead) % 2 ^ 64) ≡ none
      asked = ap (gl.new s.heap) (asked_bytes size fits) ∙ none_left

  -- Where the code takes the slow path.
  by_slow_path :
      slab_alloc gl debug size s ≡ slow_path gl debug (roundup size) class s
      → AllocResult gl live debug s used size
  by_slow_path runs = by (gl.new s.heap (roundup size + slab_overhead)) refl
    where
      by :
          (o : Option (ℕ × H))
          → gl.new s.heap (roundup size + slab_overhead) ≡ o
          → AllocResult gl live debug s used size
      by none e = inl (runs ∙ slow_path-refused e, e)
      by (some (base, heap)) e = inr (
        base + slab_overhead,
        grown gl live laws debug s used v size fits base heap e,
        runs ∙ slow_path-grown gl live laws debug s used v size fits base heap e,
        grown-idle gl live laws debug s used v size fits base heap e,
        grown-IsSound gl live laws debug s used v size fits base heap e,
      )

  by_class :
      (low : class < lookup_max_class) (stack : List ℕ)
      → s.tcache class ≡ stack
      → AllocResult gl live debug s used size
  unfolding slab_alloc
  by_class low [] e = by_slow_path (rw (slab_alloc, lt→ltb _ _ low, e))
  by_class low (ptr ∷ rest) e = inr (
    ptr,
    popped gl live laws debug s used v size fits ptr rest low e,
    rw (slab_alloc, lt→ltb _ _ low, e),
    (top-Cached gl live laws debug s used v size fits ptr rest low e).idle,
    popped-IsSound gl live laws debug s used v size fits ptr rest low e,
  )

  -- In a sound state, for a size up to 2^35 - 8 and an `operator new` that keeps its laws,
  -- `slab_alloc` either ends the program, where `operator new` has no memory for the rounded size and
  -- the header, or returns a pointer that the caller does not hold, in a state that is sound with the
  -- pointer held: its block has room for the size.
  pub slab_alloc_lem : AllocResult gl live debug s used size
  unfolding slab_alloc
  slab_alloc_lem = elim (dec_lt class lookup_max_class) [
    | yes low ↦ by_class low (s.tcache class) refl
    | no high ↦ by_slow_path (rw (slab_alloc, le→ltb class lookup_max_class (omega arith)))
  ]
