-- ===== src/Slab/Dealloc.antt =====
-- `slab_dealloc` of src/common/include/allocator.hpp on a sound state: onto the stack of the block's
-- class, or to `operator delete`.
use mathlib.Core.Path.{subst}
use native.Mathlib.Decide.{ℕ_discrete, dec_lt}
use sqkio.Common.{
  ℕ, ◌-◌, ◌<◌, ◌≡◌, ◌≢◌, refl, sym, ap, ◌∙◌, Bool, lt→ltb, le→ltb, ◌∷◌, Option, none, some, arith,
}
use sqkio.Outcome.{ok}
use sqkio.Common.Update.{update, update_ne, update_self}
use sqkio.Slab.{GlobalNew, Slab, lookup_max_class, slab_overhead, ptr2header, slab_dealloc}
use sqkio.Slab.Sound.{
  GlobalLaws, AllOf, Distinct, AllOf-map, Used, Block, Cached, IsSound, Block-keep,
}

none-some : {A : Type 0} {a : A} {B : Type 0} → ◌≡◌ {A = Option A} none (some a) → B
none-some e = absurd cc

module _ {H : Type 0} (gl : GlobalNew H) (live : H → ℕ → ℕ → Type 0) (laws : GlobalLaws gl live)
    (debug : Bool) (s : Slab H) (used : Used) (v : IsSound live debug s used) (ptr n : ℕ)
    (held : used ptr ≡ some n) where
  block : Block live debug s ptr n
  block = v.in_use ptr n held

  abbrev class : ℕ
  class = (s.header (ptr - slab_overhead)).ind

  there : ptr2header ptr ≡ ptr - slab_overhead
  there = omega (arith, block)

  -- A cached pointer is not the one that the caller holds.
  elsewhere : (ind q : ℕ) → Cached live debug s used ind q → ptr ≢ q
  elsewhere ind q w e = none-some (sym w.idle ∙ ap used (sym e) ∙ held)

  still_idle : (q : ℕ) → used q ≡ none → update used ptr none q ≡ none
  still_idle q h = ground arith

  still_held : (q m : ℕ) → update used ptr none q ≡ some m → (ptr ≢ q) × (used q ≡ some m)
  still_held q m e = elim (ℕ_discrete ptr q) [
    | yes same ↦ none-some (sym (update_self used ptr none) ∙ ap (update used ptr none) same ∙ e)
    | no ne ↦ (ne, sym (update_ne used ptr q none ne) ∙ e)
  ]

  -- A small block goes onto the stack of its class.
  abbrev pushed : Slab H
  pushed = record s { tcache = update s.tcache class (ptr ∷ s.tcache class) }

  pushed-Block : (q m : ℕ) → Block live debug s q m → Block live debug pushed q m
  pushed-Block q m w = Block-keep s pushed q m w w.is_live refl

  pushed-Cached :
      (ind q : ℕ)
      → Cached live debug s used ind q
      → Cached live debug pushed (update used ptr none) ind q
  pushed-Cached ind q w = record {
    block = pushed-Block q 0 w.block;
    class = w.class;
    idle = still_idle q w.idle;
  }

  ptr-Cached : Cached live debug pushed (update used ptr none) class ptr
  ptr-Cached = record {
    block = pushed-Block ptr 0 (record {
      bytes = block.bytes;
      above = block.above;
      is_live = block.is_live;
      wide = omega (arith, block);
      in_space = block.in_space;
      in_class = block.in_class;
      checked = block.checked;
    });
    class = refl;
    idle = update_self used ptr none;
  }

  pushed_stack :
      (ind : ℕ)
      → ind < lookup_max_class
      → AllOf (Cached live debug pushed (update used ptr none) ind) (pushed.tcache ind)
  pushed_stack ind lt = elim (ℕ_discrete class ind) [
    | yes e ↦
        subst (λ t. AllOf (Cached live debug pushed (update used ptr none) t) (pushed.tcache t)) e
          (subst (AllOf (Cached live debug pushed (update used ptr none) class))
            (sym (update_self s.tcache class (ptr ∷ s.tcache class)))
            (
              ptr-Cached,
              AllOf-map (s.tcache class) (pushed-Cached class)
                  (v.cached class (omega (arith, e, lt))),
            ))
    | no ne ↦
        subst (AllOf (Cached live debug pushed (update used ptr none) ind))
          (sym (update_ne s.tcache class ind (ptr ∷ s.tcache class) ne))
          (AllOf-map (s.tcache ind) (pushed-Cached ind) (v.cached ind lt))
  ]

  pushed-Distinct : (ind : ℕ) → ind < lookup_max_class → Distinct (pushed.tcache ind)
  pushed-Distinct ind lt = elim (ℕ_discrete class ind) [
    | yes e ↦
        let low : class < lookup_max_class = omega (arith, e, lt) in
        subst (λ t. Distinct (pushed.tcache t)) e
          (subst Distinct (sym (update_self s.tcache class (ptr ∷ s.tcache class))) (
            AllOf-map (s.tcache class) (elsewhere class) (v.cached class low),
            v.distinct class low,
          ))
    | no ne ↦
        subst Distinct (sym (update_ne s.tcache class ind (ptr ∷ s.tcache class) ne))
          (v.distinct ind lt)
  ]

  pushed-IsSound : IsSound live debug pushed (update used ptr none)
  pushed-IsSound = record {
    cached = pushed_stack;
    distinct = pushed-Distinct;
    in_use = λ q m e. pushed-Block q m (v.in_use q m (still_held q m e).1);
  }

  -- A large one is deleted.
  abbrev deleted : Slab H
  deleted = record s { heap = gl.delete s.heap (ptr - slab_overhead) }

  deleted-Block : (q m : ℕ) → ptr ≢ q → Block live debug s q m → Block live debug deleted q m
  deleted-Block q m ne w =
      Block-keep s deleted q m w
        (laws.delete-keep s.heap (ptr - slab_overhead) (q - slab_overhead) w.bytes
          (λ e. ne (omega (arith, w, block, e))) w.is_live)
        refl

  deleted-IsSound : IsSound live debug deleted (update used ptr none)
  deleted-IsSound = record {
    cached = λ ind lt.
        AllOf-map (s.tcache ind)
          (λ q w. record {
            block = deleted-Block q 0 (elsewhere ind q w) w.block;
            class = w.class;
            idle = still_idle q w.idle;
          })
          (v.cached ind lt);
    distinct = v.distinct;
    in_use = λ q m e. deleted-Block q m (still_held q m e).0 (v.in_use q m (still_held q m e).1);
  }

  -- In a sound state, and with an `operator delete` that keeps its laws, `slab_dealloc` of a pointer
  -- that the caller holds ends without a failed assertion, and the state is sound with the pointer
  -- no longer held.
  pub slab_dealloc_lem :
      (s' : Slab H) × (slab_dealloc gl debug ptr s ≡ ok s')
      × IsSound live debug s' (update used ptr none)
  unfolding slab_dealloc
  slab_dealloc_lem = elim (dec_lt class lookup_max_class) [
    | yes low ↦ (pushed, rw (slab_dealloc, there, block.checked, lt→ltb _ _ low), pushed-IsSound)
    | no high ↦ (
      deleted,
      rw (slab_dealloc, there, block.checked, le→ltb class lookup_max_class (omega arith)),
      deleted-IsSound,
    )
  ]
