-- ===== src/Slab/Pop.antt =====
-- The pop of a class's stack in `slab_alloc` of src/common/include/allocator.hpp.
use mathlib.Core.Path.{subst}
use native.Mathlib.Decide.{ℕ_discrete}
use sqkio.Common.{ℕ, ◌-◌, ◌^◌, ◌≤◌, ◌<◌, ◌≡◌, ◌≢◌, refl, sym, ap, ◌∙◌, Bool, List, ◌∷◌, some, arith}
use sqkio.Common.Update.{update, update_ne, update_self}
use sqkio.Slab.{GlobalNew, Slab, lookup_max_class, slab_overhead, roundup, size2ind}
use sqkio.Slab.Sizes.{roundup_small}
use sqkio.Slab.Sound.{
  GlobalLaws, AllOf, Distinct, AllOf-map, AllOf-both, Used, Block, Cached, IsSound, Block-keep,
  some-inj,
}

module _ {H : Type 0} (gl : GlobalNew H) (live : H → ℕ → ℕ → Type 0) (laws : GlobalLaws gl live)
    (debug : Bool) (s : Slab H) (used : Used) (v : IsSound live debug s used) (size : ℕ)
    (fits : size ≤ 2 ^ 35 - 8) where
  abbrev pub class : ℕ
  class = size2ind (roundup size)

  -- The state after a pop of the class's stack.
  module _ (ptr : ℕ) (rest : List ℕ) (low : class < lookup_max_class)
      (top : s.tcache class ≡ ptr ∷ rest) where
    abbrev pub popped : Slab H
    popped = record s { tcache = update s.tcache class rest }

    popped-Block : (q n : ℕ) → Block live debug s q n → Block live debug popped q n
    popped-Block q n w = Block-keep s popped q n w w.is_live refl

    pub top-Cached : Cached live debug s used class ptr
    top-Cached = (subst (AllOf (Cached live debug s used class)) top (v.cached class low)).0

    top-distinct : AllOf (λ y. ptr ≢ y) rest
    top-distinct = (subst Distinct top (v.distinct class low)).0

    keep-Cached :
        (ind q : ℕ)
        → ptr ≢ q
        → Cached live debug s used ind q
        → Cached live debug popped (update used ptr (some size)) ind q
    keep-Cached ind q ne w = record {
      block = popped-Block q 0 w.block;
      class = w.class;
      idle = update_ne used ptr q (some size) ne ∙ w.idle;
    }

    popped_stack :
        (ind : ℕ)
        → ind < lookup_max_class
        → AllOf (Cached live debug popped (update used ptr (some size)) ind) (popped.tcache ind)
    popped_stack ind lt = elim (ℕ_discrete class ind) [
      | yes e ↦
          subst
            (λ t.
              AllOf (Cached live debug popped (update used ptr (some size)) t) (popped.tcache t))
            e
            (subst (AllOf (Cached live debug popped (update used ptr (some size)) class))
              (sym (update_self s.tcache class rest))
              (AllOf-both rest (λ q ne w. keep-Cached class q ne w) top-distinct
                (subst (AllOf (Cached live debug s used class)) top (v.cached class low)).1))
      | no ne ↦
          subst (AllOf (Cached live debug popped (update used ptr (some size)) ind))
            (sym (update_ne s.tcache class ind rest ne))
            (AllOf-map (s.tcache ind)
              (λ q w.
                keep-Cached ind q
                  (λ e. ne (
                    sym top-Cached.class
                    ∙ ap (λ (t : ℕ). (s.header (t - slab_overhead)).ind) e
                    ∙ w.class))
                  w)
              (v.cached ind lt))
    ]

    popped-Distinct : (ind : ℕ) → ind < lookup_max_class → Distinct (popped.tcache ind)
    popped-Distinct ind lt = elim (ℕ_discrete class ind) [
      | yes e ↦
          subst (λ t. Distinct (popped.tcache t)) e
            (subst Distinct (sym (update_self s.tcache class rest))
              (subst Distinct top (v.distinct class low)).1)
      | no ne ↦ subst Distinct (sym (update_ne s.tcache class ind rest ne)) (v.distinct ind lt)
    ]

    -- The block of the class is as wide as any size of the class.
    taken-Block : Block live debug popped ptr size
    taken-Block =
        let w = top-Cached.block in
        let enough = w.in_class (omega (arith, top-Cached.class, low)) in
        popped-Block ptr size (record {
          bytes = w.bytes;
          above = w.above;
          is_live = w.is_live;
          wide = omega (arith, enough, top-Cached.class, roundup_small size fits);
          in_space = w.in_space;
          in_class = w.in_class;
          checked = w.checked;
        })

    popped-in_use : (q n : ℕ) → update used ptr (some size) q ≡ some n → Block live debug popped q n
    popped-in_use q n e = elim (ℕ_discrete ptr q) [
      | yes same ↦
          subst (λ t. Block live debug popped t n) same
            (subst (Block live debug popped ptr)
              (some-inj (
                sym (update_self used ptr (some size)) ∙ ap (update used ptr (some size)) same ∙ e))
              taken-Block)
      | no ne ↦ popped-Block q n (v.in_use q n (sym (update_ne used ptr q (some size) ne) ∙ e))
    ]

    pub popped-IsSound : IsSound live debug popped (update used ptr (some size))
    popped-IsSound = record {
      cached = popped_stack;
      distinct = popped-Distinct;
      in_use = popped-in_use;
    }
