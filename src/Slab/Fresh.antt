-- ===== src/Slab/Fresh.antt =====
-- The new block of `slow_path` in `slab_alloc` of src/common/include/allocator.hpp.
use mathlib.Core.Path.{subst}
use native.Mathlib.Decide.{ℕ_discrete}
use sqkio.Common.{
  ℕ, ◌+◌, ◌-◌, ◌*◌, ◌%◌, ◌^◌, ◌≤◌, ◌<◌, ◌≡◌, ◌≢◌, refl, sym, ap, ◌∙◌, min, Bool, false, ◌==◌,
  if◌then◌else◌, ◌&&◌, not, Option, none, some, arith,
}
use sqkio.Outcome.{ok}
use sqkio.Common.Update.{update, update_ne, update_self}
use sqkio.Slab.{
  GlobalNew, SlabHeader, Slab, slab_magic, lookup_max_class, slab_overhead, roundup, size2ind,
  ptr2header, slow_path,
}
use sqkio.Slab.Sizes.{roundup_small}
use sqkio.Slab.Sound.{GlobalLaws, AllOf-map, Used, Block, Cached, IsSound, Block-keep, some-inj}

-- The bytes asked for do not wrap.
pub asked_bytes :
    (size : ℕ)
    → size ≤ 2 ^ 35 - 8
    → (roundup size + slab_overhead) % 2 ^ 64 ≡ roundup size + slab_overhead
asked_bytes size fits = omega (arith, roundup_small size fits)

module _ {H : Type 0} (gl : GlobalNew H) (live : H → ℕ → ℕ → Type 0) (laws : GlobalLaws gl live)
    (debug : Bool) (s : Slab H) (used : Used) (v : IsSound live debug s used) (size : ℕ)
    (fits : size ≤ 2 ^ 35 - 8) (base : ℕ) (heap : H)
    (got : gl.new s.heap (roundup size + slab_overhead) ≡ some (base, heap)) where
  abbrev pub new_header : SlabHeader
  new_header = record {
    ind = min (size2ind (roundup size)) lookup_max_class % 2 ^ 10;
    magic = if debug then slab_magic else (s.header base).magic;
  }

  -- The state after it.
  abbrev pub grown : Slab H
  grown = record s { heap = heap; header = update s.header base new_header }

  base-lt : base + slab_overhead < 2 ^ 64
  base-lt = omega (arith, laws.new-space s.heap heap (roundup size + slab_overhead) base got)

  pub slow_path-grown :
      slow_path gl debug (roundup size) (size2ind (roundup size)) s
      ≡ ok (base + slab_overhead, grown)
  unfolding slow_path
  slow_path-grown = rw (slow_path, asked) (rw there)
    where
      asked : gl.new s.heap ((roundup size + slab_overhead) % 2 ^ 64) ≡ some (base, heap)
      asked = ap (gl.new s.heap) (asked_bytes size fits) ∙ got

      there : ptr2header (base + slab_overhead) ≡ base
      there = omega (arith, base-lt)

  -- The blocks that were there are elsewhere, and stay.
  other : (q n : ℕ) → Block live debug s q n → base + slab_overhead ≢ q
  other q n w e =
      laws.new-fresh s.heap heap (roundup size + slab_overhead) base w.bytes got
        (subst (λ (t : ℕ). live s.heap t w.bytes) (omega (arith, w, e)) w.is_live)

  grown-Block : (q n : ℕ) → Block live debug s q n → Block live debug grown q n
  grown-Block q n w =
      Block-keep s grown q n w
        (laws.new-keep s.heap heap (roundup size + slab_overhead) base (q - slab_overhead) w.bytes
          got w.is_live)
        (sym (
          update_ne s.header base (q - slab_overhead) new_header
            (λ e. other q n w (omega (arith, w, e)))))

  back : base + slab_overhead - slab_overhead ≡ base
  back = omega arith

  new_class : new_header.ind < lookup_max_class → 8 * new_header.ind ≡ roundup size
  new_class low = omega (arith, roundup_small size fits)

  new_checked : (debug && not (new_header.magic == slab_magic)) ≡ false
  new_checked = ground arith

  new-Block : Block live debug grown (base + slab_overhead) size
  new-Block = record {
    bytes = roundup size + slab_overhead;
    above = omega arith;
    is_live =
        subst (λ (t : ℕ). live heap t (roundup size + slab_overhead)) (sym back)
          (laws.new-live s.heap heap (roundup size + slab_overhead) base got);
    wide = omega (arith, roundup_small size fits);
    in_space = base-lt;
    in_class =
        subst
          (λ (h : SlabHeader).
            h.ind < lookup_max_class → 8 * h.ind + slab_overhead ≤ roundup size + slab_overhead)
          (sym here) (λ low. omega (arith, new_class low));
    checked =
        subst (λ (h : SlabHeader). (debug && not (h.magic == slab_magic)) ≡ false) (sym here)
          new_checked;
  }
    where
      here : grown.header (base + slab_overhead - slab_overhead) ≡ new_header
      here = ap grown.header back ∙ update_self s.header base new_header

  pub grown-idle : used (base + slab_overhead) ≡ none
  grown-idle = idle (used (base + slab_overhead)) refl
    where
      idle : (o : Option ℕ) → used (base + slab_overhead) ≡ o → o ≡ none
      idle none e = refl
      idle (some n) e =
          absurd (other (base + slab_overhead) n (v.in_use (base + slab_overhead) n e) refl)

  keep-Cached :
      (ind q : ℕ)
      → Cached live debug s used ind q
      → Cached live debug grown (update used (base + slab_overhead) (some size)) ind q
  keep-Cached ind q w = record {
    block = grown-Block q 0 w.block;
    class =
        ap (λ (h : SlabHeader). h.ind)
          (update_ne s.header base (q - slab_overhead) new_header
            (λ e. other q 0 w.block (omega (arith, w.block, e))))
        ∙ w.class;
    idle = update_ne used (base + slab_overhead) q (some size) (other q 0 w.block) ∙ w.idle;
  }

  grown-in_use :
      (q n : ℕ)
      → update used (base + slab_overhead) (some size) q ≡ some n
      → Block live debug grown q n
  grown-in_use q n e = elim (ℕ_discrete (base + slab_overhead) q) [
    | yes same ↦
        subst (λ t. Block live debug grown t n) same
          (subst (Block live debug grown (base + slab_overhead))
            (some-inj (
              sym (update_self used (base + slab_overhead) (some size))
              ∙ ap (update used (base + slab_overhead) (some size)) same
              ∙ e))
            new-Block)
    | no ne ↦
        grown-Block q n
          (v.in_use q n (sym (update_ne used (base + slab_overhead) q (some size) ne) ∙ e))
  ]

  pub grown-IsSound : IsSound live debug grown (update used (base + slab_overhead) (some size))
  grown-IsSound = record {
    cached = λ ind lt. AllOf-map (s.tcache ind) (keep-Cached ind) (v.cached ind lt);
    distinct = v.distinct;
    in_use = grown-in_use;
  }
