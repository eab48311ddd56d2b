-- ===== src/Slab/Sound.antt =====
-- What `SlabPoolAllocator` (src/common/include/allocator.hpp) relies on in the global `operator new`, and
-- when its own state is sound.
use mathlib.Core.Path.{subst}
use sqkio.Common.{
  ℕ, ◌+◌, ◌-◌, ◌*◌, ◌^◌, ◌≤◌, ◌<◌, ◌≡◌, ◌≢◌, ◌⊎◌, Bool, false, ◌&&◌, not, ◌==◌, List, [], ◌∷◌,
  Option, none, some, inl, inr, arith,
}
use sqkio.Slab.{GlobalNew, SlabHeader, Slab, slab_magic, lookup_max_class, slab_overhead}

-- `live h b n`: the block at `b` is allocated and has at least `n` bytes. A new block is none of those
-- allocated before, which stay; blocks do not overlap; deleting one leaves the others.
pub record GlobalLaws {H : Type 0} (gl : GlobalNew H) (live : H → ℕ → ℕ → Type 0) : Type 0 where
  pub new-live : (h h' : H) (n b : ℕ) → gl.new h n ≡ some (b, h') → live h' b n
  pub new-fresh : (h h' : H) (n b m : ℕ) → gl.new h n ≡ some (b, h') → ¬ (live h b m)
  pub new-keep : (h h' : H) (n b q m : ℕ) → gl.new h n ≡ some (b, h') → live h q m → live h' q m
  pub new-space : (h h' : H) (n b : ℕ) → gl.new h n ≡ some (b, h') → b + n < 2 ^ 64
  pub delete-keep : (h : H) (p q m : ℕ) → q ≢ p → live h q m → live (gl.delete h p) q m
  pub apart : (h : H) (p q m n : ℕ) → live h p m → live h q n → p ≢ q → (p + m ≤ q) ⊎ (q + n ≤ p)

abbrev pub AllOf : (ℕ → Type 0) → List ℕ → Type 0
AllOf P [] = Unit
AllOf P (x ∷ xs) = P x × AllOf P xs

abbrev pub Distinct : List ℕ → Type 0
Distinct [] = Unit
Distinct (x ∷ xs) = AllOf (λ y. x ≢ y) xs × Distinct xs

pub AllOf-map : {P Q : ℕ → Type 0} (xs : List ℕ) → ((x : ℕ) → P x → Q x) → AllOf P xs → AllOf Q xs
AllOf-map [] f all = tt
AllOf-map (x ∷ xs) f (first, rest) = (f x first, AllOf-map xs f rest)

pub AllOf-both :
    {P Q R : ℕ → Type 0} (xs : List ℕ)
    → ((x : ℕ) → P x → Q x → R x)
    → AllOf P xs
    → AllOf Q xs
    → AllOf R xs
AllOf-both [] f ps qs = tt
AllOf-both (x ∷ xs) f (p, ps) (q, qs) = (f x p q, AllOf-both xs f ps qs)

-- Which pointers the client holds, with the sizes that it asked for.
abbrev pub Used : Type 0
Used = ℕ → Option ℕ

module _ {H : Type 0} (live : H → ℕ → ℕ → Type 0) (debug : Bool) (s : Slab H) where
  -- A pointer that `slab_alloc` made, with `room` bytes: its header is that of its class, and
  -- carries the magic number where that is checked.
  pub record Block (ptr room : ℕ) : Type 0 where
    pub bytes : ℕ
    pub above : slab_overhead ≤ ptr
    pub is_live : live s.heap (ptr - slab_overhead) bytes
    pub wide : room + slab_overhead ≤ bytes
    pub in_space : ptr < 2 ^ 64
    pub in_class :
        (s.header (ptr - slab_overhead)).ind < lookup_max_class
        → 8 * (s.header (ptr - slab_overhead)).ind + slab_overhead ≤ bytes
    pub checked : (debug && not ((s.header (ptr - slab_overhead)).magic == slab_magic)) ≡ false

  -- A pointer on the stack of the class `ind`.
  pub record Cached (used : Used) (ind ptr : ℕ) : Type 0 where
    pub block : Block ptr 0
    pub class : (s.header (ptr - slab_overhead)).ind ≡ ind
    pub idle : used ptr ≡ none

  pub record IsSound (used : Used) : Type 0 where
    pub cached : (ind : ℕ) → ind < lookup_max_class → AllOf (Cached used ind) (s.tcache ind)
    pub distinct : (ind : ℕ) → ind < lookup_max_class → Distinct (s.tcache ind)
    pub in_use : (ptr n : ℕ) → used ptr ≡ some n → Block ptr n

pub some-inj : {A : Type 0} {a b : A} → ◌≡◌ {A = Option A} (some a) (some b) → a ≡ b
some-inj e = cc

module _ {H : Type 0} {live : H → ℕ → ℕ → Type 0} {debug : Bool} where
  -- A block stays one where its memory stays allocated and its header is not written.
  pub Block-keep :
      (s s' : Slab H) (ptr room : ℕ) (v : Block live debug s ptr room)
      → live s'.heap (ptr - slab_overhead) v.bytes
      → s.header (ptr - slab_overhead) ≡ s'.header (ptr - slab_overhead)
      → Block live debug s' ptr room
  Block-keep s s' ptr room v alive same = record {
    bytes = v.bytes;
    above = v.above;
    is_live = alive;
    wide = v.wide;
    in_space = v.in_space;
    in_class =
        subst (λ (h : SlabHeader). h.ind < lookup_max_class → 8 * h.ind + slab_overhead ≤ v.bytes)
          same v.in_class;
    checked =
        subst (λ (h : SlabHeader). (debug && not (h.magic == slab_magic)) ≡ false) same v.checked;
  }

  -- Two blocks in use at different pointers do not overlap.
  pub Block-apart :
      {gl : GlobalNew H} (laws : GlobalLaws gl live) (s : Slab H) (p q m n : ℕ)
      → Block live debug s p m
      → Block live debug s q n
      → p ≢ q
      → (p + m ≤ q) ⊎ (q + n ≤ p)
  Block-apart laws s p q m n v w ne =
      elim (laws.apart s.heap (p - slab_overhead) (q - slab_overhead) v.bytes w.bytes v.is_live
        w.is_live (λ e. ne (omega (arith, v, w, e)))) [
          | inl before ↦ inl (omega (arith, v, w))
          | inr behind ↦ inr (omega (arith, v, w))
        ]
