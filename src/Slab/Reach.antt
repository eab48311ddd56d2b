-- ===== src/Slab/Reach.antt =====
-- Sequences of calls of `slab_alloc` and `slab_dealloc` (src/common/include/allocator.hpp) by one thread
-- whose client frees only what it holds.
use sqkio.Common.{ℕ, ◌+◌, ◌-◌, ◌^◌, ◌≤◌, ◌≡◌, ◌≢◌, ◌⊎◌, inl, inr, sym, ◌∙◌, Bool, [], none, some}
use mathlib.Core.Path.{subst}
use sqkio.Outcome.{Outcome, ok, abort}
use sqkio.Common.Update.{update}
use sqkio.Slab.{GlobalNew, SlabHeader, Slab, slab_alloc, slab_dealloc}
use sqkio.Slab.Sound.{GlobalLaws, Used, IsSound, Block-apart}
use sqkio.Slab.Alloc.{slab_alloc_lem}
use sqkio.Slab.Dealloc.{slab_dealloc_lem}

-- The states that calls lead to from the start of a thread, whose stacks are empty; `used` tells
-- what the client holds.
pub data Reach {H : Type 0} (gl : GlobalNew H) (debug : Bool) : Slab H → Used → Type 0 where
  started :
      (heap : H) (header : ℕ → SlabHeader)
      → Reach gl debug (record { heap = heap; header = header; tcache = λ ind. [] }) (λ ptr. none)
  allocated :
      (s s' : Slab H) (used : Used) (size ptr : ℕ)
      → Reach gl debug s used
      → size ≤ 2 ^ 35 - 8
      → slab_alloc gl debug size s ≡ ok (ptr, s')
      → Reach gl debug s' (update used ptr (some size))
  freed :
      (s s' : Slab H) (used : Used) (ptr n : ℕ)
      → Reach gl debug s used
      → used ptr ≡ some n
      → slab_dealloc gl debug ptr s ≡ ok s'
      → Reach gl debug s' (update used ptr none)

module _ {H : Type 0} (gl : GlobalNew H) (live : H → ℕ → ℕ → Type 0) (laws : GlobalLaws gl live)
    (debug : Bool) where
  started-IsSound :
      (heap : H) (header : ℕ → SlabHeader)
      → IsSound live debug
          (record { heap = heap; header = header; tcache = λ ind. [] })
          (λ ptr. none)
  started-IsSound heap header = record {
    cached = λ ind lt. tt;
    distinct = λ ind lt. tt;
    in_use = λ ptr n e. absurd cc;
  }

  ok-inj : {A : Type 0} {a b : A} → ◌≡◌ {A = Outcome A} (ok a) (ok b) → a ≡ b
  ok-inj e = cc

  abort-ok : {A B : Type 0} {a : A} → ◌≡◌ {A = Outcome A} abort (ok a) → B
  abort-ok e = absurd cc

  -- Every state that calls lead to is sound.
  pub Reach-IsSound : (s : Slab H) (used : Used) → Reach gl debug s used → IsSound live debug s used
  Reach-IsSound _ _ (started heap header) = started-IsSound heap header
  Reach-IsSound _ _ (allocated s s' used size ptr before fits runs) =
      elim (slab_alloc_lem gl live laws debug s used (Reach-IsSound s used before) size fits) [
        | inl (refused, none_left) ↦ abort-ok (sym refused ∙ runs)
        | inr (ptr1, s1, runs1, fresh, sound) ↦
            subst (λ (r : ℕ × Slab H). IsSound live debug r.1 (update used r.0 (some size)))
              (ok-inj (sym runs1 ∙ runs)) sound
      ]
  Reach-IsSound _ _ (freed s s' used ptr n before held runs) =
      let (s1, runs1, sound) =
        slab_dealloc_lem gl live laws debug s used (Reach-IsSound s used before) ptr n held in
      subst (λ r. IsSound live debug r (update used ptr none)) (ok-inj (sym runs1 ∙ runs)) sound

  -- With an `operator new` and `operator delete` that keep their laws, and after any sequence of calls
  -- with sizes up to 2^35 - 8 that frees only what is held: the memory of two pointers that the client
  -- holds, as long as it asked for, does not overlap, and freeing any of them ends without a failed
  -- assertion.
  pub Reach-apart :
      (s : Slab H) (used : Used) (p q m n : ℕ)
      → Reach gl debug s used
      → used p ≡ some m
      → used q ≡ some n
      → p ≢ q
      → ((p + m ≤ q) ⊎ (q + n ≤ p)) × (s' : Slab H) × (slab_dealloc gl debug p s ≡ ok s')
  Reach-apart s used p q m n reach hp hq ne =
      let sound = Reach-IsSound s used reach in
      let (s', runs, after) = slab_dealloc_lem gl live laws debug s used sound p m hp in
      (Block-apart laws s p q m n (sound.in_use p m hp) (sound.in_use q n hq) ne, s', runs)
