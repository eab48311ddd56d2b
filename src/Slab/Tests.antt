-- ===== src/Slab/Tests.antt =====
-- Runs of the sizes of src/common/include/allocator.hpp, and the theorems about `SlabPoolAllocator` over
-- an `operator new` of pages that are not used again.
use native.Mathlib.Decide.{dec_lt}
use sqkio.Common.{
  ℕ, suc, ◌+◌, ◌*◌, ◌^◌, ◌≤◌, ◌<◌, ◌≡◌, ◌⊎◌, inl, inr, refl, true, ◌&&◌, ltb, if◌then◌else◌, [],
  ◌∷◌, none, some, arith,
}
use sqkio.Outcome.{given, ok, abort, ◌>>=◌}
use sqkio.Common.Update.{update}
use sqkio.Slab.{
  GlobalNew, SlabHeader, Slab, slab_alloc, slab_dealloc, slab_overhead, roundup, size2ind,
  slow_path,
}
use sqkio.Slab.Sound.{GlobalLaws, Used, IsSound}
use sqkio.Slab.Alloc.{AllocResult, slab_alloc_lem}
use sqkio.Slab.Dealloc.{slab_dealloc_lem}
use sqkio.Slab.Reach.{Reach, started, allocated, Reach-IsSound, Reach-apart}
use sqkio.Slab.Truncated.{slab_alloc-same}
use sqkio.Slab.RoundTrip.{dealloc-alloc}
use sqkio.Slab.Operators.{operator_new, operator_new_nothrow, operator_delete}
use sqkio.Slab.Operators.Laws.{operator_new_lem}

-- Pages of 2^20 bytes, the next one each time, 2^20 of them.
abbrev pages : GlobalNew ℕ
pages = record {
  new = λ (h : ℕ) (n : ℕ).
      if ltb h (2 ^ 20) && ltb n (2 ^ 20) then some (suc h * 2 ^ 20, suc h) else none;
  delete = λ (h : ℕ) (p : ℕ). h;
}

abbrev Live : ℕ → ℕ → ℕ → Type 0
Live h b n = (j : ℕ) × (b ≡ suc j * 2 ^ 20) × (j < h) × (n ≤ 2 ^ 20)

new-some :
    (h h' n b : ℕ)
    → pages.new h n ≡ some (b, h')
    → (b ≡ suc h * 2 ^ 20) × (h' ≡ suc h) × (h < 2 ^ 20) × (n < 2 ^ 20)
new-some h h' n b e = ground arith

roundup_runs : (roundup 1 ≡ 8) × (roundup 16 ≡ 16) × (size2ind (roundup 17) ≡ 3)
unfolding roundup size2ind
roundup_runs = (refl, refl, refl)

pages-GlobalLaws : GlobalLaws pages Live
pages-GlobalLaws = record {
  new-live = λ h h' n b e.
      let (at, next, more, small) = new-some h h' n b e in
      (h, at, omega (arith, next), omega (arith, small));
  new-fresh = λ h h' n b m e (j, at, below, small).
      let (at', next, more, small') = new-some h h' n b e in omega (arith, at, at', below);
  new-keep = λ h h' n b q m e (j, at, below, small).
      let (at', next, more, small') = new-some h h' n b e in
      (j, at, omega (arith, next, below), small);
  new-space = λ h h' n b e.
      let (at, next, more, small) = new-some h h' n b e in omega (arith, at, more, small);
  delete-keep = λ h p q m ne l. l;
  apart = λ h p q m n (i, at, below, small) (j, at', below', small') ne. elim (dec_lt i j) [
    | yes lt ↦ inl (omega (arith, at, at', small, lt))
    | no ge ↦ elim (dec_lt j i) [
      | yes gt ↦ inr (omega (arith, at, at', small', gt))
      | no le ↦ absurd (ne (omega (arith, at, at', ge, le)))
    ]
  ];
}

-- A thread that starts, and after one and two calls for 16 bytes.
abbrev thread_0 : Slab ℕ
thread_0 = record { heap = 0; header = λ p. record { ind = 0; magic = 0 }; tcache = λ ind. [] }

abbrev header_16 : SlabHeader
header_16 = record { ind = 2; magic = 0xaa55 }

abbrev thread_1 : Slab ℕ
thread_1 = record thread_0 { heap = 1; header = update thread_0.header (2 ^ 20) header_16 }

abbrev thread_2 : Slab ℕ
thread_2 = record thread_0 { heap = 2; header = update thread_1.header (2 * 2 ^ 20) header_16 }

abbrev used_0 : Used
used_0 = λ p. none

abbrev used_1 : Used
used_1 = update used_0 (2 ^ 20 + 8) (some 16)

abbrev used_2 : Used
used_2 = update used_1 (2 * 2 ^ 20 + 8) (some 16)

first_call : slab_alloc pages true 16 thread_0 ≡ ok (2 ^ 20 + 8, thread_1)
unfolding slab_alloc slow_path roundup size2ind
first_call = refl

second_call : slab_alloc pages true 16 thread_1 ≡ ok (2 * 2 ^ 20 + 8, thread_2)
unfolding slab_alloc slow_path roundup size2ind
second_call = refl

Reach-thread_1 : Reach pages true thread_1 used_1
Reach-thread_1 =
    allocated thread_0 thread_1 used_0 16 (2 ^ 20 + 8) (started 0 thread_0.header) (omega arith)
      first_call

Reach-thread_2 : Reach pages true thread_2 used_2
Reach-thread_2 =
    allocated thread_1 thread_2 used_1 16 (2 * 2 ^ 20 + 8) Reach-thread_1 (omega arith) second_call

Reach-apart_example :
    ((2 ^ 20 + 8 + 16 ≤ 2 * 2 ^ 20 + 8) ⊎ (2 * 2 ^ 20 + 8 + 16 ≤ 2 ^ 20 + 8))
    × (s' : Slab ℕ) × (slab_dealloc pages true (2 ^ 20 + 8) thread_2 ≡ ok s')
Reach-apart_example =
    Reach-apart pages Live pages-GlobalLaws true thread_2 used_2 (2 ^ 20 + 8) (2 * 2 ^ 20 + 8) 16 16
      Reach-thread_2 refl refl (omega arith)

slab_alloc_lem_example : AllocResult pages Live true thread_2 used_2 100
slab_alloc_lem_example =
    slab_alloc_lem pages Live pages-GlobalLaws true thread_2 used_2
      (Reach-IsSound pages Live pages-GlobalLaws true thread_2 used_2 Reach-thread_2) 100
      (omega arith)

slab_dealloc_lem_example :
    (s' : Slab ℕ) × (slab_dealloc pages true (2 ^ 20 + 8) thread_2 ≡ ok s')
    × IsSound Live true s' (update used_2 (2 ^ 20 + 8) none)
slab_dealloc_lem_example =
    slab_dealloc_lem pages Live pages-GlobalLaws true thread_2 used_2
      (Reach-IsSound pages Live pages-GlobalLaws true thread_2 used_2 Reach-thread_2) (2 ^ 20 + 8)
      16 refl

-- The first block given back: it is on the stack of its class.
abbrev thread_3 : Slab ℕ
thread_3 = record thread_2 { tcache = update thread_2.tcache 2 ((2 ^ 20 + 8) ∷ []) }

slab_alloc-same_example :
    (slab_alloc pages true (2 ^ 35 + 16) thread_3 ≡ slab_alloc pages true 16 thread_3)
    × (slab_alloc pages true 16 thread_3
        ≡ ok (
          2 ^ 20 + 8,
          record thread_3 { tcache = update thread_3.tcache (size2ind (roundup 16)) [] },
        ))
slab_alloc-same_example =
    slab_alloc-same pages true thread_3 16 (2 ^ 20 + 8) [] (omega arith)
      (unfold size2ind in (unfold roundup in refl))

operator_new_lem_example :
    ((operator_new pages true 100 thread_2 ≡ abort)
      × (operator_new_nothrow pages true 100 thread_2 ≡ abort)
      × (pages.new 2 (roundup 100 + slab_overhead) ≡ none))
    ⊎ ((ptr : ℕ) × (s' : Slab ℕ) × (operator_new pages true 100 thread_2 ≡ ok (given ptr, s'))
        × (operator_new_nothrow pages true 100 thread_2 ≡ ok (ptr, s'))
        × (0 < ptr)
        × (used_2 ptr ≡ none)
        × (s'' : Slab ℕ) × (operator_delete pages true ptr s' ≡ ok s'')
        × IsSound Live true s'' (update (update used_2 ptr (some 100)) ptr none))
operator_new_lem_example =
    operator_new_lem pages Live pages-GlobalLaws true thread_2 used_2
      (Reach-IsSound pages Live pages-GlobalLaws true thread_2 used_2 Reach-thread_2) 100
      (omega arith)

dealloc-alloc_example :
    (slab_dealloc pages true (2 ^ 20 + 8) thread_2 >>= slab_alloc pages true 11)
    ≡ ok (2 ^ 20 + 8, thread_2)
unfolding roundup size2ind
dealloc-alloc_example =
    dealloc-alloc pages Live true thread_2 used_2
      (Reach-IsSound pages Live pages-GlobalLaws true thread_2 used_2 Reach-thread_2) 11
      (2 ^ 20 + 8) 16 refl refl (omega arith)
