-- ===== src/Ring/Create/Accepts.antt =====
-- The tests that `of` of src/common/include/ring.hpp makes on its count.
use sqkio.Common.{
  ℕ, ◌+◌, ◌-◌, ◌*◌, ◌^◌, ◌≤◌, ◌<◌, ◌≡◌, ◌⊎◌, inl, inr, sym, ap, ◌∙◌, ◌↔◌, ◌≢◌, Option, none, some,
  true, le→ltb, arith,
}
use native.Mathlib.Decide.{dec_lt, dec_le}
use native.Mathlib.Nat.{pow-le-pow_right}
use sqkio.Common.Word.{add32}
use sqkio.Align.{align32pow2, power_of_2}
use sqkio.Align.Laws.{align32pow2_lem, align32pow2_wraps, power_of_2_lem, power_of_2-zero}
use sqkio.Ring.{Ring, init}
use sqkio.Ring.Copy.{Mem}
use sqkio.Ring.Create.{made, einval, bad_alloc, sz_mask, ring_bytes, of}

-- The count of slots that `of` computes, a power of two where it does not wrap to 0.
abbrev pub slots : ℕ → ℕ
slots cnt = align32pow2 (add32 cnt 1)

too_large : (cnt : ℕ) → 2 ^ 31 ≤ cnt → cnt < 2 ^ 32 → (add32 cnt 1 ≡ 0) ⊎ (2 ^ 31 < add32 cnt 1)
too_large cnt lo hi = elim (dec_lt cnt (2 ^ 32 - 1)) [
  | yes below ↦ inr (omega arith)
  | no last ↦ inl (omega arith)
]

-- From 2^31 on the rounded count wraps to 0.
pub slots_wrap : (cnt : ℕ) → 2 ^ 31 ≤ cnt → cnt < 2 ^ 32 → slots cnt ≡ 0
slots_wrap cnt lo hi = align32pow2_wraps (add32 cnt 1) (omega arith) (too_large cnt lo hi)

-- `POWEROF2` never fails on it.
slots-power : (cnt : ℕ) → cnt < 2 ^ 32 → power_of_2 (slots cnt) ≡ true
slots-power cnt h = elim (dec_lt cnt (2 ^ 31)) [
  | yes low ↦
      let (k, few, same, lo, hi) = align32pow2_lem (add32 cnt 1) (omega arith) (omega arith) in
      rw same (power_of_2_lem k (omega arith))
  | no high ↦ ap power_of_2 (slots_wrap cnt (omega arith) h) ∙ power_of_2-zero
]

-- From 2^30 to 2^31 - 1 the count of slots is 2^31, too large.
slots_large : (cnt : ℕ) → 2 ^ 30 ≤ cnt → cnt < 2 ^ 31 → slots cnt ≡ 2 ^ 31
slots_large cnt lo hi =
    let (k, few, same, above, below) = align32pow2_lem (add32 cnt 1) (omega arith) (omega arith) in
    same ∙ ap (λ (t : ℕ). 2 ^ t) (last k few above)
  where
    last : (k : ℕ) → k ≤ 31 → add32 cnt 1 ≤ 2 ^ k → k ≡ 31
    last k few above = elim (dec_le k 30) [
      | yes low ↦ absurd (omega (arith, pow-le-pow_right {n = 2} (omega arith) low))
      | no high ↦ omega arith
    ]

-- Below 2^30 it is the least power of two above `cnt`, so at most 2^30.
pub slots_small :
    (cnt : ℕ)
    → cnt < 2 ^ 30
    → (k : ℕ) × (k ≤ 30) × (slots cnt ≡ 2 ^ k) × (cnt < 2 ^ k) × (2 ^ k ≤ 2 * cnt + 1)
slots_small cnt h =
    let (k, few, same, above, below) = align32pow2_lem (add32 cnt 1) (omega arith) (omega arith) in
    (k, within k few below, same, omega arith, omega arith)
  where
    within : (k : ℕ) → k ≤ 31 → 2 ^ k < 2 * add32 cnt 1 → k ≤ 30
    within k few below = elim (dec_le k 30) [
      | yes low ↦ low
      | no high ↦
          absurd
            (omega (arith, pow-le-pow_right {n = 2} (omega arith) {i = 31} {j = k} (omega arith)))
    ]

module _ {W : Type 0} (header line esize : ℕ) (allocate : ℕ → Option (Mem W)) (cnt : ℕ) where
  abbrev pub bytes : ℕ
  bytes = ring_bytes header line esize (slots cnt)

  -- The ring that `of` makes over the words that it got.
  abbrev pub fresh : Mem W → Ring W
  fresh buf = record (init cnt buf) { memzone_size = bytes }

  accepts :
      cnt < 2 ^ 32
      → slots cnt ≤ sz_mask
      → of header line esize allocate cnt
        ≡ elim (allocate bytes) [ none ↦ bad_alloc | some buf ↦ made (fresh buf) ]
  unfolding of
  accepts h small = rw (slots-power cnt h, le→ltb sz_mask (slots cnt) small)

  slots-le_mask : cnt < 2 ^ 32 → (cnt < 2 ^ 30) ⊎ (2 ^ 31 ≤ cnt) → slots cnt ≤ sz_mask
  slots-le_mask h (inl low) =
      let (k, few, same, above, below) = slots_small cnt low in
      omega (arith, pow-le-pow_right {n = 2} (omega arith) few)
  slots-le_mask h (inr high) = omega (arith, slots_wrap cnt high h)

  -- An accepted count whose bytes the allocator has makes a ring of `cnt` slots.
  pub of-made :
      {buf : Mem W}
      → cnt < 2 ^ 32
      → (cnt < 2 ^ 30) ⊎ (2 ^ 31 ≤ cnt)
      → allocate bytes ≡ some buf
      → of header line esize allocate cnt ≡ made (fresh buf)
  of-made h ok_count got = accepts h (slots-le_mask h ok_count) ∙ rw got

  pub of-bad_alloc :
      cnt < 2 ^ 32
      → (cnt < 2 ^ 30) ⊎ (2 ^ 31 ≤ cnt)
      → allocate bytes ≡ none
      → of header line esize allocate cnt ≡ bad_alloc
  of-bad_alloc h ok_count got = accepts h (slots-le_mask h ok_count) ∙ rw got

  of-einval : 2 ^ 30 ≤ cnt → cnt < 2 ^ 31 → of header line esize allocate cnt ≡ einval
  unfolding of
  of-einval lo hi = rw (slots-power cnt (omega arith), slots_large cnt lo hi)

  -- Of all counts of 32 bits, `of` throws EINVAL for exactly those from 2^30 to 2^31 - 1, whatever the
  -- element size, the cache line and the allocator: counts from 2^31 on are not refused.
  pub of-einval_iff :
      cnt < 2 ^ 32
      → (of header line esize allocate cnt ≡ einval) ↔ ((2 ^ 30 ≤ cnt) × (cnt < 2 ^ 31))
  of-einval_iff h = (only, λ (lo, hi). of-einval lo hi)
    where
      not_einval :
          (o : Option (Mem W)) → elim o [ none ↦ bad_alloc | some buf ↦ made (fresh buf) ] ≢ einval
      not_einval none e = cc
      not_einval (some buf) e = cc

      only : of header line esize allocate cnt ≡ einval → (2 ^ 30 ≤ cnt) × (cnt < 2 ^ 31)
      only e = elim (dec_lt cnt (2 ^ 30)) [
        | yes low ↦ absurd (not_einval _ (sym (accepts h (slots-le_mask h (inl low))) ∙ e))
        | no high ↦ elim (dec_lt cnt (2 ^ 31)) [
          | yes below ↦ (omega arith, below)
          | no above ↦
              absurd (not_einval _ (sym (accepts h (slots-le_mask h (inr (omega arith)))) ∙ e))
        ]
      ]
