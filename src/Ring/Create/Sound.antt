-- ===== src/Ring/Create/Sound.antt =====
-- The ring and the buffer that `of` of src/common/include/ring.hpp makes.
use native.Mathlib.Nat.{
  mod-eq_of_lt, one-le-pow, pow-suc, pow-le-pow_right, mul-le-mul_left, mul-le-mul_right,
}
use native.Mathlib.Decide.{dec_le}
use sqkio.Common.{
  ℕ, suc, ◌+◌, ◌-◌, ◌*◌, ◌/◌, ◌%◌, ◌^◌, ◌≤◌, ◌<◌, ◌≡◌, ◌≢◌, inl, refl, sym, ap, ◌∙◌, List, [],
  Option, some, arith,
}
use sqkio.Common.Word.{pow-add}
use sqkio.Outcome.{ok}
use sqkio.Align.{align_ceil}
use sqkio.Align.Laws.{align_ceil_lem}
use sqkio.Ring.{mt_rts, Config, Ring, init}
use sqkio.Ring.Copy.{Mem}
use sqkio.Ring.Elements.{scale}
use sqkio.Ring.Calls.Valid.{contents, IsValid}
use sqkio.Ring.Calls.Refine.{Call, run, queue_run, run_refines}
use sqkio.Ring.Create.{made, ring_bytes, of, freed_bytes}
use sqkio.Ring.Create.Accepts.{slots, slots_small, fresh, of-made}

scale_bounds :
    (esize : ℕ) → esize % 4 ≡ 0 → 0 < esize → (1 ≤ scale esize) × (scale esize ≤ esize / 4)
unfolding scale
scale_bounds esize h pos = ground arith

-- For a count below 2^30 with (2 * cnt + 1) * esize < 2^32, a header below 2^32 bytes and a cache
-- line of 2^c bytes, c ≤ 31: the buffer that `of` asks for holds the header and `cnt` elements.
pub ring_bytes-ge :
    (header c esize cnt : ℕ)
    → c ≤ 31
    → header < 2 ^ 32
    → cnt < 2 ^ 30
    → (2 * cnt + 1) * esize < 2 ^ 32
    → header + cnt * esize ≤ ring_bytes header (2 ^ c) esize (slots cnt)
unfolding ring_bytes
ring_bytes-ge header c esize cnt hc hh h fits =
    let (k, few, same, above, below) = slots_small cnt h in
    omega (
      arith,
      product k same below,
      mul-le-mul_right {m = cnt} {n = slots cnt} esize (omega (arith, same)),
      (align_ceil_lem c (header + slots cnt * esize % 2 ^ 32) (omega arith)
          (omega (arith, pow-le-pow_right {n = 2} (omega arith) hc))).1,
    )
  where
    product :
        (k : ℕ)
        → slots cnt ≡ 2 ^ k
        → 2 ^ k ≤ 2 * cnt + 1
        → slots cnt * esize % 2 ^ 32 ≡ slots cnt * esize
    product k same below = mod-eq_of_lt (
        omega
          (arith, mul-le-mul_right {m = slots cnt} {n = 2 * cnt + 1} esize (omega (arith, same))))

module _ {W : Type 0} (cfg : Config) (k header c : ℕ) (allocate : ℕ → Option (Mem W)) (buf : Mem W)
    (few : k ≤ 29) (whole : cfg.esize % 4 ≡ 0) (positive : 0 < cfg.esize)
    (fits : (2 * 2 ^ k + 1) * cfg.esize < 2 ^ 32) where
  abbrev new_ring : Ring W
  new_ring = fresh header (2 ^ c) cfg.esize allocate (2 ^ k) buf

  fresh-IsValid : IsValid cfg.esize k new_ring
  unfolding init
  fresh-IsValid = omega (
    arith,
    one-le-pow k 2,
    pow-le-pow_right {n = 2} (omega arith) few,
    scale_bounds cfg.esize whole positive,
    mul-le-mul_left {m = scale cfg.esize} {n = cfg.esize / 4} (2 ^ k)
        (scale_bounds cfg.esize whole positive).1,
    mul-le-mul_left {m = 4 * (cfg.esize / 4)} {n = cfg.esize} (2 ^ k) (omega arith),
  )

  fresh-contents : contents cfg.esize new_ring ≡ []
  unfolding init
  fresh-contents = refl

  -- For a count 2^k of at most 2^29 elements of a positive multiple of 4 bytes, whose bytes fit 32
  -- bits with those that rounding adds, a header below 2^32 bytes, a cache line of at most 2^31,
  -- modes other than RTS, any positive fuel and an allocator that has the bytes: `of` makes a
  -- ring, its buffer holds the header and all 2^k elements, every sequence of calls on it returns
  -- what a queue of 2^k - 1 entries returns that starts empty, and `free` hands back the number of
  -- bytes allocated.
  pub of-run :
      (fuel : ℕ) (calls : List (Call W))
      → c ≤ 31
      → header < 2 ^ 32
      → cfg.prod_sync ≢ mt_rts
      → cfg.cons_sync ≢ mt_rts
      → allocate (ring_bytes header (2 ^ c) cfg.esize (slots (2 ^ k))) ≡ some buf
      → (r : Ring W) × (r' : Ring W) × (of header (2 ^ c) cfg.esize allocate (2 ^ k) ≡ made r)
        × (header + r.size * cfg.esize ≤ r.memzone_size)
        × (run cfg (suc fuel) calls r
            ≡ ok ((queue_run (2 ^ k - 1) (scale cfg.esize) calls []).0, r'))
        × (freed_bytes r' ≡ ring_bytes header (2 ^ c) cfg.esize (slots (2 ^ k)))
  unfolding freed_bytes init
  of-run fuel calls hc hh cp cc got =
      let (r', runs, valid, held, same) =
        run_refines cfg k fuel calls new_ring cp cc fresh-IsValid in
      (
        new_ring,
        r',
        of-made header (2 ^ c) cfg.esize allocate (2 ^ k) (omega (arith, low)) (inl low) got,
        ring_bytes-ge header c cfg.esize (2 ^ k) hc hh low fits,
        runs,
        same,
      )
    where
      low : 2 ^ k < 2 ^ 30
      low = omega (arith, pow-le-pow_right {n = 2} (omega arith) few)

-- For elements of 2^e bytes, 2 ≤ e ≤ 31, and a count from 2^(31 - e) to 2^(32 - e) - 1, the buffer
-- that `of` asks for is the header's, rounded up to the cache line: it has no byte for an element.
pub ring_bytes_wrap :
    (header line e cnt : ℕ)
    → 2 ≤ e
    → e ≤ 31
    → 2 ^ (31 - e) ≤ cnt
    → cnt < 2 ^ (32 - e)
    → ring_bytes header line (2 ^ e) (slots cnt) ≡ align_ceil header line
unfolding ring_bytes
ring_bytes_wrap header line e cnt h2 h31 lo hi =
    let (j, few, same, above, below) = slots_small cnt small in
    ap (λ (t : ℕ). align_ceil t line) (nothing (same ∙ ap (λ (t : ℕ). 2 ^ t) (exact j above below)))
  where
    small : cnt < 2 ^ 30
    small =
        omega (arith, pow-le-pow_right {n = 2} (omega arith) {i = 32 - e} {j = 30} (omega arith))

    exact : (j : ℕ) → cnt < 2 ^ j → 2 ^ j ≤ 2 * cnt + 1 → j ≡ 32 - e
    exact j above below = elim (dec_le j (31 - e)) [
      | yes low ↦
          absurd (omega (arith, pow-le-pow_right {n = 2} (omega arith) {i = j} {j = 31 - e} low))
      | no more ↦ elim (dec_le j (32 - e)) [
        | yes right ↦ omega arith
        | no high ↦ absurd (
            omega (
              arith,
              pow-suc 2 (32 - e),
              pow-le-pow_right {n = 2} (omega arith) {i = suc (32 - e)} {j = j} (omega arith),
            ))
      ]
    ]

    nothing : slots cnt ≡ 2 ^ (32 - e) → header + slots cnt * 2 ^ e % 2 ^ 32 ≡ header
    nothing eq = omega (arith, whole, ap (λ (t : ℕ). t % 2 ^ 32) whole)
      where
        sum : 32 - e + e ≡ 32
        sum = omega arith

        whole : slots cnt * 2 ^ e ≡ 2 ^ 32
        whole = ap (λ (t : ℕ). t * 2 ^ e) eq ∙ sym (pow-add (32 - e) e) ∙ ap (λ (t : ℕ). 2 ^ t) sum
