-- ===== src/Ring/Elements/Laws.antt =====
-- `enqueue_elements` and `dequeue_elements` of src/common/include/ring.hpp at every element size, word by
-- word.
use native.Mathlib.Nat.{mul-one, mul-le-mul_right, mul-lt-mul_of_pos_right}
use sqkio.Common.{
  ℕ, ◌*◌, ◌/◌, ◌^◌, ◌≤◌, ◌<◌, ◌≡◌, refl, ap, ◌∙◌, bit_and, ◌==◌, arith, Bool-cases, inl, inr, true,
  false,
}
use sqkio.Outcome.{ok}
use sqkio.Ring.{Ring}
use sqkio.Ring.Copy.{Mem, Cursor, put, get, copy_elems}
use sqkio.Ring.Copy.Result.{written, read, copy_in, copy_out}
use sqkio.Ring.Elements.{enqueue_elements, dequeue_elements, mul32, scale}

-- What a copy of `n` elements at the slot `idx` needs: the slot is in the ring, the words of the
-- whole ring can be counted in 31 bits, and a word is at most as large as an element.
pub record InRing (esize size idx n : ℕ) : Type 0 where
  pub slot : idx < size
  pub few : n ≤ size
  pub words : size * scale esize ≤ 2 ^ 31
  pub whole : 1 ≤ scale esize

scale_8 : (esize : ℕ) → (esize == 8) ≡ true → scale esize ≡ 1
unfolding scale
scale_8 esize e = rw e

scale_16 : (esize : ℕ) → (esize == 8) ≡ false → (esize == 16) ≡ true → scale esize ≡ 1
unfolding scale
scale_16 esize e f = rw (e, f)

scale_32 : (esize : ℕ) → (esize == 8) ≡ false → (esize == 16) ≡ false → scale esize ≡ esize / 4
unfolding scale
scale_32 esize e f = rw (e, f)

fits_one : (size k : ℕ) → size * k ≤ 2 ^ 31 → k ≡ 1 → size ≤ 2 ^ 31
fits_one size k h e = omega (arith, ap (λ (t : ℕ). size * t) e)

-- The products of the general case do not wrap, and the elements lie in the ring.
record NoWrap (size idx n k : ℕ) : Type 0 where
  size_ok : mul32 size k ≡ size * k
  idx_ok : mul32 idx k ≡ idx * k
  n_ok : mul32 n k ≡ n * k
  inside : idx * k < size * k
  few : n * k ≤ size * k

no_wrap :
    (size idx n k : ℕ) → idx < size → n ≤ size → size * k ≤ 2 ^ 31 → 1 ≤ k → NoWrap size idx n k
no_wrap size idx n k hi hn hs pos =
    omega
      (arith, mul-lt-mul_of_pos_right {m = idx} {n = size} {k = k} hi pos, mul-le-mul_right k hn)

module _ {W : Type 0} (esize n head : ℕ) (r : Ring W) where
  abbrev pub slot : ℕ
  slot = bit_and head r.mask

  abbrev EnqueueResult : Mem W → Type 0
  EnqueueResult entries =
      (mem : Mem W) × (enqueue_elements esize r head entries n ≡ ok mem)
      × ((p : ℕ)
          → mem p
            ≡ written (r.size * scale esize) (slot * scale esize) entries (n * scale esize) r.mem p)

  enqueue_8 :
      (entries : Mem W) (c : Cursor W)
      → (esize == 8) ≡ true
      → copy_elems (put entries) 4 r.size slot n r.mem ≡ ok c
      → ((p : ℕ) → c.mem p ≡ written r.size slot entries n r.mem p)
      → EnqueueResult entries
  unfolding enqueue_elements
  enqueue_8 entries c e runs same = (
    c.mem,
    rw (e, runs),
    λ p. rw (scale_8 esize e, mul-one r.size, mul-one slot, mul-one n) (same p),
  )

  enqueue_16 :
      (entries : Mem W) (c : Cursor W)
      → (esize == 8) ≡ false
      → (esize == 16) ≡ true
      → copy_elems (put entries) 2 r.size slot n r.mem ≡ ok c
      → ((p : ℕ) → c.mem p ≡ written r.size slot entries n r.mem p)
      → EnqueueResult entries
  unfolding enqueue_elements
  enqueue_16 entries c e f runs same = (
    c.mem,
    rw (e, f, runs),
    λ p. rw (scale_16 esize e f, mul-one r.size, mul-one slot, mul-one n) (same p),
  )

  enqueue_32 :
      (entries : Mem W) (c : Cursor W) (k : ℕ)
      → (esize == 8) ≡ false
      → (esize == 16) ≡ false
      → esize / 4 ≡ k
      → NoWrap r.size slot n k
      → copy_elems (put entries) 8 (r.size * k) (slot * k) (n * k) r.mem ≡ ok c
      → ((p : ℕ) → c.mem p ≡ written (r.size * k) (slot * k) entries (n * k) r.mem p)
      → EnqueueResult entries
  unfolding enqueue_elements
  enqueue_32 entries c k e f q w runs same = (
    c.mem,
    rw (e, f, q, w.size_ok, w.idx_ok, w.n_ok, runs),
    λ p. rw (scale_32 esize e f ∙ q) (same p),
  )

  -- For every element size of at least 4, a head whose slot is in the ring, no more elements than
  -- slots, and a ring whose words fit 31 bits: `enqueue_elements` ends, puts the words of
  -- the `n` elements into the slots from the head's on, going round, and changes no other word.
  pub enqueue_elements_lem : (entries : Mem W) → InRing esize r.size slot n → EnqueueResult entries
  enqueue_elements_lem entries h = elim (Bool-cases (esize == 8)) [
    | inl e ↦
        let (c, runs, same) =
          copy_in 2 r.size slot n entries r.mem (omega arith) h.slot h.few
            (fits_one r.size _ h.words (scale_8 esize e)) in
        enqueue_8 entries c e runs same
    | inr e ↦ elim (Bool-cases (esize == 16)) [
      | inl f ↦
          let (c, runs, same) =
            copy_in 1 r.size slot n entries r.mem (omega arith) h.slot h.few
              (fits_one r.size _ h.words (scale_16 esize e f)) in
          enqueue_16 entries c e f runs same
      | inr f ↦
          let k = scale_32 esize e f in
          let w =
            no_wrap r.size slot n (esize / 4) h.slot h.few (rw k at h.words) (rw k at h.whole) in
          let (c, runs, same) =
            copy_in 3 (r.size * (esize / 4)) (slot * (esize / 4)) (n * (esize / 4)) entries r.mem
              (omega arith) w.inside w.few (rw k at h.words) in
          enqueue_32 entries c (esize / 4) e f refl w runs same
    ]
  ]

  abbrev DequeueResult : Mem W → Type 0
  DequeueResult entries =
      (mem : Mem W) × (dequeue_elements esize r head entries n ≡ ok mem)
      × ((q : ℕ)
          → mem q
            ≡ read (r.size * scale esize) (slot * scale esize) r.mem (n * scale esize) entries q)

  dequeue_8 :
      (entries : Mem W) (c : Cursor W)
      → (esize == 8) ≡ true
      → copy_elems (get r.mem) 4 r.size slot n entries ≡ ok c
      → ((q : ℕ) → c.mem q ≡ read r.size slot r.mem n entries q)
      → DequeueResult entries
  unfolding dequeue_elements
  dequeue_8 entries c e runs same = (
    c.mem,
    rw (e, runs),
    λ q. rw (scale_8 esize e, mul-one r.size, mul-one slot, mul-one n) (same q),
  )

  dequeue_16 :
      (entries : Mem W) (c : Cursor W)
      → (esize == 8) ≡ false
      → (esize == 16) ≡ true
      → copy_elems (get r.mem) 2 r.size slot n entries ≡ ok c
      → ((q : ℕ) → c.mem q ≡ read r.size slot r.mem n entries q)
      → DequeueResult entries
  unfolding dequeue_elements
  dequeue_16 entries c e f runs same = (
    c.mem,
    rw (e, f, runs),
    λ q. rw (scale_16 esize e f, mul-one r.size, mul-one slot, mul-one n) (same q),
  )

  dequeue_32 :
      (entries : Mem W) (c : Cursor W) (k : ℕ)
      → (esize == 8) ≡ false
      → (esize == 16) ≡ false
      → esize / 4 ≡ k
      → NoWrap r.size slot n k
      → copy_elems (get r.mem) 8 (r.size * k) (slot * k) (n * k) entries ≡ ok c
      → ((q : ℕ) → c.mem q ≡ read (r.size * k) (slot * k) r.mem (n * k) entries q)
      → DequeueResult entries
  unfolding dequeue_elements
  dequeue_32 entries c k e f q w runs same = (
    c.mem,
    rw (e, f, q, w.size_ok, w.idx_ok, w.n_ok, runs),
    λ q'. rw (scale_32 esize e f ∙ q) (same q'),
  )

  -- For every element size of at least 4, a head whose slot is in the ring, no more elements than
  -- slots, and a ring whose words fit 31 bits: `dequeue_elements` ends, reads the words of
  -- the `n` elements from the slots from the head's on, going round, and changes no word of the
  -- entries behind them.
  pub dequeue_elements_lem : (entries : Mem W) → InRing esize r.size slot n → DequeueResult entries
  dequeue_elements_lem entries h = elim (Bool-cases (esize == 8)) [
    | inl e ↦
        let (c, runs, same) =
          copy_out 2 r.size slot n r.mem entries (omega arith) h.slot h.few
            (fits_one r.size _ h.words (scale_8 esize e)) in
        dequeue_8 entries c e runs same
    | inr e ↦ elim (Bool-cases (esize == 16)) [
      | inl f ↦
          let (c, runs, same) =
            copy_out 1 r.size slot n r.mem entries (omega arith) h.slot h.few
              (fits_one r.size _ h.words (scale_16 esize e f)) in
          dequeue_16 entries c e f runs same
      | inr f ↦
          let k = scale_32 esize e f in
          let w =
            no_wrap r.size slot n (esize / 4) h.slot h.few (rw k at h.words) (rw k at h.whole) in
          let (c, runs, same) =
            copy_out 3 (r.size * (esize / 4)) (slot * (esize / 4)) (n * (esize / 4)) r.mem entries
              (omega arith) w.inside w.few (rw k at h.words) in
          dequeue_32 entries c (esize / 4) e f refl w runs same
    ]
  ]
