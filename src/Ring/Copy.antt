-- ===== src/Ring/Copy.antt =====
-- The element copies of src/common/include/ring.hpp: `enqueue_elems_32`, `_64`, `_128` and the
-- `dequeue_elems` of the same widths. Each is unrolled by a number of words, finishes by a switch
-- whose cases fall through, and goes round the end of the ring in two loops of their own.
-- A memory is a function of the word's index, so a write past an end would show in it.
pub mod Loops
pub mod Equiv
pub mod Effect
pub mod Result
use sqkio.Common.{
  ℕ, zero, suc, ◌+◌, ◌-◌, ◌*◌, ◌^◌, bit_and, ltb, ◌==◌, if◌then◌else◌, Bool, true, false,
}
use sqkio.Common.Word.{add32}
use sqkio.Outcome.{Outcome, ok, hang, ◌>>=◌}

abbrev pub Mem {ℓ} : Type ℓ → Type ℓ
Mem W = ℕ → W

abbrev pub store {ℓ} : {W : Type ℓ} → Mem W → ℕ → W → Mem W
store m p v q = if p == q then v else m q

-- The assignment in the loops, at `i` in the entries and `idx` in the ring, to the memory that the
-- copy writes.
abbrev pub Assign {ℓ} : Type ℓ → Type ℓ
Assign W = ℕ → ℕ → Mem W → Mem W

-- `ring[idx] = obj[i]`
abbrev pub put {ℓ} : {W : Type ℓ} → Mem W → Assign W
put obj i idx ring = store ring idx (obj i)

-- `obj[i] = ring[idx]`
abbrev pub get {ℓ} : {W : Type ℓ} → Mem W → Assign W
get ring i idx obj = store obj i (ring idx)

-- The variables of a copy, with the memory that it writes.
pub record Cursor {ℓ} (W : Type ℓ) : Type ℓ where
  pub i : ℕ
  pub idx : ℕ
  pub mem : Mem W

module _ {ℓ} {W : Type ℓ} (assign : Assign W) where
  -- The `u` assignments of an unrolled round, at `i + 0`, …, `i + (u - 1)`.
  unfoldable pub unrolled : ℕ → ℕ → ℕ → Mem W → Mem W
  unrolled zero i idx m = m
  unrolled (suc u) i idx m = unrolled u (add32 i 1) (add32 idx 1) (assign i idx m)

  -- `for (; i < stop; i += u, idx += u)`
  unfoldable pub rounds : ℕ → ℕ → ℕ → Cursor W → Outcome (Cursor W)
  rounds zero u stop c = hang
  rounds (suc fuel) u stop c = elim (ltb c.i stop) [
    | true ↦
        rounds fuel u stop
          (record { i = add32 c.i u; idx = add32 c.idx u; mem = unrolled u c.i c.idx c.mem })
    | false ↦ ok c
  ]

  -- Entered at case `k` the switch runs `k` times `i++` and `idx++` with the assignment.
  unfoldable pub fall_through : ℕ → Cursor W → Cursor W
  fall_through zero c = c
  fall_through (suc k) c =
      fall_through k (record { i = add32 c.i 1; idx = add32 c.idx 1; mem = assign c.i c.idx c.mem })

  -- `for (; idx < size; i++, idx++)`
  unfoldable pub to_end : ℕ → ℕ → Cursor W → Outcome (Cursor W)
  to_end zero size c = hang
  to_end (suc fuel) size c = elim (ltb c.idx size) [
    | true ↦
        to_end fuel size
          (record { i = add32 c.i 1; idx = add32 c.idx 1; mem = assign c.i c.idx c.mem })
    | false ↦ ok c
  ]

  -- `for (; i < n; i++, idx++)`
  unfoldable pub up_to : ℕ → ℕ → Cursor W → Outcome (Cursor W)
  up_to zero n c = hang
  up_to (suc fuel) n c = elim (ltb c.i n) [
    | true ↦
        up_to fuel n (record { i = add32 c.i 1; idx = add32 c.idx 1; mem = assign c.i c.idx c.mem })
    | false ↦ ok c
  ]

  -- The body that the six functions share, unrolled by `u`: `n & ~(u - 1)` words in rounds and
  -- `n & (u - 1)` by the switch, or in two runs round the end of the ring.
  unfoldable pub copy_elems : ℕ → ℕ → ℕ → ℕ → Mem W → Outcome (Cursor W)
  unfolding unrolled rounds fall_through to_end up_to
  copy_elems u size idx n m =
      if ltb (add32 idx n) size
      then (do
        c ← rounds (n + 1) u (bit_and n (2 ^ 32 - u)) (record { i = 0; idx = idx; mem = m })
        ok (fall_through (bit_and n (u - 1)) c))
      else (do
        c ← to_end (size + 1) size (record { i = 0; idx = idx; mem = m })
        up_to (n + 1) n (record c { idx = 0 }))

-- The functions over the ring's words. Those of 64 and 128 bits take the element's position and
-- mask it; that of 32 bits takes the word's index.
module _ {ℓ} {W : Type ℓ} where
  unfoldable pub enqueue_elems_32 : ℕ → ℕ → Mem W → ℕ → Mem W → Outcome (Mem W)
  enqueue_elems_32 size idx obj n ring = do c ← copy_elems (put obj) 8 size idx n ring; ok c.mem

  unfoldable pub enqueue_elems_64 : ℕ → ℕ → ℕ → Mem W → ℕ → Mem W → Outcome (Mem W)
  enqueue_elems_64 size mask prod_head obj n ring = do
    c ← copy_elems (put obj) 4 size (bit_and prod_head mask) n ring
    ok c.mem

  unfoldable pub enqueue_elems_128 : ℕ → ℕ → ℕ → Mem W → ℕ → Mem W → Outcome (Mem W)
  enqueue_elems_128 size mask prod_head obj n ring = do
    c ← copy_elems (put obj) 2 size (bit_and prod_head mask) n ring
    ok c.mem

  unfoldable pub dequeue_elems_32 : ℕ → ℕ → Mem W → ℕ → Mem W → Outcome (Mem W)
  dequeue_elems_32 size idx ring n obj = do c ← copy_elems (get ring) 8 size idx n obj; ok c.mem

  unfoldable pub dequeue_elems_64 : ℕ → ℕ → ℕ → Mem W → ℕ → Mem W → Outcome (Mem W)
  dequeue_elems_64 size mask cons_head ring n obj = do
    c ← copy_elems (get ring) 4 size (bit_and cons_head mask) n obj
    ok c.mem

  unfoldable pub dequeue_elems_128 : ℕ → ℕ → ℕ → Mem W → ℕ → Mem W → Outcome (Mem W)
  dequeue_elems_128 size mask cons_head ring n obj = do
    c ← copy_elems (get ring) 2 size (bit_and cons_head mask) n obj
    ok c.mem
