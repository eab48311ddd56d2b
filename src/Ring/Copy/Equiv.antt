-- ===== src/Ring/Copy/Equiv.antt =====
-- The unrolled element copies of src/common/include/ring.hpp, beside the plain loop of Loops.antt.
use native.Mathlib.Nat.{one-le-pow, div-add-mod', div-le_self}
use sqkio.Common.{
  ℕ, suc, ◌+◌, ◌-◌, ◌*◌, ◌/◌, ◌%◌, ◌^◌, ◌≤◌, ◌<◌, ◌≡◌, refl, sym, ◌∙◌, bit_and, bit_and_mask,
  bit_and_round_down, lt→ltb, le→ltb, arith,
}
use sqkio.Common.Word.{add32}
use sqkio.Outcome.{ok}
use sqkio.Ring.Copy.{Mem, Assign, Cursor, copy_elems, rounds, fall_through, to_end, up_to}
use native.Mathlib.Decide.{dec_lt}
use sqkio.Ring.Copy.Loops

module _ {ℓ} {W : Type ℓ} (assign : Assign W) where
  -- Where the words lie in one run: the rounds and the switch together copy all of them.
  copy_elems_inside :
      (e size idx n : ℕ) (m : Mem W)
      → e ≤ 31
      → idx + n < size
      → size ≤ 2 ^ 31
      → copy_elems assign (2 ^ e) size idx n m
        ≡ ok (record { i = n; idx = idx + n; mem = Loops.straight assign n 0 idx m })
  unfolding copy_elems
  copy_elems_inside e size idx n m he h hs =
      rw (sum, lt→ltb _ _ h, low, high, by_rounds, by_switch) (rw (sym joined))
    where
      done : ℕ
      done = n / 2 ^ e * 2 ^ e

      rest : ℕ
      rest = n % 2 ^ e

      before : Mem W
      before = Loops.straight assign done 0 idx m

      sum : add32 idx n ≡ idx + n
      sum = omega arith

      high : bit_and n (2 ^ 32 - 2 ^ e) ≡ done
      high = bit_and_round_down 32 e n (omega arith) (omega arith)

      low : bit_and n (2 ^ e - 1) ≡ rest
      low = bit_and_mask e n

      split : done + rest ≡ n
      split = div-add-mod' n (2 ^ e)

      by_rounds :
          rounds assign (n + 1) (2 ^ e) done (record { i = 0; idx = idx; mem = m })
          ≡ ok (record { i = done; idx = idx + done; mem = before })
      by_rounds =
          Loops.rounds-eq-straight assign (n + 1) (n / 2 ^ e) (2 ^ e) done 0 idx done (idx + done) m
            (omega (arith, div-le_self n (2 ^ e))) (one-le-pow e 2 (omega arith)) refl (omega arith)
            refl (omega (arith, split)) (omega (arith, split))

      by_switch :
          fall_through assign rest (record { i = done; idx = idx + done; mem = before }) ≡ record {
            i = n;
            idx = idx + n;
            mem = Loops.straight assign rest done (idx + done) before;
          }
      by_switch =
          Loops.fall_through-eq-straight assign rest done (idx + done) n (idx + n) before
            (omega (arith, split)) (omega (arith, split)) (omega arith) (omega arith)

      joined : Loops.straight assign n 0 idx m ≡ Loops.straight assign rest done (idx + done) before
      joined =
          Loops.straight-add assign done rest n 0 idx done (idx + done) m (omega (arith, split))
            (omega arith) refl

  -- Where they pass the end of the ring: the two loops.
  copy_elems_past :
      (u size idx n : ℕ) (m : Mem W)
      → idx < size
      → size ≤ idx + n
      → n ≤ size
      → size ≤ 2 ^ 31
      → copy_elems assign u size idx n m
        ≡ ok (record { i = n; idx = idx + n - size; mem = Loops.around assign size n 0 idx m })
  unfolding copy_elems
  copy_elems_past u size idx n m hi h hn hs =
      rw (sum, le→ltb _ _ h, first, second) (rw (sym joined))
    where
      head : ℕ
      head = size - idx

      rest : ℕ
      rest = idx + n - size

      before : Mem W
      before = Loops.straight assign head 0 idx m

      sum : add32 idx n ≡ idx + n
      sum = omega arith

      first :
          to_end assign (size + 1) size (record { i = 0; idx = idx; mem = m })
          ≡ ok (record { i = head; idx = size; mem = before })
      first =
          Loops.to_end-eq-straight assign (size + 1) head 0 idx head size m (omega arith)
            (omega arith) (omega arith) (omega arith) (omega arith)

      second :
          up_to assign (n + 1) n (record { i = head; idx = 0; mem = before })
          ≡ ok (record { i = n; idx = rest; mem = Loops.straight assign rest head 0 before })
      second =
          Loops.up_to-eq-straight assign (n + 1) rest head 0 n rest before (omega arith)
            (omega arith) (omega arith) (omega arith) (omega arith)

      suc_head : suc (head - 1) ≡ head
      suc_head = omega arith

      joined : Loops.around assign size n 0 idx m ≡ Loops.straight assign rest head 0 before
      joined =
          Loops.around-split assign size (head - 1) rest n 0 idx head m (omega arith) (omega arith)
            (omega arith)
          ∙ rw (suc_head) (Loops.around-eq-straight assign size rest head 0 before (omega arith))

  -- A copy of `n` words from position `idx`, inside a ring of at most 2^31 words that has room for
  -- them, unrolled by any power of two up to 2^31: it ends, and leaves the memory that the plain loop
  -- leaves which goes round the ring a word at a time.
  pub copy_elems_lem :
      (e size idx n : ℕ) (m : Mem W)
      → e ≤ 31
      → idx < size
      → n ≤ size
      → size ≤ 2 ^ 31
      → (c : Cursor W) × (copy_elems assign (2 ^ e) size idx n m ≡ ok c)
        × (c.mem ≡ Loops.around assign size n 0 idx m)
  copy_elems_lem e size idx n m he hi hn hs = elim (dec_lt (idx + n) size) [
    | yes h ↦ (
      _,
      copy_elems_inside e size idx n m he h hs,
      sym (Loops.around-eq-straight assign size n 0 idx m (omega arith)),
    )
    | no h ↦ (_, copy_elems_past (2 ^ e) size idx n m hi (omega arith) hn hs, refl)
  ]
