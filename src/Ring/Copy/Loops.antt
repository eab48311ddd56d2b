-- ===== src/Ring/Copy/Loops.antt =====
-- The loops of the element copies of src/common/include/ring.hpp, beside plain ones whose counters are
-- unbounded numbers.
use sqkio.Common.{
  ℕ, zero, suc, ◌+◌, ◌*◌, ◌^◌, ◌≤◌, ◌<◌, ◌≡◌, refl, ltb, lt→ltb, le→ltb, ◌==◌, if◌then◌else◌, arith,
  true, false,
}
use sqkio.Common.Word.{add32}
use sqkio.Outcome.{ok}
use sqkio.Ring.Copy.{Mem, Assign, unrolled, rounds, fall_through, to_end, up_to}

module _ {ℓ} {W : Type ℓ} (assign : Assign W) where
  -- `n` words one after the other.
  abbrev pub straight : ℕ → ℕ → ℕ → Mem W → Mem W
  straight zero i idx m = m
  straight (suc n) i idx m = straight n (i + 1) (idx + 1) (assign i idx m)

  -- The plain loop: after the last word of the ring comes the first.
  abbrev pub around : ℕ → ℕ → ℕ → ℕ → Mem W → Mem W
  around size zero i idx m = m
  around size (suc n) i idx m =
      around size n (i + 1) (if idx + 1 == size then 0 else idx + 1) (assign i idx m)

  pub straight-add :
      (a b c i idx j jdx : ℕ) (m : Mem W)
      → c ≡ a + b
      → j ≡ i + a
      → jdx ≡ idx + a
      → straight c i idx m ≡ straight b j jdx (straight a i idx m)
  straight-add zero b c i idx j jdx m ec ej ex =
      let ec' : c ≡ b = omega arith in
      let ej' : j ≡ i = omega arith in let ex' : jdx ≡ idx = omega arith in rw (ec', ej', ex')
  straight-add (suc a) b zero i idx j jdx m ec ej ex = absurd (omega arith)
  straight-add (suc a) b (suc c) i idx j jdx m ec ej ex =
      straight-add a b c (i + 1) (idx + 1) j jdx (assign i idx m) (omega arith) (omega arith)
        (omega arith)

  unrolled-eq-straight :
      (u i idx : ℕ) (m : Mem W)
      → i + u < 2 ^ 32
      → idx + u < 2 ^ 32
      → unrolled assign u i idx m ≡ straight u i idx m
  unfolding unrolled
  unrolled-eq-straight zero i idx m p q = refl
  unrolled-eq-straight (suc u) i idx m p q =
      let ei : add32 i 1 ≡ i + 1 = omega arith in
      let ex : add32 idx 1 ≡ idx + 1 = omega arith in
      rw (ei, ex)
        (unrolled-eq-straight u (i + 1) (idx + 1) (assign i idx m) (omega arith) (omega arith))

  -- `r` rounds of `u` words.
  pub rounds-eq-straight :
      (fuel r u k i idx j jdx : ℕ) (m : Mem W)
      → r < fuel
      → 0 < u
      → k ≡ r * u
      → j ≡ i + k
      → jdx ≡ idx + k
      → j < 2 ^ 32
      → jdx < 2 ^ 32
      → rounds assign fuel u j (record { i = i; idx = idx; mem = m })
        ≡ ok (record { i = j; idx = jdx; mem = straight k i idx m })
  unfolding rounds
  rounds-eq-straight zero r u k i idx j jdx m h pos ek ej ex fi fx = absurd (omega arith)
  rounds-eq-straight (suc fuel) zero u k i idx j jdx m h pos ek ej ex fi fx =
      let k0 : k ≡ 0 = omega arith in
      let ei : j ≡ i = omega arith in
      let ei' : jdx ≡ idx = omega arith in rw (k0, ei, ei', rounds, le→ltb i i (omega arith))
  rounds-eq-straight (suc fuel) (suc r) u k i idx j jdx m h pos ek ej ex fi fx =
      let more : ltb i j ≡ true = lt→ltb i j (omega arith) in
      let ei : add32 i u ≡ i + u = omega arith in
      let ex' : add32 idx u ≡ idx + u = omega arith in
      let once : unrolled assign u i idx m ≡ straight u i idx m =
        unrolled-eq-straight u i idx m (omega arith) (omega arith) in
      let joined : straight k i idx m ≡ straight (r * u) (i + u) (idx + u) (straight u i idx m) =
        straight-add u (r * u) k i idx (i + u) (idx + u) m (omega arith) refl refl in
      rw (rounds, more, ei, ex', once, joined)
        (rounds-eq-straight fuel r u (r * u) (i + u) (idx + u) j jdx (straight u i idx m)
          (omega arith) pos refl (omega arith) (omega arith) fi fx)

  pub fall_through-eq-straight :
      (k i idx j jdx : ℕ) (m : Mem W)
      → j ≡ i + k
      → jdx ≡ idx + k
      → j < 2 ^ 32
      → jdx < 2 ^ 32
      → fall_through assign k (record { i = i; idx = idx; mem = m })
        ≡ record { i = j; idx = jdx; mem = straight k i idx m }
  unfolding fall_through
  fall_through-eq-straight zero i idx j jdx m ej ex fi fx =
      let ei : j ≡ i = omega arith in let ex' : jdx ≡ idx = omega arith in rw (ei, ex')
  fall_through-eq-straight (suc k) i idx j jdx m ej ex fi fx =
      let ei : add32 i 1 ≡ i + 1 = omega arith in
      let ex' : add32 idx 1 ≡ idx + 1 = omega arith in
      rw (ei, ex')
        (fall_through-eq-straight k (i + 1) (idx + 1) j jdx (assign i idx m) (omega arith)
          (omega arith) fi fx)

  pub to_end-eq-straight :
      (fuel k i idx j size : ℕ) (m : Mem W)
      → k < fuel
      → j ≡ i + k
      → size ≡ idx + k
      → j < 2 ^ 32
      → size < 2 ^ 32
      → to_end assign fuel size (record { i = i; idx = idx; mem = m })
        ≡ ok (record { i = j; idx = size; mem = straight k i idx m })
  unfolding to_end
  to_end-eq-straight zero k i idx j size m h ej ex fi fx = absurd (omega arith)
  to_end-eq-straight (suc fuel) zero i idx j size m h ej ex fi fx =
      let ei : j ≡ i = omega arith in
      let ex' : size ≡ idx = omega arith in rw (ei, ex', to_end, le→ltb idx idx (omega arith))
  to_end-eq-straight (suc fuel) (suc k) i idx j size m h ej ex fi fx =
      let ei : add32 i 1 ≡ i + 1 = omega arith in
      let ex' : add32 idx 1 ≡ idx + 1 = omega arith in
      rw (to_end, lt→ltb idx size (omega arith), ei, ex')
        (to_end-eq-straight fuel k (i + 1) (idx + 1) j size (assign i idx m) (omega arith)
          (omega arith) (omega arith) fi fx)

  pub up_to-eq-straight :
      (fuel k i idx n jdx : ℕ) (m : Mem W)
      → k < fuel
      → n ≡ i + k
      → jdx ≡ idx + k
      → n < 2 ^ 32
      → jdx < 2 ^ 32
      → up_to assign fuel n (record { i = i; idx = idx; mem = m })
        ≡ ok (record { i = n; idx = jdx; mem = straight k i idx m })
  unfolding up_to
  up_to-eq-straight zero k i idx n jdx m h ej ex fi fx = absurd (omega arith)
  up_to-eq-straight (suc fuel) zero i idx n jdx m h ej ex fi fx =
      let ei : n ≡ i = omega arith in
      let ex' : jdx ≡ idx = omega arith in rw (ei, ex', up_to, le→ltb i i (omega arith))
  up_to-eq-straight (suc fuel) (suc k) i idx n jdx m h ej ex fi fx =
      let ei : add32 i 1 ≡ i + 1 = omega arith in
      let ex' : add32 idx 1 ≡ idx + 1 = omega arith in
      rw (up_to, lt→ltb i n (omega arith), ei, ex')
        (up_to-eq-straight fuel k (i + 1) (idx + 1) n jdx (assign i idx m) (omega arith)
          (omega arith) (omega arith) fi fx)

  pub around-eq-straight :
      (size n i idx : ℕ) (m : Mem W) → idx + n ≤ size → around size n i idx m ≡ straight n i idx m
  around-eq-straight size zero i idx m h = refl
  around-eq-straight size (suc zero) i idx m h = refl
  around-eq-straight size (suc (suc n)) i idx m h =
      let inside : (idx + 1 == size) ≡ false = ground arith in
      rw inside (around-eq-straight size (suc n) (i + 1) (idx + 1) (assign i idx m) (omega arith))

  -- A walk that passes the end of the ring is a walk to it and one from the start.
  pub around-split :
      (size a b c i idx j : ℕ) (m : Mem W)
      → c ≡ suc a + b
      → j ≡ i + suc a
      → size ≡ idx + suc a
      → around size c i idx m ≡ around size b j 0 (straight (suc a) i idx m)
  around-split size a b zero i idx j m ec ej es = absurd (omega arith)
  around-split size zero b (suc c) i idx j m ec ej es =
      let last : (idx + 1 == size) ≡ true = ground arith in
      let ec' : c ≡ b = omega arith in let ej' : j ≡ i + 1 = omega arith in rw (last, ec', ej')
  around-split size (suc a) b (suc c) i idx j m ec ej es =
      let inside : (idx + 1 == size) ≡ false = ground arith in
      rw inside (
        around-split size a b c (i + 1) (idx + 1) j (assign i idx m) (omega arith) (omega arith)
          (omega arith))
