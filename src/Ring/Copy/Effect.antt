-- ===== src/Ring/Copy/Effect.antt =====
-- The words of a memory after the plain loop of Loops.antt, for both directions of the element
-- copies of src/common/include/ring.hpp.
use sqkio.Common.{
  ℕ, zero, suc, ◌+◌, ◌-◌, ◌≤◌, ◌<◌, ◌≡◌, ◌≢◌, ap, ◌∙◌, ltb, leb, ◌==◌, if◌then◌else◌, ◌&&◌, arith,
}
use native.Mathlib.Decide.{ℕ_discrete, dec_lt}
use sqkio.Ring.Copy.{Mem, store, put, get}
use sqkio.Ring.Copy.Loops.{around}

-- How many words past `idx` the word `p` lies, going round.
abbrev pub ahead : ℕ → ℕ → ℕ → ℕ
ahead size idx p = if leb idx p then p - idx else p + size - idx

-- The word `j` past `idx`, going round.
abbrev pub past : ℕ → ℕ → ℕ → ℕ
past size idx j = if ltb (idx + j) size then idx + j else idx + j - size

-- The position after `idx`, going round.
abbrev pub after : ℕ → ℕ → ℕ
after size idx = if idx + 1 == size then 0 else idx + 1

after-lt : (size idx : ℕ) → idx < size → after size idx < size
after-lt size idx h = ground arith

ahead-after :
    (size idx p : ℕ)
    → idx < size
    → p < size
    → p ≢ idx
    → ahead size idx p ≡ ahead size (after size idx) p + 1
ahead-after size idx p h hp ne = ground arith

ahead-after_self : (size idx : ℕ) → idx < size → ahead size (after size idx) idx + 1 ≡ size
ahead-after_self size idx h = ground arith

past-after :
    (size idx j : ℕ)
    → idx < size
    → suc j < size
    → past size (after size idx) j ≡ past size idx (suc j)
past-after size idx j h hj = ground arith

module _ {W : Type 0} where
  -- Into the ring: the `n` words from `idx` on, round the end, and no other.
  pub around-put :
      (size n i idx : ℕ) (obj ring : Mem W) (p : ℕ)
      → idx < size
      → n ≤ size
      → around (put obj) size n i idx ring p
        ≡ (if ltb p size && ltb (ahead size idx p) n then obj (i + ahead size idx p) else ring p)
  around-put size zero i idx obj ring p h hn = ground arith
  around-put size (suc n) i idx obj ring p h hn =
      around-put size n (i + 1) (after size idx) obj (store ring idx (obj i)) p
        (after-lt size idx h) (omega arith)
      ∙ elim (ℕ_discrete p idx) [
        | yes e ↦ rw e (ground (arith, ahead-after_self size idx h, ap obj (i0)))
        | no ne ↦ elim (dec_lt p size) [
          | yes lt ↦ ground (arith, ahead-after size idx p h lt ne, ap obj (shift lt ne))
          | no ge ↦ ground arith
        ]
      ]
    where
      i0 : i + (idx - idx) ≡ i
      i0 = omega arith

      shift : p < size → p ≢ idx → i + 1 + ahead size (after size idx) p ≡ i + ahead size idx p
      shift lt ne = omega (arith, ahead-after size idx p h lt ne)

  -- Out of the ring: the entries `i` to `i + n - 1`, and no other.
  pub around-get :
      (size n i idx : ℕ) (ring obj : Mem W) (q : ℕ)
      → idx < size
      → n ≤ size
      → around (get ring) size n i idx obj q
        ≡ (if leb i q && ltb q (i + n) then ring (past size idx (q - i)) else obj q)
  around-get size zero i idx ring obj q h hn = ground arith
  around-get size (suc n) i idx ring obj q h hn =
      around-get size n (i + 1) (after size idx) ring (store obj i (ring idx)) q
        (after-lt size idx h) (omega arith)
      ∙ elim (ℕ_discrete q i) [
        | yes e ↦ rw e (ground (arith, ap ring (x0)))
        | no ne ↦ elim (dec_lt i q) [
          | yes lt ↦ elim (dec_lt q (i + suc n)) [
            | yes below ↦ ground (arith, ap ring (shift lt below))
            | no above ↦ ground arith
          ]
          | no ge ↦ ground arith
        ]
      ]
    where
      x0 : past size idx (i - i) ≡ idx
      x0 = ground arith

      shift :
          i < q → q < i + suc n → past size (after size idx) (q - (i + 1)) ≡ past size idx (q - i)
      shift lt below =
          past-after size idx (q - (i + 1)) h (omega arith) ∙ ap (past size idx) (succ lt)
        where
          succ : i < q → suc (q - (i + 1)) ≡ q - i
          succ l = omega arith
