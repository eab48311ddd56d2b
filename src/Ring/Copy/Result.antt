-- ===== src/Ring/Copy/Result.antt =====
-- The words of a memory after an element copy of src/common/include/ring.hpp.
use sqkio.Common.{ℕ, ◌+◌, ◌-◌, ◌^◌, ◌≤◌, ◌<◌, ◌≡◌, ap, ◌∙◌, ltb, if◌then◌else◌, ◌&&◌, arith}
use sqkio.Outcome.{ok}
use sqkio.Ring.Copy.{Mem, Cursor, put, get, copy_elems}
use sqkio.Ring.Copy.Loops.{around}
use sqkio.Ring.Copy.Equiv.{copy_elems_lem}
use sqkio.Ring.Copy.Effect.{ahead, past, around-put, around-get}

module _ {W : Type 0} where
  -- A word of the ring after `n` words of `obj` went in at `idx`.
  abbrev pub written : ℕ → ℕ → Mem W → ℕ → Mem W → ℕ → W
  written size idx obj n ring p =
      if ltb p size && ltb (ahead size idx p) n then obj (ahead size idx p) else ring p

  -- A word of the entries after `n` words of the ring came out from `idx` on.
  abbrev pub read : ℕ → ℕ → Mem W → ℕ → Mem W → ℕ → W
  read size idx ring n obj q = if ltb q n then ring (past size idx q) else obj q

  pub written_far :
      (size idx n : ℕ) (obj ring : Mem W) (p : ℕ)
      → n ≤ ahead size idx p
      → written size idx obj n ring p ≡ ring p
  written_far size idx n obj ring p h = ground arith

  pub written_near :
      (size idx n j : ℕ) (obj ring : Mem W) (p : ℕ)
      → p < size
      → j < n
      → ahead size idx p ≡ j
      → written size idx obj n ring p ≡ obj j
  written_near size idx n j obj ring p lt h e = ground (arith, ap obj e)

  pub read_inside :
      (size idx n : ℕ) (ring obj : Mem W) (q p : ℕ)
      → q < n
      → p < size
      → p ≡ idx + q
      → read size idx ring n obj q ≡ ring p
  read_inside size idx n ring obj q p h lt e = ground (arith, ap ring e)

  pub read_outside :
      (size idx n : ℕ) (ring obj : Mem W) (q : ℕ) → n ≤ q → read size idx ring n obj q ≡ obj q
  read_outside size idx n ring obj q h = ground arith

  around-written :
      (size n idx : ℕ) (obj ring : Mem W) (p : ℕ)
      → idx < size
      → n ≤ size
      → around (put obj) size n 0 idx ring p ≡ written size idx obj n ring p
  around-written size n idx obj ring p hi hn =
      around-put size n 0 idx obj ring p hi hn ∙ ground (arith, ap obj from_0)
    where
      from_0 : 0 + ahead size idx p ≡ ahead size idx p
      from_0 = omega arith

  around-read :
      (size n idx : ℕ) (ring obj : Mem W) (q : ℕ)
      → idx < size
      → n ≤ size
      → around (get ring) size n 0 idx obj q ≡ read size idx ring n obj q
  around-read size n idx ring obj q hi hn =
      around-get size n 0 idx ring obj q hi hn ∙ ground (arith, ap ring from_0)
    where
      from_0 : past size idx (q - 0) ≡ past size idx q
      from_0 = ap (past size idx) same
        where
          same : q - 0 ≡ q
          same = omega arith

  -- Copying `n` words into a ring of `size` words, at least `n` and at most 2^31, at `idx` <
  -- `size`, unrolled by any power of two up to 2^31: the copy ends, the words from `idx` on, going
  -- round, hold the entries in order, and every other word, those past the ring's end included,
  -- keeps its value.
  pub copy_in :
      (e size idx n : ℕ) (obj ring : Mem W)
      → e ≤ 31
      → idx < size
      → n ≤ size
      → size ≤ 2 ^ 31
      → (c : Cursor W) × (copy_elems (put obj) (2 ^ e) size idx n ring ≡ ok c)
        × ((p : ℕ) → c.mem p ≡ written size idx obj n ring p)
  copy_in e size idx n obj ring he hi hn hs =
      let (c, runs, same) = copy_elems_lem (put obj) e size idx n ring he hi hn hs in
      (c, runs, λ p. ap (λ (m : Mem W). m p) same ∙ around-written size n idx obj ring p hi hn)

  -- Copying `n` words out of such a ring, `n` ≤ `size` ≤ 2^31 and `idx` < `size`: the copy ends,
  -- the first `n` words of the entries are those of the ring from `idx` on, going round, and the
  -- words behind them keep their values.
  pub copy_out :
      (e size idx n : ℕ) (ring obj : Mem W)
      → e ≤ 31
      → idx < size
      → n ≤ size
      → size ≤ 2 ^ 31
      → (c : Cursor W) × (copy_elems (get ring) (2 ^ e) size idx n obj ≡ ok c)
        × ((q : ℕ) → c.mem q ≡ read size idx ring n obj q)
  copy_out e size idx n ring obj he hi hn hs =
      let (c, runs, same) = copy_elems_lem (get ring) e size idx n obj he hi hn hs in
      (c, runs, λ q. ap (λ (m : Mem W). m q) same ∙ around-read size n idx ring obj q hi hn)
