-- ===== src/Ring/Calls/Valid.antt =====
-- Predicates on a ring (src/common/include/ring.hpp) between calls: that it is sound, and the entries
-- that it holds.
use sqkio.Common.{
  ℕ, zero, suc, ◌+◌, ◌-◌, ◌*◌, ◌^◌, ◌≤◌, ◌<◌, ◌≡◌, sym, ap, ap₂, refl, ◌∙◌, List, [], ◌∷◌, bit_and,
  length, arith,
}
use sqkio.Common.Word.{add32, sub32}
use sqkio.Ring.{Ring}
use sqkio.Ring.Copy.{Mem}
use sqkio.Ring.Elements.{scale}

-- `n` words from `base` on.
abbrev pub words {ℓ} : {W : Type ℓ} → ℕ → Mem W → ℕ → List W
words zero m base = []
words (suc n) m base = m base ∷ words n m (base + 1)

pub words-ext {ℓ} :
    {W : Type ℓ} (n : ℕ) (m m' : Mem W) (b b' : ℕ)
    → ((j : ℕ) → j < n → m (b + j) ≡ m' (b' + j))
    → words n m b ≡ words n m' b'
words-ext zero m m' b b' h = refl
words-ext (suc n) m m' b b' h =
    ap₂ ◌∷◌ (ap m (add-zero' b) ∙ h 0 (omega arith) ∙ ap m' (sym (add-zero' b'))) (
      words-ext n m m' (b + 1) (b' + 1)
        (λ j lt. ap m (next b j) ∙ h (suc j) (omega arith) ∙ ap m' (sym (next b' j))))
  where
    add-zero' : (a : ℕ) → a ≡ a + 0
    add-zero' a = omega arith

    next : (a j : ℕ) → a + 1 + j ≡ a + suc j
    next a j = omega arith

module _ {W : Type 0} (esize : ℕ) where
  -- The element in a slot.
  abbrev pub item : Mem W → ℕ → List W
  item m slot = words (scale esize) m (slot * scale esize)

  -- The `n` elements from the position `pos` on, a free-running 32-bit counter.
  abbrev pub window : ℕ → Mem W → ℕ → ℕ → List (List W)
  window mask m pos zero = []
  window mask m pos (suc n) = item m (bit_and pos mask) ∷ window mask m (add32 pos 1) n

  pub length-window : (mask : ℕ) (m : Mem W) (pos n : ℕ) → length (window mask m pos n) ≡ n
  length-window mask m pos zero = refl
  length-window mask m pos (suc n) = ap suc (length-window mask m (add32 pos 1) n)

  -- How many entries lie between the tails.
  abbrev pub count : Ring W → ℕ
  count r = sub32 r.prod.tail r.cons.tail

  -- The entries that a ring holds between calls, oldest first.
  abbrev pub contents : Ring W → List (List W)
  contents r = window r.mask r.mem r.cons.tail (count r)

  -- A ring of 2^k slots between calls: no head is ahead of its tail, and the words of all slots
  -- can be counted in 31 bits.
  pub record IsValid (k : ℕ) (r : Ring W) : Type 0 where
    pub size_ok : r.size ≡ 2 ^ k
    pub mask_ok : r.mask ≡ 2 ^ k - 1
    pub capacity_ok : r.capacity ≡ 2 ^ k - 1
    pub small : k ≤ 30
    pub fits : 2 ^ k * scale esize ≤ 2 ^ 31
    pub whole : 1 ≤ scale esize
    pub prod_in : r.prod.tail < 2 ^ 32
    pub prod_done : r.prod.head ≡ r.prod.tail
    pub cons_in : r.cons.tail < 2 ^ 32
    pub cons_done : r.cons.head ≡ r.cons.tail
    pub within : count r ≤ 2 ^ k - 1
