-- ===== src/Ring/Calls/Items.antt =====
-- The items in the slots of a ring (src/common/include/ring.hpp), before and after the copy of one
-- element.
use sqkio.Common.{
  ℕ, zero, suc, ◌+◌, ◌-◌, ◌*◌, ◌^◌, ◌≤◌, ◌<◌, ◌≡◌, ◌≢◌, sym, ap, ap₂, ◌∙◌, List, [], ◌∷◌, ◌++◌,
  bit_and, arith,
}
use sqkio.Common.Word.{add32}
use sqkio.Ring.Copy.{Mem}
use sqkio.Ring.Copy.Result.{written, written_far, written_near, read, read_inside}
use sqkio.Ring.Elements.{scale}
use sqkio.Ring.Calls.Valid.{words, words-ext, item, window}
use sqkio.Ring.Calls.Slots.{slot-lt, slot-ne, ahead-far, ahead-near, slot_word-lt}

module _ {W : Type 0} (esize : ℕ) where
  -- Writing the slot behind a window makes the window longer by what was written.
  pub window-append :
      (k : ℕ) (m m' : Mem W) (pos n : ℕ) (x : List W)
      → k ≤ 32
      → pos < 2 ^ 32
      → n < 2 ^ k
      → ((s : ℕ)
          → s < 2 ^ k
          → s ≢ bit_and (add32 pos n) (2 ^ k - 1)
          → item esize m' s ≡ item esize m s)
      → item esize m' (bit_and (add32 pos n) (2 ^ k - 1)) ≡ x
      → window esize (2 ^ k - 1) m' pos (suc n) ≡ window esize (2 ^ k - 1) m pos n ++ x ∷ []
  window-append k m m' pos zero x hk hp hn keep new =
      let here : add32 pos 0 ≡ pos = omega arith in ap (λ (t : List W). t ∷ []) (rw here at new)
  window-append k m m' pos (suc n) x hk hp hn keep new =
      ap₂ ◌∷◌
        (keep (bit_and pos (2 ^ k - 1)) (slot-lt k pos)
          (λ e. slot-ne k pos (suc n) hk (omega arith) hn (sym e)))
        (window-append k m m' (add32 pos 1) n x hk (omega arith) (omega arith)
          (λ s lt ne. keep s lt (λ e. ne (e ∙ ap (λ (t : ℕ). bit_and t (2 ^ k - 1)) (sym after))))
          (rw (sym after) at new))
    where
      after : add32 (add32 pos 1) n ≡ add32 pos (suc n)
      after = omega arith

  -- What a copy of one element into slot `t` leaves in the slots.
  pub item-written_ne :
      (size t s : ℕ) (entry ring mem : Mem W)
      → t < size
      → s < size
      → s ≢ t
      → ((p : ℕ)
          → mem p ≡ written (size * scale esize) (t * scale esize) entry (1 * scale esize) ring p)
      → item esize mem s ≡ item esize ring s
  item-written_ne size t s entry ring mem ht hs ne same =
      words-ext (scale esize) mem ring _ _ λ j lt.
        same (s * scale esize + j)
        ∙ written_far (size * scale esize) (t * scale esize) (1 * scale esize) entry ring
            (s * scale esize + j) (omega (arith, ahead-far size (scale esize) s t j hs ht ne lt))

  pub item-written_self :
      (size t : ℕ) (entry ring mem : Mem W)
      → t < size
      → ((p : ℕ)
          → mem p ≡ written (size * scale esize) (t * scale esize) entry (1 * scale esize) ring p)
      → item esize mem t ≡ words (scale esize) entry 0
  item-written_self size t entry ring mem ht same = words-ext (scale esize) mem entry _ _ λ j lt.
      same (t * scale esize + j)
      ∙ written_near (size * scale esize) (t * scale esize) (1 * scale esize) (0 + j) entry ring
          (t * scale esize + j) (slot_word-lt size (scale esize) t j ht lt) (omega arith)
          (omega (arith, ahead-near size (scale esize) t j ht lt))

  -- What a copy of the element out of slot `t` leaves in the first words of the entry.
  pub item-read_self :
      (size t : ℕ) (entry ring out : Mem W)
      → t < size
      → ((q : ℕ)
          → out q ≡ read (size * scale esize) (t * scale esize) ring (1 * scale esize) entry q)
      → item esize ring t ≡ words (scale esize) out 0
  item-read_self size t entry ring out ht same = words-ext (scale esize) ring out _ _ λ j lt. sym (
      same (0 + j)
      ∙ read_inside (size * scale esize) (t * scale esize) (1 * scale esize) ring entry (0 + j)
          (t * scale esize + j) (omega arith) (slot_word-lt size (scale esize) t j ht lt)
          (omega arith))
