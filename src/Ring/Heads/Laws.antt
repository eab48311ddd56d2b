-- ===== src/Ring/Heads/Laws.antt =====
-- The head and tail moves of src/common/include/ring.hpp for one element, in the first round of each
-- loop.
use sqkio.Common.{ℕ, suc, ◌≤◌, ◌<◌, ◌≡◌, ap, Bool, arith}
use sqkio.Common.Word.{add32, sub32}
use sqkio.Outcome.{ok}
use sqkio.Ring.{Config, HeadTail, Ring}
use sqkio.Ring.Heads.{
  Moved, clip, prod_loop, move_prod_head, cons_loop, move_cons_head, hts_move_prod_head,
  hts_move_cons_head, update_tail,
}

clip-one : (t : Bool) (avail : ℕ) → 0 < avail → clip t 1 avail ≡ 1
unfolding clip
clip-one t avail h = ground arith

clip-none : (t : Bool) → clip t 1 0 ≡ 0
unfolding clip
clip-none t = ground arith

-- A clipped count is the whole count, all that is there, or nothing.
pub clip-le : (t : Bool) (n avail : ℕ) → (clip t n avail ≤ n) × (clip t n avail ≤ avail)
unfolding clip
clip-le t n avail = ground arith

-- The entries that the producer finds free, and those that the consumer finds.
abbrev pub free_of {ℓ} : {W : Type ℓ} → Ring W → ℕ
free_of r = sub32 (add32 r.capacity r.cons.tail) r.prod.head

abbrev pub entries_of {ℓ} : {W : Type ℓ} → Ring W → ℕ
entries_of r = sub32 r.prod.tail r.cons.head

module _ {W : Type 0} (cfg : Config) (fuel : ℕ) (r : Ring W) where
  abbrev pub prod_taken : Moved × Ring W
  prod_taken = (
    record { n = 1; old_head = r.prod.head; new_head = add32 r.prod.head 1; entries = free_of r },
    record r { prod = record { head = add32 r.prod.head 1; tail = r.prod.tail } },
  )

  pub move_prod_head-room :
      (new0 : ℕ) → 0 < free_of r → move_prod_head cfg (suc fuel) 1 new0 r ≡ ok prod_taken
  unfolding move_prod_head
  move_prod_head-room new0 h = ground (arith, clip-one cfg.transactional_prod (free_of r) h)

  pub move_prod_head-full :
      (new0 : ℕ)
      → free_of r ≡ 0
      → move_prod_head cfg (suc fuel) 1 new0 r
        ≡ ok (record { n = 0; old_head = r.prod.head; new_head = new0; entries = 0 }, r)
  unfolding move_prod_head
  move_prod_head-full new0 h = rw (prod_loop, h, clip-none cfg.transactional_prod)

  pub hts_move_prod_head-room :
      r.prod.head ≡ r.prod.tail
      → 0 < free_of r
      → hts_move_prod_head cfg (suc fuel) 1 r ≡ ok prod_taken
  unfolding hts_move_prod_head
  hts_move_prod_head-room q h = ground (arith, clip-one cfg.transactional_prod (free_of r) h)

  pub hts_move_prod_head-full :
      r.prod.head ≡ r.prod.tail
      → free_of r ≡ 0
      → hts_move_prod_head cfg (suc fuel) 1 r
        ≡ ok (
          record { n = 0; old_head = r.prod.head; new_head = r.prod.head; entries = free_of r },
          r,
        )
  unfolding hts_move_prod_head
  hts_move_prod_head-full q h =
      ground (arith, clip-none cfg.transactional_prod, ap (clip cfg.transactional_prod 1) h)

  abbrev pub cons_taken : Moved × Ring W
  cons_taken = (
    record {
      n = 1;
      old_head = r.cons.head;
      new_head = add32 r.cons.head 1;
      entries = entries_of r;
    },
    record r { cons = record { head = add32 r.cons.head 1; tail = r.cons.tail } },
  )

  pub move_cons_head-some :
      (new0 : ℕ) → 0 < entries_of r → move_cons_head cfg (suc fuel) 1 new0 r ≡ ok cons_taken
  unfolding move_cons_head
  move_cons_head-some new0 h = ground (arith, clip-one cfg.transactional_cons (entries_of r) h)

  pub move_cons_head-none :
      (new0 : ℕ)
      → entries_of r ≡ 0
      → move_cons_head cfg (suc fuel) 1 new0 r
        ≡ ok (record { n = 0; old_head = r.cons.head; new_head = new0; entries = 0 }, r)
  unfolding move_cons_head
  move_cons_head-none new0 h = rw (cons_loop, h, clip-none cfg.transactional_cons)

  pub hts_move_cons_head-some :
      r.cons.head ≡ r.cons.tail
      → 0 < entries_of r
      → hts_move_cons_head cfg (suc fuel) 1 r ≡ ok cons_taken
  unfolding hts_move_cons_head
  hts_move_cons_head-some q h = ground (arith, clip-one cfg.transactional_cons (entries_of r) h)

  pub hts_move_cons_head-none :
      r.cons.head ≡ r.cons.tail
      → entries_of r ≡ 0
      → hts_move_cons_head cfg (suc fuel) 1 r
        ≡ ok (
          record { n = 0; old_head = r.cons.head; new_head = r.cons.head; entries = entries_of r },
          r,
        )
  unfolding hts_move_cons_head
  hts_move_cons_head-none q h =
      ground (arith, clip-none cfg.transactional_cons, ap (clip cfg.transactional_cons 1) h)

-- At its turn a tail moves at once.
pub update_tail_lem :
    (fuel : ℕ) (ht : HeadTail) (old_val new_val : ℕ) (single : Bool)
    → ht.tail ≡ old_val
    → update_tail (suc fuel) ht old_val new_val single ≡ ok (record ht { tail = new_val })
unfolding update_tail
update_tail_lem fuel ht old_val new_val single h = ground arith
