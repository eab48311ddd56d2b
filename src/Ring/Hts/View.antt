-- ===== src/Ring/Hts/View.antt =====
-- The accesses of a thread on an HTS ring of src/common/include/ring.hpp as a relation, with the
-- outcome of each test.
use sqkio.Common.{ℕ, ◌+◌, ◌≡◌, ◌≢◌, bit_and, true, false, ◌==◌, inl, inr, Bool-cases, arith}
use sqkio.Common.Word.{add32}
use sqkio.Common.Update.{update}
use sqkio.Ring.{HeadTail}
use sqkio.Ring.Heads.{clip, same_raw}
use sqkio.Ring.Threads.{Shared}
use sqkio.Ring.Threads.View.{clip-zero, clip-pos, copied, published, freed, free_seen, entries_seen}
use sqkio.Ring.Hts.{
  Pc, returned, put_start, put_seen, put_free, put_copy, put_publish, get_start, get_seen,
  get_found, get_copy, get_publish, advance,
}

same_raw-words : (a b : HeadTail) → same_raw a b ≡ true → (a.head ≡ b.head) × (a.tail ≡ b.tail)
same_raw-words a b e = ground arith

module _ {W : Type 0} where
  -- The states that the compare-exchanges leave.
  abbrev pub head_won : W → HeadTail → Shared W → Shared W
  head_won v op s = record s {
    ring = record s.ring { prod = record { head = add32 op.head 1; tail = op.tail } };
    prod_head = s.prod_head + 1;
    sent = update s.sent s.prod_head v;
  }

  abbrev pub head_taken : HeadTail → Shared W → Shared W
  head_taken op s = record s {
    ring = record s.ring { cons = record { head = add32 op.head 1; tail = op.tail } };
    cons_head = s.cons_head + 1;
  }

  pub data Move (s : Shared W) : Pc W → Shared W → Pc W → Type 0 where
    rest : {n : ℕ} → Move s (returned n) s (returned n)
    load_prod : {v : W} → Move s (put_start v) s (put_seen v s.ring.prod s.prod_head)
    prod_busy :
        {v : W} {op : HeadTail} {p : ℕ}
        → op.head ≢ op.tail
        → Move s (put_seen v op p) s (put_seen v s.ring.prod s.prod_head)
    full :
        {v : W} {op : HeadTail} {p : ℕ}
        → op.head ≡ op.tail
        → free_seen s op.head ≡ 0
        → Move s (put_seen v op p) s (returned 0)
    room :
        {v : W} {op : HeadTail} {p : ℕ}
        → op.head ≡ op.tail
        → free_seen s op.head ≢ 0
        → Move s (put_seen v op p) s (put_free v op p)
    won :
        {v : W} {op : HeadTail} {p : ℕ}
        → s.ring.prod.head ≡ op.head
        → s.ring.prod.tail ≡ op.tail
        → Move s (put_free v op p) (head_won v op s) (put_copy v op.head p)
    lost :
        {v : W} {op : HeadTail} {p : ℕ}
        → Move s (put_free v op p) s (put_seen v s.ring.prod s.prod_head)
    copy_in : {v : W} {h p : ℕ} → Move s (put_copy v h p) (copied v h s) (put_publish v h p)
    publish : {v : W} {h p : ℕ} → Move s (put_publish v h p) (published h s) (returned 1)
    load_cons : Move s get_start s (get_seen s.ring.cons s.cons_head)
    cons_busy :
        {op : HeadTail} {p : ℕ}
        → op.head ≢ op.tail
        → Move s (get_seen op p) s (get_seen s.ring.cons s.cons_head)
    empty :
        {op : HeadTail} {p : ℕ}
        → op.head ≡ op.tail
        → entries_seen s op.head ≡ 0
        → Move s (get_seen op p) s (returned 0)
    found :
        {op : HeadTail} {p : ℕ}
        → op.head ≡ op.tail
        → entries_seen s op.head ≢ 0
        → Move s (get_seen op p) s (get_found op p)
    take :
        {op : HeadTail} {p : ℕ}
        → s.ring.cons.head ≡ op.head
        → s.ring.cons.tail ≡ op.tail
        → Move s (get_found op p) (head_taken op s) (get_copy op.head p)
    missed : {op : HeadTail} {p : ℕ} → Move s (get_found op p) s (get_seen s.ring.cons s.cons_head)
    copy_out :
        {h p : ℕ} → Move s (get_copy h p) s (get_publish h p (s.ring.mem (bit_and h s.ring.mask)))
    free : {h p : ℕ} {v : W} → Move s (get_publish h p v) (freed h v s) (returned 1)

  pub advance-Move : (p : Pc W) (s : Shared W) → Move s p (advance p s).0 (advance p s).1
  unfolding advance
  advance-Move (returned n) s = rest
  advance-Move (put_start v) s = load_prod
  advance-Move (put_seen v op p) s = elim (Bool-cases (op.head == op.tail)) [
    | inl still ↦ elim (Bool-cases (clip false 1 (free_seen s op.head) == 0)) [
      | inl none_free ↦
          rw (advance, still, none_free)
            (full (ground arith) (clip-zero (free_seen s op.head) none_free))
      | inr some_free ↦
          rw (advance, still, some_free)
            (room (ground arith) (clip-pos (free_seen s op.head) some_free))
    ]
    | inr busy ↦ rw (advance, busy) (prod_busy (ground arith))
  ]
  advance-Move (put_free v op p) s = elim (Bool-cases (same_raw s.ring.prod op)) [
    | inl same ↦
        let (heads, tails) = same_raw-words s.ring.prod op same in
        rw (advance, same) (won heads tails)
    | inr other ↦ rw (advance, other) lost
  ]
  advance-Move (put_copy v h p) s = copy_in
  advance-Move (put_publish v h p) s = publish
  advance-Move get_start s = load_cons
  advance-Move (get_seen op p) s = elim (Bool-cases (op.head == op.tail)) [
    | inl still ↦ elim (Bool-cases (clip false 1 (entries_seen s op.head) == 0)) [
      | inl none_there ↦
          rw (advance, still, none_there)
            (empty (ground arith) (clip-zero (entries_seen s op.head) none_there))
      | inr some_there ↦
          rw (advance, still, some_there)
            (found (ground arith) (clip-pos (entries_seen s op.head) some_there))
    ]
    | inr busy ↦ rw (advance, busy) (cons_busy (ground arith))
  ]
  advance-Move (get_found op p) s = elim (Bool-cases (same_raw s.ring.cons op)) [
    | inl same ↦
        let (heads, tails) = same_raw-words s.ring.cons op same in
        rw (advance, same) (take heads tails)
    | inr other ↦ rw (advance, other) missed
  ]
  advance-Move (get_copy h p) s = copy_out
  advance-Move (get_publish h p v) s = free
