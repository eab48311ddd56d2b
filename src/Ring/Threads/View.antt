-- ===== src/Ring/Threads/View.antt =====
-- The accesses of a thread on the ring of src/common/include/ring.hpp as a relation, with the
-- outcome of each test.
use sqkio.Common.{ℕ, ◌+◌, ◌≡◌, ◌≢◌, bit_and, true, false, ◌==◌, inl, inr, Bool-cases, arith}
use sqkio.Common.Word.{add32, sub32}
use sqkio.Common.Update.{update}
use sqkio.Ring.Heads.{clip}
use sqkio.Ring.Threads.{
  Pc, returned, put_start, put_loaded, put_free, put_copy, put_wait, put_publish, get_start,
  get_loaded, get_found, get_copy, get_publish, Shared, advance,
}

pub clip-zero : (n : ℕ) → (clip false 1 n == 0) ≡ true → n ≡ 0
unfolding clip
clip-zero n e = ground arith

pub clip-pos : (n : ℕ) → (clip false 1 n == 0) ≡ false → n ≢ 0
unfolding clip
clip-pos n e z = ground arith

module _ {W : Type 0} where
  -- The states that the accesses that write leave.
  abbrev pub head_won : W → ℕ → Shared W → Shared W
  head_won v h s = record s {
    ring = record s.ring { prod = record s.ring.prod { head = add32 h 1 } };
    prod_head = s.prod_head + 1;
    sent = update s.sent s.prod_head v;
  }

  abbrev pub copied : W → ℕ → Shared W → Shared W
  copied v h s = record s {
    ring = record s.ring { mem = update s.ring.mem (bit_and h s.ring.mask) v };
  }

  abbrev pub published : ℕ → Shared W → Shared W
  published h s = record s {
    ring = record s.ring { prod = record s.ring.prod { tail = add32 h 1 } };
    prod_tail = s.prod_tail + 1;
  }

  abbrev pub head_taken : ℕ → Shared W → Shared W
  head_taken h s = record s {
    ring = record s.ring { cons = record s.ring.cons { head = add32 h 1 } };
    cons_head = s.cons_head + 1;
  }

  abbrev pub freed : ℕ → W → Shared W → Shared W
  freed h v s = record s {
    ring = record s.ring { cons = record s.ring.cons { tail = add32 h 1 } };
    cons_tail = s.cons_tail + 1;
    received = update s.received s.cons_tail v;
  }

  -- How many entries a producer and the consumer see, as 32-bit numbers.
  abbrev pub free_seen : Shared W → ℕ → ℕ
  free_seen s h = sub32 (add32 s.ring.capacity s.ring.cons.tail) h

  abbrev pub entries_seen : Shared W → ℕ → ℕ
  entries_seen s h = sub32 s.ring.prod.tail h

  pub data Move (s : Shared W) : Pc W → Shared W → Pc W → Type 0 where
    rest : {n : ℕ} → Move s (returned n) s (returned n)
    load_head : {v : W} → Move s (put_start v) s (put_loaded v s.ring.prod.head s.prod_head)
    full : {v : W} {h p : ℕ} → free_seen s h ≡ 0 → Move s (put_loaded v h p) s (returned 0)
    room : {v : W} {h p : ℕ} → free_seen s h ≢ 0 → Move s (put_loaded v h p) s (put_free v h p)
    won :
        {v : W} {h p : ℕ}
        → s.ring.prod.head ≡ h
        → Move s (put_free v h p) (head_won v h s) (put_copy v h p)
    lost :
        {v : W} {h p : ℕ}
        → s.ring.prod.head ≢ h
        → Move s (put_free v h p) s (put_loaded v s.ring.prod.head s.prod_head)
    copy_in : {v : W} {h p : ℕ} → Move s (put_copy v h p) (copied v h s) (put_wait v h p)
    spin : {v : W} {h p : ℕ} → s.ring.prod.tail ≢ h → Move s (put_wait v h p) s (put_wait v h p)
    turn : {v : W} {h p : ℕ} → s.ring.prod.tail ≡ h → Move s (put_wait v h p) s (put_publish v h p)
    publish : {v : W} {h p : ℕ} → Move s (put_publish v h p) (published h s) (returned 1)
    load_cons : Move s get_start s (get_loaded s.ring.cons.head)
    empty : {h : ℕ} → entries_seen s h ≡ 0 → Move s (get_loaded h) s (returned 0)
    found : {h : ℕ} → entries_seen s h ≢ 0 → Move s (get_loaded h) s (get_found h)
    take : {h : ℕ} → Move s (get_found h) (head_taken h s) (get_copy h)
    copy_out : {h : ℕ} → Move s (get_copy h) s (get_publish h (s.ring.mem (bit_and h s.ring.mask)))
    free : {h : ℕ} {v : W} → Move s (get_publish h v) (freed h v s) (returned 1)

  pub advance-Move : (p : Pc W) (s : Shared W) → Move s p (advance p s).0 (advance p s).1
  unfolding advance
  advance-Move (returned n) s = rest
  advance-Move (put_start v) s = load_head
  advance-Move (put_loaded v h p) s = elim (Bool-cases (clip false 1 (free_seen s h) == 0)) [
    | inl none_free ↦ rw (advance, none_free) (full (clip-zero (free_seen s h) none_free))
    | inr some_free ↦ rw (advance, some_free) (room (clip-pos (free_seen s h) some_free))
  ]
  advance-Move (put_free v h p) s = elim (Bool-cases (s.ring.prod.head == h)) [
    | inl same ↦ rw (advance, same) (won (ground arith))
    | inr other ↦ rw (advance, other) (lost (ground arith))
  ]
  advance-Move (put_copy v h p) s = copy_in
  advance-Move (put_wait v h p) s = elim (Bool-cases (s.ring.prod.tail == h)) [
    | inl same ↦ rw (advance, same) (turn (ground arith))
    | inr other ↦ rw (advance, other) (spin (ground arith))
  ]
  advance-Move (put_publish v h p) s = publish
  advance-Move get_start s = load_cons
  advance-Move (get_loaded h) s = elim (Bool-cases (clip false 1 (entries_seen s h) == 0)) [
    | inl none_there ↦ rw (advance, none_there) (empty (clip-zero (entries_seen s h) none_there))
    | inr some_there ↦ rw (advance, some_there) (found (clip-pos (entries_seen s h) some_there))
  ]
  advance-Move (get_found h) s = take
  advance-Move (get_copy h) s = copy_out
  advance-Move (get_publish h v) s = free
