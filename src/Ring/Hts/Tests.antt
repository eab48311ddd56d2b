-- ===== src/Ring/Hts/Tests.antt =====
-- Threads on an HTS ring of four slots of src/common/include/ring.hpp, run in an order that is
-- given.
use native.Mathlib.Decide.{dec_lt}
use mathlib.Core.List.{foldl}
use sqkio.Common.{
  ℕ, zero, suc, ◌+◌, ◌%◌, ◌^◌, ◌≤◌, ◌<◌, ◌≡◌, ◌⊎◌, refl, bit_and, true, Option, none, some, List,
  [], ◌∷◌, ◌++◌, arith,
}
use sqkio.Common.Update.{update}
use sqkio.Ring.{init}
use sqkio.Ring.Heads.{clip}
use sqkio.Ring.Threads.{Shared}
use sqkio.Ring.Hts.{
  Pc, returned, put_start, put_seen, put_free, put_copy, get_start, get_seen, get_found, advance,
}
use sqkio.Ring.Hts.Invariant.{writes, reads, IsTimely}
use sqkio.Ring.Hts.Reach.{Reach, start, enqueue, dequeue, access}
use sqkio.Ring.Hts.Order.{hts_exclusive, hts_fifo}

data Act : Type 0 where
  put : (i v : ℕ) → Act  -- thread i begins an enqueue of v
  get : (i : ℕ) → Act  -- thread i begins a dequeue
  go : (i : ℕ) → Act  -- the next access of thread i

record Run : Type 0 where
  pub s : Shared ℕ
  pub pc : ℕ → Pc ℕ
  pub reach : Reach 2 s pc

idle : (p : Pc ℕ) → Option ((n : ℕ) × (p ≡ returned n))
idle (returned n) = some (n, refl)
idle _ = none

less : (a b : ℕ) → Option (a < b)
less a b = elim (dec_lt a b) [ yes lt ↦ some lt | no _ ↦ none ]

timely : (s : Shared ℕ) (p : Pc ℕ) → Option (IsTimely s p)
unfolding less dec_lt
timely s (put_seen v op p) = less (s.prod_head + s.ring.capacity) (p + 2 ^ 32)
timely s (put_free v op p) = less (s.prod_head + s.ring.capacity) (p + 2 ^ 32)
timely s (get_seen op p) = less (s.cons_head + s.ring.capacity) (p + 2 ^ 32)
timely s (get_found op p) = less (s.cons_head + s.ring.capacity) (p + 2 ^ 32)
timely s _ = some tt

act : Run → Act → Run
unfolding idle timely
act r (put i v) = elim (idle (r.pc i)) [
  | some (n, at) ↦ record {
    s = r.s;
    pc = update r.pc i (put_start v);
    reach = enqueue i n v r.reach at;
  }
  | none ↦ r
]
act r (get i) = elim (idle (r.pc i)) [
  | some (n, at) ↦ record { s = r.s; pc = update r.pc i get_start; reach = dequeue i n r.reach at }
  | none ↦ r
]
act r (go i) = elim (timely r.s (r.pc i)) [
  | some t ↦ record {
    s = (advance (r.pc i) r.s).0;
    pc = update r.pc i (advance (r.pc i) r.s).1;
    reach = access i r.reach t;
  }
  | none ↦ r
]

run : List Act → Run
unfolding act
run acts =
    foldl act (record { s = _; pc = _; reach = start (λ q. 0) (λ q. 0) (λ q. 0) (omega arith) })
      acts

abbrev times : ℕ → ℕ → List Act
times zero i = []
times (suc n) i = go i ∷ times n i

-- Thread 0 is about to copy, and thread 1 waits for it to store the tail.
abbrev contended : Run
contended = run (put 0 10 ∷ put 1 11 ∷ times 3 0 ++ times 4 1)

contended_pcs :
    (contended.pc 0 ≡ put_copy 10 0 0)
    × (contended.pc 1 ≡ put_seen 11 (record { head = 1; tail = 0 }) 1)
unfolding run advance init clip
contended_pcs = (refl, refl)

-- Thread 1 has taken the entry of thread 0.
abbrev emptied : Run
emptied = run (put 0 10 ∷ times 5 0 ++ get 1 ∷ times 5 1)

hts_exclusive_example :
    ¬ ((writes (contended.pc 0) ≡ true) × (writes (contended.pc 1) ≡ true))
    × ¬ ((reads (contended.pc 0) ≡ true) × (reads (contended.pc 1) ≡ true))
hts_exclusive_example = hts_exclusive contended.reach 0 1 (λ e. omega arith)

hts_fifo_example :
    ((0 < emptied.s.cons_tail) × (emptied.s.received 0 ≡ emptied.s.sent 0))
    ⊎ ((emptied.s.cons_tail ≤ 0)
        × (emptied.s.ring.mem (bit_and (0 % 2 ^ 32) emptied.s.ring.mask) ≡ emptied.s.sent 0))
unfolding run advance init clip
hts_fifo_example = hts_fifo emptied.reach 0 (omega arith)
