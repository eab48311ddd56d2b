-- ===== src/Ring/Threads/Schedule.antt =====
-- Reachable states of a ring of src/common/include/ring.hpp by evaluation: calls and accesses of
-- the threads in a given order, on a ring of four slots whose consumer is thread 2.
use native.Mathlib.Decide.{dec_lt}
use mathlib.Core.List.{foldl}
use sqkio.Common.{ℕ, zero, suc, ◌+◌, ◌^◌, ◌≡◌, refl, Option, none, some, List, [], ◌∷◌, arith}
use sqkio.Common.Update.{update}
use sqkio.Ring.Threads.{Pc, returned, put_start, put_loaded, put_free, get_start, Shared, advance}
use sqkio.Ring.Threads.Invariant.{IsTimely}
use sqkio.Ring.Threads.Reach.{Reach, start, enqueue, dequeue, access}

pub data Act : Type 0 where
  put : (i v : ℕ) → Act  -- thread i begins an enqueue of v
  get : Act  -- the consumer begins a dequeue
  go : (i : ℕ) → Act  -- the next access of thread i

pub record Run : Type 0 where
  pub s : Shared ℕ
  pub pc : ℕ → Pc ℕ
  pub reach : Reach 2 2 s pc

idle : (p : Pc ℕ) → Option ((n : ℕ) × (p ≡ returned n))
idle (returned n) = some (n, refl)
idle _ = none

timely : (s : Shared ℕ) (p : Pc ℕ) → Option (IsTimely s p)
timely s (put_loaded v h p) = elim (dec_lt (s.prod_head + s.ring.capacity) (p + 2 ^ 32)) [
  | yes lt ↦ some lt
  | no _ ↦ none
]
timely s (put_free v h p) = elim (dec_lt (s.prod_head + s.ring.capacity) (p + 2 ^ 32)) [
  | yes lt ↦ some lt
  | no _ ↦ none
]
timely s _ = some tt

act : Run → Act → Run
unfolding idle timely dec_lt
act r (put i v) = elim (idle (r.pc i)) [
  | some (n, at) ↦ record {
    s = r.s;
    pc = update r.pc i (put_start v);
    reach = enqueue i n v r.reach at;
  }
  | none ↦ r
]
act r get = elim (idle (r.pc 2)) [
  | some (n, at) ↦ record { s = r.s; pc = update r.pc 2 get_start; reach = dequeue n r.reach at }
  | none ↦ r
]
act r (go i) = elim (timely r.s (r.pc i)) [
  | some t ↦ record {
    s = (advance (r.pc i) r.s).0;
    pc = update r.pc i (advance (r.pc i) r.s).1;
    reach = access i r.reach t;
  }
  | none ↦ r
]

unfoldable pub run : List Act → Run
unfolding act
run acts =
    foldl act (record { s = _; pc = _; reach = start (λ q. 0) (λ q. 0) (λ q. 0) (omega arith) })
      acts

-- `n` accesses of thread `i`.
abbrev pub times : ℕ → ℕ → List Act
times zero i = []
times (suc n) i = go i ∷ times n i
