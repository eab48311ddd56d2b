-- ===== src/Ring/Threads/Tests.antt =====
-- Threads on a ring of four slots of src/common/include/ring.hpp, run in some orders.
use sqkio.Common.{
  ℕ, ◌+◌, ◌-◌, ◌%◌, ◌^◌, ◌≤◌, ◌<◌, ◌≡◌, ◌≢◌, ◌↔◌, ◌⊎◌, refl, bit_and, [], ◌∷◌, ◌++◌, arith,
}
use sqkio.Ring.{init}
use sqkio.Ring.Heads.{clip}
use sqkio.Ring.Elements.{scale}
use sqkio.Ring.Calls.Valid.{IsValid}
use sqkio.Ring.Threads.{returned, put_start, put_copy, put_wait, Shared, advance}
use sqkio.Ring.Threads.Reach.{fresh}
use sqkio.Ring.Threads.Order.{counts_lem, fifo_lem, slots_apart}
use sqkio.Ring.Threads.Answers.{enqueue_full_iff, exchange_iff, dequeue_empty_iff}
use sqkio.Ring.Threads.Turns.{solo, turn_passes}
use sqkio.Ring.Threads.Alone.{PutRefines, GetRefines, calls_alone}
use sqkio.Ring.Threads.Schedule.{put, get, go, Run, run, times}

-- Thread 1 waits for thread 0, which has won the first position and not yet copied.
abbrev waiting : Run
waiting = run (put 0 10 ∷ put 1 11 ∷ times 3 0 ++ times 5 1)

waiting_pcs : (waiting.pc 0 ≡ put_copy 10 0 0) × (waiting.pc 1 ≡ put_wait 11 1 1)
unfolding run advance init clip
waiting_pcs = (refl, refl)

-- Both are about to copy.
abbrev copying : Run
copying = run (put 0 10 ∷ put 1 11 ∷ times 3 0 ++ times 3 1)

-- Three entries are in, and thread 1 is about to load the consumer's tail.
abbrev filled : Run
filled =
    run
      (put 0 10 ∷ times 6 0 ++ put 1 11 ∷ times 6 1 ++ put 0 12 ∷ times 6 0 ++ put 1 13 ∷ go 1 ∷ [])

-- Thread 1 has won the position that thread 0 found free.
abbrev overtaken : Run
overtaken = run (put 0 10 ∷ put 1 11 ∷ times 2 0 ++ times 3 1)

-- An entry is in and has come out, and the consumer is about to load the producers' tail.
abbrev emptied : Run
emptied = run (put 0 10 ∷ times 6 0 ++ get ∷ times 5 2 ++ get ∷ go 2 ∷ [])

emptied_first : emptied.s.received 0 ≡ 10
unfolding run advance init clip
emptied_first = refl

counts_lem_example :
    (waiting.s.cons_tail ≤ waiting.s.cons_head)
    × (waiting.s.cons_head ≤ waiting.s.cons_tail + 1)
    × (waiting.s.cons_head ≤ waiting.s.prod_tail)
    × (waiting.s.prod_tail ≤ waiting.s.prod_head)
    × (waiting.s.prod_head ≤ waiting.s.cons_tail + (2 ^ 2 - 1))
    × (waiting.s.ring.cons.tail ≡ waiting.s.cons_tail % 2 ^ 32)
    × (waiting.s.ring.cons.head ≡ waiting.s.cons_head % 2 ^ 32)
    × (waiting.s.ring.prod.tail ≡ waiting.s.prod_tail % 2 ^ 32)
    × (waiting.s.ring.prod.head ≡ waiting.s.prod_head % 2 ^ 32)
counts_lem_example = counts_lem waiting.reach

fifo_lem_example :
    ((0 < emptied.s.cons_tail) × (emptied.s.received 0 ≡ emptied.s.sent 0))
    ⊎ ((emptied.s.cons_tail ≤ 0)
        × (emptied.s.ring.mem (bit_and (0 % 2 ^ 32) emptied.s.ring.mask) ≡ emptied.s.sent 0))
unfolding run advance init clip
fifo_lem_example = fifo_lem emptied.reach 0 (omega arith)

slots_apart_example : bit_and 0 copying.s.ring.mask ≢ bit_and 1 copying.s.ring.mask
unfolding run advance init clip
slots_apart_example = slots_apart copying.reach 0 1 0 1 (λ e. omega arith) refl refl

enqueue_full_iff_example :
    ((advance (filled.pc 1) filled.s).1 ≡ returned 0)
    ↔ ((3 ≡ filled.s.prod_head) × (filled.s.prod_head ≡ filled.s.cons_tail + (2 ^ 2 - 1)))
unfolding run advance init clip
enqueue_full_iff_example = enqueue_full_iff filled.reach 1 13 3 3 refl (omega arith)

exchange_iff_example :
    ((advance (overtaken.pc 0) overtaken.s).1 ≡ put_copy 10 0 0) ↔ (0 ≡ overtaken.s.prod_head)
unfolding run advance init clip
exchange_iff_example = exchange_iff overtaken.reach 0 10 0 0 refl (omega arith)

dequeue_empty_iff_example :
    ((advance (emptied.pc 2) emptied.s).1 ≡ returned 0)
    ↔ (emptied.s.prod_tail ≡ emptied.s.cons_head)
unfolding run advance init clip
dequeue_empty_iff_example = dequeue_empty_iff emptied.reach 2 1 refl

turn_passes_example :
    (j n : ℕ) × (n ≤ 3)
    × ((solo n (waiting.pc j) waiting.s).0.prod_tail ≡ waiting.s.prod_tail + 1)
    × ((solo n (waiting.pc j) waiting.s).1 ≡ returned 1)
unfolding run advance init clip
turn_passes_example = turn_passes waiting.reach (omega arith)

abbrev new_state : Shared ℕ
new_state = fresh (init (2 ^ 2) (λ q. 0)) (λ q. 0) (λ q. 0)

new_state-IsValid : IsValid 8 2 new_state.ring
unfolding init scale
new_state-IsValid = omega arith

-- One entry is in.
abbrev one_state : Shared ℕ
one_state = (solo 6 (put_start 7) new_state).0

one_state-IsValid : IsValid 8 2 one_state.ring
unfolding init scale solo advance clip
one_state-IsValid = omega arith

calls_alone_example : PutRefines 2 one_state 8 × GetRefines 2 one_state 9
calls_alone_example = calls_alone 2 0 one_state one_state-IsValid 8 9
