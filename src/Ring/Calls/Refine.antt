-- ===== src/Ring/Calls/Refine.antt =====
-- Sequences of calls of `enqueue` and `dequeue` (src/common/include/ring.hpp), beside the same calls on
-- the queue of Queue.antt.
use native.Mathlib.Decide.{dec_lt}
use sqkio.Common.{
  ℕ, suc, ◌-◌, ◌^◌, ◌≤◌, ◌≡◌, ◌≢◌, refl, ap, ◌∙◌, List, [], ◌∷◌, arith, lt→ltb, le→ltb, length,
}
use sqkio.Outcome.{Outcome, ok, ◌>>=◌}
use sqkio.Queue
use sqkio.Ring.{mt_rts, Config, Ring}
use sqkio.Ring.Copy.{Mem}
use sqkio.Ring.Elements.{scale}
use sqkio.Ring.Calls.{enqueue, dequeue}
use sqkio.Ring.Calls.Valid.{words, count, contents, length-window, IsValid}
use sqkio.Ring.Calls.Enqueue.{enqueue-append, enqueue-full}
use sqkio.Ring.Calls.Dequeue.{dequeue-head, dequeue-empty}

-- A call of a client, with the memory of the entry that it passes.
pub data Call {ℓ} (W : Type ℓ) : Type ℓ where
  enq : Mem W → Call W
  deq : Mem W → Call W

-- What a client sees of a call: the count, and after a `dequeue` the words of its entry.
abbrev pub Reply {ℓ} : Type ℓ → Type ℓ
Reply W = ℕ × List W

unfoldable pub run {ℓ} :
    {W : Type ℓ} (cfg : Config) (fuel : ℕ)
    → List (Call W)
    → Ring W
    → Outcome (List (Reply W) × Ring W)
run cfg fuel [] r = ok ([], r)
run cfg fuel (enq entry ∷ calls) r = enqueue cfg fuel entry r >>= λ (n, r1).
    run cfg fuel calls r1 >>= λ (replies, r2). ok ((n, []) ∷ replies, r2)
run cfg fuel (deq entry ∷ calls) r = dequeue cfg fuel entry r >>= λ (n, out, r1).
    run cfg fuel calls r1 >>= λ (replies, r2). ok ((n, words (scale cfg.esize) out 0) ∷ replies, r2)

-- The same calls on a queue whose entries are lists of `width` words.
unfoldable pub queue_run {ℓ} :
    {W : Type ℓ} (cap width : ℕ) → List (Call W) → List (List W) → List (Reply W) × List (List W)
queue_run cap width [] q = ([], q)
queue_run cap width (enq entry ∷ calls) q =
    let (n, q1) = Queue.push cap q (words width entry 0) in
    let (replies, q2) = queue_run cap width calls q1 in ((n, []) ∷ replies, q2)
queue_run cap width (deq entry ∷ calls) q =
    let (n, x, q1) = Queue.pop q (words width entry 0) in
    let (replies, q2) = queue_run cap width calls q1 in ((n, x) ∷ replies, q2)

module _ {W : Type 0} (cfg : Config) (k fuel : ℕ) where
  -- On a sound ring of 2^k slots, in a mode of the producer other than RTS and with any positive
  -- fuel, `enqueue` returns; what it returns and the entries that the ring then holds are those of
  -- `Queue.push` on a queue of 2^k - 1 entries; the ring stays sound, and the size that `free` will
  -- hand back stays the same.
  pub enqueue_refines :
      (entry : Mem W) (r : Ring W)
      → cfg.prod_sync ≢ mt_rts
      → IsValid cfg.esize k r
      → (r' : Ring W) × (n : ℕ) × (enqueue cfg (suc fuel) entry r ≡ ok (n, r'))
        × IsValid cfg.esize k r'
        × ((n, contents cfg.esize r')
            ≡ Queue.push (2 ^ k - 1) (contents cfg.esize r) (words (scale cfg.esize) entry 0))
        × (r'.memzone_size ≡ r.memzone_size)
  unfolding Queue.push
  enqueue_refines entry r coded v = elim (dec_lt (count cfg.esize r) (2 ^ k - 1)) [
    | yes room ↦
        let (r', runs, valid, held, same) = enqueue-append cfg k r v fuel entry coded room in
        (r', 1, runs, valid, rw (size, lt→ltb _ _ room, held), same)
    | no full ↦ (
      r,
      0,
      enqueue-full cfg k r v fuel entry coded (omega (arith, v)),
      v,
      rw (size, le→ltb (count cfg.esize r) (2 ^ k - 1) (omega arith)),
      refl,
    )
  ]
    where
      size : length (contents cfg.esize r) ≡ count cfg.esize r
      size = length-window cfg.esize r.mask r.mem r.cons.tail (count cfg.esize r)

  -- On a sound ring of 2^k slots, in a mode of the consumer other than RTS and with any positive
  -- fuel, `dequeue` returns; what it returns, the words of the caller's entry and the entries that
  -- the ring then holds are those of `Queue.pop`; the words behind the caller's entry stay, the ring
  -- stays sound, and the size that `free` will hand back stays the same.
  pub dequeue_refines :
      (entry : Mem W) (r : Ring W)
      → cfg.cons_sync ≢ mt_rts
      → IsValid cfg.esize k r
      → (r' : Ring W) × (n : ℕ) × (out : Mem W) × (dequeue cfg (suc fuel) entry r ≡ ok (n, out, r'))
        × IsValid cfg.esize k r'
        × ((n, words (scale cfg.esize) out 0, contents cfg.esize r')
            ≡ Queue.pop (contents cfg.esize r) (words (scale cfg.esize) entry 0))
        × ((q : ℕ) → scale cfg.esize ≤ q → out q ≡ entry q)
        × (r'.memzone_size ≡ r.memzone_size)
  unfolding Queue.pop
  dequeue_refines entry r coded v = elim (dec_lt 0 (count cfg.esize r)) [
    | yes some_held ↦
        let (out, r', runs, valid, held, rest, same) =
          dequeue-head cfg k r v fuel entry coded some_held in
        (r', 1, out, runs, valid, rw held, rest, same)
    | no none_held ↦
        let none : count cfg.esize r ≡ 0 = omega arith in
        (r, 0, entry, dequeue-empty cfg k r v fuel entry coded none, v, rw none, λ q h. refl, refl)
  ]

  -- On a sound ring of 2^k slots, with neither side in the mode RTS and with any positive fuel, every
  -- sequence of `enqueue` and `dequeue` returns; its replies are those of a queue of 2^k - 1 entries
  -- that starts with the ring's, the ring is sound after it and holds what the queue holds, and the
  -- size that `free` will hand back is the same.
  pub run_refines :
      (calls : List (Call W)) (r : Ring W)
      → cfg.prod_sync ≢ mt_rts
      → cfg.cons_sync ≢ mt_rts
      → IsValid cfg.esize k r
      → (r' : Ring W) × (run cfg (suc fuel) calls r
          ≡ ok ((queue_run (2 ^ k - 1) (scale cfg.esize) calls (contents cfg.esize r)).0, r'))
        × IsValid cfg.esize k r'
        × (contents cfg.esize r'
            ≡ (queue_run (2 ^ k - 1) (scale cfg.esize) calls (contents cfg.esize r)).1)
        × (r'.memzone_size ≡ r.memzone_size)
  unfolding run queue_run
  run_refines [] r cp cc v = (r, refl, v, refl, refl)
  run_refines (enq entry ∷ calls) r cp cc v =
      let (r1, n, runs, valid, pushed, same) = enqueue_refines entry r cp v in
      let (r2, runs2, valid2, held2, same2) = run_refines calls r1 cp cc valid in
      let after : ℕ × List (List W) → List (Reply W) × List (List W) =
        λ p. queue_run (2 ^ k - 1) (scale cfg.esize) calls p.1 in
      (
        r2,
        rw (runs, runs2) (ap (λ (p : ℕ × List (List W)). ok ((p.0, []) ∷ (after p).0, r2)) pushed),
        valid2,
        held2 ∙ ap (λ (p : ℕ × List (List W)). (after p).1) pushed,
        same2 ∙ same,
      )
  run_refines (deq entry ∷ calls) r cp cc v =
      let (r1, n, out, runs, valid, popped, rest, same) = dequeue_refines entry r cc v in
      let (r2, runs2, valid2, held2, same2) = run_refines calls r1 cp cc valid in
      let after : ℕ × List W × List (List W) → List (Reply W) × List (List W) =
        λ p. queue_run (2 ^ k - 1) (scale cfg.esize) calls p.2 in
      (
        r2,
        rw (runs, runs2)
            (ap (λ (p : ℕ × List W × List (List W)). ok ((p.0, p.1) ∷ (after p).0, r2)) popped),
        valid2,
        held2 ∙ ap (λ (p : ℕ × List W × List (List W)). (after p).1) popped,
        same2 ∙ same,
      )
