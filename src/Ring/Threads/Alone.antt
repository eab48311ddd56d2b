-- ===== src/Ring/Threads/Alone.antt =====
-- A call on a ring of src/common/include/ring.hpp whose accesses no other thread comes between,
-- against the abstract queue, for the element size 8 of a coroutine's
-- handle.
use native.Mathlib.Decide.{ℕ_discrete}
use mathlib.Core.Path.{subst}
use sqkio.Common.{
  ℕ, suc, ◌+◌, ◌-◌, ◌^◌, [], ◌∷◌, ◌≡◌, ◌≢◌, refl, sym, ap, ◌∙◌, true, false, ◌==◌, ==_refl,
  if◌then◌else◌, arith,
}
use sqkio.Common.Update.{update}
use sqkio.Outcome.{ok}
use sqkio.Outcome.Laws.{ok-inj}
use sqkio.Queue
use sqkio.Ring.Calls.Refine.{enqueue_refines, dequeue_refines}
use sqkio.Ring.{Config, Ring, mt, st}
use sqkio.Ring.Copy.{Mem}
use sqkio.Ring.Elements.{scale}
use sqkio.Ring.Heads.{clip}
use sqkio.Ring.Heads.Laws.{free_of, entries_of}
use sqkio.Ring.Calls.{enqueue, dequeue}
use sqkio.Ring.Calls.Valid.{contents, IsValid}
use sqkio.Ring.Calls.Steps.{
  put_slot, take_slot, after_put, after_take, PutWords, TookWords, enqueue_step, dequeue_step,
}
use sqkio.Ring.Calls.Enqueue.{put_slot-lt, put-InRing, free_of_lem, enqueue-full}
use sqkio.Ring.Calls.Dequeue.{take_slot-lt, take-InRing, entries_of_lem, dequeue-empty}
use sqkio.Ring.Threads.{returned, put_start, get_start, Shared, advance}
use sqkio.Ring.Threads.Turns.{solo}

-- `MpscRing` of 8-byte elements.
abbrev pub handles : Config
handles = record {
  prod_sync = mt;
  cons_sync = st;
  transactional_prod = false;
  transactional_cons = false;
  esize = 8;
}

module _ {W : Type 0} (s : Shared W) where
  -- What six accesses of an enqueue and five of a dequeue leave.
  abbrev put_state : W → Shared W
  put_state w = record s {
    ring = after_put s.ring (update s.ring.mem (put_slot s.ring) w);
    prod_head = s.prod_head + 1;
    prod_tail = s.prod_tail + 1;
    sent = update s.sent s.prod_head w;
  }

  abbrev taken_state : Shared W
  taken_state = record s {
    ring = after_take s.ring;
    cons_head = s.cons_head + 1;
    cons_tail = s.cons_tail + 1;
    received = update s.received s.cons_tail (s.ring.mem (take_slot s.ring));
  }

  solo-full : (w : W) → free_of s.ring ≡ 0 → solo 6 (put_start w) s ≡ (s, returned 0)
  unfolding solo advance clip
  solo-full w full = rw (solo, advance, full) refl

  some_free : free_of s.ring ≢ 0 → (clip false 1 (free_of s.ring) == 0) ≡ false
  unfolding clip
  some_free room = ground arith

  some_found : entries_of s.ring ≢ 0 → (clip false 1 (entries_of s.ring) == 0) ≡ false
  unfolding clip
  some_found some_there = ground arith

  its_turn : s.ring.prod.head ≡ s.ring.prod.tail → (s.ring.prod.tail == s.ring.prod.head) ≡ true
  its_turn done = ground arith

  solo-room :
      (w : W)
      → free_of s.ring ≢ 0
      → s.ring.prod.head ≡ s.ring.prod.tail
      → solo 6 (put_start w) s ≡ (put_state w, returned 1)
  unfolding solo advance
  solo-room w room done =
      rw (solo, advance, some_free room, ==_refl s.ring.prod.head, its_turn done) refl

  solo-none : entries_of s.ring ≡ 0 → solo 5 get_start s ≡ (s, returned 0)
  unfolding solo advance clip
  solo-none none_there = rw (solo, advance, none_there) refl

  solo-some : entries_of s.ring ≢ 0 → solo 5 get_start s ≡ (taken_state, returned 1)
  unfolding solo advance
  solo-some some_there = rw (solo, advance, some_found some_there) refl

module _ {W : Type 0} (fuel : ℕ) (s : Shared W) where
  -- The accesses of an enqueue against `enqueue`.
  abbrev pub PutAgrees : W → Type 0
  PutAgrees w =
      (n : ℕ) × ((solo 6 (put_start w) s).1 ≡ returned n)
      × (enqueue handles (suc fuel) (λ q. w) s.ring ≡ ok (n, (solo 6 (put_start w) s).0.ring))

  -- The accesses of a dequeue against `dequeue`.
  abbrev pub GetAgrees : Mem W → Type 0
  GetAgrees entry =
      (n : ℕ) × (out : Mem W) × ((solo 5 get_start s).1 ≡ returned n)
      × (dequeue handles (suc fuel) entry s.ring ≡ ok (n, out, (solo 5 get_start s).0.ring))
      × ((solo 5 get_start s).0.received
          ≡ (if n == 0 then s.received else update s.received s.cons_tail (out 0)))

module _ {W : Type 0} (k : ℕ) (s : Shared W) where
  -- The accesses of an enqueue against `Queue.push`.
  abbrev pub PutRefines : W → Type 0
  PutRefines w =
      (n : ℕ) × ((solo 6 (put_start w) s).1 ≡ returned n)
      × ((n, contents 8 (solo 6 (put_start w) s).0.ring)
          ≡ Queue.push (2 ^ k - 1) (contents 8 s.ring) (w ∷ []))
      × IsValid 8 k (solo 6 (put_start w) s).0.ring

  -- The accesses of a dequeue against `Queue.pop`.
  abbrev pub GetRefines : W → Type 0
  GetRefines old =
      (n : ℕ) × (x : W) × ((solo 5 get_start s).1 ≡ returned n)
      × ((n, x ∷ [], contents 8 (solo 5 get_start s).0.ring)
          ≡ Queue.pop (contents 8 s.ring) (old ∷ []))
      × IsValid 8 k (solo 5 get_start s).0.ring
      × ((solo 5 get_start s).0.received
          ≡ (if n == 0 then s.received else update s.received s.cons_tail x))

module _ {W : Type 0} (k fuel : ℕ) (s : Shared W) (v : IsValid 8 k s.ring) where
  put_words :
      (w : W) (mem : Mem W)
      → PutWords handles 0 s.ring (λ q. w) mem
      → (p : ℕ) → mem p ≡ update s.ring.mem (put_slot s.ring) w p
  unfolding scale
  put_words w mem same p = let inside = put_slot-lt handles k s.ring v in same p ∙ ground arith

  enqueue_alone : (w : W) → PutAgrees fuel s w
  enqueue_alone w = elim (ℕ_discrete (free_of s.ring) 0) [
    | yes full ↦ (
      0,
      ap (λ t. t.1) (solo-full s w full),
      enqueue-full handles k s.ring v fuel (λ q. w) (λ e. cc)
            (omega (arith, free_of_lem handles k s.ring v))
          ∙ rw (solo-full s w full) refl,
    )
    | no room ↦
        let (mem, runs, same) =
          enqueue_step handles fuel s.ring (λ q. w) (λ e. cc) v.prod_done (omega arith)
            (put-InRing handles k s.ring v) in
        (
          1,
          ap (λ t. t.1) (solo-room s w room v.prod_done),
          runs
              ∙ ap (λ t. ok (1, after_put s.ring t)) (λ i p. put_words w mem same p i)
              ∙ rw (solo-room s w room v.prod_done) refl,
        )
  ]

  took_word :
      (entry out : Mem W)
      → TookWords handles 0 s.ring entry out
      → out 0 ≡ s.ring.mem (take_slot s.ring)
  unfolding scale
  took_word entry out same = let inside = take_slot-lt handles k s.ring v in same 0 ∙ ground arith

  dequeue_alone : (entry : Mem W) → GetAgrees fuel s entry
  dequeue_alone entry = elim (ℕ_discrete (entries_of s.ring) 0) [
    | yes none_there ↦ (
      0,
      entry,
      ap (λ t. t.1) (solo-none s none_there),
      dequeue-empty handles k s.ring v fuel entry (λ e. cc)
            (omega (arith, entries_of_lem handles k s.ring v))
          ∙ rw (solo-none s none_there) refl,
      rw (solo-none s none_there) refl,
    )
    | no some_there ↦
        let (out, runs, same) =
          dequeue_step handles fuel s.ring entry (λ e. cc) v.cons_done (omega arith)
            (take-InRing handles k s.ring v) in
        (
          1,
          out,
          ap (λ t. t.1) (solo-some s some_there),
          runs ∙ rw (solo-some s some_there) refl,
          rw (solo-some s some_there)
              (ap (update s.received s.cons_tail) (sym (took_word entry out same))),
        )
  ]

  put_refines : (w : W) → PutRefines k s w
  unfolding scale
  put_refines w =
      let (n, ends, runs) = enqueue_alone w in
      let (r, n', runs', valid, pushed, same) =
        enqueue_refines handles k fuel (λ q. w) s.ring (λ e. cc) v in
      let same_run = ok-inj (sym runs ∙ runs') in
      (
        n,
        ends,
        ap (λ (p : ℕ × Ring W). (p.0, contents 8 p.1)) same_run ∙ pushed,
        subst (IsValid 8 k) (ap (λ (p : ℕ × Ring W). p.1) (sym same_run)) valid,
      )

  get_refines : (old : W) → GetRefines k s old
  unfolding scale
  get_refines old =
      let (n, out, ends, runs, given) = dequeue_alone (λ q. old) in
      let (r, n', out', runs', valid, popped, same, size) =
        dequeue_refines handles k fuel (λ q. old) s.ring (λ e. cc) v in
      let same_run = ok-inj (sym runs ∙ runs') in
      (
        n,
        out 0,
        ends,
        ap (λ (p : ℕ × Mem W × Ring W). (p.0, p.1 0 ∷ [], contents 8 p.2)) same_run ∙ popped,
        subst (IsValid 8 k) (ap (λ (p : ℕ × Mem W × Ring W). p.2) (sym same_run)) valid,
        given,
      )

  -- On a ring of 2^k slots of 8 bytes between calls, k ≤ 30, with no access of another thread
  -- between: the six accesses of an enqueue return what `Queue.push` of its entry returns on the
  -- entries held, for a queue of 2^k - 1 entries, and leave the ring with the entries that it leaves;
  -- the five of a dequeue return what `Queue.pop` returns and leave what it leaves, and what they
  -- give, if anything, is the entry that it takes. Either leaves the ring between calls again, with
  -- every head at its tail.
  pub calls_alone : (w old : W) → PutRefines k s w × GetRefines k s old
  calls_alone w old = (put_refines w, get_refines old)
