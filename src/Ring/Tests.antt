-- ===== src/Ring/Tests.antt =====
-- Runs of the ring of src/common/include/ring.hpp, and the theorems about it at concrete rings. The
-- words are natural numbers; a word's number in the examples tells where it comes from.
use sqkio.Common.{
  ℕ, ◌+◌, ◌-◌, ◌*◌, ◌^◌, ◌≤◌, ◌<◌, ◌≡◌, ◌≢◌, ◌↔◌, refl, true, false, List, [], ◌∷◌, Option, some,
  bit_and, arith,
}
use sqkio.Outcome.{ok}
use sqkio.Align.{align_ceil}
use sqkio.Queue
use sqkio.Ring.{mt, st, mt_rts, mt_hts, Config, Ring}
use sqkio.Ring.Copy.{Mem, Cursor, put, copy_elems}
use sqkio.Ring.Copy.Loops.{around}
use sqkio.Ring.Copy.Equiv.{copy_elems_lem}
use sqkio.Ring.Elements.{scale}
use sqkio.Ring.Elements.Laws.{InRing}
use sqkio.Ring.Calls.Valid.{contents, IsValid}
use sqkio.Ring.Calls.Refine.{Call, enq, deq, run, queue_run, run_refines}
use sqkio.Ring.Create.{made, einval, of, ring_bytes, freed_bytes}
use sqkio.Ring.Create.Accepts.{slots, of-einval_iff}
use sqkio.Ring.Create.Sound.{of-run, ring_bytes_wrap}
use sqkio.Ring.Create.Lost.{third_overwrites_first}

-- `MpscRing` of an element of 8 bytes.
abbrev mpsc : Config
mpsc = record {
  prod_sync = mt;
  cons_sync = st;
  transactional_prod = false;
  transactional_cons = false;
  esize = 8;
}

-- Elements of 12 bytes, both sides HTS.
abbrev wide : Config
wide = record {
  prod_sync = mt_hts;
  cons_sync = mt_hts;
  transactional_prod = true;
  transactional_cons = false;
  esize = 12;
}

-- Words that hold their own index, and words that hold one number.
abbrev index_words : Mem ℕ
index_words q = q

abbrev same_words : ℕ → Mem ℕ
same_words x q = x

abbrev allocate : ℕ → Option (Mem ℕ)
allocate bytes = some index_words

mt_coded : mt ≢ mt_rts
mt_coded e = cc

st_coded : st ≢ mt_rts
st_coded e = cc

hts_coded : mt_hts ≢ mt_rts
hts_coded e = cc

-- Four slots with two entries, whose positions pass 2^32 - 1.
abbrev wrapped_ring : Ring ℕ
wrapped_ring = record {
  size = 4;
  mask = 3;
  capacity = 3;
  htd_max = 0;
  memzone_size = 512;
  prod = record { head = 1; tail = 1 };
  cons = record { head = 2 ^ 32 - 1; tail = 2 ^ 32 - 1 };
  mem = index_words;
}

wrapped_ring-IsValid : IsValid 12 2 wrapped_ring
unfolding scale
wrapped_ring-IsValid = omega arith

wrapped_ring-contents : contents 12 wrapped_ring ≡ (9 ∷ 10 ∷ 11 ∷ []) ∷ (0 ∷ 1 ∷ 2 ∷ []) ∷ []
unfolding scale
wrapped_ring-contents = refl

-- Five calls on it: it takes a third entry and no fourth, and hands out the oldest two.
abbrev five_calls : List (Call ℕ)
five_calls =
    enq (same_words 7)
    ∷ enq (same_words 8)
    ∷ deq (same_words 0)
    ∷ deq (same_words 0)
    ∷ enq (same_words 6)
    ∷ []

run_refines_example :
    (r' : Ring ℕ) × (run wide 1 five_calls wrapped_ring
      ≡ ok ((1, []) ∷ (0, []) ∷ (1, 9 ∷ 10 ∷ 11 ∷ []) ∷ (1, 0 ∷ 1 ∷ 2 ∷ []) ∷ (1, []) ∷ [], r'))
    × IsValid 12 2 r'
    × (contents 12 r' ≡ (7 ∷ 7 ∷ 7 ∷ []) ∷ (6 ∷ 6 ∷ 6 ∷ []) ∷ [])
    × (r'.memzone_size ≡ 512)
unfolding queue_run Queue.push Queue.pop scale
run_refines_example =
    run_refines wide 2 0 five_calls wrapped_ring hts_coded hts_coded wrapped_ring-IsValid

-- Four slots asked for: three entries fit.
abbrev six_calls : List (Call ℕ)
six_calls =
    enq (same_words 7)
    ∷ enq (same_words 8)
    ∷ enq (same_words 9)
    ∷ enq (same_words 5)
    ∷ deq (same_words 0)
    ∷ deq (same_words 0)
    ∷ []

of-run_example :
    (r : Ring ℕ) × (r' : Ring ℕ) × (of 192 (2 ^ 6) 8 allocate (2 ^ 2) ≡ made r)
    × (192 + r.size * 8 ≤ r.memzone_size)
    × (run mpsc 1 six_calls r
        ≡ ok ((1, []) ∷ (1, []) ∷ (1, []) ∷ (0, []) ∷ (1, 7 ∷ []) ∷ (1, 8 ∷ []) ∷ [], r'))
    × (freed_bytes r' ≡ ring_bytes 192 (2 ^ 6) 8 (slots (2 ^ 2)))
unfolding queue_run Queue.push Queue.pop scale
of-run_example =
    of-run mpsc 2 192 6 allocate index_words (omega arith) refl (omega arith) (omega arith) 0
      six_calls (omega arith) (omega arith) mt_coded st_coded refl

-- `RingGuard` of ten elements: the third overwrites the first.
third_overwrites_first_example :
    (r : Ring ℕ) × (r' : Ring ℕ) × (of 192 64 8 allocate 10 ≡ made r)
    × (run mpsc 1
          (enq (same_words 7) ∷ enq (same_words 8) ∷ enq (same_words 9) ∷ deq (same_words 0) ∷ [])
          r
        ≡ ok ((1, []) ∷ (1, []) ∷ (1, []) ∷ (1, 9 ∷ []) ∷ [], r'))
unfolding scale
third_overwrites_first_example =
    third_overwrites_first mpsc 192 64 10 allocate index_words refl (omega arith) (omega arith)
      (omega arith) (omega arith) 0 (same_words 7) (same_words 8) (same_words 9) (same_words 0)
      mt_coded st_coded refl

-- Three words from the last of four words on: they go round the end.
copy_elems_lem_example :
    (c : Cursor ℕ) × (copy_elems (put (same_words 7)) (2 ^ 3) 4 3 3 index_words ≡ ok c)
    × (c.mem ≡ around (put (same_words 7)) 4 3 0 3 index_words)
copy_elems_lem_example =
    copy_elems_lem (put (same_words 7)) 3 4 3 3 index_words (omega arith) (omega arith)
      (omega arith) (omega arith)

wrapped_ring-InRing : InRing 12 4 (bit_and 3 3) 2
unfolding scale
wrapped_ring-InRing = omega arith

-- A count beyond 2^31 is not refused.
of-einval_iff_example :
    (of 192 64 8 allocate (2 ^ 31) ≡ einval) ↔ ((2 ^ 30 ≤ 2 ^ 31) × (2 ^ 31 < 2 ^ 31))
of-einval_iff_example = of-einval_iff 192 64 8 allocate (2 ^ 31) (omega arith)

ring_bytes_wrap_example : ring_bytes 192 64 (2 ^ 3) (slots (2 ^ 28)) ≡ align_ceil 192 64
ring_bytes_wrap_example =
    ring_bytes_wrap 192 64 3 (2 ^ 28) (omega arith) (omega arith) (omega arith) (omega arith)
