-- ===== src/Ring/Threads/Reach.antt =====
-- The states that threads lead a new ring of src/common/include/ring.hpp to, in any order of their
-- accesses.
use native.Mathlib.Nat.{pow-le-pow_right, one-le-pow}
use sqkio.Common.{ℕ, ◌-◌, ◌^◌, ◌≤◌, ◌≡◌, refl, arith}
use sqkio.Common.Word.{sub32}
use sqkio.Common.Update.{update}
use sqkio.Ring.{Ring, init}
use sqkio.Ring.Copy.{Mem}
use sqkio.Ring.Threads.{Pc, returned, put_start, get_start, Shared, advance}
use sqkio.Ring.Threads.Invariant.{IsTimely, Inv}
use sqkio.Ring.Threads.Invariant.Keeps.{advance-Inv, put_start-Inv, get_start-Inv, start-Inv}

pub sub32-pow : (k : ℕ) → k ≤ 31 → sub32 (2 ^ k) 1 ≡ 2 ^ k - 1
sub32-pow k few =
    omega (arith, one-le-pow k 2, pow-le-pow_right {n = 2} (omega arith) {i = k} {j = 31} few)

module _ {W : Type 0} where
  -- A ring with the history of a new one; `sent` and `received` are what stands at positions to
  -- come.
  abbrev pub fresh : Ring W → (ℕ → W) → (ℕ → W) → Shared W
  fresh ring sent received = record {
    ring = ring;
    prod_head = 0;
    prod_tail = 0;
    cons_head = 0;
    cons_tail = 0;
    sent = sent;
    received = received;
  }

  -- A ring of 2^k slots. Any thread between two calls may enqueue, `owner` may dequeue, and any
  -- thread may do its next access unless it has slept for too long.
  pub data Reach (k owner : ℕ) : Shared W → (ℕ → Pc W) → Type 0 where
    start :
        (mem : Mem W) (sent received : ℕ → W)
        → k ≤ 31
        → Reach k owner (fresh (init (2 ^ k) mem) sent received) (λ i. returned 0)
    enqueue :
        {s : Shared W} {pc : ℕ → Pc W} (i n : ℕ) (v : W)
        → Reach k owner s pc
        → pc i ≡ returned n
        → Reach k owner s (update pc i (put_start v))
    dequeue :
        {s : Shared W} {pc : ℕ → Pc W} (n : ℕ)
        → Reach k owner s pc
        → pc owner ≡ returned n
        → Reach k owner s (update pc owner get_start)
    access :
        {s : Shared W} {pc : ℕ → Pc W} (i : ℕ)
        → Reach k owner s pc
        → IsTimely s (pc i)
        → Reach k owner (advance (pc i) s).0 (update pc i (advance (pc i) s).1)

  pub Reach-Inv :
      {k owner : ℕ} {s : Shared W} {pc : ℕ → Pc W} → Reach k owner s pc → Inv k owner s pc
  unfolding init
  Reach-Inv {k} {owner} (start mem sent received few) =
      start-Inv k owner (init (2 ^ k) mem) sent received few (sub32-pow k few) (sub32-pow k few)
        refl refl
  Reach-Inv (enqueue i n v r at) = put_start-Inv (Reach-Inv r) i n v at
  Reach-Inv {owner = owner} (dequeue n r at) = get_start-Inv (Reach-Inv r) owner n at refl
  Reach-Inv (access i r timely) = advance-Inv (Reach-Inv r) i timely
