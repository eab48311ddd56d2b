-- ===== src/Ring/Hts/Reach.antt =====
-- The states that threads lead a new HTS ring of src/common/include/ring.hpp to, in any order of
-- their accesses.
use native.Mathlib.Nat.{pow-le-pow_right}
use sqkio.Common.{ℕ, ◌^◌, ◌≤◌, ◌≡◌, arith}
use sqkio.Common.Update.{update}
use sqkio.Ring.{init}
use sqkio.Ring.Copy.{Mem}
use sqkio.Ring.Threads.{Shared}
use sqkio.Ring.Threads.Reach.{fresh, sub32-pow}
use sqkio.Ring.Hts.{Pc, returned, put_start, get_start, advance}
use sqkio.Ring.Hts.Invariant.{IsTimely, Inv}
use sqkio.Ring.Hts.Invariant.Keeps.{advance-Inv, put_start-Inv, get_start-Inv}

module _ {W : Type 0} where
  -- A ring of 2^k slots. Any thread between two calls may enqueue or dequeue, and any thread may do
  -- its next access unless it has slept for too long.
  pub data Reach (k : ℕ) : Shared W → (ℕ → Pc W) → Type 0 where
    start :
        (mem : Mem W) (sent received : ℕ → W)
        → k ≤ 31
        → Reach k (fresh (init (2 ^ k) mem) sent received) (λ i. returned 0)
    enqueue :
        {s : Shared W} {pc : ℕ → Pc W} (i n : ℕ) (v : W)
        → Reach k s pc
        → pc i ≡ returned n
        → Reach k s (update pc i (put_start v))
    dequeue :
        {s : Shared W} {pc : ℕ → Pc W} (i n : ℕ)
        → Reach k s pc
        → pc i ≡ returned n
        → Reach k s (update pc i get_start)
    access :
        {s : Shared W} {pc : ℕ → Pc W} (i : ℕ)
        → Reach k s pc
        → IsTimely s (pc i)
        → Reach k (advance (pc i) s).0 (update pc i (advance (pc i) s).1)

  start-Inv :
      (k : ℕ) (mem : Mem W) (sent received : ℕ → W)
      → k ≤ 31
      → Inv k (fresh (init (2 ^ k) mem) sent received) (λ i. returned 0)
  unfolding init
  start-Inv k mem sent received few = record {
    counted =
        omega (arith, sub32-pow k few, pow-le-pow_right {n = 2} (omega arith) {i = k} {j = 31} few);
    placed = λ i. tt;
    stored = λ i. tt;
    lone_writer = λ i j e. cc;
    lone_reader = λ i j e. cc;
    held = λ q lo hi. absurd (omega arith);
    given = λ q lt. absurd (omega arith);
  }

  pub Reach-Inv : {k : ℕ} {s : Shared W} {pc : ℕ → Pc W} → Reach k s pc → Inv k s pc
  Reach-Inv {k} (start mem sent received few) = start-Inv k mem sent received few
  Reach-Inv (enqueue i n v r at) = put_start-Inv (Reach-Inv r) i v
  Reach-Inv (dequeue i n r at) = get_start-Inv (Reach-Inv r) i
  Reach-Inv (access i r timely) = advance-Inv (Reach-Inv r) i timely
