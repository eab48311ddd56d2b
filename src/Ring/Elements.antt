-- ===== src/Ring/Elements.antt =====
-- `enqueue_elements` and `dequeue_elements` of src/common/include/ring.hpp: which copy an element size
-- selects, and how many words an element has there.
pub mod Laws
use sqkio.Common.{ℕ, ◌*◌, ◌/◌, ◌%◌, ◌^◌, bit_and, ◌==◌, if◌then◌else◌}
use sqkio.Outcome.{Outcome}
use sqkio.Ring.{Ring}
use sqkio.Ring.Copy.{
  Mem, enqueue_elems_32, enqueue_elems_64, enqueue_elems_128, dequeue_elems_32, dequeue_elems_64,
  dequeue_elems_128,
}

abbrev mul32 : ℕ → ℕ → ℕ
mul32 a b = a * b % 2 ^ 32

module _ {ℓ} {W : Type ℓ} where
  -- The overload for the size 8, that for 16, or the one over 32-bit words.
  unfoldable pub enqueue_elements : ℕ → Ring W → ℕ → Mem W → ℕ → Outcome (Mem W)
  unfolding enqueue_elems_32 enqueue_elems_64 enqueue_elems_128
  enqueue_elements esize r prod_head entries n =
      if esize == 8
      then enqueue_elems_64 r.size r.mask prod_head entries n r.mem
      else if esize == 16
      then enqueue_elems_128 r.size r.mask prod_head entries n r.mem
      else (let scale = esize / 4 in
          let nr_num = mul32 n scale in
          let idx = bit_and prod_head r.mask in
          let nr_idx = mul32 idx scale in
          let nr_size = mul32 r.size scale in enqueue_elems_32 nr_size nr_idx entries nr_num r.mem)

  unfoldable pub dequeue_elements : ℕ → Ring W → ℕ → Mem W → ℕ → Outcome (Mem W)
  unfolding dequeue_elems_32 dequeue_elems_64 dequeue_elems_128
  dequeue_elements esize r cons_head entries num =
      if esize == 8
      then dequeue_elems_64 r.size r.mask cons_head r.mem num entries
      else if esize == 16
      then dequeue_elems_128 r.size r.mask cons_head r.mem num entries
      else (let scale = esize / 4 in
          let nr_num = mul32 num scale in
          let idx = bit_and cons_head r.mask in
          let nr_idx = mul32 idx scale in
          let nr_size = mul32 r.size scale in dequeue_elems_32 nr_size nr_idx r.mem nr_num entries)

-- How many of the words that its copy moves make up an element.
unfoldable pub scale : ℕ → ℕ
scale esize = if esize == 8 then 1 else if esize == 16 then 1 else esize / 4
