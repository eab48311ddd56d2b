-- ===== src/Ring/Heads.antt =====
-- The head and tail moves of src/common/include/ring.hpp, run with no other thread in between: the
-- value that an atomic load returns is still there at the compare-exchange. `fuel` bounds the
-- rounds of each loop.
pub mod Laws
use sqkio.Common.{ℕ, zero, suc, Bool, true, false, ◌&&◌, ltb, ◌==◌, if◌then◌else◌}
use sqkio.Common.Word.{add32, sub32}
use sqkio.Outcome.{Outcome, ok, hang, ◌>>=◌}
use sqkio.Ring.{SyncType, mt, st, mt_rts, mt_hts, Config, HeadTail, Ring}

-- What a move returns: the count, and the variables that it sets through references. `entries`
-- is `free_entries` on the producer's side.
pub record Moved : Type 0 where
  pub n : ℕ
  pub old_head : ℕ
  pub new_head : ℕ
  pub entries : ℕ

-- How many of `n` are taken where `avail` are there.
unfoldable pub clip : Bool → ℕ → ℕ → ℕ
clip transactional n avail = if ltb avail n then (if transactional then 0 else avail) else n

-- `sqk_wait_until_equal_32`
unfoldable pub wait_until_equal_32 : ℕ → ℕ → ℕ → Outcome ℕ
wait_until_equal_32 zero addr expected = hang
wait_until_equal_32 (suc fuel) addr expected = elim (addr == expected) [
  | true ↦ ok addr
  | false ↦ wait_until_equal_32 fuel addr expected
]

module _ {ℓ} {W : Type ℓ} (cfg : Config) where
  -- The `do` loop of `move_prod_head`, with the caller's `new_head`, not yet set.
  unfoldable pub prod_loop : ℕ → ℕ → ℕ → ℕ → Ring W → Outcome (Moved × Ring W)
  prod_loop zero max old_head new0 r = hang
  prod_loop (suc fuel) max old_head new0 r =
      let free = sub32 (add32 r.capacity r.cons.tail) old_head in
      let n = clip cfg.transactional_prod max free in
      let new_head = add32 old_head n in
      let taken : Moved = record {
        n = n;
        old_head = old_head;
        new_head = new_head;
        entries = free;
      } in
      let r' = record r { prod = record { head = new_head; tail = r.prod.tail } } in
      let again = prod_loop fuel max r.prod.head new_head r in
      if n == 0
      then ok (record { n = 0; old_head = old_head; new_head = new0; entries = free }, r)
      else elim cfg.prod_sync [
        | mt ↦ if r.prod.head == old_head then ok (taken, r') else again
        | _ ↦ ok (taken, r')
      ]

  -- `move_prod_head` of the modes MT and ST.
  unfoldable pub move_prod_head : ℕ → ℕ → ℕ → Ring W → Outcome (Moved × Ring W)
  unfolding prod_loop
  move_prod_head fuel n new0 r = prod_loop fuel n r.prod.head new0 r

  -- The `do` loop of `move_cons_head`, which reads the head again in each round.
  unfoldable pub cons_loop : ℕ → ℕ → ℕ → Ring W → Outcome (Moved × Ring W)
  cons_loop zero max new0 r = hang
  cons_loop (suc fuel) max new0 r =
      let old_head = r.cons.head in
      let entries = sub32 r.prod.tail old_head in
      let n = clip cfg.transactional_cons max entries in
      let new_head = add32 old_head n in
      let taken : Moved = record {
        n = n;
        old_head = old_head;
        new_head = new_head;
        entries = entries;
      } in
      let r' = record r { cons = record { head = new_head; tail = r.cons.tail } } in
      let again = cons_loop fuel max new_head r in
      if n == 0
      then ok (record { n = 0; old_head = old_head; new_head = new0; entries = entries }, r)
      else elim cfg.cons_sync [
        | st ↦ ok (taken, r')
        | _ ↦ if r.cons.head == old_head then ok (taken, r') else again
      ]

  -- `move_cons_head` of the modes MT and ST.
  unfoldable pub move_cons_head : ℕ → ℕ → ℕ → Ring W → Outcome (Moved × Ring W)
  unfolding cons_loop
  move_cons_head fuel n new0 r = cons_loop fuel n new0 r

-- `hts_head_wait`: `p` is read again until its head is its tail.
pub hts_head_wait : ℕ → HeadTail → HeadTail → Outcome HeadTail
hts_head_wait zero ht p = hang
hts_head_wait (suc fuel) ht p = elim (p.head == p.tail) [
  | true ↦ ok p
  | false ↦ hts_head_wait fuel ht ht
]

-- The compare of a compare-exchange on the whole 64-bit pair.
abbrev pub same_raw : HeadTail → HeadTail → Bool
same_raw a b = a.head == b.head && a.tail == b.tail

module _ {ℓ} {W : Type ℓ} (cfg : Config) where
  -- The `do` loop of the HTS `move_prod_head`; `op` is the pair that was read.
  pub hts_prod_loop : ℕ → ℕ → HeadTail → Ring W → Outcome (Moved × Ring W)
  unfolding hts_head_wait
  hts_prod_loop zero num op r = hang
  hts_prod_loop (suc fuel) num op r =
      let again = λ (q : HeadTail). hts_prod_loop fuel num q r in
      hts_head_wait (suc fuel) r.prod op >>= λ p.
      let free = sub32 (add32 r.capacity r.cons.tail) p.head in
      let n = clip cfg.transactional_prod num free in
      let np : HeadTail = record { head = add32 p.head n; tail = p.tail } in
      let moved : Moved = record { n = n; old_head = p.head; new_head = np.head; entries = free } in
      if n == 0
      then ok (record moved { n = 0; new_head = p.head }, r)
      else if same_raw r.prod p
      then ok (moved, record r { prod = np })
      else again r.prod

  -- `move_prod_head` of the mode HTS.
  pub hts_move_prod_head : ℕ → ℕ → Ring W → Outcome (Moved × Ring W)
  unfolding hts_prod_loop
  hts_move_prod_head fuel num r = hts_prod_loop fuel num r.prod r

  -- The `do` loop of the HTS `move_cons_head`.
  pub hts_cons_loop : ℕ → ℕ → HeadTail → Ring W → Outcome (Moved × Ring W)
  unfolding hts_head_wait
  hts_cons_loop zero num op r = hang
  hts_cons_loop (suc fuel) num op r =
      let again = λ (q : HeadTail). hts_cons_loop fuel num q r in
      hts_head_wait (suc fuel) r.cons op >>= λ p.
      let entries = sub32 r.prod.tail p.head in
      let n = clip cfg.transactional_cons num entries in
      let np : HeadTail = record { head = add32 p.head n; tail = p.tail } in
      let moved : Moved = record {
        n = n;
        old_head = p.head;
        new_head = np.head;
        entries = entries;
      } in
      if n == 0
      then ok (record moved { n = 0; new_head = p.head }, r)
      else if same_raw r.cons p
      then ok (moved, record r { cons = np })
      else again r.cons

  -- `move_cons_head` of the mode HTS.
  pub hts_move_cons_head : ℕ → ℕ → Ring W → Outcome (Moved × Ring W)
  unfolding hts_cons_loop
  hts_move_cons_head fuel num r = hts_cons_loop fuel num r.cons r

-- `update_tail` of the modes MT and ST: without `single` it waits for its turn.
unfoldable pub update_tail : ℕ → HeadTail → ℕ → ℕ → Bool → Outcome HeadTail
unfolding wait_until_equal_32
update_tail fuel ht old_val new_val single =
    if single
    then ok (record ht { tail = new_val })
    else (do _ ← wait_until_equal_32 fuel ht.tail old_val; ok (record ht { tail = new_val }))

-- `update_tail` of the mode HTS.
unfoldable pub hts_update_tail : HeadTail → ℕ → ℕ → HeadTail
hts_update_tail ht old_tail num = record ht { tail = add32 old_tail num }
