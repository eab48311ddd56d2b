-- ===== src/Ring.antt =====
-- The ring of src/common/include/ring.hpp: its fields, its four ways to synchronise, and `init`.
pub mod Copy
pub mod Elements
pub mod Heads
pub mod Calls
pub mod Create
pub mod Threads
pub mod Hts
mod Tests
use sqkio.Common.{ℕ, ◌/◌, Bool}
use sqkio.Common.Word.{sub32}
use sqkio.Ring.Copy.{Mem}

-- `RingSyncType`
pub data SyncType : Type 0 where
  mt : SyncType  -- SQK_RING_SYNC_MT
  st : SyncType  -- SQK_RING_SYNC_ST
  mt_rts : SyncType  -- SQK_RING_SYNC_MT_RTS
  mt_hts : SyncType  -- SQK_RING_SYNC_MT_HTS

-- The template arguments of `Ring`; `esize` is `sizeof(T)`.
pub record Config : Type 0 where
  pub prod_sync : SyncType
  pub cons_sync : SyncType
  pub transactional_prod : Bool
  pub transactional_cons : Bool
  pub esize : ℕ

-- `RingHeadTail`: the layouts of the union put `head_` and `tail_` at the same two words.
pub record HeadTail : Type 0 where
  pub head : ℕ
  pub tail : ℕ

-- `memzone_size` is `memzone_.size_`; `mem` holds the words behind the header, `this[1]`.
pub record Ring {ℓ} (W : Type ℓ) : Type ℓ where
  pub size : ℕ
  pub mask : ℕ
  pub capacity : ℕ
  pub htd_max : ℕ
  pub memzone_size : ℕ
  pub prod : HeadTail
  pub cons : HeadTail
  pub mem : Mem W

-- `HTD_MAX_DEF`
abbrev pub htd_max_def : ℕ
htd_max_def = 8

-- `memset` of the header, then its fields; what lies behind it keeps its contents.
unfoldable pub init {ℓ} : {W : Type ℓ} → ℕ → Mem W → Ring W
init sz mem = record {
  size = sz;
  mask = sub32 sz 1;
  capacity = sub32 sz 1;
  htd_max = sub32 sz 1 / htd_max_def;
  memzone_size = 0;
  prod = record { head = 0; tail = 0 };
  cons = record { head = 0; tail = 0 };
  mem = mem;
}
