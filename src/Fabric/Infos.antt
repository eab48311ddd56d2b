-- ===== src/Fabric/Infos.antt =====
-- `Info` of src/net/fabric/fabric.hpp: who owns which `fi_info`. The lists that libfabric gives
-- stand at addresses, the `Info` objects at addresses of their own; to read a null pointer, or to
-- free a list that is not there, is undefined, and is `abort` here.
pub mod Owned
pub mod Keeps
pub mod Laws
mod Tests
use sqkio.Common.{ℕ, Bool, true, false, ◌==◌, if◌then◌else◌, Option, none, some, bit_or}
use sqkio.Common.Update.{update}
use sqkio.Outcome.{Outcome, ok, abort, ◌>>=◌}

-- `fi_info`, as far as `Info` reads and writes it; `A` is what the pointers to attributes lead to,
-- `B` an address.
pub record FiInfo (A B : Type 0) : Type 0 where
  pub caps : ℕ
  pub mode : ℕ
  pub addr_format : ℕ
  pub src_addr : B
  pub dest_addr : B
  pub ep_attr : A
  pub rx_attr : A
  pub domain_attr : A
  pub fabric_attr : A

-- An `Info`, by its `info_`; or no object.
pub data Holder : Type 0 where
  absent : Holder
  null : Holder
  owns : ℕ → Holder

pub record Infos (A B : Type 0) : Type 0 where
  pub raw : ℕ → Option (FiInfo A B)
  pub info : ℕ → Holder

module _ {A B : Type 0} where
  -- `Info::from_raw` and the constructor that it calls.
  unfoldable pub from_raw : ℕ → ℕ → Infos A B → Infos A B
  from_raw x q s = record s { info = update s.info x (owns q) }

  -- `Info()`: what `fi_allocinfo` gives, or `none` where it gives null and the constructor throws.
  -- The lists of `get_info` come the same way, with `none` where `fi_getinfo` fails.
  unfoldable pub construct : ℕ → Option (ℕ × FiInfo A B) → Infos A B → Option (Infos A B)
  construct x none s = none
  construct x (some (q, i)) s = some (from_raw x q (record s { raw = update s.raw q (some i) }))

  abbrev pub freeinfo : ℕ → Infos A B → Outcome (Infos A B)
  freeinfo q s = elim (s.raw q) [
    | some i ↦ ok (record s { raw = update s.raw q none })
    | none ↦ abort
  ]

  -- `~Info`
  unfoldable pub destroy : ℕ → Infos A B → Outcome (Infos A B)
  destroy x s = elim (s.info x) [
    | owns q ↦ freeinfo q s >>= λ s'. ok (record s' { info = update s'.info x absent })
    | null ↦ ok (record s { info = update s.info x absent })
    | absent ↦ abort
  ]

  -- `Info(Info&& rhs)` at `x`, and the move assignment to `x`: the same body.
  unfoldable pub move : ℕ → ℕ → Infos A B → Infos A B
  move x rhs s =
      if x == rhs then s else record s { info = update (update s.info x (s.info rhs)) rhs null }

  -- `info_->...` through the object at `x`.
  abbrev pub deref : ℕ → Infos A B → Outcome (ℕ × FiInfo A B)
  deref x s = elim (s.info x) [
    | owns q ↦ elim (s.raw q) [ some i ↦ ok (q, i) | none ↦ abort ]
    | _ ↦ abort
  ]

  -- What the functions `with_...` of the object at `x` have in common: the list changes, and the
  -- object is moved into the result, at `y`.
  abbrev pub with : (FiInfo A B → FiInfo A B) → ℕ → ℕ → Infos A B → Outcome (Infos A B)
  with change x y s =
      deref x s >>= λ (q, i). ok (move y x (record s { raw = update s.raw q (some (change i)) }))

  unfoldable pub with_caps : ℕ → ℕ → ℕ → Infos A B → Outcome (Infos A B)
  with_caps caps = with (λ i. record i { caps = bit_or i.caps caps })

  unfoldable pub with_mode : ℕ → ℕ → ℕ → Infos A B → Outcome (Infos A B)
  with_mode mode = with (λ i. record i { mode = bit_or i.mode mode })

  unfoldable pub with_addr_format : ℕ → ℕ → ℕ → Infos A B → Outcome (Infos A B)
  with_addr_format format = with (λ i. record i { addr_format = format })

  -- `fn` changes what the pointer to the attributes leads to.
  unfoldable pub with_ep_attr : (A → A) → ℕ → ℕ → Infos A B → Outcome (Infos A B)
  with_ep_attr fn = with (λ i. record i { ep_attr = fn i.ep_attr })

  unfoldable pub with_rx_attr : (A → A) → ℕ → ℕ → Infos A B → Outcome (Infos A B)
  with_rx_attr fn = with (λ i. record i { rx_attr = fn i.rx_attr })

  unfoldable pub with_domain_attr : (A → A) → ℕ → ℕ → Infos A B → Outcome (Infos A B)
  with_domain_attr fn = with (λ i. record i { domain_attr = fn i.domain_attr })

  unfoldable pub with_fabric_attr : (A → A) → ℕ → ℕ → Infos A B → Outcome (Infos A B)
  with_fabric_attr fn = with (λ i. record i { fabric_attr = fn i.fabric_attr })

  unfoldable pub src_addr : ℕ → Infos A B → Outcome B
  src_addr x s = deref x s >>= λ (q, i). ok i.src_addr

  unfoldable pub dst_addr : ℕ → Infos A B → Outcome B
  dst_addr x s = deref x s >>= λ (q, i). ok i.dest_addr
