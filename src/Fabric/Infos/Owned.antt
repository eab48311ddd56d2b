-- ===== src/Fabric/Infos/Owned.antt =====
-- The states of the `Info` objects of src/net/fabric/fabric.hpp that a program reaches, and what
-- holds in them.
use sqkio.Common.{ℕ, ◌≡◌, ◌≢◌, none, some}
use sqkio.Common.Update.{update}
use sqkio.Outcome.{ok}
use sqkio.Fabric.Infos.{FiInfo, absent, owns, Infos, from_raw, construct, destroy, move, with}

module _ {A B : Type 0} where
  -- A program without undefined behaviour of its own: a list is new or was freed when libfabric
  -- gives it, `from_raw` takes one that no object owns, a new object stands where none does, and
  -- nothing is done to an object that is not there.
  pub data Reach : Infos A B → Type 0 where
    start : Reach (record { raw = λ q. none; info = λ x. absent })
    lent :
        {s : Infos A B} (q : ℕ) (i : FiInfo A B)
        → Reach s
        → s.raw q ≡ none
        → Reach (record s { raw = update s.raw q (some i) })
    adopted :
        {s : Infos A B} (x q : ℕ) (i : FiInfo A B)
        → Reach s
        → s.info x ≡ absent
        → s.raw q ≡ some i
        → ((y : ℕ) → s.info y ≢ owns q)
        → Reach (from_raw x q s)
    constructed :
        {s s' : Infos A B} (x q : ℕ) (i : FiInfo A B)
        → Reach s
        → s.info x ≡ absent
        → s.raw q ≡ none
        → construct x (some (q, i)) s ≡ some s'
        → Reach s'
    moved : {s : Infos A B} (x rhs : ℕ) → Reach s → s.info rhs ≢ absent → Reach (move x rhs s)
    built :
        {s s' : Infos A B} (change : FiInfo A B → FiInfo A B) (x y : ℕ)
        → Reach s
        → s.info y ≡ absent
        → with change x y s ≡ ok s'
        → Reach s'
    destroyed :
        {s s' : Infos A B} (x : ℕ) → Reach s → s.info x ≢ absent → destroy x s ≡ ok s' → Reach s'

  -- What an object owns is there, and no other object owns it.
  pub record IsOwned (s : Infos A B) : Type 0 where
    pub live : (x q : ℕ) → s.info x ≡ owns q → s.raw q ≢ none
    pub sole : (x y q : ℕ) → s.info x ≡ owns q → s.info y ≡ owns q → x ≡ y
