-- ===== src/Fabric/Infos/Keeps.antt =====
-- The operations of `Info` of src/net/fabric/fabric.hpp keep every list owned at most once.
use sqkio.Common.{
  ℕ, ◌≡◌, ◌≢◌, refl, sym, ◌∙◌, inl, inr, Bool-cases, ◌==◌, Option, none, some, arith,
}
use mathlib.Core.Path.{subst}
use sqkio.Common.Update.{update}
use sqkio.Common.Options.{some-inj}
use sqkio.Outcome.Laws.{ok-inj, abort-ok}
use sqkio.Outcome.{ok, abort}
use sqkio.Fabric.Infos.{
  FiInfo, Holder, absent, null, owns, Infos, from_raw, construct, destroy, move, freeinfo, deref,
  with,
}
use sqkio.Fabric.Infos.Owned.{
  Reach, start, lent, adopted, constructed, moved, built, destroyed, IsOwned,
}

module _ {A B : Type 0} (s : Infos A B) (v : IsOwned s) where
  -- A list at an address where none was, or in the place of one that was there.
  stored-IsOwned : (q : ℕ) (i : FiInfo A B) → IsOwned (record s { raw = update s.raw q (some i) })
  stored-IsOwned q i = record { live = λ x p e. ground (arith, v.live x p e); sole = v.sole }

  from_raw-IsOwned :
      (x q : ℕ)
      → s.raw q ≢ none
      → ((y : ℕ) → s.info y ≢ owns q)
      → IsOwned (record s { info = update s.info x (owns q) })
  from_raw-IsOwned x q there free = record {
    live = λ y p e. ground (arith, v.live y p, there);
    sole = λ y z p ey ez. ground (arith, v.sole y z p, free y, free z);
  }

  swap-IsOwned :
      (x rhs : ℕ)
      → x ≢ rhs
      → IsOwned (record s { info = update (update s.info x (s.info rhs)) rhs null })
  swap-IsOwned x rhs ne = record {
    live = λ y p e. ground (arith, v.live y p, v.live rhs p);
    sole = λ y z p ey ez. ground (arith, v.sole y z p, v.sole y rhs p, v.sole rhs z p);
  }

  move-IsOwned : (x rhs : ℕ) → IsOwned (move x rhs s)
  unfolding move
  move-IsOwned x rhs = elim (Bool-cases (x == rhs)) [
    | inl same ↦ rw same v
    | inr other ↦ rw other (swap-IsOwned x rhs (ground arith))
  ]

  freed-IsOwned :
      (x q : ℕ)
      → s.info x ≡ owns q
      → IsOwned (record s { raw = update s.raw q none; info = update s.info x absent })
  freed-IsOwned x q at = record {
    live = λ y p e. ground (arith, v.live y p, v.sole x y q);
    sole = λ y z p ey ez. ground (arith, v.sole y z p);
  }

  gone-IsOwned : (x : ℕ) → IsOwned (record s { info = update s.info x absent })
  gone-IsOwned x = record {
    live = λ y p e. ground (arith, v.live y p);
    sole = λ y z p ey ez. ground (arith, v.sole y z p);
  }

  -- The state that the destructor of an object leaves.
  abbrev pub without : ℕ → Holder → Infos A B
  without x (owns q) = record s { raw = update s.raw q none; info = update s.info x absent }
  without x _ = record s { info = update s.info x absent }

  freeinfo-there :
      (q : ℕ) → s.raw q ≢ none → freeinfo q s ≡ ok (record s { raw = update s.raw q none })
  freeinfo-there q there = by (s.raw q) refl
    where
      by :
          (o : Option (FiInfo A B))
          → s.raw q ≡ o
          → freeinfo q s ≡ ok (record s { raw = update s.raw q none })
      by (some i) e = rw (freeinfo, e) refl
      by none e = absurd (there e)

  pub destroy-without :
      (x : ℕ) (h : Holder) → s.info x ≡ h → h ≢ absent → destroy x s ≡ ok (without x h)
  unfolding destroy
  destroy-without x (owns q) at here = rw (destroy, at, freeinfo-there q (v.live x q at)) refl
  destroy-without x null at here = rw (destroy, at) refl
  destroy-without x absent at here = absurd (here refl)

  pub without-IsOwned : (x : ℕ) (h : Holder) → s.info x ≡ h → IsOwned (without x h)
  without-IsOwned x (owns q) at = freed-IsOwned x q at
  without-IsOwned x null at = gone-IsOwned x
  without-IsOwned x absent at = gone-IsOwned x

  -- A list changes under its owner, and the owner hands it on.
  abbrev pub handed : (FiInfo A B → FiInfo A B) → ℕ → ℕ → ℕ → FiInfo A B → Infos A B
  handed change x y q i = move y x (record s { raw = update s.raw q (some (change i)) })

  pub with-handed :
      (change : FiInfo A B → FiInfo A B) (x y q : ℕ)
      → s.info x ≡ owns q
      → (i : FiInfo A B) × (s.raw q ≡ some i) × (with change x y s ≡ ok (handed change x y q i))
  with-handed change x y q at = by (s.raw q) refl
    where
      by :
          (o : Option (FiInfo A B))
          → s.raw q ≡ o
          → (i : FiInfo A B) × (s.raw q ≡ some i) × (with change x y s ≡ ok (handed change x y q i))
      by (some i) e = (i, e, rw (with, deref, at, e) refl)
      by none e = absurd (v.live x q at e)

  pub with-refused :
      (change : FiInfo A B → FiInfo A B) (x y : ℕ) (h : Holder)
      → s.info x ≡ h
      → ((q : ℕ) → h ≢ owns q)
      → with change x y s ≡ abort
  with-refused change x y (owns q) at other = absurd (other q refl)
  with-refused change x y null at other = rw (with, deref, at) refl
  with-refused change x y absent at other = rw (with, deref, at) refl

module _ {A B : Type 0} where
  -- What `with` leaves where it ends.
  with-IsOwned :
      (change : FiInfo A B → FiInfo A B) (x y : ℕ) (s s' : Infos A B)
      → IsOwned s
      → with change x y s ≡ ok s'
      → IsOwned s'
  with-IsOwned change x y s s' v runs = by (s.info x) refl
    where
      by : (h : Holder) → s.info x ≡ h → IsOwned s'
      by (owns q) at =
          let (i, there, ends) = with-handed s v change x y q at in
          subst IsOwned (ok-inj (sym ends ∙ runs))
            (move-IsOwned _ (stored-IsOwned s v q (change i)) y x)
      by null at = abort-ok (sym (with-refused s v change x y null at (λ q e. cc)) ∙ runs)
      by absent at = abort-ok (sym (with-refused s v change x y absent at (λ q e. cc)) ∙ runs)

  destroy-IsOwned :
      (x : ℕ) (s s' : Infos A B) → IsOwned s → s.info x ≢ absent → destroy x s ≡ ok s' → IsOwned s'
  destroy-IsOwned x s s' v here runs =
      subst IsOwned (ok-inj (sym (destroy-without s v x (s.info x) refl here) ∙ runs))
        (without-IsOwned s v x (s.info x) refl)

  pub Reach-IsOwned : {s : Infos A B} → Reach s → IsOwned s
  unfolding from_raw construct
  Reach-IsOwned start = record { live = λ x q e. cc; sole = λ x y q e. cc }
  Reach-IsOwned (lent {s} q i r free) = stored-IsOwned s (Reach-IsOwned r) q i
  Reach-IsOwned (adopted {s} x q i r new there free) =
      from_raw-IsOwned s (Reach-IsOwned r) x q (λ e. cc) free
  Reach-IsOwned (constructed {s} {s'} x q i r new free made) = subst IsOwned (some-inj made) (
      from_raw-IsOwned _ (stored-IsOwned s (Reach-IsOwned r) q i) x q (λ e. ground arith)
        (λ y e. (Reach-IsOwned r).live y q e free))
  Reach-IsOwned (moved {s} x rhs r here) = move-IsOwned s (Reach-IsOwned r) x rhs
  Reach-IsOwned (built {s} {s'} change x y r new runs) =
      with-IsOwned change x y s s' (Reach-IsOwned r) runs
  Reach-IsOwned (destroyed {s} {s'} x r here runs) =
      destroy-IsOwned x s s' (Reach-IsOwned r) here runs
