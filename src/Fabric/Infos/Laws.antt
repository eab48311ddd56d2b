-- ===== src/Fabric/Infos/Laws.antt =====
-- What the objects of the class `Info` of src/net/fabric/fabric.hpp do with the lists of libfabric.
use native.Mathlib.Decide.{ℕ_discrete}
use sqkio.Common.{
  ℕ, ◌≡◌, ◌≢◌, ◌⊎◌, inl, inr, refl, ap, ◌∙◌, false, ◌==◌, Option, none, some, bit_or, arith,
}
use sqkio.Common.Update.{update}
use sqkio.Outcome.{Outcome, ok, abort, ◌>>=◌}
use sqkio.Fabric.Infos.{
  FiInfo, Holder, absent, null, owns, Infos, destroy, move, freeinfo, deref, with, with_caps,
  with_mode, with_addr_format,
}
use sqkio.Fabric.Infos.Owned.{Reach, IsOwned}
use sqkio.Fabric.Infos.Keeps.{without, destroy-without, Reach-IsOwned}

-- What a function `with_...` called on the object at `x`, which owns the list `i` at `q`, leaves.
record Handed {A B : Type 0} (change : FiInfo A B → FiInfo A B) (x y q : ℕ) (i : FiInfo A B)
    (s s' : Infos A B) : Type 0 where
  pub runs : with change x y s ≡ ok s'
  pub stored : s'.raw q ≡ some (change i)
  pub given : s'.info y ≡ owns q
  pub emptied : s'.info x ≡ null
  pub others : (w : ℕ) → w ≢ x → w ≢ y → s'.info w ≡ s.info w

with-Handed :
    {A B : Type 0} (change : FiInfo A B → FiInfo A B) (x y q : ℕ) (i : FiInfo A B) (s : Infos A B)
    → x ≢ y
    → s.info x ≡ owns q
    → s.raw q ≡ some i
    → (s' : Infos A B) × Handed change x y q i s s'
unfolding move
with-Handed {A} {B} change x y q i s ne at there = (
  after,
  record {
    runs = rw (with, deref, at, there, move, apart) refl;
    stored = ground arith;
    given = ground arith;
    emptied = ground arith;
    others = λ w wx wy. ground arith;
  },
)
  where
    after : Infos A B
    after = record {
      raw = update s.raw q (some (change i));
      info = update (update s.info y (owns q)) x null;
    }

    apart : (y == x) ≡ false
    apart = ground arith

-- A list that is there.
there-some : {A : Type 0} (o : Option A) → o ≢ none → (i : A) × (o ≡ some i)
there-some (some i) e = (i, refl)
there-some none e = absurd (e refl)

module _ {A B : Type 0} {s : Infos A B} (reach : Reach s) where
  -- In every reachable state the destructor of an `Info` that is there ends without undefined
  -- behaviour. Each list is one of two: the object owned it, it was there and is freed, or the
  -- object did not, and nothing happens to it.
  pub destroy_frees :
      (x : ℕ)
      → s.info x ≢ absent
      → (s' : Infos A B) × (destroy x s ≡ ok s')
        × (s'.info x ≡ absent)
        × ((q : ℕ)
            → ((s.info x ≡ owns q) × (s.raw q ≢ none) × (s'.raw q ≡ none))
              ⊎ ((s.info x ≢ owns q) × (s'.raw q ≡ s.raw q)))
  destroy_frees x here = by (s.info x) refl here
    where
      v : IsOwned s
      v = Reach-IsOwned reach

      by :
          (h : Holder)
          → s.info x ≡ h
          → h ≢ absent
          → (s' : Infos A B) × (destroy x s ≡ ok s')
            × (s'.info x ≡ absent)
            × ((q : ℕ)
                → ((s.info x ≡ owns q) × (s.raw q ≢ none) × (s'.raw q ≡ none))
                  ⊎ ((s.info x ≢ owns q) × (s'.raw q ≡ s.raw q)))
      by (owns p) at there = (
        without s v x (owns p),
        destroy-without s v x (owns p) at there,
        ground arith,
        λ q. elim (ℕ_discrete p q) [
          | yes same ↦ inl (at ∙ ap owns same, λ e. v.live x p at (ground arith), ground arith)
          | no other ↦ inr (λ e. other (ground arith), ground arith)
        ],
      )
      by null at there = (
        without s v x null,
        destroy-without s v x null at there,
        ground arith,
        λ q. inr (λ e. ground arith, refl),
      )
      by absent at there = absurd (there refl)

  -- In every reachable state the move assignment between two objects that both own a list leaves
  -- the list of the object assigned to where it is, with no owner: it is never freed by a
  -- destructor. The other list changes its owner.
  pub assign_leaks :
      (x rhs p q : ℕ)
      → x ≢ rhs
      → s.info x ≡ owns p
      → s.info rhs ≡ owns q
      → ((move x rhs s).raw p ≢ none)
        × ((z : ℕ) → (move x rhs s).info z ≢ owns p)
        × ((move x rhs s).info x ≡ owns q)
        × ((move x rhs s).info rhs ≡ null)
  unfolding move
  assign_leaks x rhs p q ne ex er =
      let v = Reach-IsOwned reach in
      let other : (x == rhs) ≡ false = ground arith in
      (
        rw (move, other) (v.live x p ex),
        λ z e. not_owner z (rw (move, other) at e),
        rw (move, other) (ground arith),
        rw (move, other) (ground arith),
      )
    where
      not_owner : (z : ℕ) → update (update s.info x (s.info rhs)) rhs null z ≢ owns p
      not_owner z e =
          ground (arith, (Reach-IsOwned reach).sole x z p, (Reach-IsOwned reach).sole x rhs p)

  -- In every reachable state, where one of the functions `with_...` is called on an object that
  -- owns a list, and its result, a new object, is dropped: the list is freed, the object is left
  -- with a null pointer, and to call such a function on it again reads through that pointer.
  pub dropped_result :
      (change again : FiInfo A B → FiInfo A B) (x y z q : ℕ)
      → s.info x ≡ owns q
      → s.info y ≡ absent
      → (s' : Infos A B) × ((with change x y s >>= destroy y) ≡ ok s')
        × (s'.raw q ≡ none)
        × (s'.info x ≡ null)
        × (with again x z s' ≡ abort)
  unfolding destroy
  dropped_result change again x y z q ex ey =
      let (i, there) = there-some (s.raw q) ((Reach-IsOwned reach).live x q ex) in
      let (s1, h) = with-Handed change x y q i s (λ e. ground arith) ex there in
      (
        record { raw = update s1.raw q none; info = update s1.info y absent },
        ap (λ (o : Outcome (Infos A B)). o >>= destroy y) h.runs
            ∙ rw (destroy, h.given, freeinfo, h.stored) refl,
        ground arith,
        ground (arith, h.emptied),
        empty_read s1 (h.emptied),
      )
    where
      xy : x ≢ y
      xy e = ground arith

      empty_read :
          (s1 : Infos A B)
          → s1.info x ≡ null
          → with again x z (record { raw = update s1.raw q none; info = update s1.info y absent })
            ≡ abort
      empty_read s1 at =
          let still : update s1.info y absent x ≡ null = ground arith in
          rw (with, deref, still) refl

  -- In every reachable state, where an object that owns a list gets capabilities, a mode and an
  -- address format in one expression, with its temporaries at other addresses: the last one owns
  -- the list, which has the bits of both added and the format and is otherwise as it was, and the
  -- objects before are left with null pointers.
  pub chain_lem :
      (caps mode format x y z t q : ℕ)
      → x ≢ y
      → x ≢ z
      → x ≢ t
      → y ≢ z
      → y ≢ t
      → z ≢ t
      → s.info x ≡ owns q
      → (i : FiInfo A B) × (s' : Infos A B) × (s.raw q ≡ some i)
        × ((with_caps caps x y s >>= with_mode mode y z >>= with_addr_format format z t) ≡ ok s')
        × (s'.raw q
            ≡ some (record i {
              caps = bit_or i.caps caps;
              mode = bit_or i.mode mode;
              addr_format = format;
            }))
        × (s'.info t ≡ owns q)
        × (s'.info x ≡ null)
        × (s'.info y ≡ null)
        × (s'.info z ≡ null)
  unfolding with_caps with_mode with_addr_format
  chain_lem caps mode format x y z t q xy xz xt yz yt zt ex =
      let (i, there) = there-some (s.raw q) ((Reach-IsOwned reach).live x q ex) in
      let (s1, a) =
        with-Handed (λ j. record j { caps = bit_or j.caps caps }) x y q i s xy ex there in
      let (s2, b) =
        with-Handed (λ j. record j { mode = bit_or j.mode mode }) y z q _ s1 yz a.given a.stored in
      let (s3, c) =
        with-Handed (λ j. record j { addr_format = format }) z t q _ s2 zt b.given b.stored in
      (
        i,
        s3,
        there,
        ap (λ o. o >>= with_mode mode y z >>= with_addr_format format z t) a.runs
            ∙ ap (λ o. o >>= with_addr_format format z t) b.runs
            ∙ c.runs,
        c.stored,
        c.given,
        c.others x xz xt ∙ b.others x xy xz ∙ a.emptied,
        c.others y yz yt ∙ b.emptied,
        c.emptied,
      )
