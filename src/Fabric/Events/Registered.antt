-- ===== src/Fabric/Events/Registered.antt =====
-- `peps_` of the event queue (src/net/fabric/fabric.hpp) beside the endpoints that are there.
use mathlib.Core.Path.{subst}
use sqkio.Common.{ℕ, ◌≡◌, ◌≢◌, refl, sym, ap, ◌∙◌, Option, none, some}
use sqkio.Common.Options.{some-inj}
use sqkio.Common.Update.{update, update_self, update_ne, update_all}
use sqkio.Fabric.Events.{Object, passive, active, gone, emplace}

module _ {W I : Type 0} where
  abbrev pub HasFid : ℕ → Object W I → Type 0
  HasFid fid (passive fid' a) = fid' ≡ fid
  HasFid fid (active fid' a) = fid' ≡ fid
  HasFid fid gone = ⊥

  HasFid-same : (x : Object W I) (fid fid' : ℕ) → HasFid fid x → HasFid fid' x → fid ≡ fid'
  HasFid-same (passive g a) fid fid' e e' = sym e ∙ e'
  HasFid-same (active g a) fid fid' e e' = sym e ∙ e'
  HasFid-same gone fid fid' e e' = absurd e

  pub record IsRegistered (peps : ℕ → Option ℕ) (object : ℕ → Object W I) : Type 0 where
    pub there : (fid p : ℕ) → peps fid ≡ some p → HasFid fid (object p)
    pub named : (fid p : ℕ) → HasFid fid (object p) → peps fid ≡ some p

  -- An object that keeps its fid changes.
  pub IsRegistered-changed :
      (peps : ℕ → Option ℕ) (object : ℕ → Object W I) (p : ℕ) (x : Object W I)
      → ((fid : ℕ) → HasFid fid x → HasFid fid (object p))
      → ((fid : ℕ) → HasFid fid (object p) → HasFid fid x)
      → IsRegistered peps object
      → IsRegistered peps (update object p x)
  IsRegistered-changed peps object p x back forth r = record {
    there = λ fid.
        update_all (λ (q : ℕ) (y : Object W I). peps fid ≡ some q → HasFid fid y) object p x
          (λ e. forth fid (r.there fid p e)) (λ q ne e. r.there fid q e);
    named = λ fid.
        update_all (λ (q : ℕ) (y : Object W I). HasFid fid y → peps fid ≡ some q) object p x
          (λ e. r.named fid p (back fid e)) (λ q ne e. r.named fid q e);
  }

  -- A new object with a fid that no other has.
  pub IsRegistered-opened :
      (peps : ℕ → Option ℕ) (object : ℕ → Object W I) (p fid : ℕ) (x : Object W I)
      → object p ≡ gone
      → ((q : ℕ) → ¬ HasFid fid (object q))
      → HasFid fid x
      → IsRegistered peps object
      → IsRegistered (emplace fid p peps) (update object p x)
  IsRegistered-opened peps object p fid x free unused has r =
      subst (λ (m : ℕ → Option ℕ). IsRegistered m (update object p x))
        (sym (emplaced (peps fid) refl))
        (record {
          there =
              update_all
                (λ (g : ℕ) (o : Option ℕ). (q : ℕ) → o ≡ some q → HasFid g (update object p x q))
                peps fid (some p)
                (λ q e.
                  subst (λ (y : ℕ). HasFid fid (update object p x y)) (some-inj e)
                    (subst (HasFid fid) (sym (update_self object p x)) has))
                (λ g ne q e.
                  let found = r.there g q e in
                  subst (HasFid g)
                    (sym (
                      update_ne object p q x
                        (λ s. subst (HasFid g) (ap object (sym s) ∙ free) found)))
                    found);
          named = λ g q.
              update_all
                (λ (q : ℕ) (y : Object W I).
                  (g : ℕ) → HasFid g y → update peps fid (some p) g ≡ some q)
                object p x
                (λ g e.
                  subst (λ (y : ℕ). update peps fid (some p) y ≡ some p) (HasFid-same x fid g has e)
                    (update_self peps fid (some p)))
                (λ q ne g e.
                  update_ne peps fid g (some p)
                    (λ s. unused q (subst (λ (y : ℕ). HasFid y (object q)) (sym s) e))
                  ∙ r.named g q e)
                q g;
        })
    where
      emplaced :
          (found : Option ℕ) → peps fid ≡ found → emplace fid p peps ≡ update peps fid (some p)
      emplaced none e = rw (emplace, e)
      emplaced (some q) e = absurd (unused q (r.there fid q e))

  -- An object goes, and its fid is erased.
  pub IsRegistered-closed :
      (peps : ℕ → Option ℕ) (object : ℕ → Object W I) (p fid : ℕ)
      → HasFid fid (object p)
      → IsRegistered peps object
      → IsRegistered (update peps fid none) (update object p gone)
  IsRegistered-closed peps object p fid has r = record {
    there =
        update_all
          (λ (g : ℕ) (o : Option ℕ). (q : ℕ) → o ≡ some q → HasFid g (update object p gone q)) peps
          fid none (λ q e. absurd cc)
          (λ g ne q e.
            let found = r.there g q e in
            let other : p ≢ q = λ s. ne (
              HasFid-same (object p) fid g has
                (subst (λ (y : ℕ). HasFid g (object y)) (sym s) found)) in
            subst (HasFid g) (sym (update_ne object p q gone other)) found);
    named = λ g q.
        update_all
          (λ (q : ℕ) (y : Object W I). (g : ℕ) → HasFid g y → update peps fid none g ≡ some q)
          object p gone (λ g e. absurd e)
          (λ q ne g e.
            let other : fid ≢ g =
              λ s. ne (some-inj (sym (r.named fid p has) ∙ ap peps s ∙ r.named g q e)) in
            update_ne peps fid g none other ∙ r.named g q e)
          q g;
  }
