-- ===== src/Fabric/Events/Reach.antt =====
-- The states of an event queue that the operations of src/net/fabric/fabric.hpp reach. libfabric gives a new
-- endpoint a fid that no open endpoint has, and an address is that of one object.
use mathlib.Core.Path.{subst}
use sqkio.Common.{ℕ, ◌≡◌, refl, sym, ap, ◌∙◌, Bool, true, false, Option, none, some}
use sqkio.Common.Options.{some-inj, none-some}
use sqkio.Common.Update.{update}
use sqkio.Outcome.{ok}
use sqkio.Outcome.Laws.{>>=-eq-ok, ok-inj, abort-ok}
use sqkio.Awaker.{Awaker, VoidAwaker, Awaited, wake, void_wake}
use sqkio.Fabric.Events.{
  Object, passive, active, gone, Fabric, connreq, shutdown, other, EqRead, event_read, none_read,
  Ret, open_passive, open_active, close_endpoint, accept, next, next_resumed, wait_disconn, poll,
  wake_passive, wake_active, wake_accept, add_ep, del_ep,
}
use sqkio.Fabric.Events.Registered.{
  HasFid, IsRegistered, IsRegistered-changed, IsRegistered-opened, IsRegistered-closed,
}

pub data Reach {W I : Type 0} (moved_from : I → I) (fuel : ℕ) : Fabric W I → Type 0 where
  started :
      (f : Fabric W I)
      → ((fid : ℕ) → f.peps fid ≡ none)
      → ((p : ℕ) → f.object p ≡ gone)
      → Reach moved_from fuel f
  passive_opened :
      (fid p : ℕ) (info : I) (f : Fabric W I)
      → Reach moved_from fuel f
      → f.object p ≡ gone
      → ((q : ℕ) → ¬ HasFid fid (f.object q))
      → Reach moved_from fuel (open_passive fid p info f)
  active_opened :
      (fid p : ℕ) (f : Fabric W I)
      → Reach moved_from fuel f
      → f.object p ≡ gone
      → ((q : ℕ) → ¬ HasFid fid (f.object q))
      → Reach moved_from fuel (open_active fid p f)
  closed :
      (fid p : ℕ) (f : Fabric W I)
      → Reach moved_from fuel f
      → HasFid fid (f.object p)
      → Reach moved_from fuel (close_endpoint fid p f)
  accepted :
      (success : Bool) (fid a : ℕ) (handle : W) (f f' : Fabric W I)
      → Reach moved_from fuel f
      → accept success fid a handle f ≡ some f'
      → Reach moved_from fuel f'
  awaited :
      (p : ℕ) (handle : W) (given : Awaited I) (f f' : Fabric W I)
      → Reach moved_from fuel f
      → next moved_from fuel p handle f ≡ ok (given, f')
      → Reach moved_from fuel f'
  resumed :
      (p : ℕ) (info : I) (f f' : Fabric W I)
      → Reach moved_from fuel f
      → next_resumed moved_from fuel p f ≡ ok (info, f')
      → Reach moved_from fuel f'
  waited :
      (p : ℕ) (handle : W) (f f' : Fabric W I)
      → Reach moved_from fuel f
      → wait_disconn moved_from fuel p handle f ≡ ok f'
      → Reach moved_from fuel f'
  polled :
      (read : EqRead I) (ret : Ret) (f f' : Fabric W I)
      → Reach moved_from fuel f
      → poll moved_from fuel read f ≡ ok (ret, f')
      → Reach moved_from fuel f'

module _ {W I : Type 0} where
  abbrev pub IsSound : Fabric W I → Type 0
  IsSound f = IsRegistered f.peps f.object

  passive-IsRegistered :
      (f : Fabric W I) (p fid : ℕ) (a b : Awaker W I)
      → f.object p ≡ passive fid a
      → IsRegistered f.peps f.object
      → IsRegistered f.peps (update f.object p (passive fid b))
  passive-IsRegistered f p fid a b e =
      IsRegistered-changed f.peps f.object p (passive fid b) (λ g h. rw e h) (λ g h. rw e at h)

  active-IsRegistered :
      (f : Fabric W I) (p fid : ℕ) (a b : VoidAwaker W)
      → f.object p ≡ active fid a
      → IsRegistered f.peps f.object
      → IsRegistered f.peps (update f.object p (active fid b))
  active-IsRegistered f p fid a b e =
      IsRegistered-changed f.peps f.object p (active fid b) (λ g h. rw e h) (λ g h. rw e at h)

module _ {W I : Type 0} (moved_from : I → I) (fuel : ℕ) (f f' : Fabric W I) (r : IsSound f) where
  accept-IsRegistered :
      (success : Bool) (fid a : ℕ) (handle : W)
      → accept success fid a handle f ≡ some f'
      → IsSound f'
  unfolding accept
  accept-IsRegistered true fid a handle e = subst IsSound (some-inj e) r
  accept-IsRegistered false fid a handle e = absurd cc

  next-IsRegistered :
      (p : ℕ) (handle : W) (given : Awaited I)
      → next moved_from fuel p handle f ≡ ok (given, f')
      → IsSound f'
  unfolding next
  next-IsRegistered p handle given runs = by (f.object p) refl
    where
      by : (x : Object W I) → f.object p ≡ x → IsSound f'
      by (passive fid a) e =
          subst (λ (g : Awaited I × Fabric W I). IsSound g.1) (ok-inj (rw (next, e) at runs))
            (passive-IsRegistered f p fid a _ e r)
      by (active fid a) e = abort-ok (rw (next, e) at runs)
      by gone e = abort-ok (rw (next, e) at runs)

  next_resumed-IsRegistered :
      (p : ℕ) (info : I) → next_resumed moved_from fuel p f ≡ ok (info, f') → IsSound f'
  unfolding next_resumed
  next_resumed-IsRegistered p info runs = by (f.object p) refl
    where
      by : (x : Object W I) → f.object p ≡ x → IsSound f'
      by (passive fid a) e =
          subst (λ (g : I × Fabric W I). IsSound g.1) (ok-inj (rw (next_resumed, e) at runs))
            (passive-IsRegistered f p fid a _ e r)
      by (active fid a) e = abort-ok (rw (next_resumed, e) at runs)
      by gone e = abort-ok (rw (next_resumed, e) at runs)

  wait_disconn-IsRegistered :
      (p : ℕ) (handle : W) → wait_disconn moved_from fuel p handle f ≡ ok f' → IsSound f'
  unfolding wait_disconn
  wait_disconn-IsRegistered p handle runs = by (f.object p) refl
    where
      by : (x : Object W I) → f.object p ≡ x → IsSound f'
      by (active fid a) e =
          subst IsSound (ok-inj (rw (wait_disconn, e) at runs))
            (active-IsRegistered f p fid a _ e r)
      by (passive fid a) e = abort-ok (rw (wait_disconn, e) at runs)
      by gone e = abort-ok (rw (wait_disconn, e) at runs)

  wake_passive-IsRegistered :
      (p : ℕ) (info : I) → wake_passive moved_from fuel p info f ≡ ok f' → IsSound f'
  wake_passive-IsRegistered p info runs = by (f.object p) refl
    where
      by : (x : Object W I) → f.object p ≡ x → IsSound f'
      by (passive fid a) e =
          let ((b, s), wakes, rest) =
            >>=-eq-ok (wake moved_from fuel info a f.scheduler) _ _
              (rw (wake_passive, e) at runs) in
          subst IsSound (ok-inj rest) (passive-IsRegistered f p fid a b e r)
      by (active fid a) e = abort-ok (rw (wake_passive, e) at runs)
      by gone e = abort-ok (rw (wake_passive, e) at runs)

  wake_active-IsRegistered : (p : ℕ) → wake_active moved_from fuel p f ≡ ok f' → IsSound f'
  wake_active-IsRegistered p runs = by (f.object p) refl
    where
      by : (x : Object W I) → f.object p ≡ x → IsSound f'
      by (active fid a) e =
          let ((b, s), wakes, rest) =
            >>=-eq-ok (void_wake fuel a f.scheduler) _ _ (rw (wake_active, e) at runs) in
          subst IsSound (ok-inj rest) (active-IsRegistered f p fid a b e r)
      by (passive fid a) e = abort-ok (rw (wake_active, e) at runs)
      by gone e = abort-ok (rw (wake_active, e) at runs)

  wake_accept-IsRegistered : (fid : ℕ) → wake_accept moved_from fuel fid f ≡ ok f' → IsSound f'
  wake_accept-IsRegistered fid runs = by (f.map fid) refl
    where
      by : (x : Option ℕ) → f.map fid ≡ x → IsSound f'
      by (some a) e =
          let ((b, s), wakes, rest) =
            >>=-eq-ok (void_wake fuel (f.signal a) f.scheduler) _ _ (rw (wake_accept, e) at runs) in
          subst IsSound (ok-inj rest) r
      by none e = subst IsSound (ok-inj (rw (wake_accept, e) at runs)) r

  poll-IsRegistered :
      (read : EqRead I) (ret : Ret) → poll moved_from fuel read f ≡ ok (ret, f') → IsSound f'
  unfolding poll
  poll-IsRegistered (none_read code) ret runs =
      subst (λ (g : Ret × Fabric W I). IsSound g.1) (ok-inj runs) r
  poll-IsRegistered (event_read bytes connreq fid info) ret runs = by (f.peps fid) refl
    where
      by : (x : Option ℕ) → f.peps fid ≡ x → IsSound f'
      by none e = abort-ok (rw (poll, e) at runs)
      by (some p) e =
          let (g, wakes, rest) =
            >>=-eq-ok (wake_passive moved_from fuel p info f) _ _ (rw (poll, e) at runs) in
          wake_passive-IsRegistered p info
            (wakes ∙ ap (λ (g : Ret × Fabric W I). ok (g.1)) (ok-inj rest))
  poll-IsRegistered (event_read bytes shutdown fid info) ret runs = by (f.peps fid) refl
    where
      by : (x : Option ℕ) → f.peps fid ≡ x → IsSound f'
      by none e = abort-ok (rw (poll, e) at runs)
      by (some p) e =
          let (g, wakes, rest) =
            >>=-eq-ok (wake_active moved_from fuel p f) _ _ (rw (poll, e) at runs) in
          wake_active-IsRegistered p (wakes ∙ ap (λ (g : Ret × Fabric W I). ok (g.1)) (ok-inj rest))
  poll-IsRegistered (event_read bytes (other code) fid info) ret runs =
      let (g, wakes, rest) = >>=-eq-ok (wake_accept moved_from fuel fid f) _ _ runs in
      wake_accept-IsRegistered fid (wakes ∙ ap (λ (g : Ret × Fabric W I). ok (g.1)) (ok-inj rest))

module _ {W I : Type 0} (moved_from : I → I) (fuel : ℕ) where
  pub Reach-IsRegistered : (f : Fabric W I) → Reach moved_from fuel f → IsSound f
  unfolding open_passive open_active close_endpoint add_ep del_ep
  Reach-IsRegistered f (started _ empty no_objects) = record {
    there = λ fid p e. none-some (sym (empty fid) ∙ e);
    named = λ fid p has. absurd (subst (HasFid fid) (no_objects p) has);
  }
  Reach-IsRegistered _ (passive_opened fid p info f reached free unused) =
      IsRegistered-opened f.peps f.object p fid _ free unused refl (Reach-IsRegistered f reached)
  Reach-IsRegistered _ (active_opened fid p f reached free unused) =
      IsRegistered-opened f.peps f.object p fid _ free unused refl (Reach-IsRegistered f reached)
  Reach-IsRegistered _ (closed fid p f reached has) =
      IsRegistered-closed f.peps f.object p fid has (Reach-IsRegistered f reached)
  Reach-IsRegistered f' (accepted success fid a handle f _ reached runs) =
      accept-IsRegistered moved_from fuel f f' (Reach-IsRegistered f reached) success fid a handle
        runs
  Reach-IsRegistered f' (awaited p handle given f _ reached runs) =
      next-IsRegistered moved_from fuel f f' (Reach-IsRegistered f reached) p handle given runs
  Reach-IsRegistered f' (resumed p info f _ reached runs) =
      next_resumed-IsRegistered moved_from fuel f f' (Reach-IsRegistered f reached) p info runs
  Reach-IsRegistered f' (waited p handle f _ reached runs) =
      wait_disconn-IsRegistered moved_from fuel f f' (Reach-IsRegistered f reached) p handle runs
  Reach-IsRegistered f' (polled read ret f _ reached runs) =
      poll-IsRegistered moved_from fuel f f' (Reach-IsRegistered f reached) read ret runs
