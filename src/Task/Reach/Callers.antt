-- ===== src/Task/Reach/Callers.antt =====
-- Who waits for whom in a world that a program over src/core/core.hpp reaches.
use native.Mathlib.Decide.{ℕ_discrete}
use mathlib.Core.Path.{subst}
use sqkio.Common.{ℕ, ◌⊎◌, inl, inr, refl, ◌≡◌, sym, ◌∙◌}
use sqkio.Common.Update.{update, update_ne}
use sqkio.Outcome.{Outcome}
use sqkio.Outcome.Laws.{>>=-eq-ok, ok-inj}
use sqkio.Scheduler.{enqueue}
use sqkio.Awaker.{wake}
use sqkio.Task.{
  Body, Point, initial, at_task, at_event, at_yield, running, finishing, final, destroyed, Caller,
  null, noop, frame, World, resume, enqueue_task,
}
use sqkio.Task.Links.{AtTask, Waits, OnStack, IsRested, IsRested-off}
use sqkio.Task.Paths.{WaitsFor, at_once, through, ChainEnds, ends, ChainEnds-no_circle, IsHeld}
use sqkio.Task.Steps.{IsLive-Waits, null-frame, frame-inj}
use sqkio.Task.Sound.Whole.{run-IsKept}
use sqkio.Task.Reach.{Reachable, started, enqueued, idle, resumed, woken}

module _ {V E : Type 0} where
  -- Between two rounds: no frame is being run, who waits for a task is its caller, and the chains end.
  pub record IsSettled (w : World V E) : Type 0 where
    pub held : IsHeld w.point w.caller
    pub off : (h : ℕ) → ¬ OnStack (w.point h)

  -- A frame that waits for an event, or that has yielded and waits for its turn.
  abbrev pub AtEvent : Point V E → Type 0
  AtEvent (at_event a k) = Unit
  AtEvent (at_yield body) = Unit
  AtEvent _ = ⊥

  -- A task that has no caller may get one that does nothing.
  enqueued-IsHeld :
      (t : ℕ) (point : ℕ → Point V E) (caller : ℕ → Caller)
      → caller t ≡ null
      → IsHeld point caller
      → IsHeld point (update caller t noop)
  enqueued-IsHeld t point caller no_caller l = record {
    called = λ h u e. elim (ℕ_discrete t u) [
      | yes same ↦
          null-frame no_caller (l.called h t (subst (λ (v : ℕ). AtTask v (point h)) (sym same) e))
      | no other ↦ update_ne caller t u noop other ∙ l.called h u e
    ];
    live = l.live;
    chains_end = l.chains_end;
  }

  initial-IsHeld :
      (point : ℕ → Point V E) (caller : ℕ → Caller)
      → ((h : ℕ) → (body : Body V E) × (point h ≡ initial body))
      → IsHeld point caller
  initial-IsHeld point caller all = record {
    called = λ h t e. absurd (subst (AtTask t) ((all h).1) e);
    live = λ h t e. absurd (subst (AtTask t) ((all h).1) e);
    chains_end = λ x. ends x λ t e. absurd (subst (AtTask t) ((all x).1) e);
  }

  -- Where the chain that begins at `h` leads.
  abbrev pub LeadsToEvent : (ℕ → Point V E) → ℕ → Type 0
  LeadsToEvent point h = (g : ℕ) × ((h ≡ g) ⊎ WaitsFor point h g) × AtEvent (point g)

  chain_leads :
      (w : World V E) (h : ℕ)
      → IsSettled w
      → Waits (w.point h)
      → ChainEnds w.point h
      → LeadsToEvent w.point h
  chain_leads w h settled waits (ends _ f) =
      by (λ t edge waits_t. chain_leads w t settled waits_t (f t edge)) (w.point h) refl waits
    where
      by :
          ((t : ℕ) → AtTask t (w.point h) → Waits (w.point t) → LeadsToEvent w.point t)
          → (p : Point V E) → w.point h ≡ p
          → Waits p
          → LeadsToEvent w.point h
      by next (at_task t k) e s =
          let edge : AtTask t (w.point h) = subst (AtTask t) (sym e) refl in
          let (g, path, event) =
            next t edge (IsLive-Waits (w.point t) (settled.off t) (settled.held.live h t edge)) in
          (
            g,
            elim path [
              | inl same ↦ inr (at_once h g (subst (λ (u : ℕ). AtTask u (w.point h)) same edge))
              | inr there ↦ inr (through h t g edge there)
            ],
            event,
          )
      by next (at_event a k) e s = (h, inl refl, subst AtEvent (sym e) tt)
      by next (at_yield body) e s = (h, inl refl, subst AtEvent (sym e) tt)
      by next (initial body) e s = absurd s
      by next running e s = absurd s
      by next finishing e s = absurd s
      by next final e s = absurd s
      by next destroyed e s = absurd s

module _ {V E : Type 0} (after_destroy : V → Outcome V) (moved_from : V → V) (fuel : ℕ) where
  Reachable-IsSettled : (w : World V E) → Reachable after_destroy moved_from fuel w → IsSettled w
  unfolding enqueue_task
  Reachable-IsSettled w (started _ all no_callers) = record {
    held = initial-IsHeld w.point w.caller all;
    off = λ h on. subst OnStack ((all h).1) on;
  }
  Reachable-IsSettled w' (enqueued t w _ reached no_caller runs) =
      let before = Reachable-IsSettled w reached in
      let ((rc, s), puts, rest) = >>=-eq-ok (enqueue fuel t w.scheduler) _ _ runs in
      subst IsSettled (ok-inj rest) (record {
        held = enqueued-IsHeld t w.point w.caller no_caller before.held;
        off = before.off;
      })
  Reachable-IsSettled w' (idle last out queue w reached takes) =
      let before = Reachable-IsSettled w reached in record { held = before.held; off = before.off }
  Reachable-IsSettled w' (resumed depth last out queue w _ reached takes runs) =
      let before = Reachable-IsSettled w reached in
      let taken : World V E = record w { scheduler = record w.scheduler { queue = queue } } in
      let kept =
        run-IsKept after_destroy moved_from fuel depth (resume (out 0)) taken w' tt before.held
          runs in
      record {
        held = kept.held;
        off = λ g on. elim (ℕ_discrete (out 0) g) [
          | yes same ↦
              IsRested-off (w'.point g)
                (subst (λ (u : ℕ). IsRested (w'.point u)) same kept.left.rested) on
          | no other ↦ before.off g (kept.left.no_more g other on)
        ];
      }
  Reachable-IsSettled w' (woken a v w _ reached runs) =
      let before = Reachable-IsSettled w reached in
      let ((b, s), wakes, rest) =
        >>=-eq-ok (wake moved_from fuel v (w.awaker a) w.scheduler) _ _ runs in
      subst IsSettled (ok-inj rest) (record { held = before.held; off = before.off })

  -- In every world reached by enqueuing tasks that have no caller, resuming whatever frames the queue
  -- gives and waking, with assertions on, a frame that waits for a task is that task's caller, and the
  -- task is itself suspended inside its body: nobody waits for a task that is over or was never started,
  -- and no two frames wait for one task. That holds also where an awaker was woken twice, and a frame is
  -- resumed while it waits for a task.
  pub awaited_is_suspended :
      (w : World V E) (h t : ℕ)
      → Reachable after_destroy moved_from fuel w
      → AtTask t (w.point h)
      → (w.caller t ≡ frame h) × Waits (w.point t) × ((g : ℕ) → AtTask t (w.point g) → g ≡ h)
  awaited_is_suspended w h t reached waits =
      let settled = Reachable-IsSettled w reached in
      (
        settled.held.called h t waits,
        IsLive-Waits (w.point t) (settled.off t) (settled.held.live h t waits),
        λ g e. frame-inj (sym (settled.held.called g t e) ∙ settled.held.called h t waits),
      )

  -- In every world reached by enqueuing tasks that have no caller, resuming whatever frames the queue
  -- gives and waking, with assertions on, a frame that is suspended inside its body does not wait for
  -- itself, at once or through a chain of tasks each of which waits for the next; and it waits for an
  -- event or for its turn, or for a task at the end of such a chain that does.
  pub Waits-LeadsToEvent :
      (w : World V E) (h : ℕ)
      → Reachable after_destroy moved_from fuel w
      → Waits (w.point h)
      → (¬ WaitsFor w.point h h) × LeadsToEvent w.point h
  Waits-LeadsToEvent w h reached waits =
      let settled = Reachable-IsSettled w reached in
      let chain = settled.held.chains_end h in
      (ChainEnds-no_circle w.point h chain, chain_leads w h settled waits chain)
