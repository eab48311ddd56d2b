-- ===== src/Task/Paths.antt =====
-- The chains of frames of src/core/core.hpp in which each waits for the next.
use native.Mathlib.Decide.{ℕ_discrete}
use mathlib.Core.Path.{subst}
use sqkio.Common.{ℕ, ◌≡◌, ◌≢◌, ◌⊎◌, inl, inr, sym}
use sqkio.Common.Update.{update, update_self, update_ne}
use sqkio.Task.{Completion, Body, Point, at_task, Caller, frame}
use sqkio.Task.Links.{AtTask, IsLive}

-- The frame `x` waits for the task `y`, itself or through the tasks between.
pub data WaitsFor {V E : Type 0} (point : ℕ → Point V E) : ℕ → ℕ → Type 0 where
  at_once : (x y : ℕ) → AtTask y (point x) → WaitsFor point x y
  through : (x z y : ℕ) → AtTask z (point x) → WaitsFor point z y → WaitsFor point x y

-- The chains that begin at the frame `x` come to an end.
pub data ChainEnds {V E : Type 0} (point : ℕ → Point V E) : ℕ → Type 0 where
  ends : (x : ℕ) → ((t : ℕ) → AtTask t (point x) → ChainEnds point t) → ChainEnds point x

module _ {V E : Type 0} (point : ℕ → Point V E) where
  pub WaitsFor-trans : (x y z : ℕ) → WaitsFor point x y → WaitsFor point y z → WaitsFor point x z
  WaitsFor-trans x y z (at_once _ _ e) rest = through x y z e rest
  WaitsFor-trans x y z (through _ u _ e path) rest =
      through x u z e (WaitsFor-trans u y z path rest)

  -- A frame that waits for no task begins no chain.
  pub no_task-WaitsFor : (x y : ℕ) → ((t : ℕ) → ¬ AtTask t (point x)) → ¬ WaitsFor point x y
  no_task-WaitsFor x y no_task (at_once _ _ e) = no_task y e
  no_task-WaitsFor x y no_task (through _ z _ e path) = no_task z e

  -- A chain that comes to an end is no circle.
  pub ChainEnds-no_circle : (x : ℕ) → ChainEnds point x → ¬ WaitsFor point x x
  ChainEnds-no_circle x (ends _ f) (at_once _ _ e) = ChainEnds-no_circle x (f x e) (at_once x x e)
  ChainEnds-no_circle x (ends _ f) (through _ z _ e path) =
      ChainEnds-no_circle z (f z e) (WaitsFor-trans z x z path (at_once x z e))

  -- A frame leaves what it waits for.
  pub ChainEnds-leave :
      (h : ℕ) (p : Point V E)
      → ((t : ℕ) → ¬ AtTask t p)
      → (x : ℕ) → ChainEnds point x
      → ChainEnds (update point h p) x
  ChainEnds-leave h p no_task x (ends _ f) = ends x λ t e. elim (ℕ_discrete h x) [
    | yes same ↦ absurd (
        no_task t (
          subst (AtTask t) (update_self point h p)
            (subst (λ (u : ℕ). AtTask t (update point h p u)) (sym same) e)))
    | no other ↦
        ChainEnds-leave h p no_task t (f t (subst (AtTask t) (update_ne point h x p other) e))
  ]

-- The frame `h` comes to wait for the task `t`, which does not wait for it.
module _ {V E : Type 0} (point : ℕ → Point V E) (h t : ℕ) (k : Completion V E → Body V E)
    (apart : h ≢ t) (fresh : ¬ WaitsFor point t h) where
  abbrev adopted : ℕ → Point V E
  adopted = update point h (at_task t k)

  edge_else : (x y : ℕ) → h ≢ x → AtTask y (adopted x) → AtTask y (point x)
  edge_else x y other e = subst (AtTask y) (update_ne point h x (at_task t k) other) e

  edge_here : (y : ℕ) → AtTask y (adopted h) → t ≡ y
  edge_here y e = subst (AtTask y) (update_self point h (at_task t k)) e

  -- What does not wait for `h` does not wait for more than it did.
  kept_path : (x y : ℕ) → h ≢ x → ¬ WaitsFor point x h → WaitsFor adopted x y → WaitsFor point x y
  kept_path x y other off (at_once _ _ e) = at_once x y (edge_else x y other e)
  kept_path x y other off (through _ z _ e path) =
      let there = edge_else x z other e in
      through x z y there (
        kept_path z y (λ s. off (at_once x h (subst (λ (u : ℕ). AtTask u (point x)) (sym s) there)))
          (λ back. off (through x z h there back)) path)

  -- What `h` waits for then.
  pub WaitsFor-adopted : (y : ℕ) → WaitsFor adopted h y → (t ≡ y) ⊎ WaitsFor point t y
  WaitsFor-adopted y (at_once _ _ e) = inl (edge_here y e)
  WaitsFor-adopted y (through _ z _ e path) = inr (
      kept_path t y apart fresh
        (subst (λ (u : ℕ). WaitsFor adopted u y) (sym (edge_here z e)) path))

  kept_end : (x : ℕ) → h ≢ x → ¬ WaitsFor point x h → ChainEnds point x → ChainEnds adopted x
  kept_end x other off (ends _ f) = ends x λ u e.
      let there = edge_else x u other e in
      kept_end u (λ s. off (at_once x h (subst (λ (v : ℕ). AtTask v (point x)) (sym s) there)))
        (λ back. off (through x u h there back)) (f u there)

  pub ChainEnds-adopt : ChainEnds point t → (x : ℕ) → ChainEnds point x → ChainEnds adopted x
  ChainEnds-adopt at_t x (ends _ f) = ends x λ u e. elim (ℕ_discrete h x) [
    | yes same ↦
        subst (ChainEnds adopted)
          (edge_here u (subst (λ (v : ℕ). AtTask u (adopted v)) (sym same) e))
          (kept_end t apart fresh at_t)
    | no other ↦ ChainEnds-adopt at_t u (f u (edge_else x u other e))
  ]

-- What stays true whoever resumes a suspended frame: who waits for a task is its caller, the task is not
-- over, and the chains of waits end.
pub record IsHeld {V E : Type 0} (point : ℕ → Point V E) (caller : ℕ → Caller) : Type 0 where
  pub called : (h t : ℕ) → AtTask t (point h) → caller t ≡ frame h
  pub live : (h t : ℕ) → AtTask t (point h) → IsLive (point t)
  pub chains_end : (x : ℕ) → ChainEnds point x
