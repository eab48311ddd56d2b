-- ===== src/Task/Moves.antt =====
-- One frame of src/core/core.hpp moves to another point: from its start or a suspension, to one, and to
-- its end.
use native.Mathlib.Decide.{ℕ_discrete}
use mathlib.Core.Path.{subst}
use sqkio.Common.{ℕ, ◌≡◌, ◌≢◌, sym}
use sqkio.Common.Update.{update, update_self, update_ne, update_all}
use sqkio.Task.{Point, Caller, frame}
use sqkio.Task.Links.{AtTask, IsLive}
use sqkio.Task.Paths.{ChainEnds, IsHeld}

-- What the new point `p` of the frame `h` has to meet.
pub record Fits {V E : Type 0} (h : ℕ) (p : Point V E) (point : ℕ → Point V E) (caller : ℕ → Caller)
    : Type 0 where
  pub called : (t : ℕ) → AtTask t p → caller t ≡ frame h
  pub live : (t : ℕ) → AtTask t p → IsLive (update point h p t)
  pub stays_live : (g : ℕ) → h ≢ g → AtTask h (point g) → IsLive p
  pub chains_end : (x : ℕ) → ChainEnds (update point h p) x

-- The other frames that wait for a task.
pub record OthersHeld {V E : Type 0} (h : ℕ) (point : ℕ → Point V E) (caller : ℕ → Caller)
    : Type 0 where
  pub called : (g : ℕ) → h ≢ g → (t : ℕ) → AtTask t (point g) → caller t ≡ frame g
  pub live : (g : ℕ) → h ≢ g → (t : ℕ) → AtTask t (point g) → IsLive (point t)

module _ {V E : Type 0} (h : ℕ) (p : Point V E) (point : ℕ → Point V E) (caller : ℕ → Caller) where
  -- What holds of the point of a frame other than `h` holds of it after the move.
  pub else_where : (P : Point V E → Type 0) (g : ℕ) → h ≢ g → P (point g) → P (update point h p g)
  else_where P g ne holds = subst P (sym (update_ne point h g p ne)) holds

  moved_here : (P : Point V E → Type 0) → P p → P (update point h p h)
  moved_here P holds = subst P (sym (update_self point h p)) holds

  pub IsHeld-move :
      OthersHeld h point caller → Fits h p point caller → IsHeld (update point h p) caller
  IsHeld-move l f = record {
    called =
        update_all (λ (g : ℕ) (q : Point V E). (t : ℕ) → AtTask t q → caller t ≡ frame g) point h p
          f.called l.called;
    live =
        update_all (λ (g : ℕ) (q : Point V E). (t : ℕ) → AtTask t q → IsLive (update point h p t))
          point h p f.live (λ g ne. live_of g ne);
    chains_end = f.chains_end;
  }
    where
      live_of : (g : ℕ) → h ≢ g → (t : ℕ) → AtTask t (point g) → IsLive (update point h p t)
      live_of g ne t e = elim (ℕ_discrete h t) [
        | yes same ↦
            subst (λ (u : ℕ). IsLive (update point h p u)) same
              (moved_here IsLive
                (f.stays_live g ne (subst (λ (u : ℕ). AtTask u (point g)) (sym same) e)))
        | no other ↦ else_where IsLive t other (l.live g ne t e)
      ]

pub IsHeld-OthersHeld :
    {V E : Type 0} (h : ℕ) (point : ℕ → Point V E) (caller : ℕ → Caller)
    → IsHeld point caller
    → OthersHeld h point caller
IsHeld-OthersHeld h point caller l = record { called = λ g ne. l.called g; live = λ g ne. l.live g }
