-- ===== src/Task/Steps.antt =====
-- The moves of the frames of src/core/core.hpp: a frame is resumed, leaves the stack, or waits for a
-- task.
use native.Mathlib.Decide.{ℕ_discrete}
use mathlib.Core.Path.{subst}
use sqkio.Common.{ℕ, ◌≡◌, ◌≢◌, sym, ◌∙◌}
use sqkio.Common.Update.{update, update_self, update_ne}
use sqkio.Task.{
  Completion, Body, Point, Caller, null, frame, initial, at_task, at_event, at_yield, running,
  finishing, final, destroyed,
}
use sqkio.Task.Links.{OnStack, Waits, AtTask, IsLive}
use sqkio.Task.Paths.{WaitsFor, ChainEnds-leave, ChainEnds-adopt, IsHeld}
use sqkio.Task.Moves.{OthersHeld, else_where, IsHeld-move, IsHeld-OthersHeld}

pub null-frame : {A : Type 0} {c : Caller} {h : ℕ} → c ≡ null → c ≡ frame h → A
null-frame e f = absurd cc

pub frame-inj : {g h : ℕ} → frame g ≡ frame h → g ≡ h
frame-inj e = cc

module _ {V E : Type 0} where
  -- A frame at its start, or suspended inside its body.
  abbrev pub CanStart : Point V E → Type 0
  CanStart (initial body) = Unit
  CanStart p = Waits p

  pub Waits-AtTask : (p : Point V E) (t : ℕ) → AtTask t p → Waits p
  Waits-AtTask (at_task t' k) t e = tt
  Waits-AtTask (initial body) t e = elim e [ ]
  Waits-AtTask (at_event a k) t e = elim e [ ]
  Waits-AtTask (at_yield body) t e = elim e [ ]
  Waits-AtTask running t e = elim e [ ]
  Waits-AtTask finishing t e = elim e [ ]
  Waits-AtTask final t e = elim e [ ]
  Waits-AtTask destroyed t e = elim e [ ]

  Waits-IsLive : (p : Point V E) → Waits p → IsLive p
  Waits-IsLive (initial body) s = elim s [ ]
  Waits-IsLive (at_task t k) s = tt
  Waits-IsLive (at_event a k) s = tt
  Waits-IsLive (at_yield body) s = tt
  Waits-IsLive running s = elim s [ ]
  Waits-IsLive finishing s = elim s [ ]
  Waits-IsLive final s = elim s [ ]
  Waits-IsLive destroyed s = elim s [ ]

-- A task that someone may wait for, and that is not being run, is suspended.
pub IsLive-Waits : {V E : Type 0} (p : Point V E) → ¬ OnStack p → IsLive p → Waits p
IsLive-Waits (at_task t k) off live = tt
IsLive-Waits (at_event a k) off live = tt
IsLive-Waits (at_yield body) off live = tt
IsLive-Waits (initial body) off live = live
IsLive-Waits running off live = off live
IsLive-Waits finishing off live = off live
IsLive-Waits final off live = live
IsLive-Waits destroyed off live = live

pub CanStart-off : {V E : Type 0} (p : Point V E) → CanStart p → ¬ OnStack p
CanStart-off (initial body) s on = on
CanStart-off (at_task t k) s on = on
CanStart-off (at_event a k) s on = on
CanStart-off (at_yield body) s on = on
CanStart-off running s on = s
CanStart-off finishing s on = s
CanStart-off final s on = s
CanStart-off destroyed s on = s

module _ {V E : Type 0} (h : ℕ) (point : ℕ → Point V E) (caller : ℕ → Caller) where
  -- A frame is resumed, whatever it waits for.
  pub start-IsHeld : IsHeld point caller → IsHeld (update point h running) caller
  start-IsHeld l = IsHeld-move h running point caller (IsHeld-OthersHeld h point caller l) (record {
    called = λ t e. elim e [ ];
    live = λ t e. elim e [ ];
    stays_live = λ g ne e. tt;
    chains_end = λ x. ChainEnds-leave point h running (λ t e. e) x (l.chains_end x);
  })

  -- A frame moves to a point where it waits for no task.
  pub leave-IsHeld :
      (q : Point V E)
      → ((t : ℕ) → ¬ AtTask t q)
      → ((g : ℕ) → AtTask h (point g) → IsLive q)
      → IsHeld point caller
      → IsHeld (update point h q) caller
  leave-IsHeld q no_task live l =
      IsHeld-move h q point caller (IsHeld-OthersHeld h point caller l) (record {
        called = λ t e. absurd (no_task t e);
        live = λ t e. absurd (no_task t e);
        stays_live = λ g ne e. live g e;
        chains_end = λ x. ChainEnds-leave point h q no_task x (l.chains_end x);
      })

  -- The running frame waits for a task that has no caller and does not wait for the frame in turn, and
  -- becomes its caller.
  pub adopt-IsHeld :
      (t : ℕ) (k : Completion V E → Body V E)
      → point h ≡ running
      → Waits (point t)
      → caller t ≡ null
      → ¬ WaitsFor point t h
      → IsHeld point caller
      → IsHeld (update point h (at_task t k)) (update caller t (frame h))
  adopt-IsHeld t k runs waits no_caller fresh l =
      IsHeld-move h (at_task t k) point (update caller t (frame h)) others (record {
        called = λ u e.
            subst (λ (v : ℕ). update caller t (frame h) v ≡ frame h) e
              (update_self caller t (frame h));
        live = λ u e.
            subst (λ (v : ℕ). IsLive (update point h (at_task t k) v)) e
              (else_where h (at_task t k) point caller IsLive t apart
                (Waits-IsLive (point t) waits));
        stays_live = λ g ne e. tt;
        chains_end =
            λ x. ChainEnds-adopt point h t k apart fresh (l.chains_end t) x (l.chains_end x);
      })
    where
      apart : h ≢ t
      apart same = subst Waits runs (subst (λ (u : ℕ). Waits (point u)) (sym same) waits)

      others : OthersHeld h point (update caller t (frame h))
      others = record {
        called = λ g ne u e. elim (ℕ_discrete t u) [
          | yes same ↦
              null-frame no_caller
                (l.called g t (subst (λ (v : ℕ). AtTask v (point g)) (sym same) e))
          | no other ↦ update_ne caller t u (frame h) other ∙ l.called g u e
        ];
        live = λ g ne u e. l.live g u e;
      }
