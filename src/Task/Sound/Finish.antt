-- ===== src/Task/Sound/Finish.antt =====
-- The frames under `final_suspend` (src/core/core.hpp).
use mathlib.Core.Path.{subst}
use sqkio.Common.{ℕ, ◌≡◌, ◌≢◌, refl, sym, ap, ◌∙◌, Bool}
use sqkio.Common.Update.{update, update_self, update_ne}
use sqkio.Outcome.{Outcome, ok}
use sqkio.Outcome.Laws.{>>=-eq-ok, ok-inj}
use sqkio.Task.{
  Point, running, finishing, final, destroyed, Caller, null, noop, frame, World, Command, resume,
  finish, set_point, final_suspend,
}
use sqkio.Task.Links.{AtTask, Waits, OnStack, IsRested, IsRested-off}
use sqkio.Task.Paths.{at_once, no_task-WaitsFor, IsHeld}
use sqkio.Task.Steps.{leave-IsHeld, null-frame, frame-inj, Waits-AtTask, CanStart, CanStart-off}
use sqkio.Task.Left.{Left-move}
use sqkio.Task.Sound.{IsKept, Keeps}

pub noop-frame : {A : Type 0} {c : Caller} {h : ℕ} → c ≡ noop → c ≡ frame h → A
noop-frame e f = absurd cc

module _ {V E : Type 0} (after_destroy : V → Outcome V) (moved_from : V → V) (debug : Bool)
    (fuel : ℕ) (self : Command V E → World V E → Outcome (World V E)) (keeps : Keeps self) (h : ℕ)
    (w w' : World V E) (runs_now : w.point h ≡ running) (l : IsHeld w.point w.caller) where
  on : OnStack (w.point h)
  on = subst OnStack (sym runs_now) tt

  -- Nobody waits for the frame, which ends.
  unawaited :
      (p : Point V E)
      → IsRested p
      → ¬ Waits p
      → ((g : ℕ) → ¬ AtTask h (w.point g))
      → set_point h p w ≡ w'
      → IsKept (finish h) w w'
  unawaited p rests off alone same = subst (IsKept (finish h) w) same (record {
    held =
        leave-IsHeld h w.point w.caller p (λ t e. off (Waits-AtTask p t e))
          (λ g e. absurd (alone g e)) l;
    left = Left-move h w.point w.caller p rests (λ t e. off (Waits-AtTask p t e));
    began = tt;
  })

  -- The caller `c` runs, and the frame is destroyed.
  resumes_caller :
      (c : ℕ) (w1 : World V E)
      → w.caller h ≡ frame c
      → self (resume c) (set_point h finishing w) ≡ ok w1
      → set_point h destroyed w1 ≡ w'
      → IsKept (finish h) w w'
  resumes_caller c w1 called runs same = subst (IsKept (finish h) w) same (record {
    held =
        leave-IsHeld h w1.point w1.caller destroyed (λ t e. e) (λ g e. absurd (alone1 g e))
          kept.held;
    left = record {
      stack = λ g ne held.
          let held1 = subst OnStack (sym (update_ne w.point h g finishing ne)) held in
          let (there, calls) = kept.left.stack g (not_c g held1) held1 in
          (update_ne w1.point h g destroyed ne ∙ there ∙ update_ne w.point h g finishing ne, calls);
      no_more = λ g ne held.
          let held1 = subst OnStack (update_ne w1.point h g destroyed ne) held in
          subst OnStack (update_ne w.point h g finishing ne)
            (kept.left.no_more g (not_c1 g held1) held1);
      same_caller = caller1 ∙ sym called;
      rested = subst IsRested (sym (update_self w1.point h destroyed)) tt;
      fresh = λ t path. absurd (
          no_task-WaitsFor (update w1.point h destroyed) h t
            (λ u e. subst (AtTask u) (update_self w1.point h destroyed) e) path);
    };
    began = tt;
  })
    where
      ending : World V E
      ending = set_point h finishing w

      ending_h : ending.point h ≡ finishing
      ending_h = update_self w.point h finishing

      held : IsHeld ending.point w.caller
      held = leave-IsHeld h w.point w.caller finishing (λ t e. e) (λ g e. tt) l

      kept : IsKept (resume c) ending w1
      kept = keeps (resume c) ending w1 tt held runs

      apart : h ≢ c
      apart s = subst CanStart (ap ending.point (sym s) ∙ ending_h) kept.began

      on_h : OnStack (ending.point h)
      on_h = subst OnStack (sym ending_h) tt

      finishing1 : w1.point h ≡ finishing
      finishing1 = (kept.left.stack h (λ s. apart (sym s)) on_h).0 ∙ ending_h

      caller1 : w1.caller h ≡ frame c
      caller1 = (kept.left.stack h (λ s. apart (sym s)) on_h).1 ∙ called

      alone1 : (g : ℕ) → ¬ AtTask h (w1.point g)
      alone1 g e =
          let g_is_c = frame-inj (sym (kept.held.called g h e) ∙ caller1) in
          kept.left.fresh h (at_once c h (subst (λ (u : ℕ). AtTask h (w1.point u)) g_is_c e)) on_h

      not_c : (g : ℕ) → OnStack (ending.point g) → c ≢ g
      not_c g there s =
          CanStart-off (ending.point c) kept.began
            (subst (λ (u : ℕ). OnStack (ending.point u)) (sym s) there)

      not_c1 : (g : ℕ) → OnStack (w1.point g) → c ≢ g
      not_c1 g held s =
          IsRested-off (w1.point c) kept.left.rested
            (subst (λ (u : ℕ). OnStack (w1.point u)) (sym s) held)

  pub final_suspend-IsKept :
      final_suspend after_destroy moved_from debug fuel self h w ≡ ok w' → IsKept (finish h) w w'
  unfolding final_suspend
  final_suspend-IsKept runs = by (w.caller h) refl
    where
      by : (c : Caller) → w.caller h ≡ c → IsKept (finish h) w w'
      by null e =
          unawaited final tt (λ x. x) (λ g a. null-frame e (l.called g h a))
            (ok-inj (rw (final_suspend, e) at runs))
      by noop e =
          unawaited destroyed tt (λ x. x) (λ g a. noop-frame e (l.called g h a))
            (ok-inj (rw (final_suspend, e) at runs))
      by (frame c) e =
          let (w1, resumes, rest) =
            >>=-eq-ok (self (resume c) (set_point h finishing w)) _ _
              (rw (final_suspend, e) at runs) in
          resumes_caller c w1 e resumes (ok-inj rest)
