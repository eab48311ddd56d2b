-- ===== src/Task/Left.antt =====
-- What a call of `resume` (src/core/core.hpp) leaves of the other frames.
use native.Mathlib.Decide.{ℕ_discrete}
use mathlib.Core.Path.{subst}
use sqkio.Common.{ℕ, ◌≡◌, ◌≢◌, refl, sym, ◌∙◌}
use sqkio.Common.Update.{update, update_self, update_ne}
use sqkio.Task.{Point, Caller}
use sqkio.Task.Links.{OnStack, AtTask, IsRested}
use sqkio.Task.Paths.{WaitsFor, no_task-WaitsFor}

-- The frames on the stack but `h` stay where they are with their callers, no other gets there, and `h`
-- keeps its caller, and its place where that is on the stack.
pub record Kept {V E : Type 0} (h : ℕ) (point : ℕ → Point V E) (caller : ℕ → Caller)
    (point' : ℕ → Point V E) (caller' : ℕ → Caller) : Type 0 where
  pub stack : (g : ℕ) → h ≢ g → OnStack (point g) → (point' g ≡ point g) × (caller' g ≡ caller g)
  pub no_more : (g : ℕ) → h ≢ g → OnStack (point' g) → OnStack (point g)
  pub same_caller : caller' h ≡ caller h
  pub still : OnStack (point h) → OnStack (point' h)

-- The same when `h` has left the stack; if it waits, itself or through others, then for no task
-- that was there.
pub record Left {V E : Type 0} (h : ℕ) (point : ℕ → Point V E) (caller : ℕ → Caller)
    (point' : ℕ → Point V E) (caller' : ℕ → Caller) : Type 0 where
  pub stack : (g : ℕ) → h ≢ g → OnStack (point g) → (point' g ≡ point g) × (caller' g ≡ caller g)
  pub no_more : (g : ℕ) → h ≢ g → OnStack (point' g) → OnStack (point g)
  pub same_caller : caller' h ≡ caller h
  pub rested : IsRested (point' h)
  pub fresh : (t : ℕ) → WaitsFor point' h t → ¬ OnStack (point t)

pub Kept-Left :
    {V E : Type 0} (h : ℕ) (p p1 p2 : ℕ → Point V E) (c c1 c2 : ℕ → Caller)
    → Kept h p c p1 c1
    → Left h p1 c1 p2 c2
    → Left h p c p2 c2
Kept-Left h p p1 p2 c c1 c2 k l = record {
  stack = λ g ne on.
      let (here, called) = k.stack g ne on in
      let (there, called2) = l.stack g ne (subst OnStack (sym here) on) in
      (there ∙ here, called2 ∙ called);
  no_more = λ g ne on. k.no_more g ne (l.no_more g ne on);
  same_caller = l.same_caller ∙ k.same_caller;
  rested = l.rested;
  fresh = λ t e on. elim (ℕ_discrete h t) [
    | yes same ↦ l.fresh t e (
        subst (λ (u : ℕ). OnStack (p1 u)) same
          (k.still (subst (λ (u : ℕ). OnStack (p u)) (sym same) on)))
    | no ne ↦ l.fresh t e (subst OnStack (sym (k.stack t ne on).0) on)
  ];
}

pub Kept-trans :
    {V E : Type 0} (h : ℕ) (p p1 p2 : ℕ → Point V E) (c c1 c2 : ℕ → Caller)
    → Kept h p c p1 c1
    → Kept h p1 c1 p2 c2
    → Kept h p c p2 c2
Kept-trans h p p1 p2 c c1 c2 k l = record {
  stack = λ g ne on.
      let (here, called) = k.stack g ne on in
      let (there, called2) = l.stack g ne (subst OnStack (sym here) on) in
      (there ∙ here, called2 ∙ called);
  no_more = λ g ne on. k.no_more g ne (l.no_more g ne on);
  same_caller = l.same_caller ∙ k.same_caller;
  still = λ on. l.still (k.still on);
}

module _ {V E : Type 0} (h : ℕ) (point : ℕ → Point V E) (caller : ℕ → Caller) where
  -- The frame itself moves, on the stack or onto it.
  pub Kept-move : (p : Point V E) → OnStack p → Kept h point caller (update point h p) caller
  Kept-move p on = record {
    stack = λ g ne held. (update_ne point h g p ne, refl);
    no_more = λ g ne held. subst OnStack (update_ne point h g p ne) held;
    same_caller = refl;
    still = λ held. subst OnStack (sym (update_self point h p)) on;
  }

  -- The frame itself moves off the stack.
  pub Left-move :
      (p : Point V E)
      → IsRested p
      → ((t : ℕ) → ¬ AtTask t p)
      → Left h point caller (update point h p) caller
  Left-move p rests no_task = record {
    stack = λ g ne held. (update_ne point h g p ne, refl);
    no_more = λ g ne held. subst OnStack (update_ne point h g p ne) held;
    same_caller = refl;
    rested = subst IsRested (sym (update_self point h p)) rests;
    fresh = λ t path. absurd (
        no_task-WaitsFor (update point h p) h t
          (λ u e. no_task u (subst (AtTask u) (update_self point h p) e)) path);
  }

  -- Another frame, not on the stack, moves off it for good.
  pub Kept-other :
      (t : ℕ) (p : Point V E)
      → h ≢ t
      → ¬ OnStack (point t)
      → ¬ OnStack p
      → Kept h point caller (update point t p) caller
  Kept-other t p ne off off' = record {
    stack = λ g ng held. elim (ℕ_discrete t g) [
      | yes same ↦ absurd (off (subst (λ (u : ℕ). OnStack (point u)) (sym same) held))
      | no other ↦ (update_ne point t g p other, refl)
    ];
    no_more = λ g ng held. elim (ℕ_discrete t g) [
      | yes same ↦ absurd (
          off' (
            subst OnStack (update_self point t p)
              (subst (λ (u : ℕ). OnStack (update point t p u)) (sym same) held)))
      | no other ↦ subst OnStack (update_ne point t g p other) held
    ];
    same_caller = refl;
    still = λ held. subst OnStack (sym (update_ne point t h p (λ s. ne (sym s)))) held;
  }

  -- The frame `t`, not on the stack before, was resumed and has left the stack.
  pub Left-Kept :
      (t : ℕ) (point' : ℕ → Point V E) (caller' : ℕ → Caller)
      → h ≢ t
      → OnStack (point h)
      → ¬ OnStack (point t)
      → ¬ OnStack (point' t)
      → Left t point caller point' caller'
      → Kept h point caller point' caller'
  Left-Kept t point' caller' ne on off off' l = record {
    stack =
        λ g ng held. l.stack g (λ s. off (subst (λ (u : ℕ). OnStack (point u)) (sym s) held)) held;
    no_more = λ g ng held.
        l.no_more g (λ s. off' (subst (λ (u : ℕ). OnStack (point' u)) (sym s) held)) held;
    same_caller = (l.stack h (λ s. ne (sym s)) on).1;
    still = λ held. subst OnStack (sym (l.stack h (λ s. ne (sym s)) on).0) held;
  }
