-- ===== src/Task/Links.antt =====
-- How the frames of src/core/core.hpp hang together: who waits for whom, and who is whose caller.
use sqkio.Common.{ℕ, ◌≡◌, ◌≢◌}
use sqkio.Task.{
  Point, Caller, null, frame, initial, at_task, at_event, at_yield, running, finishing, final,
  destroyed,
}

module _ {V E : Type 0} where
  -- A frame that is being run: its `resume()` has not returned.
  abbrev pub OnStack : Point V E → Type 0
  OnStack running = Unit
  OnStack finishing = Unit
  OnStack _ = ⊥

  -- A frame suspended inside its body.
  abbrev pub Waits : Point V E → Type 0
  Waits (at_task t k) = Unit
  Waits (at_event a k) = Unit
  Waits (at_yield body) = Unit
  Waits _ = ⊥

  -- A frame that waits for the task `t`.
  abbrev pub AtTask : ℕ → Point V E → Type 0
  AtTask t (at_task t' k) = t' ≡ t
  AtTask t _ = ⊥

  -- A task that someone may wait for.
  abbrev pub IsLive : Point V E → Type 0
  IsLive (initial body) = ⊥
  IsLive final = ⊥
  IsLive destroyed = ⊥
  IsLive _ = Unit

  -- A task whose caller is still to be resumed.
  abbrev pub IsOwing : Point V E → Type 0
  IsOwing finishing = ⊥
  IsOwing final = ⊥
  IsOwing destroyed = ⊥
  IsOwing _ = Unit

  -- A frame that `resume()` left: suspended or gone.
  abbrev pub IsRested : Point V E → Type 0
  IsRested (initial body) = ⊥
  IsRested running = ⊥
  IsRested finishing = ⊥
  IsRested _ = Unit

  -- Who waits for a task is its caller, and the task is not over; whose task still owes its caller a
  -- resumption waits for it; and a task that is suspended has a caller, `x` perhaps excepted.
  pub record IsLinked (x : ℕ) (point : ℕ → Point V E) (caller : ℕ → Caller) : Type 0 where
    pub called : (h t : ℕ) → AtTask t (point h) → caller t ≡ frame h
    pub live : (h t : ℕ) → AtTask t (point h) → IsLive (point t)
    pub owing : (h t : ℕ) → caller t ≡ frame h → IsOwing (point t) → AtTask t (point h)
    pub owned : (t : ℕ) → t ≢ x → caller t ≡ null → ¬ Waits (point t)

pub IsRested-off : {V E : Type 0} (p : Point V E) → IsRested p → ¬ OnStack p
IsRested-off (initial body) r on = on
IsRested-off (at_task t k) r on = on
IsRested-off (at_event a k) r on = on
IsRested-off (at_yield body) r on = on
IsRested-off running r on = r
IsRested-off finishing r on = r
IsRested-off final r on = on
IsRested-off destroyed r on = on
