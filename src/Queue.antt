-- ===== src/Queue.antt =====
-- What a ring promises: a first-in first-out queue of at most `cap` entries.
use sqkio.Common.{ℕ, List, [], ◌∷◌, ◌++◌, length, ltb, if◌then◌else◌}

module _ {ℓ} {A : Type ℓ} where
  -- 1 and the longer queue, or 0 and the same one.
  unfoldable pub push : ℕ → List A → A → ℕ × List A
  push cap q x = if ltb (length q) cap then (1, q ++ x ∷ []) else (0, q)

  -- 1, the oldest entry and the rest; or 0 and what the caller had, `old`.
  unfoldable pub pop : List A → A → ℕ × A × List A
  pop [] old = (0, old, [])
  pop (x ∷ q) old = (1, x, q)
