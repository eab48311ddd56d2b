-- ===== src/Common/Options.antt =====
-- Values of `Option` that are equal, or are not. No code.
use mathlib.Core.Path.{◌≡◌}
use mathlib.Core.Option.{Option, none, some}

pub some-inj {ℓ} : {A : Type ℓ} {a b : A} → some a ≡ some b → a ≡ b
some-inj e = cc

pub none-some {ℓ} : {A : Type ℓ} {B : Type 0} {a : A} → ◌≡◌ {A = Option A} none (some a) → B
none-some e = absurd cc
