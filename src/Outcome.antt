-- ===== src/Outcome.antt =====
-- How a call ends when no other thread runs: it returns, it never returns, or it aborts.
pub mod Laws

-- `hang` is a loop that nobody ends: a failed `assert` is `abort`.
pub data Outcome {ℓ} (A : Type ℓ) : Type ℓ where
  ok : A → Outcome A
  hang : Outcome A
  abort : Outcome A

infixl 5 ◌>>=◌ ◌>>◌
abbrev pub ◌>>=◌ {ℓ κ} : {A : Type ℓ} {B : Type κ} → Outcome A → (A → Outcome B) → Outcome B
ok a >>= f = f a
hang >>= f = hang
abort >>= f = abort

abbrev pub ◌>>◌ {ℓ κ} : {A : Type ℓ} {B : Type κ} → Outcome A → Outcome B → Outcome B
m >> k = m >>= λ _. k

-- What an operator that throws gives its caller: a pointer, or `std::bad_alloc`.
pub data Thrown {ℓ} (A : Type ℓ) : Type ℓ where
  given : A → Thrown A
  bad_alloc : Thrown A
