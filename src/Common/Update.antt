-- ===== src/Common/Update.antt =====
-- A write to one place of a memory, a map or a family of stacks that is modelled as a function.
use Prim.Native.Nat.{ℕ}
use native.Mathlib.Decide.{ℕ_discrete}
use mathlib.Core.Path.{◌≡◌, subst, sym}
use mathlib.Core.Logic.{◌≢◌}
use native.Mathlib.Omega.{arith}
use sqkio.Common.Tests.{◌==◌, ==_refl, if◌then◌else◌}

abbrev pub update {ℓ} : {A : Type ℓ} → (ℕ → A) → ℕ → A → ℕ → A
update f p v q = if p == q then v else f q

pub update_self : {A : Type 0} (f : ℕ → A) (p : ℕ) (v : A) → update f p v p ≡ v
update_self f p v = rw (==_refl p)

pub update_ne : {A : Type 0} (f : ℕ → A) (p q : ℕ) (v : A) → p ≢ q → update f p v q ≡ f q
update_ne f p q v ne = ground arith

-- What holds of the new value, and of the others at the other keys, holds of every value.
pub update_all :
    {A : Type 0} (P : ℕ → A → Type 0) (m : ℕ → A) (k : ℕ) (v : A)
    → P k v
    → ((g : ℕ) → k ≢ g → P g (m g))
    → (g : ℕ) → P g (update m k v g)
update_all P m k v here others g = elim (ℕ_discrete k g) [
  | yes e ↦ subst (λ (t : ℕ). P t (update m k v t)) e (subst (P k) (sym (update_self m k v)) here)
  | no ne ↦ subst (P g) (sym (update_ne m k g v ne)) (others g ne)
]
