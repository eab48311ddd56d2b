-- ===== src/Outcome/Laws.antt =====
-- Inversion of a chain of calls that returned. No code.
use mathlib.Core.Path.{◌≡◌, refl}
use sqkio.Outcome.{Outcome, ok, hang, abort, ◌>>=◌}

pub >>=-eq-ok {ℓ κ} :
    {A : Type ℓ} {B : Type κ} (m : Outcome A) (f : A → Outcome B) (b : B)
    → (m >>= f) ≡ ok b
    → (a : A) × (m ≡ ok a) × (f a ≡ ok b)
>>=-eq-ok (ok a) f b h = (a, refl, h)
>>=-eq-ok hang f b h = absurd cc
>>=-eq-ok abort f b h = absurd cc

pub ok-inj {ℓ} : {A : Type ℓ} {a b : A} → ◌≡◌ {A = Outcome A} (ok a) (ok b) → a ≡ b
ok-inj e = cc

pub abort-ok {ℓ} : {A : Type ℓ} {B : Type 0} {a : A} → ◌≡◌ {A = Outcome A} abort (ok a) → B
abort-ok e = absurd cc

pub hang-ok {ℓ} : {A : Type ℓ} {B : Type 0} {a : A} → ◌≡◌ {A = Outcome A} hang (ok a) → B
hang-ok e = absurd cc

pub >>=-assoc :
    {A B C : Type 0} (m : Outcome A) (f : A → Outcome B) (g : B → Outcome C)
    → (m >>= f >>= g) ≡ (m >>= λ a. f a >>= g)
>>=-assoc (ok a) f g = refl
>>=-assoc hang f g = refl
>>=-assoc abort f g = refl
