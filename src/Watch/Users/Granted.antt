-- ===== src/Watch/Users/Granted.antt =====
-- What holds of the result of an attempt that is granted, step by step through its guards.
use cvebeacon.Prelude.{◌≡◌, ◌⊎◌, inl, inr, refl, ap, subst}
use cvebeacon.Watch.Users.{Account, UserError, Attempt, rejected, granted, ◌>>=◌}

-- The predicate holds of the granted value, if there is one.
abbrev pub Ensures {ℓ} : {A : Type ℓ} → (A → Type 0) → Attempt A → Type 0
Ensures P (rejected e) = Unit
Ensures P (granted a) = P a

module _ {ℓ ℓ'} {A : Type ℓ} {B : Type ℓ'} (P : B → Type 0) where
  pub bind-Ensures :
      (e : Attempt A) (f : A → Attempt B)
      → ((a : A) → e ≡ granted a → Ensures P (f a))
      → Ensures P (e >>= f)
  bind-Ensures (rejected e) f h = tt
  bind-Ensures (granted a) f h = h a refl

module _ {ℓ} {A : Type ℓ} (P : A → Type 0) where
  pub Ensures-granted : (e : Attempt A) (a : A) → Ensures P e → e ≡ granted a → P a
  Ensures-granted e a h eq = subst (Ensures P) eq h

module _ {ℓ} {A : Type ℓ} where
  pub Attempt-cases :
      (e : Attempt A) → ((r : UserError) × (e ≡ rejected r)) ⊎ ((a : A) × (e ≡ granted a))
  Attempt-cases (rejected r) = inl (r, refl)
  Attempt-cases (granted a) = inr (a, refl)

abbrev or_else : Account → Attempt Account → Account
or_else a (rejected e) = a
or_else a (granted b) = b

pub granted-injective : (a b : Account) → granted a ≡ granted b → a ≡ b
granted-injective a b h = ap (or_else a) h
