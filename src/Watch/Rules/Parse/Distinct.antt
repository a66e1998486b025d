-- ===== src/Watch/Rules/Parse/Distinct.antt =====
-- What holds of a value that a reader of watch/rules.py returns, and the loop that keeps the first
-- item of each key.
use cvebeacon.Prelude.{
  ℕ, suc, ◌≤◌, String, ◌≡◌, refl, ◌⊎◌, inl, inr, subst, Bool, true, false, Option, none, some, List,
  [], ◌∷◌, arith, length, member, All, if◌then◌else◌,
}
use cvebeacon.Watch.Rules.Parse.{
  Raw, Parsed, failed, parsed, ◌>>=◌, remember, append_new, distinct_items,
}

-- The predicate holds of the value that is returned, if there is one.
abbrev pub Ensures {ℓ} : {A : Type ℓ} → (A → Type 0) → Parsed A → Type 0
Ensures P (failed e) = Unit
Ensures P (parsed a) = P a

module _ {ℓ ℓ'} {A : Type ℓ} {B : Type ℓ'} (P : B → Type 0) where
  pub bind-Ensures :
      (e : Parsed A) (f : A → Parsed B)
      → ((a : A) → e ≡ parsed a → Ensures P (f a))
      → Ensures P (e >>= f)
  bind-Ensures (failed e) f h = tt
  bind-Ensures (parsed a) f h = h a refl

module _ {ℓ ℓ'} {A : Type ℓ} {B : Type ℓ'} (Q : A → Type 0) (P : B → Type 0) where
  -- As `bind-Ensures`, with what the first reader ensures.
  pub bind-both :
      (e : Parsed A) (f : A → Parsed B)
      → Ensures Q e
      → ((a : A) → Q a → Ensures P (f a))
      → Ensures P (e >>= f)
  bind-both (failed e) f q h = tt
  bind-both (parsed a) f q h = h a q

module _ {ℓ} {A : Type ℓ} (P : A → Type 0) where
  pub Ensures-parsed : (e : Parsed A) (a : A) → Ensures P e → e ≡ parsed a → P a
  Ensures-parsed e a h eq = subst (Ensures P) eq h

  pub if-Ensures :
      (b : Bool) (x y : Parsed A)
      → (b ≡ true → Ensures P x)
      → (b ≡ false → Ensures P y)
      → Ensures P (if b then x else y)
  if-Ensures true x y h k = h refl
  if-Ensures false x y h k = k refl

  pub option-Ensures {ℓ'} :
      {B : Type ℓ'} (o : Option B) (x : Parsed A) (f : B → Parsed A)
      → Ensures P x
      → ((b : B) → Ensures P (f b))
      → Ensures P (elim o [ none ↦ x | some b ↦ f b ])
  option-Ensures none x f h k = h
  option-Ensures (some b) x f h k = k b

module _ {ℓ} {A : Type ℓ} (P Q R : A → Type 0) where
  pub both-Ensures :
      (e : Parsed A) → ((a : A) → P a → Q a → R a) → Ensures P e → Ensures Q e → Ensures R e
  both-Ensures (failed e) f h k = tt
  both-Ensures (parsed a) f h k = f a h k

module _ {ℓ} {A : Type ℓ} where
  pub Parsed-cases : (e : Parsed A) → ((t : String) × (e ≡ failed t)) ⊎ ((a : A) × (e ≡ parsed a))
  Parsed-cases (failed t) = inl (t, refl)
  Parsed-cases (parsed a) = inr (a, refl)

-- No key occurs twice, and none is among those seen before.
module _ {ℓ} {A : Type ℓ} (key : A → String) where
  abbrev pub AreNew : List String → List A → Type 0
  AreNew seen [] = Unit
  AreNew seen (a ∷ rest) = (member (key a) seen ≡ false) × AreNew (key a ∷ seen) rest

module _ {ℓ} {A : Type ℓ} (key : A → String) (P : A → Type 0) where
  -- What is kept of the items, when those seen before have the given keys.
  abbrev pub Kept : List String → ℕ → List A → Type 0
  Kept seen n values = All P values × AreNew key seen values × (length values ≤ n)

  append_new-Kept :
      (a : A) (seen : List String) (rest : List A) (n : ℕ) (b : Bool)
      → member (key a) seen ≡ b
      → P a
      → Kept (if b then seen else key a ∷ seen) n rest
      → Kept seen (suc n) (append_new b a rest)
  append_new-Kept a seen rest n true e h (each, fresh, few) = (each, fresh, omega arith)
  append_new-Kept a seen rest n false e h (each, fresh, few) = ((h, each), (e, fresh), omega arith)

  module _ (read : Raw → ℕ → Parsed A) (good : (raw : Raw) (i : ℕ) → Ensures P (read raw i)) where
    pub distinct_items-Kept :
        (i : ℕ) (raws : List Raw) (seen : List String)
        → Ensures (Kept seen (length raws)) (distinct_items read key i raws seen)
    unfolding distinct_items
    distinct_items-Kept i [] seen = (tt, tt, omega arith)
    distinct_items-Kept i (raw ∷ raws) seen =
        bind-Ensures (Kept seen (suc (length raws))) (read raw i) _ (λ a e.
          bind-Ensures (Kept seen (suc (length raws)))
            (distinct_items read key (suc i) raws (remember (key a) seen)) _
            (λ rest e'.
              append_new-Kept a seen rest (length raws) (member (key a) seen) refl
                (Ensures-parsed P (read raw i) a (good raw i) e)
                (Ensures-parsed (Kept (remember (key a) seen) (length raws))
                  (distinct_items read key (suc i) raws (remember (key a) seen)) rest
                  (distinct_items-Kept (suc i) raws (remember (key a) seen)) e')))

  -- Nothing has been seen before the first item, so it is kept.
  pub distinct_items-nonempty :
      (read : Raw → ℕ → Parsed A) (i : ℕ) (raw : Raw) (raws : List Raw)
      → Ensures (λ values. 1 ≤ length values) (distinct_items read key i (raw ∷ raws) [])
  unfolding distinct_items
  distinct_items-nonempty read i raw raws =
      bind-Ensures (λ values. 1 ≤ length values) (read raw i) _
        (λ a e.
          bind-Ensures (λ values. 1 ≤ length values)
            (distinct_items read key (suc i) raws (remember (key a) [])) _ (λ rest e'. omega arith))
