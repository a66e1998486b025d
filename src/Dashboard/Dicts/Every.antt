-- ===== src/Dashboard/Dicts/Every.antt =====
-- What holds of every entry of a dict.
use cvebeacon.Prelude.{
  String, ◌≡◌, refl, ap, Bool, true, some, List, [], ◌∷◌, arith, str_eq, eq_iff, Bool-cases, inl,
  inr,
}
use cvebeacon.Dashboard.Dicts.Base.{find, assign, discard, chosen, every}
use cvebeacon.Dashboard.Dicts.Find.{first-value}

module _ {ℓ} {A : Type ℓ} where
  module _ (q : String → A → Bool) where
    pub every-chosen :
        (p : A → Bool) (pool : List (String × A))
        → every q pool ≡ true
        → every q (chosen p pool) ≡ true
    every-chosen p [] h = refl
    every-chosen p ((k, a) ∷ rest) h = ground (arith, h, every-chosen p rest)

    pub every-discard :
        (key : String) (pool : List (String × A))
        → every q pool ≡ true
        → every q (discard key pool) ≡ true
    unfolding discard
    every-discard key [] h = refl
    every-discard key ((k, a) ∷ rest) h = ground (arith, h, every-discard key rest)

    pub every-assign :
        (key : String) (a : A) (pool : List (String × A))
        → q key a ≡ true
        → every q pool ≡ true
        → every q (assign key a pool) ≡ true
    unfolding assign
    every-assign key a [] e h = ground (arith, e)
    every-assign key a ((k, b) ∷ rest) e h = ground (arith, e, h, every-assign key a rest)

    pub every-find :
        (key : String) (a : A) (pool : List (String × A))
        → find key pool ≡ some a
        → every q pool ≡ true
        → q key a ≡ true
    unfolding find
    every-find key a [] e h = absurd (ground (arith, e))
    every-find key a ((k, b) ∷ rest) e h = elim (Bool-cases (str_eq k key)) [
      | inl f ↦
          let same = first-value (str_eq k key) b a (find key rest) f e in
          ground (arith, h, ap (λ x. q x b) ((eq_iff k key).0 f), ap (λ x. q key x) same)
      | inr f ↦ ground (arith, f, e, h, every-find key a rest)
    ]

  pub every-weaken :
      (q r : String → A → Bool) (pool : List (String × A))
      → ((key : String) (a : A) → q key a ≡ true → r key a ≡ true)
      → every q pool ≡ true
      → every r pool ≡ true
  every-weaken q r [] h e = refl
  every-weaken q r ((k, a) ∷ rest) h e = ground (arith, e, h k a, every-weaken q r rest h)

  pub every-chosen_self :
      (p : A → Bool) (pool : List (String × A)) → every (λ key a. p a) (chosen p pool) ≡ true
  every-chosen_self p [] = refl
  every-chosen_self p ((k, a) ∷ rest) = ground (arith, every-chosen_self p rest)
