-- ===== src/Dashboard/Dicts/Keys.antt =====
-- The keys of a dict stay distinct.
use cvebeacon.Prelude.{
  String, ◌≡◌, refl, sym, ap, Bool, true, false, List, [], ◌∷◌, arith, str_eq, eq_iff, Bool-cases,
  inl, inr,
}
use cvebeacon.Dashboard.Dicts.Base.{assign, discard, chosen, has_key, is_dict}

str_eq-false : (s t : String) → str_eq s t ≡ false → str_eq t s ≡ false
str_eq-false s t h = ground (arith, h, eq_iff s t, eq_iff t s, λ (e : t ≡ s). sym e)

module _ {ℓ} {A : Type ℓ} where
  has_key-chosen :
      (p : A → Bool) (key : String) (pool : List (String × A))
      → has_key key pool ≡ false
      → has_key key (chosen p pool) ≡ false
  unfolding has_key
  has_key-chosen p key [] h = refl
  has_key-chosen p key ((k, a) ∷ rest) h = ground (arith, h, has_key-chosen p key rest)

  has_key-discard :
      (key other : String) (pool : List (String × A))
      → has_key key pool ≡ false
      → has_key key (discard other pool) ≡ false
  unfolding has_key discard
  has_key-discard key other [] h = refl
  has_key-discard key other ((k, a) ∷ rest) h = ground (arith, h, has_key-discard key other rest)

  pub has_key-assign :
      (key other : String) (a : A) (pool : List (String × A))
      → str_eq other key ≡ false
      → has_key key pool ≡ false
      → has_key key (assign other a pool) ≡ false
  unfolding has_key assign
  has_key-assign key other a [] e h = ground (arith, e)
  has_key-assign key other a ((k, b) ∷ rest) e h =
      ground (arith, e, h, has_key-assign key other a rest)

  pub is_dict-chosen :
      (p : A → Bool) (pool : List (String × A))
      → is_dict pool ≡ true
      → is_dict (chosen p pool) ≡ true
  unfolding is_dict
  is_dict-chosen p [] h = refl
  is_dict-chosen p ((k, a) ∷ rest) h =
      ground (arith, h, is_dict-chosen p rest, has_key-chosen p k rest)

  pub is_dict-discard :
      (key : String) (pool : List (String × A))
      → is_dict pool ≡ true
      → is_dict (discard key pool) ≡ true
  unfolding is_dict discard
  is_dict-discard key [] h = refl
  is_dict-discard key ((k, a) ∷ rest) h =
      ground (arith, h, is_dict-discard key rest, has_key-discard k key rest)

  pub is_dict-assign :
      (key : String) (a : A) (pool : List (String × A))
      → is_dict pool ≡ true
      → is_dict (assign key a pool) ≡ true
  unfolding is_dict assign has_key
  is_dict-assign key a [] h = refl
  is_dict-assign key a ((k, b) ∷ rest) h = elim (Bool-cases (str_eq k key)) [
    | inl e ↦ ground (arith, h, e, ap (λ s. has_key s rest) ((eq_iff k key).0 e))
    | inr e ↦
        ground (
          arith,
          h,
          e,
          is_dict-assign key a rest,
          has_key-assign k key a rest,
          str_eq-false k key e,
        )
  ]
