-- ===== src/Dashboard/Dicts/Find.antt =====
-- What is found in a dict after an assignment or a selection.
use cvebeacon.Prelude.{
  String, ◌≡◌, refl, ap, Bool, true, false, Option, none, some, List, [], ◌∷◌, arith, str_eq,
  eq_iff, Bool-cases, inl, inr, if◌then◌else◌,
}
use cvebeacon.Dashboard.Dicts.Base.{find, assign, discard, chosen, has_key, is_dict}

module _ {ℓ} {A : Type ℓ} where
  value_or : A → Option A → A
  value_or a none = a
  value_or a (some b) = b

  pub first-value :
      (t : Bool) (b s : A) (rest : Option A)
      → t ≡ true
      → (if t then some b else rest) ≡ some s
      → b ≡ s
  unfolding value_or
  first-value true b s rest e h = ap (value_or b) h
  first-value false b s rest e h = absurd (ground (arith, e))

  pub some-holds : (p : A → Bool) (a b : A) → some a ≡ some b → p a ≡ true → p b ≡ true
  some-holds p a b e h = ground (arith, ap p (first-value true a b none refl e), h)

  pub find-assign :
      (key : String) (a : A) (pool : List (String × A)) → find key (assign key a pool) ≡ some a
  unfolding find assign
  find-assign key a [] = ground (arith, (eq_iff key key).1 refl)
  find-assign key a ((k, b) ∷ rest) =
      ground (arith, find-assign key a rest, (eq_iff key key).1 refl)

  pub find-assign_other :
      (key other : String) (a : A) (pool : List (String × A))
      → str_eq other key ≡ false
      → find key (assign other a pool) ≡ find key pool
  unfolding find assign
  find-assign_other key other a [] h = ground (arith, h)
  find-assign_other key other a ((k, b) ∷ rest) h = elim (Bool-cases (str_eq k other)) [
    | inl e ↦ ground (arith, h, e, ap (λ s. str_eq s key) ((eq_iff k other).0 e))
    | inr e ↦ ground (arith, h, e, find-assign_other key other a rest)
  ]

  pub find-chosen_known :
      (p : A → Bool) (key : String) (a : A) (pool : List (String × A))
      → find key pool ≡ some a
      → p a ≡ true
      → find key (chosen p pool) ≡ some a
  unfolding find
  find-chosen_known p key a [] e h = absurd (ground (arith, e))
  find-chosen_known p key a ((k, b) ∷ rest) e h = elim (Bool-cases (str_eq k key)) [
    | inl f ↦ ground (arith, f, e, h, ap p (first-value (str_eq k key) b a (find key rest) f e))
    | inr f ↦ ground (arith, f, e, find-chosen_known p key a rest, h)
  ]

  pub find-discard_other :
      (key other : String) (pool : List (String × A))
      → str_eq other key ≡ false
      → find key (discard other pool) ≡ find key pool
  unfolding find discard
  find-discard_other key other [] h = refl
  find-discard_other key other ((k, b) ∷ rest) h = elim (Bool-cases (str_eq k other)) [
    | inl e ↦ ground (arith, h, e, ap (λ s. str_eq s key) ((eq_iff k other).0 e))
    | inr e ↦ ground (arith, h, e, find-discard_other key other rest)
  ]

  find-chosen_keyless :
      (p : A → Bool) (key : String) (pool : List (String × A))
      → has_key key pool ≡ false
      → find key (chosen p pool) ≡ none
  unfolding find has_key
  find-chosen_keyless p key [] h = refl
  find-chosen_keyless p key ((k, b) ∷ rest) h = ground (arith, h, find-chosen_keyless p key rest)

  -- In a dict, the entry that is dropped has no other of its key behind it.
  pub find-chosen_dropped :
      (p : A → Bool) (key : String) (a : A) (pool : List (String × A))
      → is_dict pool ≡ true
      → find key pool ≡ some a
      → p a ≡ false
      → find key (chosen p pool) ≡ none
  unfolding find is_dict
  find-chosen_dropped p key a [] d e h = absurd (ground (arith, e))
  find-chosen_dropped p key a ((k, b) ∷ rest) d e h = elim (Bool-cases (str_eq k key)) [
    | inl f ↦ ground (
      arith,
      f,
      d,
      h,
      ap p (first-value (str_eq k key) b a (find key rest) f e),
      find-chosen_keyless p key rest,
      ap (λ s. has_key s rest) ((eq_iff k key).0 f),
    )
    | inr f ↦ ground (arith, f, e, d, find-chosen_dropped p key a rest, h)
  ]
