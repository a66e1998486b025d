-- ===== src/Dashboard/Dicts/Counts.antt =====
-- How many entries a dict has, and how many of them pass a test.
use cvebeacon.Prelude.{
  suc, ◌≤◌, String, ◌≡◌, ap, Bool, true, false, some, List, [], ◌∷◌, arith, length, str_eq, eq_iff,
  Bool-cases, inl, inr, if◌then◌else◌,
}
use cvebeacon.Dashboard.Dicts.Base.{find, assign, discard, chosen, has_key, is_dict}
use cvebeacon.Dashboard.Dicts.Find.{first-value}

module _ {ℓ} {A : Type ℓ} where
  pub length-assign :
      (key : String) (a : A) (pool : List (String × A))
      → length (assign key a pool) ≤ suc (length pool)
  unfolding assign
  length-assign key a [] = omega arith
  length-assign key a ((k, b) ∷ rest) = ground (arith, length-assign key a rest)

  pub length-discard :
      (key : String) (pool : List (String × A)) → length (discard key pool) ≤ length pool
  unfolding discard
  length-discard key [] = omega arith
  length-discard key ((k, a) ∷ rest) = ground (arith, length-discard key rest)

  -- The number of entries whose value passes a test.
  pub length-chosen-assign :
      (p : A → Bool) (key : String) (a : A) (pool : List (String × A))
      → length (chosen p (assign key a pool)) ≤ suc (length (chosen p pool))
  unfolding assign
  length-chosen-assign p key a [] = ground arith
  length-chosen-assign p key a ((k, b) ∷ rest) = ground (arith, length-chosen-assign p key a rest)

  pub chosen-assign_other :
      (p : A → Bool) (key : String) (a : A) (pool : List (String × A))
      → p a ≡ false
      → length (chosen p (assign key a pool)) ≤ length (chosen p pool)
  unfolding assign
  chosen-assign_other p key a [] h = ground (arith, h)
  chosen-assign_other p key a ((k, b) ∷ rest) h =
      ground (arith, h, chosen-assign_other p key a rest)

  head_key : List (String × A) → String
  head_key [] = ""
  head_key ((k, a) ∷ rest) = k

  chosen-head :
      (b : Bool) (k key : String) (x a : A) (xs own : List (String × A))
      → (if b then (k, x) ∷ xs else xs) ≡ (key, a) ∷ own
      → b ≡ true
      → (k ≡ key) × (length xs ≡ length own)
  unfolding head_key
  chosen-head true k key x a xs own h e = (ap head_key h, omega (arith, ap length h))
  chosen-head false k key x a xs own h e = absurd (ground (arith, e))

  has_key-head :
      (p : A → Bool) (key : String) (a : A) (own pool : List (String × A))
      → chosen p pool ≡ (key, a) ∷ own
      → has_key key pool ≡ true
  unfolding has_key
  has_key-head p key a own [] h = absurd (ground (arith, h))
  has_key-head p key a own ((k, b) ∷ rest) h = elim (Bool-cases (p b)) [
    | inl e ↦
        let (same, _) = chosen-head (p b) k key b a (chosen p rest) own h e in
        ground (arith, (eq_iff k key).1 same)
    | inr e ↦ ground (arith, h, e, has_key-head p key a own rest)
  ]

  pub length-chosen-discard :
      (p : A → Bool) (key : String) (pool : List (String × A))
      → length (chosen p (discard key pool)) ≤ length (chosen p pool)
  unfolding discard
  length-chosen-discard p key [] = omega arith
  length-chosen-discard p key ((k, b) ∷ rest) = ground (arith, length-chosen-discard p key rest)

  -- Removing the key of the first entry that passes the test removes that entry.
  pub chosen-discard :
      (p : A → Bool) (key : String) (a : A) (own pool : List (String × A))
      → is_dict pool ≡ true
      → chosen p pool ≡ (key, a) ∷ own
      → length (chosen p (discard key pool)) ≤ length own
  unfolding discard is_dict has_key
  chosen-discard p key a own [] d h = absurd (ground (arith, h))
  chosen-discard p key a own ((k, b) ∷ rest) d h = elim (Bool-cases (p b)) [
    | inl e ↦
        let (same, long) = chosen-head (p b) k key b a (chosen p rest) own h e in
        ground (arith, (eq_iff k key).1 same, long, e)
    | inr e ↦ ground (
      arith,
      d,
      e,
      h,
      has_key-head p key a own rest,
      chosen-discard p key a own rest,
      eq_iff k key,
      ap (λ s. has_key s rest),
    )
  ]

  pub length-chosen-chosen :
      (p q : A → Bool) (pool : List (String × A))
      → length (chosen p (chosen q pool)) ≤ length (chosen p pool)
  length-chosen-chosen p q [] = omega arith
  length-chosen-chosen p q ((k, a) ∷ rest) = ground (arith, length-chosen-chosen p q rest)

  -- A new value for a key that is there.
  pub chosen-assign_known :
      (p : A → Bool) (key : String) (a s : A) (pool : List (String × A))
      → find key pool ≡ some s
      → p a ≡ p s
      → length (chosen p (assign key a pool)) ≡ length (chosen p pool)
  unfolding find assign
  chosen-assign_known p key a s [] h e = absurd (ground (arith, h))
  chosen-assign_known p key a s ((k, b) ∷ rest) h e = elim (Bool-cases (str_eq k key)) [
    | inl f ↦ ground (arith, f, e, ap p (first-value (str_eq k key) b s (find key rest) f h))
    | inr f ↦ ground (arith, f, h, chosen-assign_known p key a s rest)
  ]

  pub length-assign_known :
      (key : String) (a s : A) (pool : List (String × A))
      → find key pool ≡ some s
      → length (assign key a pool) ≡ length pool
  unfolding find assign
  length-assign_known key a s [] h = absurd (ground (arith, h))
  length-assign_known key a s ((k, b) ∷ rest) h =
      ground (arith, h, length-assign_known key a s rest)

  pub length-discard_known :
      (key : String) (pool : List (String × A))
      → has_key key pool ≡ true
      → suc (length (discard key pool)) ≡ length pool
  unfolding has_key discard
  length-discard_known key [] h = absurd (ground (arith, h))
  length-discard_known key ((k, b) ∷ rest) h = ground (arith, h, length-discard_known key rest)
