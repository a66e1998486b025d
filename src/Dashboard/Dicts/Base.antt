-- ===== src/Dashboard/Dicts/Base.antt =====
-- A dict in the order of insertion: lookup, assignment and removal of a key.
use cvebeacon.Prelude.{
  String, Bool, true, false, not, ◌&&◌, ◌||◌, Option, none, some, List, [], ◌∷◌, select, str_eq,
  if◌then◌else◌,
}

module _ {ℓ} {A : Type ℓ} where
  -- `pool.get(key)`
  unfoldable pub find : String → List (String × A) → Option A
  find key [] = none
  find key ((k, a) ∷ rest) = if str_eq k key then some a else find key rest

  -- `pool[key] = value`: in its place, or at the end.
  unfoldable pub assign : String → A → List (String × A) → List (String × A)
  assign key a [] = (key, a) ∷ []
  assign key a ((k, b) ∷ rest) =
      let later = (k, b) ∷ assign key a rest in if str_eq k key then (key, a) ∷ rest else later

  -- `pool.pop(key, None)`
  unfoldable pub discard : String → List (String × A) → List (String × A)
  discard key [] = []
  discard key ((k, a) ∷ rest) =
      let later = (k, a) ∷ discard key rest in if str_eq k key then rest else later

  -- The entries whose value passes the test.
  abbrev pub chosen : (A → Bool) → List (String × A) → List (String × A)
  chosen p pool = select (λ (key, a). p a) pool

  unfoldable pub has_key : String → List (String × A) → Bool
  has_key key [] = false
  has_key key ((k, a) ∷ rest) = str_eq k key || has_key key rest

  -- No key occurs twice.
  unfoldable pub is_dict : List (String × A) → Bool
  is_dict [] = true
  is_dict ((k, a) ∷ rest) = not (has_key k rest) && is_dict rest

  -- What holds of every entry.
  module _ (q : String → A → Bool) where
    abbrev pub every : List (String × A) → Bool
    every [] = true
    every ((k, a) ∷ rest) = q k a && every rest
