-- ===== src/Watch/View/Names.antt =====
-- The names of vendors and products in a view.
use mathlib.Core.List.{Memᴰ}
use cvebeacon.Prelude.{
  ℕ, zero, suc, ◌≤◌, String, ◌≡◌, refl, ap, subst, Bool, true, false, List, [], ◌∷◌, ◌||◌, arith,
  any, str_eq, truthy, map, take, length, PyText, All, eq_iff,
}
use cvebeacon.Watch.View.{keep_first, text_of, max_names, collect, names_of}

-- Some kept item has the key.
abbrev pub has_key : String → List (String × String) → Bool
has_key key [] = false
has_key key ((k, t) ∷ kept) = str_eq k key || has_key key kept

keep_first-has_key :
    (j key text : String) (kept : List (String × String))
    → has_key j (keep_first key text kept) ≡ (str_eq key j || has_key j kept)
unfolding keep_first
keep_first-has_key j key text [] = ground arith
keep_first-has_key j key text ((k, t) ∷ kept) =
    ground (arith, keep_first-has_key j key text kept, same_key k key j)
  where
    same_key : (k key j : String) → str_eq k key ≡ true → str_eq k j ≡ str_eq key j
    same_key k key j e = ap (λ s. str_eq s j) ((eq_iff k key).0 e)

take_all : (n : ℕ) (kept : List (String × String)) → length kept ≤ n → take n kept ≡ kept
take_all zero [] h = refl
take_all zero (p ∷ kept) h = absurd (omega arith)
take_all (suc n) [] h = refl
take_all (suc n) (p ∷ kept) h = ap (λ ps. p ∷ ps) (take_all n kept (omega arith))

module _ ⦃py : PyText⦄ where
  -- The key of an item is its text up to case.
  abbrev IsFolded : List (String × String) → Type 0
  IsFolded kept = All (λ (p : String × String). p.0 ≡ py.casefold p.1) kept

  keep_first-IsFolded :
      (text : String) (kept : List (String × String))
      → IsFolded kept
      → IsFolded (keep_first (py.casefold text) text kept)
  unfolding keep_first
  keep_first-IsFolded text [] h = (refl, tt)
  keep_first-IsFolded text ((k, t) ∷ kept) h = ground (arith, keep_first-IsFolded text kept h.1)

  collect-IsFolded :
      (vs : List String) (kept : List (String × String))
      → IsFolded kept
      → IsFolded (collect vs kept)
  unfolding collect
  collect-IsFolded [] kept h = h
  collect-IsFolded (v ∷ vs) kept h =
      let text = py.strip v in
      ground (
        arith,
        collect-IsFolded vs kept h,
        collect-IsFolded vs (keep_first (py.casefold text) text kept)
            (keep_first-IsFolded text kept h),
      )

  collect-kept :
      (j : String) (vs : List String) (kept : List (String × String))
      → has_key j kept ≡ true
      → has_key j (collect vs kept) ≡ true
  unfolding collect
  collect-kept j [] kept h = h
  collect-kept j (v ∷ vs) kept h =
      let text = py.strip v in
      ground (
        arith,
        collect-kept j vs kept h,
        collect-kept j vs (keep_first (py.casefold text) text kept)
            (ground (arith, keep_first-has_key j (py.casefold text) text kept)),
      )

  collect-has_key :
      (v : String) (vs : List String) (kept : List (String × String))
      → Memᴰ v vs
      → truthy (py.strip v) ≡ true
      → has_key (py.casefold (py.strip v)) (collect vs kept) ≡ true
  unfolding collect
  collect-has_key v [] kept m h = elim m [ ]
  collect-has_key v (w ∷ ws) kept (Memᴰ.head e) h =
      let text = py.strip v in
      let key = py.casefold text in
      subst (λ x. has_key key (collect (x ∷ ws) kept) ≡ true) e
        (ground (
          arith,
          collect-kept key ws (keep_first key text kept)
              (ground (arith, keep_first-has_key key key text kept, (eq_iff key key).1 refl)),
        ))
  collect-has_key v (w ∷ ws) kept (Memᴰ.tail m) h =
      let text = py.strip w in
      ground (
        arith,
        collect-has_key v ws kept m h,
        collect-has_key v ws (keep_first (py.casefold text) text kept) m h,
      )

  has_key-any :
      (key : String) (kept : List (String × String))
      → IsFolded kept
      → has_key key kept ≡ true
      → any (λ n. str_eq (py.casefold n) key) (map text_of kept) ≡ true
  has_key-any key [] f h = cc
  has_key-any key ((k, t) ∷ kept) f h =
      ground (arith, has_key-any key kept f.1, ap (λ s. str_eq s key) f.0)

  -- When the names that are collected are at most 500, every name of the list that is not blank
  -- is, up to case and surrounding space, among the names of the view.
  names_of_lem :
      (vs : List String) (v : String)
      → Memᴰ v vs
      → truthy (py.strip v) ≡ true
      → length (collect vs []) ≤ max_names
      → any (λ n. str_eq (py.casefold n) (py.casefold (py.strip v))) (names_of vs) ≡ true
  unfolding names_of
  names_of_lem vs v m h few = rw (take_all max_names (collect vs []) few) (
      has_key-any (py.casefold (py.strip v)) (collect vs []) (collect-IsFolded vs [] tt)
        (collect-has_key v vs [] m h))
