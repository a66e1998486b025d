-- ===== src/Prelude/Lists.antt =====
-- Lists measured by native numbers, and Python's `any`, `all` and comprehensions.
use Prim.Native.Nat.{ℕ, zero, suc, ◌+◌, ◌-◌, ◌≤◌}
use mathlib.Core.Path.{◌≡◌, refl, ap}
use mathlib.Core.Logic.{◌↔◌}
use mathlib.Core.Bool.{Bool, true, false, ◌&&◌, ◌||◌}
use mathlib.Core.List.{List, [], ◌∷◌, ◌++◌, Memᴰ}
use native.Mathlib.Omega.{arith}
use cvebeacon.Prelude.Tests.{if◌then◌else◌}

module _ {ℓ} {A : Type ℓ} where
  abbrev pub length : List A → ℕ
  length [] = 0
  length (x ∷ xs) = suc (length xs)

  abbrev pub take : ℕ → List A → List A
  take zero xs = []
  take (suc n) [] = []
  take (suc n) (x ∷ xs) = x ∷ take n xs

  abbrev pub drop : ℕ → List A → List A
  drop zero xs = xs
  drop (suc n) [] = []
  drop (suc n) (x ∷ xs) = drop n xs

  -- `not xs`
  abbrev pub is_nil : List A → Bool
  is_nil [] = true
  is_nil (x ∷ xs) = false

  abbrev pub any : (A → Bool) → List A → Bool
  any p [] = false
  any p (x ∷ xs) = p x || any p xs

  abbrev pub all : (A → Bool) → List A → Bool
  all p [] = true
  all p (x ∷ xs) = p x && all p xs

  -- `[x for x in xs if p(x)]`
  abbrev pub select : (A → Bool) → List A → List A
  select p [] = []
  select p (x ∷ xs) = if p x then x ∷ select p xs else select p xs

module _ {ℓ κ} {A : Type ℓ} where
  abbrev pub All : (A → Type κ) → List A → Type κ
  All P [] = Unit
  All P (x ∷ xs) = P x × All P xs

module _ {ℓ} {A : Type ℓ} where
  pub length-append : (xs ys : List A) → length (xs ++ ys) ≡ length xs + length ys
  length-append [] ys = omega arith
  length-append (x ∷ xs) ys = omega (arith, length-append xs ys)

  pub length-select : (p : A → Bool) (xs : List A) → length (select p xs) ≤ length xs
  length-select p [] = omega arith
  length-select p (x ∷ xs) = ground (arith, length-select p xs)

  pub take-append-drop : (n : ℕ) (xs : List A) → take n xs ++ drop n xs ≡ xs
  take-append-drop zero xs = refl
  take-append-drop (suc n) [] = refl
  take-append-drop (suc n) (x ∷ xs) = rw (take-append-drop n xs)

  pub length-drop : (n : ℕ) (xs : List A) → length (drop n xs) ≡ length xs - n
  length-drop zero xs = omega arith
  length-drop (suc n) [] = omega arith
  length-drop (suc n) (x ∷ xs) = omega (arith, length-drop n xs)

  pub any-none : (p : A → Bool) (x : A) (xs : List A) → Memᴰ x xs → any p xs ≡ false → p x ≡ false
  any-none p x [] m h = elim m [ ]
  any-none p x (y ∷ ys) (Memᴰ.head e) h = ground (arith, ap p e)
  any-none p x (y ∷ ys) (Memᴰ.tail m) h = any-none p x ys m (ground arith)

  pub all-each : (p : A → Bool) (x : A) (xs : List A) → Memᴰ x xs → all p xs ≡ true → p x ≡ true
  all-each p x [] m h = elim m [ ]
  all-each p x (y ∷ ys) (Memᴰ.head e) h = ground (arith, ap p e)
  all-each p x (y ∷ ys) (Memᴰ.tail m) h = all-each p x ys m (ground arith)

  -- The same items, in any order and any number of times.
  abbrev pub IsSame : List A → List A → Type ℓ
  IsSame xs ys = (x : A) → Memᴰ x xs ↔ Memᴰ x ys

  any_empty : (p : A → Bool) (xs : List A) → ((x : A) → Memᴰ x xs → p x ≡ false) → any p xs ≡ false
  any_empty p [] h = refl
  any_empty p (x ∷ xs) h =
      ground (arith, h x (Memᴰ.head refl), any_empty p xs (λ y m. h y (Memᴰ.tail m)))

  any_keeps : (p : A → Bool) (xs ys : List A) → IsSame xs ys → any p xs ≡ false → any p ys ≡ false
  any_keeps p xs ys same h = any_empty p ys (λ y m. any-none p y xs ((same y).1 m) h)

  pub any_same : (p : A → Bool) (xs ys : List A) → IsSame xs ys → any p xs ≡ any p ys
  any_same p xs ys same =
      let there = any_keeps p xs ys same in
      let back = any_keeps p ys xs (λ y. ((same y).1, (same y).0)) in ground arith
