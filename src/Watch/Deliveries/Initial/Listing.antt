-- ===== src/Watch/Deliveries/Initial/Listing.antt =====
-- The identifiers that the claim of a chunk selects: how many there are, in which order, and how
-- many rows a statement over them meets.
use mathlib.Core.List.{Memᴰ}
use cvebeacon.Prelude.{
  is_nil, ℕ, zero, suc, ◌+◌, ◌≤◌, ◌≡◌, refl, Bool, true, false, List, [], ◌∷◌, ◌==◌, arith, any,
  if◌then◌else◌, Bool-cases, inl, inr, length, take, min, All, subst, ==_iff,
}
use cvebeacon.Watch.Deliveries.Rows.{DeliveryRow, count, id_in, among, rewrite}
use cvebeacon.Watch.Deliveries.Initial.{EventRow, selected_ids}
use cvebeacon.Watch.Deliveries.Initial.Chunk.{comes_first, place, in_order}
use cvebeacon.Watch.Deliveries.Rows.Counting.{of_id, count-among_cons}

-- How often an identifier is in a list.
abbrev pub times : ℕ → List ℕ → ℕ
times x [] = 0
times x (i ∷ is) = (if i == x then 1 else 0) + times x is

pub times-none : (x : ℕ) (ids : List ℕ) → times x ids ≡ 0 → id_in x ids ≡ false
times-none x [] h = refl
times-none x (i ∷ is) h = ground (arith, times-none x is)

pub times-some : (x : ℕ) (ids : List ℕ) → id_in x ids ≡ true → 1 ≤ times x ids
times-some x [] h = cc
times-some x (i ∷ is) h = ground (arith, times-some x is)

pub times-pos : (x : ℕ) (ids : List ℕ) → 1 ≤ times x ids → id_in x ids ≡ true
times-pos x [] h = absurd (omega (arith, h))
times-pos x (i ∷ is) h = ground (arith, h, times-pos x is)

pub times-take : (x n : ℕ) (ids : List ℕ) → times x (take n ids) ≤ times x ids
times-take x zero ids = omega arith
times-take x (suc n) [] = omega arith
times-take x (suc n) (i ∷ is) = ground (arith, times-take x n is)

times-place :
    (events : List EventRow) (x i : ℕ) (ids : List ℕ)
    → times x (place events i ids) ≡ times x (i ∷ ids)
unfolding place
times-place events x i [] = refl
times-place events x i (j ∷ js) = ground (arith, times-place events x i js)

pub times-in_order :
    (events : List EventRow) (x : ℕ) (ids : List ℕ) → times x (in_order events ids) ≡ times x ids
unfolding in_order
times-in_order events x [] = refl
times-in_order events x (i ∷ is) =
    ground (arith, times-place events x i (in_order events is), times-in_order events x is)

pub times-selected_ids :
    (test : DeliveryRow → Bool) (x : ℕ) (rows : List DeliveryRow)
    → times x (selected_ids test rows) ≡ count (of_id test x) rows
times-selected_ids test x [] = refl
times-selected_ids test x (r ∷ rows) = ground (arith, times-selected_ids test x rows)

length-place :
    (events : List EventRow) (i : ℕ) (ids : List ℕ) → length (place events i ids) ≡ suc (length ids)
unfolding place
length-place events i [] = refl
length-place events i (j ∷ js) = ground (arith, length-place events i js)

pub length-in_order :
    (events : List EventRow) (ids : List ℕ) → length (in_order events ids) ≡ length ids
unfolding in_order
length-in_order events [] = refl
length-in_order events (i ∷ is) =
    ground (arith, length-place events i (in_order events is), length-in_order events is)

pub length-selected_ids :
    (test : DeliveryRow → Bool) (rows : List DeliveryRow)
    → length (selected_ids test rows) ≡ count test rows
length-selected_ids test [] = refl
length-selected_ids test (r ∷ rows) = ground (arith, length-selected_ids test rows)

pub length-take-min : (n : ℕ) (ids : List ℕ) → length (take n ids) ≡ min n (length ids)
length-take-min zero ids = omega arith
length-take-min (suc n) [] = omega arith
length-take-min (suc n) (i ∷ is) = omega (arith, length-take-min n is)

-- Any two identifiers come one before the other, or are the same.
comes_first-later :
    (events : List EventRow) (i j k : ℕ)
    → comes_first events i j ≡ true
    → comes_first events k j ≡ false
    → comes_first events k i ≡ false
comes_first-later events i j k h g = ground (arith, h, g)

comes_first-back :
    (events : List EventRow) (i j : ℕ)
    → comes_first events i j ≡ true
    → comes_first events j i ≡ false
comes_first-back events i j h = ground (arith, h)

module _ (events : List EventRow) where
  -- None of the identifiers comes before the first.
  abbrev Follow : ℕ → List ℕ → Type 0
  Follow i is = All (λ j. comes_first events j i ≡ false) is

  abbrev IsSorted : List ℕ → Type 0
  IsSorted [] = Unit
  IsSorted (i ∷ is) = Follow i is × IsSorted is

  Follow-later : (i j : ℕ) (is : List ℕ) → comes_first events i j ≡ true → Follow j is → Follow i is
  Follow-later i j [] h f = tt
  Follow-later i j (k ∷ is) h f = (comes_first-later events i j k h f.0, Follow-later i j is h f.1)

  Follow-id_in :
      (i x : ℕ) (is : List ℕ) → Follow i is → id_in x is ≡ true → comes_first events x i ≡ false
  Follow-id_in i x [] f m = absurd (ground (arith, m))
  Follow-id_in i x (k ∷ is) f m = elim (Bool-cases (k == x)) [
    | inl e ↦ subst (λ y. comes_first events y i ≡ false) ((==_iff k x).0 e) f.0
    | inr e ↦ Follow-id_in i x is f.1 (ground (arith, m, e))
  ]

  place-Follow :
      (i j : ℕ) (is : List ℕ)
      → comes_first events j i ≡ false
      → Follow i is
      → Follow i (place events j is)
  unfolding place
  place-Follow i j [] h f = (h, tt)
  place-Follow i j (k ∷ is) h f = elim (Bool-cases (comes_first events j k)) [
    | inl e ↦ rw e (h, f)
    | inr e ↦ rw e (f.0, place-Follow i j is h f.1)
  ]

  place-IsSorted : (i : ℕ) (is : List ℕ) → IsSorted is → IsSorted (place events i is)
  unfolding place
  place-IsSorted i [] s = (tt, tt)
  place-IsSorted i (j ∷ is) s = elim (Bool-cases (comes_first events i j)) [
    | inl e ↦ rw e ((comes_first-back events i j e, Follow-later i j is e s.0), s)
    | inr e ↦ rw e (place-Follow j i is e s.0, place-IsSorted i is s.1)
  ]

  in_order-IsSorted : (is : List ℕ) → IsSorted (in_order events is)
  unfolding in_order
  in_order-IsSorted [] = tt
  in_order-IsSorted (i ∷ is) = place-IsSorted i (in_order events is) (in_order-IsSorted is)

  take-sorted :
      (x n : ℕ) (is : List ℕ)
      → IsSorted is
      → id_in x is ≡ true
      → id_in x (take n is) ≡ false
      → any (comes_first events x) (take n is) ≡ false
  take-sorted x zero is s m out = refl
  take-sorted x (suc n) [] s m out = refl
  take-sorted x (suc n) (i ∷ is) s m out =
      ground (arith, m, out, Follow-id_in i x is s.0, take-sorted x n is s.1)

  -- What is left of the selected identifiers comes before none that is taken.
  pub in_order-take :
      (x n : ℕ) (is : List ℕ)
      → id_in x (in_order events is) ≡ true
      → id_in x (take n (in_order events is)) ≡ false
      → any (comes_first events x) (take n (in_order events is)) ≡ false
  in_order-take x n is = take-sorted x n (in_order events is) (in_order-IsSorted is)

pub rewrite-none :
    (p : DeliveryRow → Bool) (change : DeliveryRow → DeliveryRow) (rows : List DeliveryRow)
    → ((r : DeliveryRow) → p r ≡ false)
    → rewrite p change rows ≡ rows
rewrite-none p change [] h = refl
rewrite-none p change (r ∷ rows) h = rw (h r, rewrite-none p change rows h)

pub is_nil-false : (ids : List ℕ) → is_nil ids ≡ true → ids ≡ []
is_nil-false [] h = refl
is_nil-false (i ∷ is) h = absurd (ground (arith, h))

-- Identifiers that have one row each are counted by the statement.
pub count-among-length :
    (test : DeliveryRow → Bool) (rows : List DeliveryRow) (ids : List ℕ)
    → ((x : ℕ) → times x ids ≤ 1)
    → ((x : ℕ) → id_in x ids ≡ true → count (of_id test x) rows ≡ 1)
    → count (among test ids) rows ≡ length ids
count-among-length test rows [] few one = zero_count rows
  where
    zero_count : (rs : List DeliveryRow) → count (among test []) rs ≡ 0
    zero_count [] = refl
    zero_count (r ∷ rs) = omega (arith, zero_count rs)
count-among-length test rows (i ∷ is) few one = omega (
  arith,
  count-among_cons test i is rows (times-none i is (ground (arith, few i))),
  one i (ground arith),
  count-among-length test rows is (λ x. ground (arith, few x)) (λ x m. one x (ground (arith, m))),
)

-- No row passes a test.
pub count-zero :
    (p : DeliveryRow → Bool) (rows : List DeliveryRow)
    → ((r : DeliveryRow) → Memᴰ r rows → p r ≡ false)
    → count p rows ≡ 0
count-zero p [] h = refl
count-zero p (r ∷ rows) h =
    ground (arith, h r (Memᴰ.head refl), count-zero p rows (λ s m. h s (Memᴰ.tail m)))
