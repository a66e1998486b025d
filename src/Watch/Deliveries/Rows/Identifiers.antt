-- ===== src/Watch/Deliveries/Rows/Identifiers.antt =====
-- The sorted set of the identifiers that a method is given.
use cvebeacon.Prelude.{ℕ, ◌<◌, ◌≡◌, refl, false, List, [], ◌∷◌, ◌||◌, ◌==◌, arith}
use cvebeacon.Watch.Deliveries.Rows.{id_in, insert_id, sorted_set}

-- Each identifier is smaller than those behind it.
abbrev pub Above : ℕ → List ℕ → Type 0
Above k [] = Unit
Above k (i ∷ is) = (k < i) × Above k is

abbrev pub IsAscending : List ℕ → Type 0
IsAscending [] = Unit
IsAscending (i ∷ is) = Above i is × IsAscending is

Above-trans : (j k : ℕ) (is : List ℕ) → j < k → Above k is → Above j is
Above-trans j k [] h a = tt
Above-trans j k (i ∷ is) h a = (omega arith, Above-trans j k is h a.1)

Above-insert_id : (k i : ℕ) (is : List ℕ) → k < i → Above k is → Above k (insert_id i is)
unfolding insert_id
Above-insert_id k i [] h a = (h, tt)
Above-insert_id k i (j ∷ js) h a = ground (arith, Above-insert_id k i js)

insert_id-IsAscending : (i : ℕ) (is : List ℕ) → IsAscending is → IsAscending (insert_id i is)
unfolding insert_id
insert_id-IsAscending i [] a = (tt, tt)
insert_id-IsAscending i (j ∷ js) a =
    ground (arith, insert_id-IsAscending i js, Above-trans i j js, Above-insert_id j i js)

pub sorted_set-IsAscending : (is : List ℕ) → IsAscending (sorted_set is)
unfolding sorted_set
sorted_set-IsAscending [] = tt
sorted_set-IsAscending (i ∷ is) =
    insert_id-IsAscending i (sorted_set is) (sorted_set-IsAscending is)

id_in-insert_id : (x i : ℕ) (is : List ℕ) → id_in x (insert_id i is) ≡ ((i == x) || id_in x is)
unfolding insert_id
id_in-insert_id x i [] = refl
id_in-insert_id x i (j ∷ js) = ground (arith, id_in-insert_id x i js)

pub id_in-sorted_set : (x : ℕ) (is : List ℕ) → id_in x (sorted_set is) ≡ id_in x is
unfolding sorted_set
id_in-sorted_set x [] = refl
id_in-sorted_set x (i ∷ is) =
    ground (arith, id_in-insert_id x i (sorted_set is), id_in-sorted_set x is)

pub not_id_in : (x : ℕ) (is : List ℕ) → Above x is → id_in x is ≡ false
not_id_in x [] a = refl
not_id_in x (i ∷ is) a = ground (arith, not_id_in x is)
