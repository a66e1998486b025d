-- ===== src/Watch/Deliveries/Rows/Counting.antt =====
-- How many rows a statement over identifiers meets, under the primary key.
use mathlib.Core.List.{Memᴰ}
use cvebeacon.Prelude.{
  ℕ, ◌+◌, ◌≤◌, String, ◌≡◌, refl, ap, subst, Bool, true, false, List, [], ◌∷◌, ◌&&◌, ◌==◌, ==_iff,
  arith, length, str_eq, Bool-cases, inl, inr,
}
use cvebeacon.Watch.Deliveries.Rows.{DeliveryRow, id_in, count, rewrite, among}
use cvebeacon.Watch.Deliveries.Rows.Identifiers.{IsAscending, not_id_in}

-- The primary key: an event has at most one row for a channel.
abbrev pub key_is : ℕ → String → DeliveryRow → Bool
key_is i channel r = (r.event_id == i) && str_eq r.channel channel

pub record IsKeyed (rows : List DeliveryRow) : Type 0 where
  pub once : (i : ℕ) (channel : String) → count (key_is i channel) rows ≤ 1

-- Counting row by row.
pub count_mono :
    (p q : DeliveryRow → Bool) (rows : List DeliveryRow)
    → ((r : DeliveryRow) → p r ≡ true → q r ≡ true)
    → count p rows ≤ count q rows
count_mono p q [] h = omega arith
count_mono p q (r ∷ rows) h = ground (arith, count_mono p q rows h, h r)

pub count_disjoint :
    (p q s : DeliveryRow → Bool) (rows : List DeliveryRow)
    → ((r : DeliveryRow) → p r ≡ true → s r ≡ true)
    → ((r : DeliveryRow) → q r ≡ true → (s r ≡ true) × (p r ≡ false))
    → count p rows + count q rows ≤ count s rows
count_disjoint p q s [] h k = omega arith
count_disjoint p q s (r ∷ rows) h k = ground (arith, count_disjoint p q s rows h k, h r, k r)

-- The rows of one identifier that pass the test.
abbrev pub of_id : (DeliveryRow → Bool) → ℕ → DeliveryRow → Bool
of_id test i r = (r.event_id == i) && test r

pub id_in_same : (i j : ℕ) (is : List ℕ) → (i == j) ≡ true → id_in i is ≡ id_in j is
id_in_same i j is h = ap (λ k. id_in k is) (ground arith)

module _ (test : DeliveryRow → Bool) where
  pub count-among_cons :
      (i : ℕ) (is : List ℕ) (rows : List DeliveryRow)
      → id_in i is ≡ false
      → count (among test (i ∷ is)) rows ≡ count (of_id test i) rows + count (among test is) rows
  count-among_cons i is [] h = refl
  count-among_cons i is (r ∷ rows) h =
      ground (arith, count-among_cons i is rows h, id_in_same r.event_id i is)

  count-among_nil : (rows : List DeliveryRow) → count (among test []) rows ≡ 0
  count-among_nil [] = refl
  count-among_nil (r ∷ rows) = omega (arith, count-among_nil rows)

  module _ (rows : List DeliveryRow) (once : (i : ℕ) → count (of_id test i) rows ≤ 1) where
    pub count-among-le : (is : List ℕ) → IsAscending is → count (among test is) rows ≤ length is
    count-among-le [] a = omega (arith, count-among_nil rows)
    count-among-le (i ∷ is) a =
        omega
          (arith, count-among_cons i is rows (not_id_in i is a.0), count-among-le is a.1, once i)

    -- If every identifier was counted, each has a row.
    pub count-of_id-pos :
        (x : ℕ) (is : List ℕ)
        → IsAscending is
        → count (among test is) rows ≡ length is
        → id_in x is ≡ true
        → 1 ≤ count (of_id test x) rows
    count-of_id-pos x [] a full h = cc
    count-of_id-pos x (i ∷ is) a full h =
        let split = count-among_cons i is rows (not_id_in i is a.0) in
        let rest = count-among-le is a.1 in
        elim (Bool-cases (i == x)) [
          | inl same ↦
              subst (λ k. 1 ≤ count (of_id test k) rows) ((==_iff i x).0 same)
                (omega (arith, split, rest, full))
          | inr other ↦
              count-of_id-pos x is a.1 (omega (arith, split, rest, full, once i)) (ground arith)
        ]

-- A row that passes a test is counted.
pub count-pos :
    (p : DeliveryRow → Bool) (r : DeliveryRow) (rows : List DeliveryRow)
    → Memᴰ r rows
    → p r ≡ true
    → 1 ≤ count p rows
count-pos p r [] m h = elim m [ ]
count-pos p r (s ∷ rows) (Memᴰ.head e) h = ground (arith, ap p e)
count-pos p r (s ∷ rows) (Memᴰ.tail m) h = omega (arith, count-pos p r rows m h)

-- A statement depends on its test at the rows alone.
pub rewrite_cong :
    (p q : DeliveryRow → Bool) (change : DeliveryRow → DeliveryRow) (rows : List DeliveryRow)
    → ((r : DeliveryRow) → Memᴰ r rows → p r ≡ q r)
    → (rewrite p change rows ≡ rewrite q change rows) × (count p rows ≡ count q rows)
rewrite_cong p q change [] h = (refl, refl)
rewrite_cong p q change (r ∷ rows) h =
    ground (arith, h r (Memᴰ.head refl), rewrite_cong p q change rows (λ s m. h s (Memᴰ.tail m)))
