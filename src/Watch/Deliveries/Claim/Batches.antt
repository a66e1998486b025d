-- ===== src/Watch/Deliveries/Claim/Batches.antt =====
-- The statements over chunks of 500 identifiers have the effect of one statement over all of them.
use cvebeacon.Prelude.{
  ℕ, zero, suc, ◌+◌, ◌≤◌, ◌≡◌, refl, sym, ap, subst, Bool, false, List, [], ◌∷◌, ◌++◌, ◌||◌, arith,
  length, take, drop, take-append-drop, length-drop,
}
use cvebeacon.Watch.Deliveries.Rows.{DeliveryRow, id_in, count, rewrite, update, among}
use cvebeacon.Watch.Deliveries.Claim.{for_chunks}

pub id_in-append : (i : ℕ) (c d : List ℕ) → id_in i (c ++ d) ≡ (id_in i c || id_in i d)
id_in-append i [] d = refl
id_in-append i (j ∷ c) d = ground (arith, id_in-append i c d)

-- A statement whose change ends the condition that it tests.
module _ (test : DeliveryRow → Bool) (change : DeliveryRow → DeliveryRow)
    (spent : (r : DeliveryRow) → test (change r) ≡ false) where
  abbrev statement : List ℕ → List DeliveryRow → ℕ × List DeliveryRow
  statement chunk = update (among test chunk) change

  count-rewrite :
      (c d : List ℕ) (rows : List DeliveryRow)
      → count (among test c) rows + count (among test d) (rewrite (among test c) change rows)
        ≡ count (among test (c ++ d)) rows
  count-rewrite c d [] = refl
  count-rewrite c d (r ∷ rows) =
      ground (arith, count-rewrite c d rows, spent r, id_in-append r.event_id c d)

  rewrite-rewrite :
      (c d : List ℕ) (rows : List DeliveryRow)
      → rewrite (among test d) change (rewrite (among test c) change rows)
        ≡ rewrite (among test (c ++ d)) change rows
  rewrite-rewrite c d [] = refl
  rewrite-rewrite c d (r ∷ rows) =
      ground (arith, rewrite-rewrite c d rows, spent r, id_in-append r.event_id c d)

  rewrite-nil : (rows : List DeliveryRow) → rewrite (among test []) change rows ≡ rows
  rewrite-nil [] = refl
  rewrite-nil (r ∷ rows) = rw (rewrite-nil rows)

  count-nil : (rows : List DeliveryRow) → count (among test []) rows ≡ 0
  count-nil [] = refl
  count-nil (r ∷ rows) = omega (arith, count-nil rows)

  -- Updating in chunks of 500 identifiers, with fuel for each identifier, has the count and the
  -- effect of one update over all of them, where the change ends the condition that is tested.
  pub for_chunks_lem :
      (fuel : ℕ) (ids : List ℕ) (rows : List DeliveryRow)
      → length ids ≤ fuel
      → for_chunks statement fuel ids rows ≡ statement ids rows
  unfolding for_chunks
  for_chunks_lem fuel [] rows h = ground (arith, rewrite-nil rows, count-nil rows)
  for_chunks_lem zero (i ∷ is) rows h = absurd (omega arith)
  for_chunks_lem (suc fuel) (i ∷ is) rows h =
      let c = take 500 (i ∷ is) in
      let d = drop 500 (i ∷ is) in
      let after = rewrite (among test c) change rows in
      subst
        (λ r.
          ◌≡◌ {A = ℕ × List DeliveryRow} (count (among test c) rows + r.0, r.1)
            (statement (i ∷ is) rows))
        (sym (for_chunks_lem fuel d after (omega (arith, length-drop 500 (i ∷ is)))))
        (cc (
          count-rewrite c d rows,
          rewrite-rewrite c d rows,
          ap (λ l. statement l rows) (take-append-drop 500 (i ∷ is)),
        ))
