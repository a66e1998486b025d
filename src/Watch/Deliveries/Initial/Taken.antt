-- ===== src/Watch/Deliveries/Initial/Taken.antt =====
-- Which rows the claim of a chunk takes.
use mathlib.Core.List.{Memᴰ}
use cvebeacon.Prelude.{
  ℕ, ◌≤◌, String, ◌≡◌, refl, sym, Bool, true, false, List, [], ◌∷◌, ◌&&◌, not, arith, Bool-cases,
  inl, inr, length, take, min, is_nil, All, any,
}
use cvebeacon.Watch.Deliveries.Rows.{
  pending, failed, ambiguous, DeliveryRow, count, rewrite, id_in, among,
}
use cvebeacon.Watch.Deliveries.Claim.{has_status, ok}
use cvebeacon.Watch.Deliveries.Initial.{
  EventRow, initial_condition, claim_initial_row, selected_ids,
}
use cvebeacon.Watch.Deliveries.Initial.Chunk.{
  is_candidate, comes_first, in_order, chunk_ids, claim_initial_chunk,
}
use cvebeacon.Watch.Deliveries.Initial.Listing.{
  times, times-some, times-pos, times-take, times-in_order, times-selected_ids, length-in_order,
  length-selected_ids, length-take-min, in_order-take, rewrite-none, is_nil-false,
  count-among-length, count-zero,
}
use cvebeacon.Watch.Deliveries.Rows.Counting.{
  key_is, IsKeyed, of_id, count_mono, count_disjoint, count-pos, rewrite_cong,
}

module _ (events : List EventRow) (cves : List String) (channel : String) (include : Bool)
    (now limit : ℕ) (rows : List DeliveryRow) (k : IsKeyed rows) where
  abbrev covered : DeliveryRow → Bool
  covered = is_candidate events cves channel include now

  abbrev open_row : DeliveryRow → Bool
  open_row = has_status channel (pending ∷ failed ∷ ambiguous ∷ [])

  abbrev chosen_ids : List ℕ
  chosen_ids = chunk_ids events cves channel now limit include rows

  covered-open : (r : DeliveryRow) → covered r ≡ true → open_row r ≡ true
  unfolding initial_condition
  covered-open r h = ground arith

  open-once : (i : ℕ) → count (of_id open_row i) rows ≤ 1
  open-once i = omega (
    arith,
    count_mono (of_id open_row i) (key_is i channel) rows (λ r h. ground (arith, h)),
    k.once i channel,
  )

  times-chosen : (x : ℕ) → times x chosen_ids ≤ count (of_id covered x) rows
  unfolding chunk_ids
  times-chosen x =
      let selected = selected_ids covered rows in
      omega (
        arith,
        times-take x limit (in_order events selected),
        times-in_order events x selected,
        times-selected_ids covered x rows,
      )

  covered-le-open : (x : ℕ) → count (of_id covered x) rows ≤ count (of_id open_row x) rows
  covered-le-open x =
      count_mono (of_id covered x) (of_id open_row x) rows λ r h. ground (arith, h, covered-open r)

  -- Each identifier that was chosen has one covered row, and no other open one.
  chosen-one :
      (x : ℕ)
      → id_in x chosen_ids ≡ true
      → (count (of_id covered x) rows ≡ 1) × (count (of_id open_row x) rows ≡ 1)
  chosen-one x m =
      let some_row = times-some x chosen_ids m in
      (
        omega (arith, some_row, times-chosen x, covered-le-open x, open-once x),
        omega (arith, some_row, times-chosen x, covered-le-open x, open-once x),
      )

  chosen-count : count (among open_row chosen_ids) rows ≡ length chosen_ids
  chosen-count =
      count-among-length open_row rows chosen_ids
        (λ x. omega (arith, times-chosen x, covered-le-open x, open-once x))
        (λ x m. (chosen-one x m).1)

  chosen-length : length chosen_ids ≡ min limit (count covered rows)
  unfolding chunk_ids
  chosen-length =
      let selected = selected_ids covered rows in
      omega (
        arith,
        length-take-min limit (in_order events selected),
        length-in_order events selected,
        length-selected_ids covered rows,
      )

  clash :
      (r : DeliveryRow)
      → Memᴰ r rows
      → id_in r.event_id chosen_ids ≡ true
      → open_row r ≡ true
      → covered r ≡ false
      → ⊥
  clash r m chosen is_open out = omega (
    arith,
    chosen-one r.event_id chosen,
    count-pos (λ s. of_id open_row r.event_id s && not (covered s)) r rows m
        (ground (arith, is_open, out)),
    count_disjoint (of_id covered r.event_id) (λ s. of_id open_row r.event_id s && not (covered s))
        (of_id open_row r.event_id) rows (λ s h. ground (arith, h, covered-open s))
        (λ s h. ground (arith, h)),
  )

  chosen-covered :
      (r : DeliveryRow)
      → Memᴰ r rows
      → among open_row chosen_ids r ≡ (id_in r.event_id chosen_ids && covered r)
  chosen-covered r m = elim (Bool-cases (covered r)) [
    | inl e ↦ ground (arith, e, covered-open r e)
    | inr e ↦ elim (Bool-cases (among open_row chosen_ids r)) [
      | inl f ↦ absurd (clash r m (ground (arith, f)) (ground (arith, f)) e)
      | inr f ↦ ground (arith, e, f)
    ]
  ]

  All-ids :
      (ids : List ℕ)
      → ((x : ℕ) → id_in x ids ≡ true → id_in x chosen_ids ≡ true)
      → All (λ i. count (of_id covered i) rows ≡ 1) ids
  All-ids [] part = tt
  All-ids (i ∷ is) part =
      ((chosen-one i (part i (ground arith))).0, All-ids is λ x m. part x (ground (arith, m)))

  chosen-rewrite :
      rewrite (among open_row chosen_ids) (claim_initial_row now) rows
      ≡ rewrite (λ r. id_in r.event_id chosen_ids && covered r) (claim_initial_row now) rows
  chosen-rewrite =
      (rewrite_cong (among open_row chosen_ids) (λ r. id_in r.event_id chosen_ids && covered r)
        (claim_initial_row now) rows chosen-covered).0

  none-chosen :
      is_nil chosen_ids ≡ true
      → rows ≡ rewrite (λ r. id_in r.event_id chosen_ids && covered r) (claim_initial_row now) rows
  none-chosen e = sym (
      rewrite-none (λ r. id_in r.event_id chosen_ids && covered r) (claim_initial_row now) rows
        (λ r. rw (is_nil-false chosen_ids e) refl))

  chunk-result :
      1 ≤ limit
      → claim_initial_chunk events cves channel now limit include rows ≡ (
        ok chosen_ids,
        rewrite (λ r. id_in r.event_id chosen_ids && covered r) (claim_initial_row now) rows,
      )
  unfolding claim_initial_chunk
  chunk-result h = elim (Bool-cases (is_nil chosen_ids)) [
    | inl e ↦ ground (arith, h, e, is_nil-false chosen_ids e, none-chosen e)
    | inr e ↦ ground (arith, h, e, chosen-count, chosen-rewrite)
  ]

module _ (events : List EventRow) (cves : List String) (channel : String) (include : Bool)
    (now limit : ℕ) (rows : List DeliveryRow) where
  abbrev is_overtaken : List ℕ → DeliveryRow → Bool
  is_overtaken ids r =
      is_candidate events cves channel include now r
      && not (id_in r.event_id ids)
      && any (comes_first events r.event_id) ids

  none-overtaken :
      count (is_overtaken (chunk_ids events cves channel now limit include rows)) rows ≡ 0
  unfolding chunk_ids
  none-overtaken =
      let test = is_candidate events cves channel include now in
      let selected = selected_ids test rows in
      let taken = take limit (in_order events selected) in
      count-zero (is_overtaken taken) rows λ r m. elim (Bool-cases (test r)) [
        | inr e ↦ ground (arith, e)
        | inl e ↦ ground (
          arith,
          in_order-take events r.event_id limit selected (
              times-pos r.event_id (in_order events selected) (
                omega (
                  arith,
                  times-in_order events r.event_id selected,
                  times-selected_ids test r.event_id rows,
                  count-pos (of_id test r.event_id) r rows m (ground (arith, e)),
                ))),
        )
      ]

-- In a table with at most one row for each event and channel, and with a limit of at least one,
-- the claim of a chunk never fails its check of the number of updated rows: it returns as many
-- identifiers as there are covered rows, or the limit when there are more, each of one covered
-- row; those rows are the ones that it starts to send, all others stay as they are, and no
-- covered row that it leaves comes before one that it takes.
pub claim_initial_chunk_lem :
    (events : List EventRow) (cves : List String) (channel : String) (now limit : ℕ)
    (include : Bool) (rows : List DeliveryRow)
    → IsKeyed rows
    → 1 ≤ limit
    → let covered = is_candidate events cves channel include now in
      (ids : List ℕ) × (claim_initial_chunk events cves channel now limit include rows
        ≡ (ok ids, rewrite (λ r. id_in r.event_id ids && covered r) (claim_initial_row now) rows))
      × (length ids ≡ min limit (count covered rows))
      × All (λ i. count (of_id covered i) rows ≡ 1) ids
      × (count
            (λ r.
              covered r && not (id_in r.event_id ids) && any (comes_first events r.event_id) ids)
            rows
          ≡ 0)
claim_initial_chunk_lem events cves channel now limit include rows k h = (
  chunk_ids events cves channel now limit include rows,
  chunk-result events cves channel include now limit rows k h,
  chosen-length events cves channel include now limit rows k,
  All-ids events cves channel include now limit rows k
      (chunk_ids events cves channel now limit include rows) (λ x m. m),
  none-overtaken events cves channel include now limit rows,
)
