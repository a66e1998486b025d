-- ===== src/Watch/Deliveries/Initial/Digest.antt =====
-- Which rows the claim of an initial digest takes.
use mathlib.Core.List.{Memᴰ}
use cvebeacon.Prelude.{
  ℕ, ◌≤◌, String, ◌≡◌, ap, sym, ◌∙◌, Bool, true, false, none, some, List, [], ◌∷◌, ◌&&◌, ◌==◌, not,
  arith, str_eq, if◌then◌else◌, Bool-cases, inl, inr,
}
use cvebeacon.Watch.Deliveries.Rows.{
  pending, failed, ambiguous, DeliveryRow, status_in, count, rewrite, id_in, among,
}
use cvebeacon.Watch.Deliveries.Claim.{has_status, ok}
use cvebeacon.Watch.Deliveries.Initial.{
  EventRow, initial_condition, claim_initial_row, claim_initial_digest, selected_ids, is_known,
}
use cvebeacon.Watch.Deliveries.Rows.Counting.{
  key_is, IsKeyed, count_disjoint, count-pos, rewrite_cong,
}

-- An event that was selected has a row that meets the condition.
pub selected_ids-count :
    (test : DeliveryRow → Bool) (i : ℕ) (rows : List DeliveryRow)
    → id_in i (selected_ids test rows) ≡ true
    → 1 ≤ count (λ r. (r.event_id == i) && test r) rows
selected_ids-count test i [] h = cc
selected_ids-count test i (r ∷ rows) h = ground (arith, selected_ids-count test i rows)

module _ (events : List EventRow) (channel : String) (include : Bool) (now : ℕ) where
  abbrev covers : DeliveryRow → Bool
  covers = initial_condition events channel include now

  abbrev claimable : List DeliveryRow → DeliveryRow → Bool
  claimable rows =
      among (has_status channel (pending ∷ failed ∷ ambiguous ∷ [])) (selected_ids covers rows)

  covers-claimable :
      (rows : List DeliveryRow) (r : DeliveryRow)
      → covers r ≡ true
      → id_in r.event_id (selected_ids covers rows) ≡ true
      → claimable rows r ≡ true
  unfolding initial_condition
  covers-claimable rows r h m = ground arith

  selected_ids-mem :
      (r : DeliveryRow) (rows : List DeliveryRow)
      → Memᴰ r rows
      → covers r ≡ true
      → id_in r.event_id (selected_ids covers rows) ≡ true
  selected_ids-mem r [] m h = elim m [ ]
  selected_ids-mem r (s ∷ rows) (Memᴰ.head e) h =
      ground (arith, ap covers e, ap (λ (t : DeliveryRow). t.event_id) e)
  selected_ids-mem r (s ∷ rows) (Memᴰ.tail m) h = ground (arith, selected_ids-mem r rows m h)

  covers-channel : (r : DeliveryRow) → covers r ≡ true → str_eq r.channel channel ≡ true
  unfolding initial_condition
  covers-channel r h = ground arith

  clash :
      (rows : List DeliveryRow)
      → IsKeyed rows
      → (r : DeliveryRow) → Memᴰ r rows
      → covers r ≡ false
      → claimable rows r ≡ true
      → ⊥
  clash rows k r m out taken =
      let p = λ (s : DeliveryRow). (s.event_id == r.event_id) && covers s in
      let q = λ (s : DeliveryRow). key_is r.event_id channel s && not (covers s) in
      omega (
        arith,
        k.once r.event_id channel,
        selected_ids-count covers r.event_id rows (ground arith),
        count-pos q r rows m (ground arith),
        count_disjoint p q (key_is r.event_id channel) rows
            (λ s h. ground (arith, covers-channel s)) (λ s h. ground arith),
      )

  -- Under the primary key the statement of the claim meets the rows that were counted.
  claimable-covers :
      (rows : List DeliveryRow)
      → IsKeyed rows
      → (r : DeliveryRow) → Memᴰ r rows
      → claimable rows r ≡ covers r
  claimable-covers rows k r m = elim (Bool-cases (covers r)) [
    | inl yes_covers ↦
        covers-claimable rows r yes_covers (selected_ids-mem r rows m yes_covers) ∙ sym yes_covers
    | inr not_covers ↦ elim (Bool-cases (claimable rows r)) [
      | inl taken ↦ absurd (clash rows k r m not_covers taken)
      | inr free ↦ free ∙ sym not_covers
    ]
  ]

-- In a table with at most one row for each event and channel, and with room for one item, the
-- claim of an initial digest takes exactly the rows that meet the initial condition and returns
-- their number and the number of ambiguous ones, unless no row meets it or none that does is of a
-- stored CVE, when it changes nothing; its check of the number of updated rows never fails.
pub claim_initial_digest_lem :
    (events : List EventRow) (cves : List String) (channel : String) (now max_items : ℕ)
    (include : Bool) (rows : List DeliveryRow)
    → IsKeyed rows
    → 1 ≤ max_items
    → let covered = initial_condition events channel include now in
      let total = count covered rows in
      claim_initial_digest events cves channel now max_items include rows ≡ (
        if total == 0
        then (ok none, rows)
        else if count (λ r. covered r && is_known events cves r.event_id) rows == 0
        then (ok none, rows)
        else (
          ok (some (total, count (λ r. covered r && status_in r.status (ambiguous ∷ [])) rows)),
          rewrite covered (claim_initial_row now) rows,
        ))
unfolding claim_initial_digest
claim_initial_digest_lem events cves channel now max_items include rows k h = ground (
  arith,
  rewrite_cong (claimable events channel include now rows) (covers events channel include now)
      (claim_initial_row now) rows (claimable-covers events channel include now rows k),
)
