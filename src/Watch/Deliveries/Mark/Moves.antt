-- ===== src/Watch/Deliveries/Mark/Moves.antt =====
-- The loop of `mark_delivery` is one change of the rows that may move to the status.
use cvebeacon.Prelude.{
  ℕ, ◌+◌, String, ◌≡◌, refl, sym, ap, ◌∙◌, Bool, false, Option, List, [], ◌∷◌, ◌&&◌, arith,
}
use cvebeacon.Watch.Deliveries.Rows.{
  DeliveryStatus, DeliveryRow, id_in, among, count, rewrite, update, sorted_set,
}
use cvebeacon.Watch.Deliveries.Rows.Identifiers.{
  IsAscending, not_id_in, sorted_set-IsAscending, id_in-sorted_set,
}
use cvebeacon.Watch.Deliveries.Rows.Counting.{id_in_same, rewrite_cong}
use cvebeacon.Watch.Deliveries.Claim.{has_status}
use cvebeacon.Watch.Deliveries.Mark.{mark_each, mark_delivery, marked_row, may_mark, predecessors}

module _ (channel : String) (status : DeliveryStatus) (error : Option String) (limit : Option ℕ)
    (now : ℕ) where
  abbrev change : DeliveryRow → DeliveryRow
  change = marked_row status error limit now

  abbrev moves : List ℕ → DeliveryRow → Bool
  moves = among (has_status channel (predecessors status))

  change-event_id : (r : DeliveryRow) → (change r).event_id ≡ r.event_id
  unfolding marked_row
  change-event_id r = ground arith

  moves-nil : (rows : List DeliveryRow) → update (moves []) change rows ≡ (0, rows)
  moves-nil [] = refl
  moves-nil (r ∷ rows) = ground (arith, moves-nil rows)

  moves-cons :
      (i : ℕ) (is : List ℕ) (rows : List DeliveryRow)
      → id_in i is ≡ false
      → (rewrite (moves is) change (rewrite (may_mark i channel status) change rows)
          ≡ rewrite (moves (i ∷ is)) change rows)
        × (count (may_mark i channel status) rows
              + count (moves is) (rewrite (may_mark i channel status) change rows)
            ≡ count (moves (i ∷ is)) rows)
  moves-cons i is [] h = (refl, refl)
  moves-cons i is (r ∷ rows) h = ground (
    arith,
    moves-cons i is rows h,
    id_in_same r.event_id i is,
    ap (λ k. id_in k is) (change-event_id r),
  )

  mark_each_lem :
      (is : List ℕ) (rows : List DeliveryRow)
      → IsAscending is
      → mark_each channel status error limit now is rows ≡ update (moves is) change rows
  unfolding mark_each
  mark_each_lem [] rows a = sym (moves-nil rows)
  mark_each_lem (i ∷ is) rows a = ground (
    arith,
    moves-cons i is rows (not_id_in i is a.0),
    mark_each_lem is (rewrite (may_mark i channel status) change rows) a.1,
  )

-- The loop of mark_delivery is one update of the rows of the channel, among the given events,
-- whose status is a predecessor of the new status.
pub mark_delivery_lem :
    (event_ids : List ℕ) (channel : String) (status : DeliveryStatus) (error : Option String)
    (limit : Option ℕ) (now : ℕ) (rows : List DeliveryRow)
    → mark_delivery event_ids channel status error limit now rows
      ≡ update
          (among (has_status channel (predecessors status)) event_ids)
          (marked_row status error limit now)
          rows
unfolding mark_delivery
mark_delivery_lem event_ids channel status error limit now rows =
    let set = sorted_set event_ids in
    let test = has_status channel (predecessors status) in
    let same =
      rewrite_cong (among test set) (among test event_ids) (marked_row status error limit now) rows
        (λ r m. ap (λ b. b && test r) (id_in-sorted_set r.event_id event_ids)) in
    mark_each_lem channel status error limit now set rows (sorted_set-IsAscending event_ids)
    ∙ ground (arith, same)
