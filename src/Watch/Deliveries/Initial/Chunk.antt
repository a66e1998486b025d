-- ===== src/Watch/Deliveries/Initial/Chunk.antt =====
-- store.py: `claim_initial_chunk`, which claims the oldest initial rows for a webhook.
use cvebeacon.Prelude.{
  ℕ, String, Bool, List, [], ◌∷◌, ◌&&◌, ◌||◌, ◌==◌, ltb, if◌then◌else◌, is_nil, length, take,
}
use cvebeacon.Watch.Deliveries.Rows.{pending, failed, ambiguous, DeliveryRow, among, update}
use cvebeacon.Watch.Deliveries.Claim.{Outcome, ok, raised, empty_chunk, has_status}
use cvebeacon.Watch.Deliveries.Initial.{
  EventRow, initial_condition, claim_initial_row, is_known, selected_ids,
}

-- `e.created_at` of an event
abbrev pub created_of : List EventRow → ℕ → ℕ
created_of [] i = 0
created_of (e ∷ es) i = if e.id == i then e.created_at else created_of es i

-- `ORDER BY e.created_at, e.id`
abbrev pub comes_first : List EventRow → ℕ → ℕ → Bool
comes_first events i j =
    ltb (created_of events i) (created_of events j)
    || ((created_of events i == created_of events j) && ltb i j)

unfoldable pub place : List EventRow → ℕ → List ℕ → List ℕ
place events i [] = i ∷ []
place events i (j ∷ js) =
    let rest = j ∷ place events i js in if comes_first events i j then i ∷ j ∷ js else rest

unfoldable pub in_order : List EventRow → List ℕ → List ℕ
unfolding place
in_order events [] = []
in_order events (i ∷ is) = place events i (in_order events is)

-- The covered rows of stored CVEs
abbrev pub is_candidate : List EventRow → List String → String → Bool → ℕ → DeliveryRow → Bool
is_candidate events cves channel include_ambiguous now r =
    initial_condition events channel include_ambiguous now r && is_known events cves r.event_id

-- The identifiers that the query selects, at most `limit` of them.
unfoldable pub chunk_ids :
    List EventRow → List String → String → ℕ → ℕ → Bool → List DeliveryRow → List ℕ
unfolding in_order
chunk_ids events cves channel now limit include_ambiguous rows =
    take limit
      (in_order events (selected_ids (is_candidate events cves channel include_ambiguous now) rows))

-- The claim returns the identifiers of the events that it claimed; how they are decorated for the
-- message is not modelled.
unfoldable pub claim_initial_chunk :
    List EventRow
    → List String
    → String
    → ℕ
    → ℕ
    → Bool
    → List DeliveryRow
    → Outcome (List ℕ) × List DeliveryRow
claim_initial_chunk events cves channel now limit include_ambiguous rows =
    let ids = chunk_ids events cves channel now limit include_ambiguous rows in
    let (claimed, after) =
      update (among (has_status channel (pending ∷ failed ∷ ambiguous ∷ [])) ids)
        (claim_initial_row now) rows in
    if ltb limit 1
    then (raised empty_chunk, rows)
    else if is_nil ids
    then (ok [], rows)
    else if claimed == length ids
    then (ok ids, after)
    else (ok [], rows)
