-- ===== src/Watch/Deliveries/Lifecycle/Methods.antt =====
-- Every delivery method keeps the keys and the sent rows.
use cvebeacon.Prelude.{
  ℕ, String, ◌≡◌, ◌⊎◌, inl, inr, refl, sym, subst, Bool, false, Option, none, some, List, [], ◌∷◌,
  ◌&&◌, ◌==◌, arith, length, select,
}
use cvebeacon.Watch.Deliveries.Rows.{
  DeliveryStatus, pending, sending, sent, failed, ambiguous, DeliveryRow, status_in, rewrite,
  update, sorted_set, among,
}
use cvebeacon.Watch.Deliveries.Claim.{
  for_chunks, claim_delivery, release_delivery, has_status, start_sending, is_retryable,
}
use cvebeacon.Watch.Deliveries.Mark.{
  mark_delivery, marked_row, predecessors, reset_failed, recover_sending,
}
use cvebeacon.Watch.Deliveries.Mark.Moves.{mark_delivery_lem}
use cvebeacon.Watch.Deliveries.Initial.Chunk.{claim_initial_chunk, chunk_ids}
use cvebeacon.Watch.Deliveries.Initial.{
  EventRow, claim_initial_digest, claim_initial_row, selected_ids, initial_condition,
  mark_initial_sent, mark_initial_failed, release_initial,
}
use cvebeacon.Watch.Deliveries.Notice.{claim_notice, claim_event, claim_found, event_of}
use cvebeacon.Watch.Deliveries.Lifecycle.{
  Evolves, IsSafe, Evolves-refl, rewrite-Evolves, for_chunks-Evolves,
}

retryable-unsent :
    (statuses : List DeliveryStatus) → status_in sent (select is_retryable statuses) ≡ false
retryable-unsent [] = refl
retryable-unsent (s ∷ ss) = ground (arith, retryable-unsent ss)

-- A method leaves the rows as they were, or as its statements make them.
either-Evolves :
    (rows after x : List DeliveryRow)
    → (x ≡ rows) ⊎ (x ≡ after)
    → Evolves rows after
    → Evolves rows x
either-Evolves rows after x (inl e) h = subst (Evolves rows) (sym e) (Evolves-refl rows)
either-Evolves rows after x (inr e) h = subst (Evolves rows) (sym e) h

pub claim-Evolves :
    (ids : List ℕ) (channel : String) (statuses : List DeliveryStatus) (now : ℕ)
    (rows : List DeliveryRow)
    → Evolves rows (claim_delivery ids channel statuses now rows).1
unfolding claim_delivery
claim-Evolves ids channel statuses now rows =
    let set = sorted_set ids in
    let test = among (has_status channel (select is_retryable statuses)) in
    either-Evolves rows
      (for_chunks (λ chunk. update (test chunk) (start_sending now)) (length set) set rows).1
      (claim_delivery ids channel statuses now rows).1 (ground arith)
      (for_chunks-Evolves test (start_sending now)
        (λ chunk. record {
          event = λ r. refl;
          channel = λ r. refl;
          unsent = λ r t e. ground (arith, retryable-unsent statuses);
        })
        (length set) set rows)

pub release-Evolves :
    (ids : List ℕ) (channel : String) (status : DeliveryStatus) (now : ℕ) (rows : List DeliveryRow)
    → Evolves rows (release_delivery ids channel status now rows).1
unfolding release_delivery
release-Evolves ids channel status now rows =
    let set = sorted_set ids in
    let test = among (has_status channel (sending ∷ [])) in
    let change =
      λ (r : DeliveryRow). record r { status = status; last_error = none; updated_at = now } in
    either-Evolves rows (for_chunks (λ chunk. update (test chunk) change) (length set) set rows).1
      (release_delivery ids channel status now rows).1 (ground arith)
      (for_chunks-Evolves test change
        (λ chunk. record { event = λ r. refl; channel = λ r. refl; unsent = λ r t e. ground arith })
        (length set) set rows)

marked-IsSafe :
    (ids : List ℕ) (channel : String) (status : DeliveryStatus) (error : Option String)
    (limit : Option ℕ) (now : ℕ)
    → IsSafe
        (among (has_status channel (predecessors status)) ids)
        (marked_row status error limit now)
unfolding marked_row
marked-IsSafe ids channel status error limit now = record {
  event = λ r. ground arith;
  channel = λ r. ground arith;
  unsent = λ r t e. ground arith;
}

pub mark-Evolves :
    (ids : List ℕ) (channel : String) (status : DeliveryStatus) (error : Option String)
    (limit : Option ℕ) (now : ℕ) (rows : List DeliveryRow)
    → Evolves rows (mark_delivery ids channel status error limit now rows).1
mark-Evolves ids channel status error limit now rows = rw mark_delivery_lem (
    rewrite-Evolves (among (has_status channel (predecessors status)) ids)
      (marked_row status error limit now) rows (marked-IsSafe ids channel status error limit now))

pub reset-Evolves :
    (channel : String) (rows : List DeliveryRow) → Evolves rows (reset_failed channel rows).1
unfolding reset_failed
reset-Evolves channel rows =
    rewrite-Evolves _ _ rows
      (record { event = λ r. refl; channel = λ r. refl; unsent = λ r t e. ground arith })

pub recover-Evolves :
    (age current now : ℕ) (rows : List DeliveryRow)
    → Evolves rows (recover_sending age current now rows).1
unfolding recover_sending
recover-Evolves age current now rows =
    rewrite-Evolves _ _ rows
      (record { event = λ r. refl; channel = λ r. refl; unsent = λ r t e. ground arith })

module _ (events : List EventRow) (channel : String) where
  pub digest-Evolves :
      (cves : List String) (now max_items : ℕ) (include : Bool) (rows : List DeliveryRow)
      → Evolves rows (claim_initial_digest events cves channel now max_items include rows).1
  unfolding claim_initial_digest
  digest-Evolves cves now max_items include rows =
      let ids = selected_ids (initial_condition events channel include now) rows in
      let test = among (has_status channel (pending ∷ failed ∷ ambiguous ∷ [])) ids in
      either-Evolves rows (rewrite test (claim_initial_row now) rows)
        (claim_initial_digest events cves channel now max_items include rows).1 (ground arith)
        (rewrite-Evolves test (claim_initial_row now) rows
          (record { event = λ r. refl; channel = λ r. refl; unsent = λ r t e. ground arith }))

  pub chunk-Evolves :
      (cves : List String) (now limit : ℕ) (include : Bool) (rows : List DeliveryRow)
      → Evolves rows (claim_initial_chunk events cves channel now limit include rows).1
  unfolding claim_initial_chunk
  chunk-Evolves cves now limit include rows =
      let ids = chunk_ids events cves channel now limit include rows in
      let test = among (has_status channel (pending ∷ failed ∷ ambiguous ∷ [])) ids in
      either-Evolves rows (rewrite test (claim_initial_row now) rows)
        (claim_initial_chunk events cves channel now limit include rows).1 (ground arith)
        (rewrite-Evolves test (claim_initial_row now) rows
          (record { event = λ r. refl; channel = λ r. refl; unsent = λ r t e. ground arith }))

  pub initial_sent-Evolves :
      (stamp now : ℕ) (rows : List DeliveryRow)
      → Evolves rows (mark_initial_sent events channel stamp now rows).1
  unfolding mark_initial_sent
  initial_sent-Evolves stamp now rows =
      rewrite-Evolves _ _ rows
        (record { event = λ r. refl; channel = λ r. refl; unsent = λ r t e. ground arith })

  pub initial_failed-Evolves :
      (stamp : ℕ) (error : Option String) (limit : Option ℕ) (unsure : Bool) (now : ℕ)
      (rows : List DeliveryRow)
      → Evolves rows (mark_initial_failed events channel stamp error limit unsure now rows).1
  unfolding mark_initial_failed
  initial_failed-Evolves stamp error limit unsure now rows =
      rewrite-Evolves _ _ rows
        (record { event = λ r. refl; channel = λ r. refl; unsent = λ r t e. ground arith })

  pub release_initial-Evolves :
      (stamp now : ℕ) (rows : List DeliveryRow)
      → Evolves rows (release_initial events channel stamp now rows).1
  unfolding release_initial
  release_initial-Evolves stamp now rows =
      rewrite-Evolves _ _ rows
        (record { event = λ r. refl; channel = λ r. refl; unsent = λ r t e. ground arith })

  claim_found-Evolves :
      (event : Option EventRow) (statuses : List DeliveryStatus) (now : ℕ) (rows : List DeliveryRow)
      → Evolves rows (claim_found events event channel (select is_retryable statuses) now rows).1
  claim_found-Evolves none statuses now rows = Evolves-refl rows
  claim_found-Evolves (some event) statuses now rows =
      let allowed = select is_retryable statuses in
      let test = λ (r : DeliveryRow). (r.event_id == event.id) && has_status channel allowed r in
      either-Evolves rows (rewrite test (start_sending now) rows)
        (claim_event events event channel allowed now rows).1 (ground arith)
        (rewrite-Evolves test (start_sending now) rows (record {
          event = λ r. refl;
          channel = λ r. refl;
          unsent = λ r t e. ground (arith, retryable-unsent statuses);
        }))

  pub notice-Evolves :
      (i : ℕ) (statuses : List DeliveryStatus) (now : ℕ) (rows : List DeliveryRow)
      → Evolves rows (claim_notice events i channel statuses now rows).1
  unfolding claim_notice
  notice-Evolves i statuses now rows =
      let allowed = select is_retryable statuses in
      either-Evolves rows (claim_found events (event_of events i) channel allowed now rows).1
        (claim_notice events i channel statuses now rows).1 (ground arith)
        (claim_found-Evolves (event_of events i) statuses now rows)
