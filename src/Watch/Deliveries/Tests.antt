-- ===== src/Watch/Deliveries/Tests.antt =====
-- The theorems on deliveries at concrete rows, and runs of the methods.
use mathlib.Core.List.{Memᴰ}
use cvebeacon.Prelude.{
  ℕ, ◌≡◌, ◌≢◌, refl, true, false, none, some, List, [], ◌∷◌, arith, ◌==◌, if◌then◌else◌, ◌&&◌,
  length, min, All, any, not,
}
use cvebeacon.Watch.Deliveries.Rows.{
  DeliveryStatus, pending, sent, failed, ambiguous, DeliveryRow, count, rewrite, status_in, id_in,
  retry_seconds_sql,
}
use cvebeacon.Watch.Deliveries.Rows.Counting.{IsKeyed, of_id}
use cvebeacon.Watch.Deliveries.Claim.{ok, claim_delivery, start_sending}
use cvebeacon.Watch.Deliveries.Claim.Exclusion.{claim-claim}
use cvebeacon.Watch.Deliveries.Mark.{mark_delivery}
use cvebeacon.Watch.Deliveries.Initial.{
  EventRow, initial_condition, claim_initial_row, claim_initial_digest, is_known,
}
use cvebeacon.Watch.Deliveries.Initial.Chunk.{
  claim_initial_chunk, chunk_ids, in_order, place, is_candidate, comes_first,
}
use cvebeacon.Watch.Deliveries.Initial.Taken.{claim_initial_chunk_lem}
use cvebeacon.Watch.Deliveries.Initial.Digest.{claim_initial_digest_lem}
use cvebeacon.Watch.Deliveries.Notice.{claim_notice, claim_notice_ordered, IsSettled}
use cvebeacon.Watch.Deliveries.Lifecycle.Runs.{claim, mark, reset, perform_each, perform_each_lem}

abbrev row : ℕ → DeliveryStatus → ℕ → DeliveryRow
row i status attempts = record {
  event_id = i;
  channel = "ops";
  status = status;
  attempts = attempts;
  last_error = none;
  first_attempt_at = none;
  updated_at = 5;
}

abbrev waiting : List DeliveryRow
waiting = row 1 pending 0 ∷ row 2 pending 0 ∷ []

abbrev held_rows : List DeliveryRow
held_rows = start_sending 9 (row 1 pending 0) ∷ start_sending 9 (row 2 pending 0) ∷ []

abbrev finished : List DeliveryRow
finished = row 1 sent 0 ∷ row 2 pending 0 ∷ []

abbrev digest_events : List EventRow
digest_events =
    record { id = 1; cve_id = "CVE-2024-1"; kind = "matched"; initial = true; created_at = 1 }
    ∷ record { id = 2; cve_id = "CVE-2024-2"; kind = "matched"; initial = true; created_at = 1 }
    ∷ []

abbrev first_notice : EventRow
first_notice = record {
  id = 1;
  cve_id = "CVE-2024-1";
  kind = "reported";
  initial = false;
  created_at = 1;
}

abbrev second_notice : EventRow
second_notice = record {
  id = 2;
  cve_id = "CVE-2024-1";
  kind = "unreported";
  initial = false;
  created_at = 2;
}

waiting-IsKeyed : IsKeyed waiting
waiting-IsKeyed = record { once = λ i c. ground arith }

finished-IsKeyed : IsKeyed finished
finished-IsKeyed = record { once = λ i c. ground arith }

claims_waiting : claim_delivery (2 ∷ 1 ∷ []) "ops" (pending ∷ []) 9 waiting ≡ (ok true, held_rows)
unfolding claim_delivery
claims_waiting = refl

perform_each_lem_example :
    let calls =
      claim (1 ∷ []) "ops" (failed ∷ []) 9
      ∷ mark (1 ∷ []) "ops" failed none none 10
      ∷ reset "ops"
      ∷ [] in
    Memᴰ (row 1 sent 0) (perform_each [] calls finished) × IsKeyed (perform_each [] calls finished)
perform_each_lem_example =
    perform_each_lem []
      (claim (1 ∷ []) "ops" (failed ∷ []) 9
        ∷ mark (1 ∷ []) "ops" failed none none 10
        ∷ reset "ops"
        ∷ [])
      finished (row 1 sent 0) finished-IsKeyed (Memᴰ.head refl) refl

claim-claim_example :
    claim_delivery (2 ∷ []) "ops" (pending ∷ ambiguous ∷ []) 10 held_rows ≢ (ok true, waiting)
claim-claim_example =
    claim-claim (2 ∷ 1 ∷ []) (2 ∷ []) "ops" (pending ∷ []) (pending ∷ ambiguous ∷ []) 9 10 waiting
      held_rows waiting 2 waiting-IsKeyed claims_waiting refl refl

claim_initial_digest_lem_example :
    let covered = initial_condition digest_events "ops" false 9 in
    let total = count covered waiting in
    claim_initial_digest digest_events ("CVE-2024-1" ∷ []) "ops" 9 5 false waiting ≡ (
      if total == 0
      then (ok none, waiting)
      else if count
            (λ r. covered r && is_known digest_events ("CVE-2024-1" ∷ []) r.event_id)
            waiting
          == 0
      then (ok none, waiting)
      else (
        ok (some (total, count (λ r. covered r && status_in r.status (ambiguous ∷ [])) waiting)),
        rewrite covered (claim_initial_row 9) waiting,
      ))
claim_initial_digest_lem_example =
    claim_initial_digest_lem digest_events ("CVE-2024-1" ∷ []) "ops" 9 5 false waiting
      waiting-IsKeyed (omega arith)

abbrev unsure_rows : List DeliveryRow
unsure_rows = row 1 ambiguous 2 ∷ row 2 pending 0 ∷ row 3 pending 0 ∷ []

covers_failed : initial_condition digest_events "ops" false 600000005 (row 2 failed 2) ≡ true
unfolding initial_condition retry_seconds_sql
covers_failed = refl

claims_notice :
    claim_notice (first_notice ∷ second_notice ∷ []) 2 "ops" (pending ∷ []) 9 finished
    ≡ (ok true, row 1 sent 0 ∷ start_sending 9 (row 2 pending 0) ∷ [])
unfolding claim_notice
claims_notice = refl

claim_notice_ordered_example : IsSettled (row 1 sent 0)
claim_notice_ordered_example =
    claim_notice_ordered (first_notice ∷ second_notice ∷ []) 2 "ops" (pending ∷ []) 9 finished
      (row 1 sent 0 ∷ start_sending 9 (row 2 pending 0) ∷ []) second_notice first_notice
      (row 1 sent 0) claims_notice refl (Memᴰ.head refl) refl refl (omega arith) (Memᴰ.head refl)
      refl refl

-- An earlier notice that is still open holds the next one back.
waits_for_notice :
    claim_notice (first_notice ∷ second_notice ∷ []) 2 "ops" (pending ∷ []) 9 waiting
    ≡ (ok false, waiting)
unfolding claim_notice
waits_for_notice = refl

-- A row that is sent is not marked as failed.
keeps_sent : mark_delivery (1 ∷ []) "ops" failed none none 11 finished ≡ (0, finished)
unfolding mark_delivery
keeps_sent = refl

abbrev chunk_after : List DeliveryRow
chunk_after = claim_initial_row 9 (row 1 pending 0) ∷ row 2 pending 0 ∷ []

claims_chunk :
    claim_initial_chunk digest_events ("CVE-2024-1" ∷ "CVE-2024-2" ∷ []) "ops" 9 1 false waiting
    ≡ (ok (1 ∷ []), chunk_after)
unfolding claim_initial_chunk chunk_ids in_order place initial_condition
claims_chunk = refl

claim_initial_chunk_lem_example :
    let covered = is_candidate digest_events ("CVE-2024-1" ∷ "CVE-2024-2" ∷ []) "ops" false 9 in
    (ids : List ℕ) × (claim_initial_chunk digest_events
        ("CVE-2024-1" ∷ "CVE-2024-2" ∷ [])
        "ops"
        9
        1
        false
        waiting
      ≡ (ok ids, rewrite (λ r. id_in r.event_id ids && covered r) (claim_initial_row 9) waiting))
    × (length ids ≡ min 1 (count covered waiting))
    × All (λ i. count (of_id covered i) waiting ≡ 1) ids
    × (count
          (λ r.
            covered r
            && not (id_in r.event_id ids)
            && any (comes_first digest_events r.event_id) ids)
          waiting
        ≡ 0)
claim_initial_chunk_lem_example =
    claim_initial_chunk_lem digest_events ("CVE-2024-1" ∷ "CVE-2024-2" ∷ []) "ops" 9 1 false waiting
      waiting-IsKeyed (omega arith)
