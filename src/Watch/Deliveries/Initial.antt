-- ===== src/Watch/Deliveries/Initial.antt =====
-- store.py: the methods that claim, mark and release the rows of an initial digest.
pub mod Cycle
pub mod Digest
pub mod Chunk
pub mod Listing
pub mod Taken
use cvebeacon.Prelude.{
  ℕ, ◌+◌, ◌*◌, String, Bool, true, false, Option, none, some, List, [], ◌∷◌, ◌&&◌, ◌||◌, ◌==◌, ltb,
  leb, str_eq, if◌then◌else◌, is_nil, any, length, select, map, take,
}
use cvebeacon.Watch.Deliveries.Rows.{
  DeliveryStatus, pending, sending, sent, failed, ambiguous, initial_ambiguous, was_ambiguous,
  error_text, DeliveryRow, max_attempts, second, status_in, id_in, coalesce, count, rewrite, update,
  among, retry_seconds_sql,
}
use cvebeacon.Watch.Deliveries.Claim.{Outcome, ok, raised, no_sample, has_status}
use cvebeacon.Watch.Deliveries.Mark.{next_attempts}

-- The columns of `watch_event` that the delivery methods read.
pub record EventRow : Type 0 where
  pub id : ℕ
  pub cve_id : String
  pub kind : String
  pub initial : Bool
  pub created_at : ℕ

-- `e.id=d.event_id AND e.initial=1`
abbrev pub is_initial : List EventRow → ℕ → Bool
is_initial [] i = false
is_initial (e ∷ es) i = ((e.id == i) && e.initial) || is_initial es i

-- The backoff of a failed row is over.
abbrev pub is_due : ℕ → DeliveryRow → Bool
is_due now r =
    ltb r.attempts max_attempts && leb (r.updated_at + retry_seconds_sql r.attempts * second) now

abbrev pub initial_status : Bool → ℕ → DeliveryRow → DeliveryStatus → Bool
initial_status include_ambiguous now r pending = true
initial_status include_ambiguous now r failed = is_due now r
initial_status include_ambiguous now r ambiguous = include_ambiguous
initial_status include_ambiguous now r _ = false

-- `_initial_condition`
unfoldable pub initial_condition : List EventRow → String → Bool → ℕ → DeliveryRow → Bool
initial_condition events channel include_ambiguous now r =
    str_eq r.channel channel
    && is_initial events r.event_id
    && initial_status include_ambiguous now r r.status

abbrev pub retry_mark : DeliveryStatus → Option String
retry_mark ambiguous = some initial_ambiguous
retry_mark _ = none

abbrev pub claim_initial_row : ℕ → DeliveryRow → DeliveryRow
claim_initial_row now r = record r {
  status = sending;
  first_attempt_at = coalesce r.first_attempt_at now;
  updated_at = now;
  last_error = retry_mark r.status;
}

-- `cve_id IN watch_cve` of the event, which the sample of a digest and a chunk join with
abbrev pub is_known : List EventRow → List String → ℕ → Bool
is_known [] cves i = false
is_known (e ∷ es) cves i = ((e.id == i) && any (str_eq e.cve_id) cves) || is_known es cves i

-- `SELECT e.id ... WHERE condition`
abbrev pub selected_ids : (DeliveryRow → Bool) → List DeliveryRow → List ℕ
selected_ids test [] = []
selected_ids test (r ∷ rows) =
    if test r then r.event_id ∷ selected_ids test rows else selected_ids test rows

-- The claim of a digest, with the number of rows and of those that were ambiguous. Which of the
-- rows are sampled for the message is not modelled, only whether there is one to sample.
unfoldable pub claim_initial_digest :
    List EventRow
    → List String
    → String
    → ℕ
    → ℕ
    → Bool
    → List DeliveryRow
    → Outcome (Option (ℕ × ℕ)) × List DeliveryRow
unfolding initial_condition
claim_initial_digest events cves channel now max_items include_ambiguous rows =
    let condition = initial_condition events channel include_ambiguous now in
    let total = count condition rows in
    let prior = count (λ r. condition r && status_in r.status (ambiguous ∷ [])) rows in
    let (claimed, after) =
      update
        (among (has_status channel (pending ∷ failed ∷ ambiguous ∷ []))
          (selected_ids condition rows))
        (claim_initial_row now) rows in
    if ltb max_items 1
    then (raised no_sample, rows)
    else if total == 0
    then (ok none, rows)
    else if count (λ r. condition r && is_known events cves r.event_id) rows == 0
    then (ok none, rows)
    else if claimed == total
    then (ok (some (total, prior)), after)
    else (ok none, rows)

-- Rows that this run claimed: `channel=? AND status='sending' AND updated_at=? AND initial=1`.
abbrev pub is_claimed : List EventRow → String → ℕ → DeliveryRow → Bool
is_claimed events channel stamp r =
    has_status channel (sending ∷ []) r && (r.updated_at == stamp) && is_initial events r.event_id

unfoldable pub mark_initial_sent :
    List EventRow → String → ℕ → ℕ → List DeliveryRow → ℕ × List DeliveryRow
mark_initial_sent events channel stamp now rows =
    update (is_claimed events channel stamp)
      (λ r. record r { status = sent; last_error = none; updated_at = now }) rows

unfoldable pub mark_initial_failed :
    List EventRow
    → String
    → ℕ
    → Option String
    → Option ℕ
    → Bool
    → ℕ
    → List DeliveryRow
    → ℕ × List DeliveryRow
mark_initial_failed events channel stamp error limit unsure now rows =
    update (is_claimed events channel stamp)
      (λ r. record r {
        status = if unsure || was_ambiguous r.last_error then ambiguous else failed;
        attempts = next_attempts limit r.attempts;
        last_error = error_text error;
        updated_at = now;
        first_attempt_at = coalesce r.first_attempt_at now;
      })
      rows

unfoldable pub release_initial :
    List EventRow → String → ℕ → ℕ → List DeliveryRow → ℕ × List DeliveryRow
release_initial events channel stamp now rows =
    update (is_claimed events channel stamp)
      (λ r. record r {
        status = if was_ambiguous r.last_error then ambiguous else pending;
        last_error = none;
        updated_at = now;
      })
      rows
