-- ===== src/Watch/Deliveries/Mark.antt =====
-- store.py: `mark_delivery`, `reset_failed` and `recover_sending`.
pub mod Moves
use cvebeacon.Prelude.{
  ℕ, ◌+◌, ◌-◌, ◌*◌, String, Bool, true, false, Option, none, some, List, [], ◌∷◌, ◌&&◌, ◌==◌, ltb,
  leb, str_eq, if◌then◌else◌, is_nil,
}
use cvebeacon.Watch.Deliveries.Rows.{
  DeliveryStatus, pending, sending, sent, failed, ambiguous, error_text, DeliveryRow, max_attempts,
  second, status_in, coalesce, sorted_set, update,
}
use cvebeacon.Watch.Deliveries.Claim.{has_status}

-- DELIVERY_PREDECESSORS
abbrev pub predecessors : DeliveryStatus → List DeliveryStatus
predecessors pending = sending ∷ failed ∷ []
predecessors sending = pending ∷ failed ∷ []
predecessors sent = pending ∷ sending ∷ failed ∷ ambiguous ∷ []
predecessors failed = pending ∷ sending ∷ failed ∷ []
predecessors ambiguous = pending ∷ sending ∷ failed ∷ ambiguous ∷ []

-- `status in {"failed", "ambiguous"}`
abbrev pub is_failure : DeliveryStatus → Bool
is_failure failed = true
is_failure ambiguous = true
is_failure _ = false

-- `attempts + 1`, or the cap once a given limit is reached
abbrev pub next_attempts : Option ℕ → ℕ → ℕ
next_attempts none attempts = attempts + 1
next_attempts (some limit) attempts =
    if leb limit (attempts + 1) then max_attempts else attempts + 1

unfoldable pub marked_row :
    DeliveryStatus → Option String → Option ℕ → ℕ → DeliveryRow → DeliveryRow
marked_row status error limit now r =
    if is_failure status
    then record r {
      status = status;
      attempts = next_attempts limit r.attempts;
      last_error = error_text error;
      updated_at = now;
      first_attempt_at = coalesce r.first_attempt_at now;
    }
    else record r {
      status = status;
      last_error = none;
      updated_at = now;
      first_attempt_at = coalesce r.first_attempt_at now;
    }

-- `WHERE event_id=? AND channel=? AND status IN (allowed)`
abbrev pub may_mark : ℕ → String → DeliveryStatus → DeliveryRow → Bool
may_mark i channel status r = (r.event_id == i) && has_status channel (predecessors status) r

-- `for identifier in identifiers: ...`
pub mark_each :
    String
    → DeliveryStatus
    → Option String
    → Option ℕ
    → ℕ
    → List ℕ
    → List DeliveryRow
    → ℕ × List DeliveryRow
mark_each channel status error limit now [] rows = (0, rows)
mark_each channel status error limit now (i ∷ is) rows =
    let (changed, after) =
      update (may_mark i channel status) (marked_row status error limit now) rows in
    let (more, final) = mark_each channel status error limit now is after in (changed + more, final)

-- The status is one of the five by its type, so the check of an unknown status has no counterpart.
unfoldable pub mark_delivery :
    List ℕ
    → String
    → DeliveryStatus
    → Option String
    → Option ℕ
    → ℕ
    → List DeliveryRow
    → ℕ × List DeliveryRow
unfolding mark_each sorted_set marked_row
mark_delivery event_ids channel status error limit now rows =
    mark_each channel status error limit now (sorted_set event_ids) rows

-- DELIVERY_RETRY_FLOOR is the epoch.
unfoldable pub reset_failed : String → List DeliveryRow → ℕ × List DeliveryRow
reset_failed channel rows =
    update (has_status channel (failed ∷ []))
      (λ r. record r { attempts = 0; first_attempt_at = none; updated_at = 0 }) rows

-- `status='sending' AND updated_at < cutoff`
abbrev pub is_stale : ℕ → DeliveryRow → Bool
is_stale cutoff r = status_in r.status (sending ∷ []) && ltb r.updated_at cutoff

-- The age comes as the microseconds of its timedelta; the clock is read for the cutoff and again
-- for the rows.
unfoldable pub recover_sending :
    (older_than current now : ℕ) → List DeliveryRow → ℕ × List DeliveryRow
recover_sending older_than current now rows =
    update (is_stale (current - older_than))
      (λ r. record r {
        status = ambiguous;
        first_attempt_at = coalesce r.first_attempt_at r.updated_at;
        updated_at = now;
        last_error = some "interrupted before confirmation";
      })
      rows
