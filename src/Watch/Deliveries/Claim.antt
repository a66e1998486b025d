-- ===== src/Watch/Deliveries/Claim.antt =====
-- store.py: `claim_delivery` and `release_delivery`.
pub mod Batches
pub mod Exclusion
use cvebeacon.Prelude.{
  ℕ, zero, suc, ◌+◌, ◌≤◌, String, ◌≡◌, refl, Bool, true, false, Option, none, some, List, [], ◌∷◌,
  ◌++◌, ◌&&◌, ◌==◌, not, str_eq, if◌then◌else◌, arith, length, take, drop, is_nil, select,
}
use cvebeacon.Watch.Deliveries.Rows.{
  DeliveryStatus, pending, sending, sent, failed, ambiguous, DeliveryRow, status_in, id_in,
  coalesce, sorted_set, among, update,
}

-- The errors that these methods raise (StateError).
pub data StateError : Type 0 where
  needs_retryable_status cannot_release unknown_status not_a_notice no_sample empty_chunk :
      StateError

pub data Outcome {ℓ} (A : Type ℓ) : Type ℓ where
  ok : A → Outcome A
  raised : StateError → Outcome A

-- `tuple(status for status in statuses if status in {"pending", "failed", "ambiguous"})`
abbrev pub is_retryable : DeliveryStatus → Bool
is_retryable pending = true
is_retryable failed = true
is_retryable ambiguous = true
is_retryable _ = false

-- `WHERE channel=? AND event_id IN (chunk) AND status IN (allowed)`
abbrev pub has_status : String → List DeliveryStatus → DeliveryRow → Bool
has_status channel allowed r = str_eq r.channel channel && status_in r.status allowed

abbrev pub start_sending : ℕ → DeliveryRow → DeliveryRow
start_sending now r = record r {
  status = sending;
  first_attempt_at = coalesce r.first_attempt_at now;
  updated_at = now;
}

-- `for start in range(0, len(identifiers), 500)`: the fuel is the number of identifiers.
unfoldable pub for_chunks :
    (List ℕ → List DeliveryRow → ℕ × List DeliveryRow)
    → ℕ
    → List ℕ
    → List DeliveryRow
    → ℕ × List DeliveryRow
for_chunks statement fuel [] rows = (0, rows)
for_chunks statement zero (i ∷ is) rows = (0, rows)
for_chunks statement (suc fuel) (i ∷ is) rows =
    let (changed, after) = statement (take 500 (i ∷ is)) rows in
    let (more, final) = for_chunks statement fuel (drop 500 (i ∷ is)) after in
    (changed + more, final)

unfoldable pub claim_delivery :
    List ℕ → String → List DeliveryStatus → ℕ → List DeliveryRow → Outcome Bool × List DeliveryRow
unfolding sorted_set for_chunks
claim_delivery event_ids channel statuses now rows =
    let identifiers = sorted_set event_ids in
    let allowed = select is_retryable statuses in
    let (changed, after) =
      for_chunks (λ chunk. update (among (has_status channel allowed) chunk) (start_sending now))
        (length identifiers) identifiers rows in
    if is_nil identifiers
    then (ok false, rows)
    else if is_nil allowed
    then (raised needs_retryable_status, rows)
    else if changed == length identifiers
    then (ok true, after)
    else (ok false, rows)

-- `status not in {"pending", "ambiguous"}`
abbrev is_release_target : DeliveryStatus → Bool
is_release_target pending = true
is_release_target ambiguous = true
is_release_target _ = false

unfoldable pub release_delivery :
    List ℕ → String → DeliveryStatus → ℕ → List DeliveryRow → Outcome ℕ × List DeliveryRow
unfolding sorted_set for_chunks
release_delivery event_ids channel status now rows =
    let identifiers = sorted_set event_ids in
    let (changed, after) =
      for_chunks
        (λ chunk.
          update (among (has_status channel (sending ∷ [])) chunk)
            (λ r. record r { status = status; last_error = none; updated_at = now }))
        (length identifiers) identifiers rows in
    if not (is_release_target status)
    then (raised cannot_release, rows)
    else if is_nil identifiers
    then (ok 0, rows)
    else (ok changed, after)
