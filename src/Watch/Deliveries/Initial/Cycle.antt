-- ===== src/Watch/Deliveries/Initial/Cycle.antt =====
-- One run over the initial rows of a channel: claim, then send, fail or release.
use cvebeacon.Prelude.{
  ℕ, ◌+◌, ◌*◌, ◌≤◌, ◌<◌, String, ◌≡◌, ◌⊎◌, refl, All, Bool, true, false, Option, none, some, List,
  [], ◌∷◌, ◌||◌, arith, eq_iff, if◌then◌else◌,
}
use cvebeacon.Watch.Deliveries.Rows.{
  DeliveryStatus, pending, failed, ambiguous, DeliveryRow, was_ambiguous, max_attempts, second,
  count, rewrite, delivery_retry_delay, retry_seconds_sql_lem, coalesce, error_text,
}
use cvebeacon.Watch.Deliveries.Mark.{next_attempts}
use cvebeacon.Watch.Deliveries.Initial.{
  EventRow, is_initial, initial_condition, claim_initial_row, is_claimed, retry_mark,
  mark_initial_failed, release_initial,
}

module _ (events : List EventRow) (channel : String) (include : Bool) (now : ℕ) where
  abbrev condition : DeliveryRow → Bool
  condition = initial_condition events channel include now

  -- A row that meets the initial condition is of the channel and of an initial event; it is
  -- pending, or failed with attempts left and the delay of delivery_retry_delay over, or
  -- ambiguous when those are included.
  initial_condition_lem :
      (r : DeliveryRow)
      → condition r ≡ true
      → (r.channel ≡ channel)
        × (is_initial events r.event_id ≡ true)
        × ((r.status ≡ pending)
            ⊎ (r.status ≡ failed)
              × (r.attempts < max_attempts)
              × (r.updated_at + delivery_retry_delay r.attempts * second ≤ now)
            ⊎ (r.status ≡ ambiguous) × (include ≡ true))
  unfolding initial_condition
  initial_condition_lem r h =
      ground (arith, retry_seconds_sql_lem r.attempts, eq_iff r.channel channel)

abbrev is_ambiguous : DeliveryStatus → Bool
is_ambiguous ambiguous = true
is_ambiguous _ = false

-- The row after a claim that was released, and after one that failed.
abbrev pub released : ℕ → ℕ → DeliveryRow → DeliveryRow
released now later r = record r {
  status = if is_ambiguous r.status then ambiguous else pending;
  last_error = none;
  first_attempt_at = coalesce r.first_attempt_at now;
  updated_at = later;
}

abbrev pub failed_row : ℕ → ℕ → Option String → Option ℕ → Bool → DeliveryRow → DeliveryRow
failed_row now later error limit unsure r = record r {
  status = if unsure || is_ambiguous r.status then ambiguous else failed;
  attempts = next_attempts limit r.attempts;
  last_error = error_text error;
  first_attempt_at = coalesce r.first_attempt_at now;
  updated_at = later;
}

coalesce_twice : (o : Option ℕ) (a b : ℕ) → coalesce (coalesce o a) b ≡ coalesce o a
coalesce_twice none a b = refl
coalesce_twice (some t) a b = refl

was_ambiguous-retry_mark : (s : DeliveryStatus) → was_ambiguous (retry_mark s) ≡ is_ambiguous s
was_ambiguous-retry_mark ambiguous = refl
was_ambiguous-retry_mark _ = refl

module _ (events : List EventRow) (channel : String) (include : Bool) (now later : ℕ) where
  abbrev covered : DeliveryRow → Bool
  covered = initial_condition events channel include now

  -- No row is held under this run's time stamp.
  abbrev IsFresh : List DeliveryRow → Type 0
  IsFresh rows = All (λ r. is_claimed events channel now r ≡ false) rows

  claimed_row :
      (r : DeliveryRow)
      → covered r ≡ true
      → is_claimed events channel now (claim_initial_row now r) ≡ true
  unfolding initial_condition
  claimed_row r h = ground arith

  -- When no row is held under the run's time stamp, releasing the rows that a digest claimed
  -- makes the ambiguous ones ambiguous and the others pending again, without counting an attempt,
  -- and changes no other row.
  release-claim :
      (rows : List DeliveryRow)
      → IsFresh rows
      → release_initial events channel now later (rewrite covered (claim_initial_row now) rows)
        ≡ (count covered rows, rewrite covered (released now later) rows)
  unfolding release_initial
  release-claim [] fresh = refl
  release-claim (r ∷ rows) fresh =
      ground (arith, release-claim rows fresh.1, claimed_row r, was_ambiguous-retry_mark r.status)

  -- When no row is held under the run's time stamp, a failure of the digest keeps the claimed
  -- rows that were ambiguous ambiguous, makes the others failed, or ambiguous if the failure was,
  -- counts an attempt for each, and changes no other row.
  fail-claim :
      (error : Option String) (limit : Option ℕ) (unsure : Bool) (rows : List DeliveryRow)
      → IsFresh rows
      → mark_initial_failed events channel now error limit unsure later
          (rewrite covered (claim_initial_row now) rows)
        ≡ (count covered rows, rewrite covered (failed_row now later error limit unsure) rows)
  unfolding mark_initial_failed
  fail-claim error limit unsure [] fresh = refl
  fail-claim error limit unsure (r ∷ rows) fresh = ground (
    arith,
    fail-claim error limit unsure rows fresh.1,
    claimed_row r,
    was_ambiguous-retry_mark r.status,
    coalesce_twice r.first_attempt_at now later,
  )
