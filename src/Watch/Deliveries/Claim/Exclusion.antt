-- ===== src/Watch/Deliveries/Claim/Exclusion.antt =====
-- No two runs can claim the same row.
use cvebeacon.Prelude.{
  ℕ, ◌≤◌, String, ◌≡◌, ◌≢◌, ◌⊎◌, refl, ◌∙◌, Bool, true, false, List, [], ◌∷◌, ◌&&◌, arith, length,
  select,
}
use cvebeacon.Watch.Deliveries.Rows.{
  DeliveryStatus, sending, DeliveryRow, id_in, status_in, count, rewrite, update, sorted_set, among,
}
use cvebeacon.Watch.Deliveries.Claim.{
  has_status, start_sending, is_retryable, for_chunks, claim_delivery, ok,
}
use cvebeacon.Watch.Deliveries.Claim.Batches.{for_chunks_lem}
use cvebeacon.Watch.Deliveries.Rows.Identifiers.{sorted_set-IsAscending, id_in-sorted_set}
use cvebeacon.Watch.Deliveries.Rows.Counting.{
  key_is, IsKeyed, of_id, id_in_same, count_mono, count_disjoint, count-of_id-pos,
}

sending-not-allowed :
    (statuses : List DeliveryStatus) → status_in sending (select is_retryable statuses) ≡ false
sending-not-allowed [] = refl
sending-not-allowed (s ∷ ss) = ground (arith, sending-not-allowed ss)

module _ (channel : String) (statuses : List DeliveryStatus) (now : ℕ) where
  abbrev allowed : List DeliveryStatus
  allowed = select is_retryable statuses

  abbrev claim_all : List ℕ → List DeliveryRow → ℕ × List DeliveryRow
  claim_all ids = update (among (has_status channel allowed) ids) (start_sending now)

  -- The claim in chunks is one statement over all the identifiers.
  claim-chunks :
      (ids : List ℕ) (rows : List DeliveryRow)
      → for_chunks
          (λ chunk. update (among (has_status channel allowed) chunk) (start_sending now))
          (length ids)
          ids
          rows
        ≡ claim_all ids rows
  claim-chunks ids rows =
      for_chunks_lem (has_status channel allowed) (start_sending now)
        (λ r. ground (arith, sending-not-allowed statuses)) (length ids) ids rows (omega arith)

  -- What a claim that succeeds says of the rows.
  claim-ok :
      (ids : List ℕ) (rows after : List DeliveryRow)
      → claim_delivery ids channel statuses now rows ≡ (ok true, after)
      → (count (among (has_status channel allowed) (sorted_set ids)) rows ≡ length (sorted_set ids))
        × (after
            ≡ rewrite
                (among (has_status channel allowed) (sorted_set ids))
                (start_sending now)
                rows)
  unfolding claim_delivery
  claim-ok ids rows after h = ground (arith, claim-chunks (sorted_set ids) rows)

-- The row that a run holds for an event.
abbrev pub held : ℕ → String → DeliveryRow → Bool
held x channel r = key_is x channel r && status_in r.status (sending ∷ [])

module _ (channel : String) (statuses : List DeliveryStatus) (now : ℕ) (ids : List ℕ) where
  abbrev claims : DeliveryRow → Bool
  claims = among (has_status channel (allowed channel statuses now)) ids

  key-start_sending :
      (i : ℕ) (c : String) (rows : List DeliveryRow)
      → count (key_is i c) (rewrite claims (start_sending now) rows) ≡ count (key_is i c) rows
  key-start_sending i c [] = refl
  key-start_sending i c (r ∷ rows) = ground (arith, key-start_sending i c rows)

  held-start_sending :
      (x : ℕ) (rows : List DeliveryRow)
      → id_in x ids ≡ true
      → count (of_id (has_status channel (allowed channel statuses now)) x) rows
        ≤ count (held x channel) (rewrite claims (start_sending now) rows)
  held-start_sending x [] h = omega arith
  held-start_sending x (r ∷ rows) h =
      ground (arith, held-start_sending x rows h, id_in_same r.event_id x ids)

has_status-channel :
    (channel : String) (list : List DeliveryStatus) (i : ℕ) (r : DeliveryRow)
    → of_id (has_status channel list) i r ≡ true
    → key_is i channel r ≡ true
has_status-channel channel list i r h = ground arith

once_of_key :
    (channel : String) (list : List DeliveryStatus) (rows : List DeliveryRow)
    → IsKeyed rows
    → (i : ℕ) → count (of_id (has_status channel list) i) rows ≤ 1
once_of_key channel list rows k i = omega (
  arith,
  count_mono (of_id (has_status channel list) i) (key_is i channel) rows
      (has_status-channel channel list i),
  k.once i channel,
)

-- In a table with at most one row for each event and channel, after a claim that succeeds there
-- is still at most one row for each, and every claimed event has a row on the channel that is
-- being sent.
claim-held :
    (ids : List ℕ) (channel : String) (statuses : List DeliveryStatus) (now : ℕ)
    (rows after : List DeliveryRow) (x : ℕ)
    → IsKeyed rows
    → claim_delivery ids channel statuses now rows ≡ (ok true, after)
    → id_in x ids ≡ true
    → IsKeyed after × (1 ≤ count (held x channel) after)
claim-held ids channel statuses now rows after x k h m =
    let (full, made) = claim-ok channel statuses now ids rows after h in
    let set = sorted_set ids in
    let list = allowed channel statuses now in
    let inside = id_in-sorted_set x ids ∙ m in
    (
      record {
        once = λ i c.
            rw made
              (omega (arith, key-start_sending channel statuses now set i c rows, k.once i c));
      },
      rw made (
          omega (
            arith,
            held-start_sending channel statuses now set x rows inside,
            count-of_id-pos (has_status channel list) rows (once_of_key channel list rows k) x set
                (sorted_set-IsAscending ids) full inside,
          )),
    )

-- In a table with at most one row for each event and channel, after a claim that succeeds a
-- second claim on the channel that shares an event with it does not succeed, whatever statuses
-- and clock it is given.
pub claim-claim :
    (ids ids' : List ℕ) (channel : String) (statuses statuses' : List DeliveryStatus) (now now' : ℕ)
    (rows after last : List DeliveryRow) (x : ℕ)
    → IsKeyed rows
    → claim_delivery ids channel statuses now rows ≡ (ok true, after)
    → id_in x ids ≡ true
    → id_in x ids' ≡ true
    → claim_delivery ids' channel statuses' now' after ≢ (ok true, last)
claim-claim ids ids' channel statuses statuses' now now' rows after last x k h m m' second =
    let (keyed, one_held) = claim-held ids channel statuses now rows after x k h m in
    let (full, made) = claim-ok channel statuses' now' ids' after last second in
    let list = allowed channel statuses' now' in
    let more =
      count-of_id-pos (has_status channel list) after (once_of_key channel list after keyed) x
        (sorted_set ids') (sorted_set-IsAscending ids') full (id_in-sorted_set x ids' ∙ m') in
    omega (
      arith,
      more,
      one_held,
      keyed.once x channel,
      count_disjoint (held x channel) (of_id (has_status channel list) x) (key_is x channel) after
          (λ r p. ground arith) (λ r p. ground (arith, sending-not-allowed statuses')),
    )

-- A claim either succeeds or leaves the rows as they were.
claim_atomic :
    (ids : List ℕ) (channel : String) (statuses : List DeliveryStatus) (now : ℕ)
    (rows : List DeliveryRow)
    → ((claim_delivery ids channel statuses now rows).0 ≡ ok true)
      ⊎ ((claim_delivery ids channel statuses now rows).1 ≡ rows)
unfolding claim_delivery
claim_atomic ids channel statuses now rows = ground arith
