-- ===== src/Watch/Deliveries/Notice.antt =====
-- store.py: `claim_notice`, which keeps the notices of a CVE in the order of the audit trail.
use mathlib.Core.List.{Memᴰ}
use cvebeacon.Prelude.{
  ℕ, ◌≤◌, ◌<◌, String, ◌≡◌, Bool, true, false, Option, none, some, List, [], ◌∷◌, ◌&&◌, ◌||◌, ◌==◌,
  not, ltb, str_eq, if◌then◌else◌, is_nil, any, select, arith, member, any-none, eq_iff, ◌⊎◌,
}
use cvebeacon.Watch.Deliveries.Rows.{
  DeliveryStatus, pending, sending, sent, failed, ambiguous, DeliveryRow, max_attempts, status_in,
  update,
}
use cvebeacon.Watch.Deliveries.Claim.{
  Outcome, ok, raised, needs_retryable_status, not_a_notice, is_retryable, has_status,
  start_sending,
}
use cvebeacon.Watch.Deliveries.Initial.{EventRow}

-- NOTICE_KINDS
abbrev pub is_notice : EventRow → Bool
is_notice e = member e.kind ("reported" ∷ "unreported" ∷ [])

-- `SELECT ... FROM watch_event WHERE id=?`
abbrev pub event_of : List EventRow → ℕ → Option EventRow
event_of [] i = none
event_of (e ∷ es) i = if e.id == i then some e else event_of es i

-- A delivery that is not over.
abbrev pub is_open : DeliveryRow → Bool
is_open r =
    status_in r.status (pending ∷ sending ∷ ambiguous ∷ [])
    || (status_in r.status (failed ∷ []) && ltb r.attempts max_attempts)

-- An earlier notice for the CVE with an open delivery on the channel.
abbrev pub blocks : EventRow → String → List DeliveryRow → EventRow → Bool
blocks event channel rows p =
    str_eq p.cve_id event.cve_id
    && is_notice p
    && ltb p.id event.id
    && any (λ r. (r.event_id == p.id) && str_eq r.channel channel && is_open r) rows

abbrev pub claim_event :
    List EventRow
    → EventRow
    → String
    → List DeliveryStatus
    → ℕ
    → List DeliveryRow
    → Outcome Bool × List DeliveryRow
claim_event events event channel allowed now rows =
    let (claimed, after) =
      update (λ r. (r.event_id == event.id) && has_status channel allowed r) (start_sending now)
        rows in
    if not (is_notice event)
    then (raised not_a_notice, rows)
    else if any (blocks event channel rows) events
    then (ok false, rows)
    else (ok (claimed == 1), after)

abbrev pub claim_found :
    List EventRow
    → Option EventRow
    → String
    → List DeliveryStatus
    → ℕ
    → List DeliveryRow
    → Outcome Bool × List DeliveryRow
claim_found events none channel allowed now rows = (raised not_a_notice, rows)
claim_found events (some event) channel allowed now rows =
    claim_event events event channel allowed now rows

unfoldable pub claim_notice :
    List EventRow
    → ℕ
    → String
    → List DeliveryStatus
    → ℕ
    → List DeliveryRow
    → Outcome Bool × List DeliveryRow
claim_notice events event_id channel statuses now rows =
    let allowed = select is_retryable statuses in
    if is_nil allowed
    then (raised needs_retryable_status, rows)
    else claim_found events (event_of events event_id) channel allowed now rows

-- A delivery that is over: sent, or failed as often as is tried.
abbrev pub IsSettled : DeliveryRow → Type 0
IsSettled r = (r.status ≡ sent) ⊎ (r.status ≡ failed) × (max_attempts ≤ r.attempts)

is_open-IsSettled : (r : DeliveryRow) → is_open r ≡ false → IsSettled r
is_open-IsSettled r h = ground arith

unblocked :
    (event : EventRow) (channel : String) (rows : List DeliveryRow) (p : EventRow) (r : DeliveryRow)
    → blocks event channel rows p ≡ false
    → p.cve_id ≡ event.cve_id
    → is_notice p ≡ true
    → p.id < event.id
    → Memᴰ r rows
    → r.event_id ≡ p.id
    → r.channel ≡ channel
    → is_open r ≡ false
unblocked event channel rows p r free same_cve notice earlier m same_id same_channel =
    let open_row =
      λ (s : DeliveryRow). (s.event_id == p.id) && str_eq s.channel channel && is_open s in
    let none_open : any open_row rows ≡ false =
      ground (arith, (eq_iff p.cve_id event.cve_id).1 same_cve) in
    ground (arith, any-none open_row r rows m none_open, (eq_iff r.channel channel).1 same_channel)

event_of-id :
    (events : List EventRow) (i : ℕ) (e : EventRow) → event_of events i ≡ some e → e.id ≡ i
event_of-id [] i e h = cc
event_of-id (f ∷ events) i e h = ground (arith, event_of-id events i e)

-- When the claim of a notice succeeds, every delivery on the channel of an earlier notice for the
-- same CVE is sent, or failed with all its attempts used.
pub claim_notice_ordered :
    (events : List EventRow) (i : ℕ) (channel : String) (statuses : List DeliveryStatus) (now : ℕ)
    (rows after : List DeliveryRow) (event p : EventRow) (r : DeliveryRow)
    → claim_notice events i channel statuses now rows ≡ (ok true, after)
    → event_of events i ≡ some event
    → Memᴰ p events
    → p.cve_id ≡ event.cve_id
    → is_notice p ≡ true
    → p.id < i
    → Memᴰ r rows
    → r.event_id ≡ p.id
    → r.channel ≡ channel
    → IsSettled r
unfolding claim_notice
claim_notice_ordered events i channel statuses now rows after event p r done found m same_cve notice
      earlier k same_id same_channel =
    let free : any (blocks event channel rows) events ≡ false = ground arith in
    is_open-IsSettled r (
      unblocked event channel rows p r (any-none (blocks event channel rows) p events m free)
        same_cve notice (omega (arith, event_of-id events i event found)) k same_id same_channel)
