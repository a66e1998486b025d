-- ===== src/Watch/Deliveries/Lifecycle/Runs.antt =====
-- Any sequence of method calls.
use mathlib.Core.List.{Memᴰ}
use cvebeacon.Prelude.{
  ℕ, String, ◌≡◌, ◌≢◌, ◌⊎◌, inl, inr, refl, sym, ap, ◌∙◌, Bool, Option, List, [], ◌∷◌, arith, ◌==◌,
  str_eq,
}
use cvebeacon.Watch.Deliveries.Rows.{DeliveryStatus, sent, DeliveryRow, count}
use cvebeacon.Watch.Deliveries.Rows.Counting.{key_is, IsKeyed}
use cvebeacon.Watch.Deliveries.Claim.{claim_delivery, release_delivery}
use cvebeacon.Watch.Deliveries.Mark.{mark_delivery, reset_failed, recover_sending}
use cvebeacon.Watch.Deliveries.Initial.Chunk.{claim_initial_chunk}
use cvebeacon.Watch.Deliveries.Initial.{
  EventRow, claim_initial_digest, mark_initial_sent, mark_initial_failed, release_initial,
}
use cvebeacon.Watch.Deliveries.Notice.{claim_notice}
use cvebeacon.Watch.Deliveries.Lifecycle.{Evolves, Evolves-refl, Evolves-trans}
use cvebeacon.Watch.Deliveries.Lifecycle.Methods.{
  claim-Evolves, release-Evolves, mark-Evolves, reset-Evolves, recover-Evolves, digest-Evolves,
  chunk-Evolves, initial_sent-Evolves, initial_failed-Evolves, release_initial-Evolves,
  notice-Evolves,
}

-- One call of a delivery method, with its arguments and the clock.
pub data Call : Type 0 where
  claim : List ℕ → String → List DeliveryStatus → ℕ → Call
  release : List ℕ → String → DeliveryStatus → ℕ → Call
  mark : List ℕ → String → DeliveryStatus → Option String → Option ℕ → ℕ → Call
  reset : String → Call
  recover : ℕ → ℕ → ℕ → Call
  claim_digest : List String → String → ℕ → ℕ → Bool → Call
  claim_chunk : List String → String → ℕ → ℕ → Bool → Call
  initial_sent : String → ℕ → ℕ → Call
  initial_failed : String → ℕ → Option String → Option ℕ → Bool → ℕ → Call
  initial_released : String → ℕ → ℕ → Call
  notice : ℕ → String → List DeliveryStatus → ℕ → Call

module _ (events : List EventRow) where
  pub perform : Call → List DeliveryRow → List DeliveryRow
  perform (claim ids channel statuses now) rows = (claim_delivery ids channel statuses now rows).1
  perform (release ids channel status now) rows = (release_delivery ids channel status now rows).1
  perform (mark ids channel status error limit now) rows =
      (mark_delivery ids channel status error limit now rows).1
  perform (reset channel) rows = (reset_failed channel rows).1
  perform (recover age current now) rows = (recover_sending age current now rows).1
  perform (claim_digest cves channel now max_items include) rows =
      (claim_initial_digest events cves channel now max_items include rows).1
  perform (claim_chunk cves channel now limit include) rows =
      (claim_initial_chunk events cves channel now limit include rows).1
  perform (initial_sent channel stamp now) rows =
      (mark_initial_sent events channel stamp now rows).1
  perform (initial_failed channel stamp error limit unsure now) rows =
      (mark_initial_failed events channel stamp error limit unsure now rows).1
  perform (initial_released channel stamp now) rows =
      (release_initial events channel stamp now rows).1
  perform (notice i channel statuses now) rows = (claim_notice events i channel statuses now rows).1

  pub perform_each : List Call → List DeliveryRow → List DeliveryRow
  perform_each [] rows = rows
  perform_each (c ∷ calls) rows = perform_each calls (perform c rows)

  perform-Evolves : (c : Call) (rows : List DeliveryRow) → Evolves rows (perform c rows)
  unfolding perform
  perform-Evolves (claim ids channel statuses now) rows =
      claim-Evolves ids channel statuses now rows
  perform-Evolves (release ids channel status now) rows =
      release-Evolves ids channel status now rows
  perform-Evolves (mark ids channel status error limit now) rows =
      mark-Evolves ids channel status error limit now rows
  perform-Evolves (reset channel) rows = reset-Evolves channel rows
  perform-Evolves (recover age current now) rows = recover-Evolves age current now rows
  perform-Evolves (claim_digest cves channel now max_items include) rows =
      digest-Evolves events channel cves now max_items include rows
  perform-Evolves (claim_chunk cves channel now limit include) rows =
      chunk-Evolves events channel cves now limit include rows
  perform-Evolves (initial_sent channel stamp now) rows =
      initial_sent-Evolves events channel stamp now rows
  perform-Evolves (initial_failed channel stamp error limit unsure now) rows =
      initial_failed-Evolves events channel stamp error limit unsure now rows
  perform-Evolves (initial_released channel stamp now) rows =
      release_initial-Evolves events channel stamp now rows
  perform-Evolves (notice i channel statuses now) rows =
      notice-Evolves events channel i statuses now rows

  perform_each-Evolves :
      (calls : List Call) (rows : List DeliveryRow) → Evolves rows (perform_each calls rows)
  unfolding perform_each
  perform_each-Evolves [] rows = Evolves-refl rows
  perform_each-Evolves (c ∷ calls) rows =
      Evolves-trans rows (perform c rows) _ (perform-Evolves c rows)
        (perform_each-Evolves calls (perform c rows))

Evolves-mem :
    (rows after : List DeliveryRow) (r : DeliveryRow)
    → Evolves rows after
    → Memᴰ r rows
    → r.status ≡ sent
    → Memᴰ r after
Evolves-mem [] after r h m e = elim m [ ]
Evolves-mem (s ∷ rows) [] r h m e = absurd h
Evolves-mem (s ∷ rows) (t ∷ after) r h (Memᴰ.head p) e = Memᴰ.head (kept h.0.final)
  where
    kept : (s.status ≢ sent) ⊎ (t ≡ s) → r ≡ t
    kept (inl n) = absurd (n (ap (λ (u : DeliveryRow). u.status) (sym p) ∙ e))
    kept (inr q) = p ∙ sym q
Evolves-mem (s ∷ rows) (t ∷ after) r h (Memᴰ.tail m) e =
    Memᴰ.tail (Evolves-mem rows after r h.1 m e)

Evolves-count :
    (i : ℕ) (channel : String) (rows after : List DeliveryRow)
    → Evolves rows after
    → count (key_is i channel) after ≡ count (key_is i channel) rows
Evolves-count i channel [] [] h = refl
Evolves-count i channel [] (s ∷ after) h = absurd h
Evolves-count i channel (r ∷ rows) [] h = absurd h
Evolves-count i channel (r ∷ rows) (s ∷ after) h = ground (
  arith,
  Evolves-count i channel rows after h.1,
  ap (λ k. k == i) h.0.event,
  ap (λ c. str_eq c channel) h.0.channel,
)

-- In a table with at most one row for each event and channel, however the delivery methods are
-- called, one after the other and with any arguments and clocks, a row that was sent stays as it
-- is, and there is still at most one row for each event and channel.
pub perform_each_lem :
    (events : List EventRow) (calls : List Call) (rows : List DeliveryRow) (r : DeliveryRow)
    → IsKeyed rows
    → Memᴰ r rows
    → r.status ≡ sent
    → Memᴰ r (perform_each events calls rows) × IsKeyed (perform_each events calls rows)
perform_each_lem events calls rows r k m e =
    let after = perform_each events calls rows in
    let h = perform_each-Evolves events calls rows in
    (
      Evolves-mem rows after r h m e,
      record { once = λ i c. omega (arith, Evolves-count i c rows after h, k.once i c) },
    )
