-- ===== src/Watch/Deliveries/Lifecycle.antt =====
-- The life of a delivery: what the methods together, in any order and from any number of runs, can
-- do to the rows. Each method is one transaction.
mod Methods
pub mod Runs
use mathlib.Core.List.{Memᴰ}
use cvebeacon.Prelude.{
  ℕ, zero, suc, ◌+◌, ◌≤◌, String, ◌≡◌, ◌≢◌, ◌⊎◌, inl, inr, refl, sym, ap, ◌∙◌, subst, Bool, true,
  false, Option, none, some, List, [], ◌∷◌, ◌&&◌, ◌==◌, arith, if◌then◌else◌, str_eq, length,
  Bool-cases, take, drop, select, not, is_nil,
}
use cvebeacon.Watch.Deliveries.Rows.{
  DeliveryStatus, pending, sending, sent, failed, ambiguous, DeliveryRow, status_in, count, rewrite,
  update, sorted_set, among, second,
}
use cvebeacon.Watch.Deliveries.Rows.Counting.{key_is, IsKeyed}
use cvebeacon.Watch.Deliveries.Claim.{
  for_chunks, claim_delivery, release_delivery, has_status, start_sending, is_retryable,
}
use cvebeacon.Watch.Deliveries.Mark.{
  mark_delivery, marked_row, predecessors, reset_failed, recover_sending, is_stale,
}
use cvebeacon.Watch.Deliveries.Mark.Moves.{mark_delivery_lem}
use cvebeacon.Watch.Deliveries.Initial.{
  EventRow, claim_initial_digest, claim_initial_row, selected_ids, initial_condition,
  mark_initial_sent, mark_initial_failed, release_initial, is_claimed,
}
use cvebeacon.Watch.Deliveries.Notice.{claim_notice, event_of}

-- A row and what became of it: the same key, and a sent row as it was.
pub record Keeps (r s : DeliveryRow) : Type 0 where
  pub event : s.event_id ≡ r.event_id
  pub channel : s.channel ≡ r.channel
  pub final : (r.status ≢ sent) ⊎ (s ≡ r)

-- Row by row; no row is added or lost.
abbrev pub Evolves : List DeliveryRow → List DeliveryRow → Type 0
Evolves [] [] = Unit
Evolves (r ∷ rows) (s ∷ after) = Keeps r s × Evolves rows after
Evolves _ _ = ⊥

Keeps-refl : (r : DeliveryRow) → Keeps r r
Keeps-refl r = record { event = refl; channel = refl; final = inr refl }

final_trans :
    (r s t : DeliveryRow)
    → (r.status ≢ sent) ⊎ (s ≡ r)
    → (s.status ≢ sent) ⊎ (t ≡ s)
    → (r.status ≢ sent) ⊎ (t ≡ r)
final_trans r s t (inl n) k = inl n
final_trans r s t (inr e) (inl n) = inl (λ p. n (ap (λ (u : DeliveryRow). u.status) e ∙ p))
final_trans r s t (inr e) (inr f) = inr (f ∙ e)

Keeps-trans : (r s t : DeliveryRow) → Keeps r s → Keeps s t → Keeps r t
Keeps-trans r s t h k = record {
  event = k.event ∙ h.event;
  channel = k.channel ∙ h.channel;
  final = final_trans r s t h.final k.final;
}

pub Evolves-refl : (rows : List DeliveryRow) → Evolves rows rows
Evolves-refl [] = tt
Evolves-refl (r ∷ rows) = (Keeps-refl r, Evolves-refl rows)

pub Evolves-trans : (a b c : List DeliveryRow) → Evolves a b → Evolves b c → Evolves a c
Evolves-trans [] [] c h k = k
Evolves-trans [] (s ∷ b) c h k = absurd h
Evolves-trans (r ∷ a) [] c h k = absurd h
Evolves-trans (r ∷ a) (s ∷ b) [] h k = absurd k
Evolves-trans (r ∷ a) (s ∷ b) (t ∷ c) h k = (Keeps-trans r s t h.0 k.0, Evolves-trans a b c h.1 k.1)

-- A statement that keeps the keys and does not select sent rows.
pub record IsSafe (test : DeliveryRow → Bool) (change : DeliveryRow → DeliveryRow) : Type 0 where
  pub event : (r : DeliveryRow) → (change r).event_id ≡ r.event_id
  pub channel : (r : DeliveryRow) → (change r).channel ≡ r.channel
  pub unsent : (r : DeliveryRow) → test r ≡ true → r.status ≢ sent

pub rewrite-Evolves :
    (test : DeliveryRow → Bool) (change : DeliveryRow → DeliveryRow) (rows : List DeliveryRow)
    → IsSafe test change
    → Evolves rows (rewrite test change rows)
rewrite-Evolves test change [] h = tt
rewrite-Evolves test change (r ∷ rows) h = elim (Bool-cases (test r)) [
  | inl e ↦ (
    subst (λ b. Keeps r (if b then change r else r)) (sym e)
        (record { event = h.event r; channel = h.channel r; final = inl (h.unsent r e) }),
    rewrite-Evolves test change rows h,
  )
  | inr e ↦ (
    subst (λ b. Keeps r (if b then change r else r)) (sym e) (Keeps-refl r),
    rewrite-Evolves test change rows h,
  )
]

pub for_chunks-Evolves :
    (test : List ℕ → DeliveryRow → Bool) (change : DeliveryRow → DeliveryRow)
    → ((chunk : List ℕ) → IsSafe (test chunk) change)
    → (fuel : ℕ) (ids : List ℕ) (rows : List DeliveryRow)
    → Evolves rows (for_chunks (λ chunk. update (test chunk) change) fuel ids rows).1
unfolding for_chunks
for_chunks-Evolves test change h fuel [] rows = Evolves-refl rows
for_chunks-Evolves test change h zero (i ∷ is) rows = Evolves-refl rows
for_chunks-Evolves test change h (suc fuel) (i ∷ is) rows =
    let chunk = take 500 (i ∷ is) in
    let after = rewrite (test chunk) change rows in
    Evolves-trans rows after _ (rewrite-Evolves (test chunk) change rows (h chunk))
      (for_chunks-Evolves test change h fuel (drop 500 (i ∷ is)) after)
