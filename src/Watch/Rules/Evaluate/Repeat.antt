-- ===== src/Watch/Rules/Evaluate/Repeat.antt =====
-- A view that was just evaluated brings nothing new.
use cvebeacon.Prelude.{
  ℕ, ◌≡◌, refl, ap, sym, ◌∙◌, String, Bool, true, false, Option, none, some, List, [], ◌&&◌, not,
  arith, PyText, ◌⊎◌, inl, inr, subst, Bool-cases, ◌==◌,
}
use cvebeacon.Watch.Records.{WatchView}
use cvebeacon.Watch.Rules.Data.{Rule, AlertSnapshot, AlertState, AlertEvent, EpssBand}
use cvebeacon.Watch.Rules.Snapshot.{snapshot_for}
use cvebeacon.Watch.Rules.Tree.{evaluate_condition}
use cvebeacon.Watch.Rules.Evaluate.Steps.{evaluate-none_on, evaluate-some_on, evaluate_off}
use cvebeacon.Watch.Rules.Evaluate.{
  DateTime, event_if, raised_band, max_epss, kev_events, exploitation_events, severity_events,
  epss_events, status_events, change_events, marked, first_match_state, next_match_state, admits,
  timestamp, evaluate,
}

event_if-not_self : (c b : Bool) (e : AlertEvent) → event_if (c && (not b && b)) e ≡ []
event_if-not_self false b e = refl
event_if-not_self true false e = refl
event_if-not_self true true e = refl

event_if-same : (c : Bool) (n : ℕ) (e : AlertEvent) → event_if (c && not (n == n)) e ≡ []
event_if-same c n e = ground arith

-- A mark that was raised to a band is not raised again by that band.
pub raised_band_idem {ℓ} :
    {B : Type ℓ} (index : B → ℕ) (current mark : B)
    → raised_band index current (raised_band index current mark) ≡ raised_band index current mark
unfolding raised_band
raised_band_idem index current mark = ground arith

pub max_epss_idem :
    (mark current : EpssBand) → max_epss (max_epss mark current) current ≡ max_epss mark current
unfolding max_epss raised_band
max_epss_idem mark current = ground arith

max_epss_self : (band : EpssBand) → max_epss band band ≡ band
unfolding max_epss raised_band
max_epss_self band = ground arith

raised_band_self {ℓ} : {B : Type ℓ} (index : B → ℕ) (band : B) → raised_band index band band ≡ band
unfolding raised_band
raised_band_self index band = ground arith

module _ ⦃py : PyText⦄ (view : WatchView) (rule : Rule) (old s : AlertSnapshot) where
  kev-marked : kev_events view rule (marked old s) s ≡ []
  unfolding kev_events marked
  kev-marked = simp event_if-not_self

  exploitation-marked : exploitation_events view rule (marked old s) s ≡ []
  unfolding exploitation_events marked
  exploitation-marked = simp event_if-not_self

  severity-marked : severity_events view rule (marked old s) s ≡ []
  unfolding severity_events marked
  severity-marked = simp (raised_band_idem, event_if-same)

  epss-marked : epss_events view rule (marked old s) s ≡ []
  unfolding epss_events marked
  epss-marked = simp (max_epss_idem, event_if-same)

  status-marked : status_events view rule (marked old s) s ≡ []
  unfolding status_events marked
  status-marked = simp event_if-not_self

  change_events-marked : change_events view rule (marked old s) s ≡ []
  unfolding change_events
  change_events-marked =
      simp (kev-marked, exploitation-marked, severity-marked, epss-marked, status-marked)

-- The marks of a snapshot that was taken over as it is.
marked_self :
    ⦃py : PyText⦄ (view : WatchView) (rule : Rule)
    → marked (snapshot_for view rule) (snapshot_for view rule) ≡ snapshot_for view rule
unfolding marked snapshot_for
marked_self view rule = simp (raised_band_self, max_epss_self)

marked_idem : ⦃py : PyText⦄ (old s : AlertSnapshot) → marked (marked old s) s ≡ marked old s
unfolding marked
marked_idem old s = simp (raised_band_idem, max_epss_idem)

change_events_self :
    ⦃py : PyText⦄ (view : WatchView) (rule : Rule)
    → change_events view rule (snapshot_for view rule) (snapshot_for view rule) ≡ []
change_events_self view rule =
    let s = snapshot_for view rule in
    ap (λ t. change_events view rule t s) (sym (marked_self view rule))
    ∙ change_events-marked view rule s s

module _ ⦃py : PyText⦄ (view : WatchView) (rule : Rule) where
  next-current :
      (first : String)
      → next_match_state view rule
          (record { first_matched_at = first; snapshot = snapshot_for view rule })
        ≡ (some (record { first_matched_at = first; snapshot = snapshot_for view rule }), [])
  unfolding next_match_state
  next-current first = simp (marked_self view rule, change_events_self view rule)

  next-next :
      (p : AlertState)
      → next_match_state view rule
          (record p { snapshot = marked p.snapshot (snapshot_for view rule) })
        ≡ (some (record p { snapshot = marked p.snapshot (snapshot_for view rule) }), [])
  unfolding next_match_state
  next-next p = simp (
    marked_idem p.snapshot (snapshot_for view rule),
    change_events-marked view rule p.snapshot (snapshot_for view rule),
  )

  -- The first match either leaves no state, whatever the time, or the current snapshot.
  first_match_cases :
      (now : DateTime) (before : Option ℕ) (result : Bool × List String)
      → ((first_match_state view rule now before result).0 ≡ none)
          × ((later : DateTime) (cutoff : Option ℕ)
              → first_match_state view rule later cutoff result ≡ (none, []))
        ⊎ (first : String) × ((first_match_state view rule now before result).0
            ≡ some (record { first_matched_at = first; snapshot = snapshot_for view rule }))
  unfolding first_match_state
  first_match_cases now before result = elim (Bool-cases (admits view result)) [
    | inl e ↦ inr (timestamp now, rw e)
    | inr e ↦ inl (rw e, λ later cutoff. rw e)
  ]

  -- The view brings nothing new to the state.
  abbrev IsSettled : Option AlertState → Type 0
  IsSettled s = (later : DateTime) (cutoff : Option ℕ) → evaluate view s rule later cutoff ≡ (s, [])

  first-IsSettled :
      (now : DateTime) (before : Option ℕ)
      → rule.enabled ≡ true
      → IsSettled
          (first_match_state view rule now before (evaluate_condition view rule rule.condition)).0
  first-IsSettled now before on =
      elim (first_match_cases now before (evaluate_condition view rule rule.condition)) [
        | inl (gone, again) ↦
            subst IsSettled (sym gone)
              (λ later cutoff. evaluate-none_on view rule on later cutoff ∙ again later cutoff)
        | inr (first, kept) ↦
            subst IsSettled (sym kept)
              (λ later cutoff. evaluate-some_on view rule on _ later cutoff ∙ next-current first)
      ]

  evaluate-IsSettled :
      (s : Option AlertState) (now : DateTime) (before : Option ℕ)
      → rule.enabled ≡ true
      → IsSettled (evaluate view s rule now before).0
  evaluate-IsSettled none now before on =
      subst (λ r. IsSettled r.0) (sym (evaluate-none_on view rule on now before))
        (first-IsSettled now before on)
  evaluate-IsSettled (some p) now before on =
      subst (λ r. IsSettled r.0) (sym (evaluate-some_on view rule on p now before))
        (unfold next_match_state in
          λ later cutoff. evaluate-some_on view rule on _ later cutoff ∙ next-next p)

-- Evaluating a view again with the state that its evaluation left, at any time and with any
-- backlog cutoff, keeps the state and gives no events.
pub evaluate-evaluate :
    ⦃py : PyText⦄ (view : WatchView) (previous : Option AlertState) (rule : Rule)
    (now later : DateTime) (before cutoff : Option ℕ)
    → evaluate view (evaluate view previous rule now before).0 rule later cutoff
      ≡ ((evaluate view previous rule now before).0, [])
evaluate-evaluate view previous rule now later before cutoff = elim (Bool-cases rule.enabled) [
  | inl on ↦ evaluate-IsSettled view rule previous now before on later cutoff
  | inr off ↦
      subst (λ r. evaluate view r.0 rule later cutoff ≡ (r.0, []))
        (sym (evaluate_off view rule previous now before off))
        (evaluate_off view rule previous later cutoff off)
]
