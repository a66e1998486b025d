-- ===== src/Watch/Rules/Evaluate/Steps.antt =====
-- The three cases of `evaluate`: a first match, a later view, a disabled rule.
use cvebeacon.Prelude.{ℕ, ◌≡◌, true, false, Option, none, some, [], PyText}
use cvebeacon.Watch.Records.{WatchView}
use cvebeacon.Watch.Rules.Data.{Rule, AlertState}
use cvebeacon.Watch.Rules.Tree.{evaluate_condition}
use cvebeacon.Watch.Rules.Evaluate.{DateTime, first_match_state, next_match_state, evaluate}

module _ ⦃py : PyText⦄ (view : WatchView) (rule : Rule) where
  module _ (on : rule.enabled ≡ true) where
    pub evaluate-none_on :
        (now : DateTime) (before : Option ℕ)
        → evaluate view none rule now before
          ≡ first_match_state view rule now before (evaluate_condition view rule rule.condition)
    unfolding evaluate
    evaluate-none_on now before = simp on

    pub evaluate-some_on :
        (p : AlertState) (now : DateTime) (before : Option ℕ)
        → evaluate view (some p) rule now before ≡ next_match_state view rule p
    unfolding evaluate
    evaluate-some_on p now before = simp on

  -- A disabled rule changes nothing.
  pub evaluate_off :
      (s : Option AlertState) (now : DateTime) (before : Option ℕ)
      → rule.enabled ≡ false
      → evaluate view s rule now before ≡ (s, [])
  unfolding evaluate
  evaluate_off none now before off = simp off
  evaluate_off (some p) now before off = simp off
