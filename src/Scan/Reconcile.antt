-- ===== src/Scan/Reconcile.antt =====
-- src/cvebeacon/reconcile.py: `reconcile`, which turns the decisions of the sources into one finding.
-- An asset and a piece of evidence are carried along and not looked into: their types are parameters.
pub mod Agreement
mod Tests
use cvebeacon.Prelude.{
  ℕ, String, Bool, true, false, Option, none, some, List, [], ◌∷◌, ◌&&◌, ◌||◌, not, if◌then◌else◌,
  any, all, select, map, is_nil,
}

-- models.py: Applicability
pub data Applicability : Type 0 where
  affected not_affected needs_review coverage_unknown : Applicability

-- applicability.py: Decision
pub record Decision : Type 0 where
  pub state : Applicability
  pub reason : String
  pub conflict : Bool

-- models.py: Vulnerability. A score is a number of millionths and a date an ordinal.
pub record Vulnerability : Type 0 where
  pub cve_id : Option String
  pub summary : Option String
  pub published : Option String
  pub modified : Option String
  pub rejected : Bool
  pub cvss_score : Option ℕ
  pub cvss_vector : Option String
  pub cvss_version : Option String
  pub epss_score : Option ℕ
  pub epss_percentile : Option ℕ
  pub epss_date : Option ℕ
  pub cisa_kev : Option Bool
  pub eu_kev : Option Bool
  pub references : List String
  pub advisory_id : String
  pub aliases : List String
  pub source_ids : List String
  pub fixed_versions : List String

-- models.py: Finding
pub record Finding (A E : Type 0) : Type 0 where
  pub asset : A
  pub vulnerability : Vulnerability
  pub applicability : Applicability
  pub confidence : String
  pub reason : String
  pub evidence : List E
  pub conflicts : List String

abbrev pub state_eq : Applicability → Applicability → Bool
state_eq affected affected = true
state_eq not_affected not_affected = true
state_eq needs_review needs_review = true
state_eq coverage_unknown coverage_unknown = true
state_eq _ _ = false

-- `state in states`, for a state that is not COVERAGE_UNKNOWN
abbrev pub has_state : Applicability → List Decision → Bool
has_state s ds = any (λ d. state_eq d.state s) ds

abbrev pub has_conflict : List Decision → Bool
has_conflict ds = any (λ d. d.conflict) ds

abbrev reasons_of : List Decision → List String
reasons_of ds = map (λ (d : Decision). d.reason) ds

-- AFFECTED or NOT_AFFECTED
abbrev pub is_conclusive : Applicability → Bool
is_conclusive affected = true
is_conclusive not_affected = true
is_conclusive _ = false

-- `next((item.reason for item in ... if item.state == state), default)`
abbrev reason_for : Applicability → String → List Decision → String
reason_for s fallback [] = fallback
reason_for s fallback (d ∷ ds) = if state_eq d.state s then d.reason else reason_for s fallback ds

abbrev confidence_of : Applicability → String
confidence_of s = if is_conclusive s then "high" else "limited"

module _ {A E : Type 0} where
  abbrev finding : A → Vulnerability → List E → Applicability → String → List String → Finding A E
  finding asset vulnerability evidence state reason conflicts = record {
    asset = asset;
    vulnerability = vulnerability;
    applicability = state;
    confidence = confidence_of state;
    reason = reason;
    evidence = evidence;
    conflicts = conflicts;
  }

  unfoldable pub reconcile : A → Vulnerability → List E → List Decision → Bool → Finding A E
  reconcile asset vulnerability evidence ds nvd_exact_match =
      let made = finding asset vulnerability evidence in
      if vulnerability.rejected
      then made needs_review
          "the vulnerability record is rejected or withdrawn and this material state requires review"
          []
      else if has_conflict ds
      then made needs_review "authoritative evidence contains an unresolved applicability conflict"
          (reasons_of ds)
      else if (has_state affected ds && has_state not_affected ds)
          || (nvd_exact_match && has_state not_affected ds)
      then made needs_review "authoritative sources disagree on applicability"
          (reasons_of (select (λ d. is_conclusive d.state) ds))
      else if has_state affected ds || nvd_exact_match
      then made affected
          (reason_for affected "NVD matched the exact product version as vulnerable" ds) []
      else if has_state not_affected ds && has_state needs_review ds
      then made needs_review
          "exclusion is not conclusive while other applicability evidence is unresolved"
          (reasons_of ds)
      else if has_state not_affected ds
      then made not_affected (reason_for not_affected "" ds) []
      else if not (is_nil ds) && all (λ d. state_eq d.state coverage_unknown) ds
      then made coverage_unknown "sources do not establish this product identity" []
      else if has_state needs_review ds || not (is_nil evidence)
      then made needs_review
          (reason_for needs_review "evidence exists but does not prove version applicability" ds) []
      else made coverage_unknown "no authoritative applicability evidence was available" []
