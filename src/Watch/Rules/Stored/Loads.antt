-- ===== src/Watch/Rules/Stored/Loads.antt =====
-- watch/rules.py: a snapshot that is stored is the one that is loaded.
use cvebeacon.Prelude.{ℕ, ◌≤◌, ◌≡◌, refl, Option, none, some, le→leb}
use cvebeacon.Watch.Records.{Status, Exploitation}
use cvebeacon.Watch.Rules.Data.{
  SeverityBand, unrated, low, medium, high, critical, EpssBand, unscored, below_one, below_five,
  below_nine, from_nine, AlertSnapshot,
}
use cvebeacon.Watch.Rules.Stored.{
  PyStr, loaded, exploitation_name, severity_name, epss_name, status_name, score_value, as_dict,
  exploitation_of, severity_of, epss_of, status_of, score_of, checks, from_dict,
}

abbrev pub IsScore : Option ℕ → ℕ → Type 0
IsScore none maximum = Unit
IsScore (some n) maximum = n ≤ maximum

exploitation_of-name : (e : Exploitation) → exploitation_of (exploitation_name e) ≡ loaded e
exploitation_of-name Exploitation.absent = refl
exploitation_of-name Exploitation.poc = refl
exploitation_of-name Exploitation.active = refl

severity_of-name : (b : SeverityBand) → severity_of (severity_name b) ≡ loaded b
severity_of-name unrated = refl
severity_of-name low = refl
severity_of-name medium = refl
severity_of-name high = refl
severity_of-name critical = refl

epss_of-name : (b : EpssBand) → epss_of (epss_name b) ≡ loaded b
epss_of-name unscored = refl
epss_of-name below_one = refl
epss_of-name below_five = refl
epss_of-name below_nine = refl
epss_of-name from_nine = refl

status_of-name : (s : Status) → status_of (status_name s) ≡ loaded s
status_of-name Status.published = refl
status_of-name Status.rejected = refl

score_of-value :
    (s : Option ℕ) (maximum : ℕ) → IsScore s maximum → score_of (score_value s) maximum ≡ loaded s
score_of-value none maximum h = refl
score_of-value (some n) maximum h = rw (le→leb n maximum h)

module _ ⦃py : PyStr⦄ where
  -- A snapshot whose scores are in their ranges is the one that is loaded from the mapping that
  -- it is stored as.
  pub from_dict-as_dict :
      (s : AlertSnapshot)
      → IsScore s.epss 1000000
      → IsScore s.severity 10000000
      → from_dict (as_dict s) ≡ loaded s
  unfolding from_dict as_dict checks
  from_dict-as_dict s h k = rw (py.str-text (exploitation_name s.exploitation)) (
      rw (py.str-text (severity_name s.severity_band)) (
        rw (py.str-text (epss_name s.epss_band)) (
          rw (py.str-text (status_name s.status)) (
            rw (py.str-text (severity_name s.max_severity_band)) (
              rw (py.str-text (epss_name s.max_epss_band)) (
                rw (exploitation_of-name s.exploitation) (
                  rw (severity_of-name s.severity_band) (
                    rw (epss_of-name s.epss_band) (
                      rw (status_of-name s.status) (
                        rw (severity_of-name s.max_severity_band) (
                          rw (epss_of-name s.max_epss_band) (
                            rw (score_of-value s.epss 1000000 h)
                              (rw (score_of-value s.severity 10000000 k))))))))))))))
