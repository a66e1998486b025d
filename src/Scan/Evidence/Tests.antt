-- ===== src/Scan/Evidence/Tests.antt =====
-- The verdicts on a record at concrete products, and a run of the evaluation.
use Prim.Native.Nat.{Ordering}
use cvebeacon.Prelude.{◌≡◌, refl, true, false, none, some, [], ◌∷◌, if◌then◌else◌, str_eq}
use cvebeacon.Watch.Rules.Tests.{plain_text}
use cvebeacon.Scan.Reconcile.{affected}
use cvebeacon.Scan.Versions.{
  VersionText, changes, Entry, compare_versions, version_entry, known_version, semver,
}
use cvebeacon.Scan.Evidence.{
  IdentityText, Product, listed, entry_status, read_entries, read_products, evaluate_cve_evidence,
}
use cvebeacon.Scan.Evidence.Settled.{agrees, evaluate_cve_evidence-agrees}

instance abbrev plain_versions : VersionText
plain_versions = record {
  semver_match = λ s.
      if str_eq s "1.2.0"
      then some ((1, 2, 0), [])
      else if str_eq s "1.3.0"
      then some ((1, 3, 0), [])
      else if str_eq s "1.3.0-rc.1"
      then some ((1, 3, 0), "rc" ∷ "1" ∷ [])
      else none;
  isdigit = λ s. str_eq s "1";
  int = λ s. 1;
  compare_python = λ s t. none;
}

instance abbrev plain_identity : IdentityText
plain_identity = record { identity_text = λ s. s }

abbrev before_release : Entry
before_release = record {
  is_typed = true;
  version = some "0";
  version_type = some "semver";
  less_than = some "1.3.0";
  less_than_or_equal = none;
  status = some "unaffected";
  changes = changes (
      record { at = some "1.3.0-rc.1"; status = some "unaffected" }
      ∷ record { at = some "1.2.0"; status = some "affected" }
      ∷ []);
}

abbrev tool : Product
tool = record {
  vendor = "acme";
  product = "tool";
  is_qualified = false;
  versions = listed (some before_release ∷ []);
  default_status = some "unaffected";
}

prerelease_first : compare_versions "1.3.0-rc.1" "1.3.0" "semver" ≡ some Ordering.lt
unfolding compare_versions semver
prerelease_first = refl

is_affected :
    (evaluate_cve_evidence "acme" "tool" "1.2.0" (some (none ∷ some tool ∷ []))).state ≡ affected
unfolding evaluate_cve_evidence known_version read_products read_entries version_entry
    compare_versions semver entry_status
is_affected = refl

evaluate_cve_evidence-agrees_example :
    agrees "acme" "tool" "1.2.0"
      (none ∷ some tool ∷ [])
      (evaluate_cve_evidence "acme" "tool" "1.2.0" (some (none ∷ some tool ∷ []))).state
    ≡ true
evaluate_cve_evidence-agrees_example =
    evaluate_cve_evidence-agrees "acme" "tool" "1.2.0" (none ∷ some tool ∷ [])
