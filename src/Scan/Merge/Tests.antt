-- ===== src/Scan/Merge/Tests.antt =====
-- Two records merged in both orders.
use mathlib.Core.List.{Memᴰ}
use cvebeacon.Prelude.{true, false, none, some, [], ◌∷◌}
use cvebeacon.Scan.Reconcile.{Vulnerability}
use cvebeacon.Scan.Merge.{merge_vulnerabilities}
use cvebeacon.Scan.Merge.Order.{SameResult, merge_vulnerabilities-IsSame}

abbrev from_nvd : Vulnerability
from_nvd = record {
  cve_id = some "CVE-2024-1";
  summary = some "a flaw";
  published = none;
  modified = none;
  rejected = false;
  cvss_score = some 7500000;
  cvss_vector = none;
  cvss_version = some "3.1";
  epss_score = none;
  epss_percentile = none;
  epss_date = none;
  cisa_kev = some false;
  eu_kev = none;
  references = "https://b.example" ∷ "https://a.example" ∷ [];
  advisory_id = "";
  aliases = [];
  source_ids = "nvd" ∷ [];
  fixed_versions = [];
}

abbrev from_euvd : Vulnerability
from_euvd = record from_nvd {
  summary = none;
  rejected = true;
  cvss_score = some 9100000;
  eu_kev = some true;
  source_ids = "euvd" ∷ [];
}

there :
    (v : Vulnerability) → Memᴰ v (from_nvd ∷ from_euvd ∷ []) → Memᴰ v (from_euvd ∷ from_nvd ∷ [])
there v (Memᴰ.head e) = Memᴰ.tail (Memᴰ.head e)
there v (Memᴰ.tail (Memᴰ.head e)) = Memᴰ.head e
there v (Memᴰ.tail (Memᴰ.tail m)) = elim m [ ]

back : (v : Vulnerability) → Memᴰ v (from_euvd ∷ from_nvd ∷ []) → Memᴰ v (from_nvd ∷ from_euvd ∷ [])
back v (Memᴰ.head e) = Memᴰ.tail (Memᴰ.head e)
back v (Memᴰ.tail (Memᴰ.head e)) = Memᴰ.head e
back v (Memᴰ.tail (Memᴰ.tail m)) = elim m [ ]

merge_vulnerabilities-IsSame_example :
    SameResult
      (merge_vulnerabilities (from_nvd ∷ from_euvd ∷ []))
      (merge_vulnerabilities (from_euvd ∷ from_nvd ∷ []))
merge_vulnerabilities-IsSame_example =
    merge_vulnerabilities-IsSame (from_nvd ∷ from_euvd ∷ []) (from_euvd ∷ from_nvd ∷ [])
      (λ v. (there v, back v))
