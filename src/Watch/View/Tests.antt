-- ===== src/Watch/View/Tests.antt =====
-- The names of a concrete list, and a view that is put together.
use cvebeacon.Prelude.{◌≡◌, refl, true, false, none, some, [], ◌∷◌}
use cvebeacon.Watch.Records.{Status}
use cvebeacon.Watch.View.{WatchRecord, build_view, names_of, collect, keep_first}
use cvebeacon.Watch.Rules.Tests.{plain_text}

few_names : names_of ("zeta" ∷ "acme" ∷ "" ∷ "zeta" ∷ []) ≡ "acme" ∷ "zeta" ∷ []
unfolding names_of collect keep_first
few_names = refl

abbrev sample_record : WatchRecord
sample_record = record {
  cve_id = "CVE-2024-1";
  status = Status.published;
  published = none;
  last_modified = none;
  description = none;
  source_identifier = none;
  cvss = [];
  cwes = [];
  products = record { vendor = "acme"; product = "" } ∷ [];
  references = [];
  ssvc_exploitation = none;
  cisa_kev_added = some "2024-01-02";
  cisa_kev_due = none;
  cisa_required_action = none;
  cisa_ransomware = none;
}

-- The fields of the record do not count where the catalogue is configured.
catalog_owns_fields :
    (build_view sample_record none none none true false none none).cisa_kev_added ≡ none
unfolding build_view
catalog_owns_fields = refl
