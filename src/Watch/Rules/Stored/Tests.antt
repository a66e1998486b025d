-- ===== src/Watch/Rules/Stored/Tests.antt =====
-- The round trip of a stored snapshot at a concrete one.
use cvebeacon.Prelude.{String, ◌≡◌, refl, true, false, none, some, arith}
use cvebeacon.Watch.Records.{Status, Exploitation}
use cvebeacon.Watch.Rules.Data.{AlertSnapshot, high, medium, from_nine, unscored}
use cvebeacon.Watch.Rules.Stored.{
  Json, null, boolean, text, other, PyStr, loaded, as_dict, from_dict,
}
use cvebeacon.Watch.Rules.Stored.Loads.{from_dict-as_dict}

abbrev shown : Json → String
shown null = "None"
shown (boolean true) = "True"
shown (boolean false) = "False"
shown (text s) = s
shown (other s) = s
shown _ = "0"

instance abbrev plain_str : PyStr
plain_str = record { str = shown; str-text = λ s. refl }

abbrev snapshot : AlertSnapshot
snapshot = record {
  cisa_kev = true;
  eu_kev = false;
  exploitation = Exploitation.active;
  severity_band = medium;
  epss_band = unscored;
  nvd_score = true;
  status = Status.published;
  max_severity_band = high;
  max_epss_band = from_nine;
  epss = none;
  severity = some 5500000;
}

from_dict-as_dict_example : from_dict (as_dict snapshot) ≡ loaded snapshot
from_dict-as_dict_example = from_dict-as_dict snapshot tt (omega arith)
