-- ===== src/Watch/Records.antt =====
-- src/cvebeacon/watch/records.py: the immutable records that the feeds, the rules and the stores
-- share. A score is a number of millionths.
use cvebeacon.Prelude.{ℕ, String, Option, none, some, List, if◌then◌else◌, truthy, PyText}

pub data Status : Type 0 where
  published rejected : Status

-- SSVC_EXPLOITATION; `absent` is the source's "none".
pub data Exploitation : Type 0 where
  absent poc active : Exploitation

pub record CvssEntry : Type 0 where
  pub provider : String
  pub source : String
  pub version : String
  pub score : ℕ
  pub vector : Option String
  pub severity : Option String

pub record Product : Type 0 where
  pub vendor : String
  pub product : String

pub record Reference : Type 0 where
  pub url : String
  pub tags : List String

pub record WatchView : Type 0 where
  pub cve_id : String
  pub status : Status
  pub published : Option String
  pub first_seen : Option String
  pub last_modified : Option String
  pub description : Option String
  pub source_identifier : Option String
  pub cvss : List CvssEntry
  pub cwes : List String
  pub vendors : List String
  pub products : List String
  pub references : List Reference
  pub ssvc_exploitation : Option Exploitation
  pub cisa_kev_added : Option String
  pub cisa_kev_due : Option String
  pub cisa_required_action : Option String
  pub cisa_ransomware : Option String
  pub eu_kev_added : Option String
  pub euvd_id : Option String
  pub euvd_exploited_since : Option String
  pub epss : Option ℕ
  pub epss_percentile : Option ℕ
  pub epss_date : Option String

module _ ⦃py : PyText⦄ where
  abbrev parsed_or : Option String → Option String → Option String
  parsed_or none fallback = fallback
  parsed_or (some stamp) fallback = some stamp

  -- An EUVD time stamp in ISO 8601, by the service's own pattern or as ISO text.
  unfoldable pub euvd_datetime : Option String → Option String
  euvd_datetime none = none
  euvd_datetime (some value) =
      let text = py.strip value in
      if truthy text
      then parsed_or (py.strptime text "%b %d, %Y, %I:%M:%S %p") (py.datetime_isoformat text)
      else none
