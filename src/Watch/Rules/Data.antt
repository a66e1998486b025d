-- ===== src/Watch/Rules/Data.antt =====
-- The data of watch/rules.py: condition trees, rules, and the stored state of an alert.
use cvebeacon.Prelude.{ℕ, String, Bool, true, false, Option, List, [], ◌∷◌, ◌||◌}
use cvebeacon.Watch.Records.{Status, Exploitation}

pub data EventKind : Type 0 where
  matched kev_added exploitation_active severity_increase : EventKind
  epss_increase nvd_score_added status_rejected : EventKind

-- SEVERITY_BANDS, in its order.
pub data SeverityBand : Type 0 where
  unrated low medium high critical : SeverityBand

-- EPSS_BAND_LABELS, in its order: "none", "<0.1", "<0.5", "<0.9", ">=0.9".
pub data EpssBand : Type 0 where
  unscored below_one below_five below_nine from_nine : EpssBand

-- The value of a `kev` leaf.
pub data KevCatalog : Type 0 where
  cisa eu any_catalog : KevCatalog

-- The value of an `exploitation` leaf.
pub data Wanted : Type 0 where
  poc_or_active only_active : Wanted

-- One `(key, value)` pair of a leaf, with the value that `_leaf_value` gives the key.
pub data Leaf : Type 0 where
  cvss_min cvss_max epss_min : ℕ → Leaf
  kev : KevCatalog → Leaf
  exploitation : Wanted → Leaf
  vendor product keyword cwe cna : List String → Leaf
  status : Status → Leaf

-- A node of a condition tree. The parser gives a `not` node exactly one child.
mutual
  pub data Condition : Type 0 where
    leaf : List Leaf → Condition
    all_of any_of : Conditions → Condition
    not_of : Condition → Condition

  pub data Conditions : Type 0 where
    nil : Conditions
    cons : Condition → Conditions → Conditions

pub data OldCves : Type 0 where
  digest alert ignore : OldCves

pub record Rule : Type 0 where
  pub name : String
  pub condition : Condition
  pub channels : List String
  pub events : List EventKind
  pub cvss_providers : List String
  pub enabled : Bool
  pub old_cves : OldCves

pub record AlertSnapshot : Type 0 where
  pub cisa_kev : Bool
  pub eu_kev : Bool
  pub exploitation : Exploitation
  pub severity_band : SeverityBand
  pub epss_band : EpssBand
  pub nvd_score : Bool
  pub status : Status
  pub max_severity_band : SeverityBand
  pub max_epss_band : EpssBand
  pub epss : Option ℕ
  pub severity : Option ℕ

pub record AlertState : Type 0 where
  pub first_matched_at : String
  pub snapshot : AlertSnapshot

pub record AlertEvent : Type 0 where
  pub rule : String
  pub cve_id : String
  pub kind : EventKind
  pub reasons : List String
  pub occurrence : String
  pub initial : Bool
  pub details : List (String × Option ℕ)

-- The places of the labels in SEVERITY_BANDS and EPSS_BAND_LABELS.
abbrev pub severity_index : SeverityBand → ℕ
severity_index unrated = 0
severity_index low = 1
severity_index medium = 2
severity_index high = 3
severity_index critical = 4

abbrev pub epss_index : EpssBand → ℕ
epss_index unscored = 0
epss_index below_one = 1
epss_index below_five = 2
epss_index below_nine = 3
epss_index from_nine = 4

-- `kind in events`
abbrev pub kind_eq : EventKind → EventKind → Bool
kind_eq matched matched = true
kind_eq kev_added kev_added = true
kind_eq exploitation_active exploitation_active = true
kind_eq severity_increase severity_increase = true
kind_eq epss_increase epss_increase = true
kind_eq nvd_score_added nvd_score_added = true
kind_eq status_rejected status_rejected = true
kind_eq _ _ = false

abbrev pub has_kind : EventKind → List EventKind → Bool
has_kind k [] = false
has_kind k (j ∷ js) = kind_eq k j || has_kind k js

abbrev pub is_rejected : Status → Bool
is_rejected Status.published = false
is_rejected Status.rejected = true

abbrev pub is_active : Exploitation → Bool
is_active Exploitation.active = true
is_active _ = false
