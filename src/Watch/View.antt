-- ===== src/Watch/View.antt =====
-- watch/records.py: `build_view`, which puts the rows of the sources together. The checks that the
-- constructor of WatchRecord makes are not modelled: a record is one that passed them.
pub mod Names
mod Tests
use Prim.Native.Nat.{compare, Ordering}
use Prim.Native.String
use cvebeacon.Prelude.{
  is_less, ℕ, String, Bool, true, false, Option, none, some, List, [], ◌∷◌, ◌++◌, if◌then◌else◌,
  str_eq, truthy, map, take, select, PyText,
}
use cvebeacon.Watch.Records.{Status, Exploitation, CvssEntry, Product, Reference, WatchView}
use cvebeacon.Watch.Rules.Scores.{then_by, vector_text}

pub record EuvdUpdate : Type 0 where
  pub cve_ids : List String
  pub euvd_id : Option String
  pub exploited_since : Option String
  pub cvss : Option CvssEntry
  pub date_updated : Option String
  pub vendors : List Product

pub record KevFields : Type 0 where
  pub added : Option String
  pub due : Option String
  pub required_action : Option String
  pub ransomware : Option String

pub record WatchRecord : Type 0 where
  pub cve_id : String
  pub status : Status
  pub published : Option String
  pub last_modified : Option String
  pub description : Option String
  pub source_identifier : Option String
  pub cvss : List CvssEntry
  pub cwes : List String
  pub products : List Product
  pub references : List Reference
  pub ssvc_exploitation : Option Exploitation
  pub cisa_kev_added : Option String
  pub cisa_kev_due : Option String
  pub cisa_required_action : Option String
  pub cisa_ransomware : Option String

-- The order of `sort_key`
pub key_order : CvssEntry → CvssEntry → Ordering
key_order a b = then_by (String.compare a.provider b.provider) (
    then_by (String.compare a.source b.source) (
      then_by (String.compare a.version b.version) (
        then_by (compare a.score b.score) (
          then_by (String.compare (vector_text a.vector) (vector_text b.vector))
            (String.compare (vector_text a.severity) (vector_text b.severity))))))

-- `unique[entry.sort_key()] = entry`, with the entries in the order of their keys.
pub put_entry : CvssEntry → List CvssEntry → List CvssEntry
unfolding key_order
put_entry e [] = e ∷ []
put_entry e (f ∷ fs) =
    let rest = f ∷ put_entry e fs in
    elim (key_order e f) [ Ordering.lt ↦ e ∷ f ∷ fs | Ordering.eq ↦ e ∷ fs | Ordering.gt ↦ rest ]

pub put_entries : List CvssEntry → List CvssEntry → List CvssEntry
unfolding put_entry
put_entries [] kept = kept
put_entries (e ∷ es) kept = put_entries es (put_entry e kept)

pub normalized_cvss : List CvssEntry → List CvssEntry
unfolding put_entries
normalized_cvss entries = put_entries entries []

-- `unique[key] = text` unless the key is there, with the items in the order of their keys.
unfoldable pub keep_first : String → String → List (String × String) → List (String × String)
keep_first key text [] = (key, text) ∷ []
keep_first key text ((k, t) ∷ kept) =
    let rest = (k, t) ∷ keep_first key text kept in
    if str_eq k key
    then (k, t) ∷ kept
    else if is_less (String.compare key k)
    then (key, text) ∷ (k, t) ∷ kept
    else rest

abbrev pub text_of : String × String → String
text_of (key, text) = text

abbrev pub max_names : ℕ
max_names = 500

abbrev filled : List String → List String
filled names = select truthy names

abbrev vendor_names : Option EuvdUpdate → List String
vendor_names none = []
vendor_names (some e) = filled (map (λ (p : Product). p.vendor) e.vendors)

abbrev product_names : Option EuvdUpdate → List String
product_names none = []
product_names (some e) = filled (map (λ (p : Product). p.product) e.vendors)

abbrev with_euvd : List CvssEntry → Option EuvdUpdate → List CvssEntry
with_euvd cvss none = cvss
with_euvd cvss (some e) = elim e.cvss [
  | none ↦ cvss
  | some entry ↦ normalized_cvss (cvss ++ entry ∷ [])
]

abbrev no_fields : KevFields
no_fields = record { added = none; due = none; required_action = none; ransomware = none }

abbrev fields_or : Option KevFields → KevFields
fields_or none = no_fields
fields_or (some fields) = fields

-- The CISA fields: the catalogue's when it is configured, the record's own otherwise.
abbrev pub cisa_fields : WatchRecord → Option KevFields → Bool → KevFields
cisa_fields r kev catalog = if catalog then fields_or kev else record {
  added = r.cisa_kev_added;
  due = r.cisa_kev_due;
  required_action = r.cisa_required_action;
  ransomware = r.cisa_ransomware;
}

abbrev added_of : Option KevFields → Option String
added_of none = none
added_of (some fields) = fields.added

abbrev id_of : Option EuvdUpdate → Option String
id_of none = none
id_of (some e) = e.euvd_id

abbrev since_of : Option EuvdUpdate → Option String
since_of none = none
since_of (some e) = e.exploited_since

-- `(score, percentile, date)`
pub record Epss : Type 0 where
  pub score : ℕ
  pub percentile : ℕ
  pub date : String

module _ ⦃py : PyText⦄ where
  unfoldable pub collect : List String → List (String × String) → List (String × String)
  unfolding keep_first
  collect [] kept = kept
  collect (v ∷ vs) kept =
      let text = py.strip v in
      let more = collect vs (keep_first (py.casefold text) text kept) in
      let same = collect vs kept in if truthy text then more else same

  unfoldable pub names_of : List String → List String
  names_of values = map text_of (take max_names (collect values []))

  unfoldable pub build_view :
      WatchRecord
      → Option EuvdUpdate
      → (cisa_kev eu_kev : Option KevFields) → (cisa_catalog eu_catalog : Bool) → Option Epss
      → Option String
      → WatchView
  build_view r euvd cisa_kev eu_kev cisa_catalog eu_catalog epss first_seen =
      let cisa = cisa_fields r cisa_kev cisa_catalog in
      record {
        cve_id = r.cve_id;
        status = r.status;
        published = r.published;
        first_seen = first_seen;
        last_modified = r.last_modified;
        description = r.description;
        source_identifier = r.source_identifier;
        cvss = with_euvd r.cvss euvd;
        cwes = r.cwes;
        vendors =
            names_of (filled (map (λ (p : Product). p.vendor) r.products) ++ vendor_names euvd);
        products =
            names_of (filled (map (λ (p : Product). p.product) r.products) ++ product_names euvd);
        references = r.references;
        ssvc_exploitation = r.ssvc_exploitation;
        cisa_kev_added = cisa.added;
        cisa_kev_due = cisa.due;
        cisa_required_action = cisa.required_action;
        cisa_ransomware = cisa.ransomware;
        eu_kev_added = if eu_catalog then added_of eu_kev else none;
        euvd_id = id_of euvd;
        euvd_exploited_since = since_of euvd;
        epss = elim epss [ none ↦ none | some e ↦ some e.score ];
        epss_percentile = elim epss [ none ↦ none | some e ↦ some e.percentile ];
        epss_date = elim epss [ none ↦ none | some e ↦ some e.date ];
      }
