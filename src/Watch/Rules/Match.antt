-- ===== src/Watch/Rules/Match.antt =====
-- watch/rules.py: whether one leaf of a condition matches a view, and the reason that it gives.
use cvebeacon.Prelude.{
  ℕ, String, Bool, true, false, Option, none, some, List, [], ◌∷◌, ◌++◌, leb, str_eq, if◌then◌else◌,
  is_some, given, map, any, member, concat, join, has_part, PyText,
}
use cvebeacon.Watch.Records.{CvssEntry, WatchView, Status, Exploitation}
use cvebeacon.Watch.Rules.Data.{
  Leaf, cvss_min, cvss_max, epss_min, kev, exploitation, vendor, product, keyword, cwe, cna, status,
  KevCatalog, cisa, eu, Wanted, poc_or_active, only_active, Rule,
}
use cvebeacon.Watch.Rules.Scores.{highest_cvss}

abbrev is_evidence : Option Exploitation → Bool
is_evidence (some Exploitation.poc) = true
is_evidence (some Exploitation.active) = true
is_evidence _ = false

abbrev level_of : Option Exploitation → Bool → Exploitation
level_of (some Exploitation.active) since = Exploitation.active
level_of (some Exploitation.poc) since = if since then Exploitation.active else Exploitation.poc
level_of _ since = if since then Exploitation.active else Exploitation.absent

unfoldable pub exploitation_level : WatchView → Exploitation
exploitation_level view = level_of view.ssvc_exploitation (given view.euvd_exploited_since)

unfoldable pub exploitation_sources : WatchView → List String
exploitation_sources view =
    (if is_evidence view.ssvc_exploitation then "cisa-adp" ∷ [] else [])
    ++ (if given view.euvd_exploited_since then "euvd" ∷ [] else [])

-- ` (a, b)`, or nothing where there is no source
abbrev pub source_suffix : List String → String
source_suffix [] = ""
source_suffix (s ∷ ss) = concat (" (" ∷ join ", " (s ∷ ss) ∷ ")" ∷ [])

abbrev pub exploitation_text : Exploitation → String
exploitation_text Exploitation.absent = "none"
exploitation_text Exploitation.poc = "poc"
exploitation_text Exploitation.active = "active"

abbrev pub status_text : Status → String
status_text Status.published = "published"
status_text Status.rejected = "rejected"

abbrev pub status_eq : Status → Status → Bool
status_eq Status.published Status.published = true
status_eq Status.rejected Status.rejected = true
status_eq _ _ = false

-- `current in {"poc", "active"} if value == "poc" else {"active"}`
abbrev pub meets : Wanted → Exploitation → Bool
meets poc_or_active Exploitation.poc = true
meets poc_or_active Exploitation.active = true
meets only_active Exploitation.active = true
meets _ _ = false

-- `value in ("any", catalog)`
abbrev selects_cisa : KevCatalog → Bool
selects_cisa eu = false
selects_cisa _ = true

abbrev selects_eu : KevCatalog → Bool
selects_eu cisa = false
selects_eu _ = true

-- `f"{label} {found}"` with whether anything was found
abbrev pub found_reason : String → Option String → Bool × Option String
found_reason label none = (false, none)
found_reason label (some found) = (true, some (concat (label ∷ " " ∷ found ∷ [])))

module _ ⦃py : PyText⦄ where
  -- The first value that is `target` up to case.
  pub first_match : List String → String → Option String
  first_match [] target = none
  first_match (v ∷ vs) target =
      if str_eq (py.casefold v) (py.casefold target) then some v else first_match vs target

  -- `next((match for name in value if (match := _first_match(values, name))), None)`: a match that
  -- is the empty text is passed over.
  pub first_named : List String → List String → Option String
  unfolding first_match
  first_named values [] = none
  first_named values (name ∷ names) =
      let found = first_match values name in if given found then found else first_named values names

  abbrev part_of : List String → String → Option String
  part_of [] folded = none
  part_of (v ∷ vs) folded = if has_part (py.casefold v) folded then some v else part_of vs folded

  abbrev keyword_of : List String → Option String → Option String
  keyword_of values none = none
  keyword_of values (some d) = part_of values (py.casefold d)

  pub keyword_match : List String → Option String → Option String
  unfolding has_part
  keyword_match values description =
      if given description then keyword_of values description else none

  abbrev first_in : List String → List String → Option String
  first_in [] wanted = none
  first_in (item ∷ items) wanted =
      if member (py.casefold item) wanted then some item else first_in items wanted

  pub cwe_match : List String → List String → Option String
  cwe_match cwes values = first_in cwes (map py.casefold values)

  abbrev cvss_reason : CvssEntry → String
  cvss_reason e =
      concat ("cvss " ∷ py.str_float e.score ∷ " v" ∷ e.version ∷ " (" ∷ e.provider ∷ ")" ∷ [])

  abbrev cvss_leaf : (ℕ → Bool) → Option CvssEntry → Bool × Option String
  cvss_leaf test none = (false, none)
  cvss_leaf test (some e) = (test e.score, some (cvss_reason e))

  abbrev epss_leaf : ℕ → Option ℕ → Bool × Option String
  epss_leaf bound none = (false, none)
  epss_leaf bound (some v) = (leb bound v, some (concat ("epss " ∷ py.format_g v ∷ [])))

  abbrev kev_leaf : KevCatalog → Bool → Bool → Bool × Option String
  kev_leaf value in_cisa in_eu =
      if (if in_cisa then selects_cisa value else false)
      then (true, some "kev cisa")
      else if (if in_eu then selects_eu value else false)
      then (true, some "kev eu")
      else (false, none)

  abbrev cna_leaf : List String → Option String → Bool × Option String
  cna_leaf values none = (false, none)
  cna_leaf values (some source) =
      if any (λ item. str_eq (py.casefold source) (py.casefold item)) values
      then (true, some (concat ("cna " ∷ source ∷ [])))
      else (false, none)

  unfoldable pub matches_leaf : WatchView → Rule → Leaf → Bool × Option String
  unfolding first_named keyword_match cwe_match exploitation_level exploitation_sources
  matches_leaf view rule (cvss_min value) =
      cvss_leaf (λ score. leb value score) (highest_cvss view rule.cvss_providers)
  matches_leaf view rule (cvss_max value) =
      cvss_leaf (λ score. leb score value) (highest_cvss view rule.cvss_providers)
  matches_leaf view rule (epss_min value) = epss_leaf value view.epss
  matches_leaf view rule (kev value) =
      kev_leaf value (is_some view.cisa_kev_added) (is_some view.eu_kev_added)
  matches_leaf view rule (exploitation value) =
      let current = exploitation_level view in
      if meets value current
      then (
        true,
        some (
            concat (
              "exploitation "
              ∷ exploitation_text current
              ∷ source_suffix (exploitation_sources view)
              ∷ [])),
      )
      else (false, none)
  matches_leaf view rule (vendor value) = found_reason "vendor" (first_named view.vendors value)
  matches_leaf view rule (product value) = found_reason "product" (first_named view.products value)
  matches_leaf view rule (keyword value) =
      found_reason "keyword" (keyword_match value view.description)
  matches_leaf view rule (cwe value) = found_reason "cwe" (cwe_match view.cwes value)
  matches_leaf view rule (cna value) = cna_leaf value view.source_identifier
  matches_leaf view rule (status value) =
      (status_eq view.status value, some (concat ("status " ∷ status_text view.status ∷ [])))
