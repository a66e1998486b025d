-- ===== src/Scan/Evidence.antt =====
-- applicability.py: `_entry_status` and `evaluate_cve_evidence`, what a CVE record says of an asset.
pub mod Settled
mod Tests
use cvebeacon.Prelude.{
  ℕ, String, Bool, true, false, Option, none, some, List, [], ◌∷◌, ◌&&◌, ◌||◌, not, if◌then◌else◌,
  str_eq, any, all, member, truthy, given, is_nil, is_some, PyText,
}
use cvebeacon.Scan.Reconcile.{
  Decision, Applicability, affected, not_affected, needs_review, coverage_unknown,
}
use cvebeacon.Scan.Versions.{
  VersionText, text_or, is_less, is_equal, is_at_least, Change, Changes, no_changes, bad_changes,
  changes, Entry, same_status, known_version, compare_versions, version_entry,
}

-- `versions`: no list, or a list of entries; one that is no dict is nothing.
pub data Entries : Type 0 where
  no_list : Entries
  listed : List (Option Entry) → Entries

-- An affected product; `is_qualified` tells of platforms, modules, program files or routines.
pub record Product : Type 0 where
  pub vendor : String
  pub product : String
  pub is_qualified : Bool
  pub versions : Entries
  pub default_status : Option String

-- What is known so far; the states are the newest first.
pub record Seen : Type 0 where
  pub matched_product : Bool
  pub uncertain : Bool
  pub states : List String

-- The same while the entries of one product are read.
pub record Tally : Type 0 where
  pub matched_version : Bool
  pub uncertain : Bool
  pub states : List String

abbrev at_of : Change → String
at_of c = text_or c.at ""

abbrev pub is_explicit : String → Bool
is_explicit status = member status ("affected" ∷ "unaffected" ∷ [])

-- `identity_text`, which normalises a text.
pub record IdentityText : Type 0 where
  pub identity_text : String → String

-- `same_identity`
abbrev pub same_identity : ⦃it : IdentityText⦄ → String → String → Bool
same_identity ⦃it⦄ left right =
    truthy (it.identity_text left) && str_eq (it.identity_text left) (it.identity_text right)

module _ ⦃py : PyText⦄ ⦃vt : VersionText⦄ where
  abbrev conflicts : String → List Change → Change → Bool
  conflicts scheme others c =
      any
        (λ o.
          is_equal (compare_versions (at_of c) (at_of o) scheme)
          && not (same_status c.status o.status))
        others

  -- `sorted` by the version that a change is at
  abbrev place : String → Change → List Change → List Change
  place scheme c [] = c ∷ []
  place scheme c (d ∷ ds) =
      let later = d ∷ place scheme c ds in
      if is_less (compare_versions (at_of d) (at_of c) scheme) then later else c ∷ d ∷ ds

  abbrev in_order : String → List Change → List Change
  in_order scheme [] = []
  in_order scheme (c ∷ cs) = place scheme c (in_order scheme cs)

  abbrev last_status : String → String → String → List Change → String
  last_status asset_version scheme status [] = status
  last_status asset_version scheme status (c ∷ cs) =
      last_status asset_version scheme
        (if is_at_least (compare_versions asset_version (at_of c) scheme)
          then py.casefold (text_or c.status "unknown")
          else status)
        cs

  abbrev changed_status : (asset_version scheme status : String) → Changes → Option String
  changed_status asset_version scheme status no_changes = some status
  changed_status asset_version scheme status bad_changes = none
  changed_status asset_version scheme status (changes cs) =
      if not (all (λ c. is_some c.at) cs)
      then none
      else if any (λ c. not (is_some (compare_versions asset_version (at_of c) scheme))) cs
      then none
      else if any (conflicts scheme cs) cs
      then none
      else some (last_status asset_version scheme status (in_order scheme cs))

  -- `_entry_status`
  unfoldable pub entry_status : String → Entry → Option String
  entry_status asset_version entry =
      changed_status asset_version (text_or entry.version_type "")
        (py.casefold (text_or entry.status "unknown")) entry.changes

  abbrev add_status : Option String → Tally → Tally
  add_status none t = record t { matched_version = true; uncertain = true }
  add_status (some s) t =
      if is_explicit s
      then record t { matched_version = true; states = s ∷ t.states }
      else record t { matched_version = true; uncertain = true }

  -- One entry.
  abbrev pub read_entry : String → Option Entry → Tally → Tally
  read_entry asset_version none t = record t { uncertain = true }
  read_entry asset_version (some entry) t = elim (version_entry asset_version entry) [
    | none ↦ record t { uncertain = true }
    | some false ↦ t
    | some true ↦ add_status (entry_status asset_version entry) t
  ]

  unfoldable pub read_entries : String → List (Option Entry) → Tally → Tally
  read_entries asset_version [] t = t
  read_entries asset_version (e ∷ es) t =
      read_entries asset_version es (read_entry asset_version e t)

  abbrev pub with_default : Option String → Tally → List String
  with_default none t = t.states
  with_default (some s) t =
      if not t.matched_version && not t.uncertain && truthy s
      then py.casefold s ∷ t.states
      else t.states

  abbrev pub read_versions : String → Entries → (default : Option String) → Seen → Seen
  read_versions asset_version no_list default seen = record seen {
    matched_product = true;
    uncertain = true;
  }
  read_versions asset_version (listed es) default seen =
      let t =
        read_entries asset_version es
          (record { matched_version = false; uncertain = seen.uncertain; states = seen.states }) in
      record { matched_product = true; uncertain = t.uncertain; states = with_default default t }

  module _ ⦃it : IdentityText⦄ where
    -- One item of `affected`; nothing for one that is no dict.
    abbrev pub read_product : (vendor product version : String) → Option Product → Seen → Seen
    read_product vendor product version none seen = seen
    read_product vendor product version (some p) seen =
        let same = same_identity vendor p.vendor && same_identity product p.product in
        if not same
        then seen
        else if p.is_qualified
        then record seen { matched_product = true; uncertain = true }
        else read_versions version p.versions p.default_status seen

    unfoldable pub read_products :
        (vendor product version : String) → List (Option Product) → Seen → Seen
    read_products vendor product version [] seen = seen
    read_products vendor product version (p ∷ ps) seen =
        read_products vendor product version ps (read_product vendor product version p seen)

    abbrev decision : Applicability → String → Bool → Decision
    decision state reason conflict = record { state = state; reason = reason; conflict = conflict }

    abbrev pub verdict : Seen → Decision
    verdict seen =
        let bad = member "affected" seen.states in
        let good = member "unaffected" seen.states in
        if bad && good
        then decision needs_review "official record contains conflicting version statuses" true
        else if (bad || good) && seen.uncertain
        then decision needs_review
            "explicit evidence overlaps version semantics that cannot be compared safely" true
        else if bad
        then decision affected "official record explicitly covers this product version" false
        else if good
        then decision not_affected "official record explicitly excludes this product version" false
        else if seen.matched_product && seen.uncertain
        then decision needs_review
            "product matches but its version scheme cannot be compared safely" false
        else if seen.matched_product
        then decision needs_review "product matches but version coverage is not explicit" false
        else decision coverage_unknown "official record does not identify this exact product" false

    abbrev pub nothing_seen : Seen
    nothing_seen = record { matched_product = false; uncertain = false; states = [] }

    abbrev judged : (vendor product version : String) → Option (List (Option Product)) → Decision
    judged vendor product version none =
        decision needs_review "source has no structured affected-product evidence" false
    judged vendor product version (some ps) =
        verdict (read_products vendor product version ps nothing_seen)

    -- `evaluate_cve_evidence`: the asset's three texts, and `affected`, if it is a list.
    unfoldable pub evaluate_cve_evidence :
        (vendor product version : String) → Option (List (Option Product)) → Decision
    evaluate_cve_evidence vendor product version products =
        if not (known_version version)
        then decision needs_review "inventory version is missing or unknown" false
        else judged vendor product version products
