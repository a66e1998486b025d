-- ===== src/Scan/Versions.antt =====
-- applicability.py: the comparison of versions, and the entries of a CVE record that cover a version.
-- The five text keys of an entry are texts or absent, or the entry is not typed; the status of a
-- change is a text or absent.
use Prim.Native.Char.{code}
use Prim.Native.Nat.{compare, Ordering}
use Prim.Native.String
use text.Mathlib.Text.{starts_with}
use cvebeacon.Prelude.{
  ℕ, String, Bool, true, false, Option, none, some, List, [], ◌∷◌, ◌&&◌, ◌||◌, ◌==◌, not,
  if◌then◌else◌, str_eq, any, member, truthy, is_some, PyText,
}

-- `re.fullmatch` of the pattern of `_semver`: its three numbers and the split prerelease; `isdigit`
-- and `int` of a text; and the order of packaging's Version, with nothing for InvalidVersion.
pub record VersionText : Type 0 where
  pub semver_match : String → Option ((ℕ × ℕ × ℕ) × List String)
  pub isdigit : String → Bool
  pub int : String → ℕ
  pub compare_python : String → String → Option Ordering

-- `any(char in value for char in "*?<>=")`
abbrev has_wildcard : String → Bool
has_wildcard String.[] = false
has_wildcard (String.◌∷◌ c s) =
    (code c == b'*')
    || (code c == b'?')
    || (code c == b'<')
    || (code c == b'>')
    || (code c == b'=')
    || has_wildcard s

-- `text or default`
abbrev pub text_or : Option String → String → String
text_or none default = default
text_or (some s) default = if truthy s then s else default

abbrev pub is_less : Option Ordering → Bool
is_less (some Ordering.lt) = true
is_less _ = false

abbrev pub is_equal : Option Ordering → Bool
is_equal (some Ordering.eq) = true
is_equal _ = false

abbrev pub is_at_least : Option Ordering → Bool
is_at_least (some Ordering.lt) = false
is_at_least none = false
is_at_least _ = true

-- One after the other, while they are equal.
abbrev then_compare : Ordering → Ordering → Ordering
then_compare Ordering.eq next = next
then_compare first next = first

pub record Change : Type 0 where
  pub at : Option String
  pub status : Option String

-- `changes`: absent or empty, no list, or a list of changes; one that is no dict has no `at`.
pub data Changes : Type 0 where
  no_changes bad_changes : Changes
  changes : List Change → Changes

pub record Entry : Type 0 where
  pub is_typed : Bool
  pub version : Option String
  pub version_type : Option String
  pub less_than : Option String
  pub less_than_or_equal : Option String
  pub status : Option String
  pub changes : Changes

-- `change.get("status") != other.get("status")`
abbrev pub same_status : Option String → Option String → Bool
same_status none none = true
same_status (some s) (some t) = str_eq s t
same_status _ _ = false

module _ ⦃py : PyText⦄ where
  -- `known_version`
  unfoldable pub known_version : String → Bool
  known_version value =
      truthy (py.strip value)
      && not (has_wildcard value)
      && not (
          member (py.casefold (py.strip value))
            ("-" ∷ "unknown" ∷ "n/a" ∷ "na" ∷ "latest" ∷ "all" ∷ []))

  module _ ⦃vt : VersionText⦄ where
    abbrev has_leading_zero : String → Bool
    has_leading_zero s = vt.isdigit s && not (str_eq s "0") && starts_with s "0"

    abbrev parsed : Option ((ℕ × ℕ × ℕ) × List String) → Option ((ℕ × ℕ × ℕ) × List String)
    parsed none = none
    parsed (some (release, prerelease)) =
        if any has_leading_zero prerelease then none else some (release, prerelease)

    -- `_semver`
    unfoldable pub semver : String → Option ((ℕ × ℕ × ℕ) × List String)
    semver value = parsed (vt.semver_match value)

    abbrev compare_identifier : String → String → Ordering
    compare_identifier x y =
        if vt.isdigit x && vt.isdigit y
        then compare (vt.int x) (vt.int y)
        else if vt.isdigit x
        then Ordering.lt
        else if vt.isdigit y
        then Ordering.gt
        else String.compare x y

    -- The loop over the two prereleases, then their lengths.
    abbrev compare_prerelease : List String → List String → Ordering
    compare_prerelease [] [] = Ordering.eq
    compare_prerelease [] (y ∷ ys) = Ordering.lt
    compare_prerelease (x ∷ xs) [] = Ordering.gt
    compare_prerelease (x ∷ xs) (y ∷ ys) =
        let rest = compare_prerelease xs ys in if str_eq x y then rest else compare_identifier x y

    -- A release comes after its prereleases.
    abbrev compare_tail : List String → List String → Ordering
    compare_tail [] [] = Ordering.eq
    compare_tail [] (y ∷ ys) = Ordering.gt
    compare_tail (x ∷ xs) [] = Ordering.lt
    compare_tail xs ys = compare_prerelease xs ys

    abbrev compare_semver :
        Option ((ℕ × ℕ × ℕ) × List String) → Option ((ℕ × ℕ × ℕ) × List String) → Option Ordering
    compare_semver (some ((a, b, c), xs)) (some ((d, e, f), ys)) = some (
        then_compare (compare a d)
          (then_compare (compare b e) (then_compare (compare c f) (compare_tail xs ys))))
    compare_semver _ _ = none

    -- `_compare_versions`
    unfoldable pub compare_versions : (left right scheme : String) → Option Ordering
    compare_versions left right scheme =
        if str_eq (py.casefold scheme) "semver"
        then compare_semver (semver left) (semver right)
        else if not (str_eq (py.casefold scheme) "python")
        then none
        else vt.compare_python left right

    abbrev is_status : Option String → Bool
    is_status none = false
    is_status (some s) = member s ("affected" ∷ "unaffected" ∷ "unknown" ∷ [])

    abbrev matches_exactly : String → String → String → Option Bool
    matches_exactly asset_version start scheme =
        if str_eq asset_version start
        then some true
        else if member (py.casefold scheme) ("semver" ∷ "python" ∷ [])
        then (if is_some (compare_versions asset_version start scheme)
            then some (is_equal (compare_versions asset_version start scheme))
            else none)
        else if has_wildcard start
        then none
        else some false

    abbrev below : (asset_version endpoint scheme : String) → (inclusive : Bool) → Option Bool
    below asset_version endpoint scheme inclusive =
        let order = compare_versions asset_version endpoint scheme in
        if str_eq endpoint "*"
        then some true
        else if not (is_some order)
        then none
        else some (is_less order || (inclusive && is_equal order))

    abbrev ranges :
        (asset_version start scheme endpoint : String) → (inclusive : Bool) → Option Bool
    ranges asset_version start scheme endpoint inclusive =
        let lower = compare_versions asset_version start scheme in
        let upper = below asset_version endpoint scheme inclusive in
        if not (is_some (compare_versions asset_version asset_version scheme))
        then none
        else if member start ("0" ∷ "*" ∷ [])
        then upper
        else if not (is_some lower)
        then none
        else if is_less lower
        then some false
        else upper

    abbrev by_bounds :
        (asset_version start scheme : String) → (less_than less_equal : Option String) → Option Bool
    by_bounds asset_version start scheme (some end) (some last) = none
    by_bounds asset_version start scheme (some end) none =
        ranges asset_version start scheme end false
    by_bounds asset_version start scheme none (some last) =
        ranges asset_version start scheme last true
    by_bounds asset_version start scheme none none =
        if str_eq start "*" then some true else matches_exactly asset_version start scheme

    -- `_version_entry`
    unfoldable pub version_entry : String → Entry → Option Bool
    version_entry asset_version entry =
        let start = py.strip (text_or entry.version "") in
        if not entry.is_typed || not (truthy start) || not (is_status entry.status)
        then none
        else by_bounds asset_version start (py.strip (text_or entry.version_type ""))
            entry.less_than entry.less_than_or_equal
