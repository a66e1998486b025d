-- ===== src/Watch/Rules/Stored.antt =====
-- watch/rules.py: `AlertSnapshot.as_dict` and `AlertSnapshot.from_dict`, the snapshot as it is stored.
pub mod Loads
mod Tests
use cvebeacon.Prelude.{
  ℕ, suc, ◌*◌, String, ◌≡◌, Bool, true, false, Option, none, some, List, [], ◌∷◌, leb, str_eq,
  if◌then◌else◌,
}
use cvebeacon.Watch.Records.{Status, Exploitation}
use cvebeacon.Watch.Rules.Data.{
  SeverityBand, unrated, low, medium, high, critical, EpssBand, unscored, below_one, below_five,
  below_nine, from_nine, AlertSnapshot,
}
use cvebeacon.Watch.Rules.Parse.{Float, not_a_number, infinite, negative, millionths, float_limit}

-- A value of the stored mapping; `negative_int n` is `-(n + 1)`, `other` is a list or a mapping,
-- with its text.
pub data Json : Type 0 where
  null : Json
  boolean : Bool → Json
  natural negative_int : ℕ → Json
  float : Float → Json
  text : String → Json
  other : String → Json

-- `str` of a stored value.
pub record PyStr : Type 0 where
  pub str : Json → String
  pub str-text : (s : String) → str (text s) ≡ s

-- What `from_dict` does: its ValueError, the OverflowError of `float` for a huge integer, or the
-- snapshot.
pub data Loaded {ℓ} (A : Type ℓ) : Type ℓ where
  invalid overflow : Loaded A
  loaded : A → Loaded A

infixl 5 ◌>>=◌
abbrev pub ◌>>=◌ {ℓ ℓ'} : {A : Type ℓ} {B : Type ℓ'} → Loaded A → (A → Loaded B) → Loaded B
invalid >>= f = invalid
overflow >>= f = overflow
loaded a >>= f = f a

abbrev pub exploitation_name : Exploitation → String
exploitation_name Exploitation.absent = "none"
exploitation_name Exploitation.poc = "poc"
exploitation_name Exploitation.active = "active"

abbrev pub severity_name : SeverityBand → String
severity_name unrated = "none"
severity_name low = "low"
severity_name medium = "medium"
severity_name high = "high"
severity_name critical = "critical"

abbrev pub epss_name : EpssBand → String
epss_name unscored = "none"
epss_name below_one = "<0.1"
epss_name below_five = "<0.5"
epss_name below_nine = "<0.9"
epss_name from_nine = ">=0.9"

abbrev pub status_name : Status → String
status_name Status.published = "published"
status_name Status.rejected = "rejected"

abbrev pub score_value : Option ℕ → Json
score_value none = null
score_value (some n) = float (millionths n)

unfoldable pub as_dict : AlertSnapshot → List (String × Json)
as_dict s =
    ("cisa_kev", boolean s.cisa_kev)
    ∷ ("eu_kev", boolean s.eu_kev)
    ∷ ("exploitation", text (exploitation_name s.exploitation))
    ∷ ("severity_band", text (severity_name s.severity_band))
    ∷ ("epss_band", text (epss_name s.epss_band))
    ∷ ("nvd_score", boolean s.nvd_score)
    ∷ ("status", text (status_name s.status))
    ∷ ("max_severity_band", text (severity_name s.max_severity_band))
    ∷ ("max_epss_band", text (epss_name s.max_epss_band))
    ∷ ("epss", score_value s.epss)
    ∷ ("severity", score_value s.severity)
    ∷ []

-- `value[key]`, where a KeyError becomes the ValueError.
abbrev pub get : String → List (String × Json) → Loaded Json
get key [] = invalid
get key ((k, v) ∷ rest) = if str_eq k key then loaded v else get key rest

-- `value.get(key, default)`
abbrev pub get_or : String → Json → List (String × Json) → Json
get_or key default [] = default
get_or key default ((k, v) ∷ rest) = if str_eq k key then v else get_or key default rest

abbrev pub flag : Json → Loaded Bool
flag (boolean b) = loaded b
flag _ = invalid

abbrev pub exploitation_of : String → Loaded Exploitation
exploitation_of s =
    if str_eq s "none"
    then loaded Exploitation.absent
    else if str_eq s "poc"
    then loaded Exploitation.poc
    else if str_eq s "active"
    then loaded Exploitation.active
    else invalid

abbrev pub severity_of : String → Loaded SeverityBand
severity_of s =
    if str_eq s "none"
    then loaded unrated
    else if str_eq s "low"
    then loaded low
    else if str_eq s "medium"
    then loaded medium
    else if str_eq s "high"
    then loaded high
    else if str_eq s "critical"
    then loaded critical
    else invalid

abbrev pub epss_of : String → Loaded EpssBand
epss_of s =
    if str_eq s "none"
    then loaded unscored
    else if str_eq s "<0.1"
    then loaded below_one
    else if str_eq s "<0.5"
    then loaded below_five
    else if str_eq s "<0.9"
    then loaded below_nine
    else if str_eq s ">=0.9"
    then loaded from_nine
    else invalid

abbrev pub status_of : String → Loaded Status
status_of s =
    if str_eq s "published"
    then loaded Status.published
    else if str_eq s "rejected"
    then loaded Status.rejected
    else invalid

-- A score that is None or a number from 0 to the maximum, in millionths; `float` of an integer from
-- the limit on, of either sign, overflows.
abbrev pub score_of : Json → ℕ → Loaded (Option ℕ)
score_of null maximum = loaded none
score_of (natural n) maximum =
    if leb float_limit n
    then overflow
    else if leb (n * 1000000) maximum
    then loaded (some (n * 1000000))
    else invalid
score_of (negative_int n) maximum = if leb float_limit (suc n) then overflow else invalid
score_of (float (millionths n)) maximum = if leb n maximum then loaded (some n) else invalid
score_of _ maximum = invalid

module _ ⦃py : PyStr⦄ where
  unfoldable pub checks :
      Json
      → Json
      → Json
      → Json
      → Json
      → Json
      → Json
      → Json
      → Json
      → Json
      → Json
      → Loaded AlertSnapshot
  checks cisa eu exploitation severity_band epss_band nvd_score status max_severity_band
        max_epss_band epss severity =
      flag cisa >>= λ cisa_kev. flag nvd_score >>= λ has_score. flag eu >>= λ eu_kev.
      exploitation_of (py.str exploitation) >>= λ exploited.
      severity_of (py.str severity_band) >>= λ band. epss_of (py.str epss_band) >>= λ scored.
      status_of (py.str status) >>= λ state. severity_of (py.str max_severity_band) >>= λ highest.
      epss_of (py.str max_epss_band) >>= λ most. score_of epss 1000000 >>= λ epss_score.
      score_of severity 10000000 >>= λ severity_score. loaded (record {
        cisa_kev = cisa_kev;
        eu_kev = eu_kev;
        exploitation = exploited;
        severity_band = band;
        epss_band = scored;
        nvd_score = has_score;
        status = state;
        max_severity_band = highest;
        max_epss_band = most;
        epss = epss_score;
        severity = severity_score;
      })

  -- First all that is looked up, then the checks, in the order of the source.
  unfoldable pub from_dict : List (String × Json) → Loaded AlertSnapshot
  from_dict value = get "cisa_kev" value >>= λ cisa. get "eu_kev" value >>= λ eu.
      get "exploitation" value >>= λ exploitation. get "severity_band" value >>= λ severity_band.
      get "epss_band" value >>= λ epss_band. get "nvd_score" value >>= λ nvd_score.
      get "status" value >>= λ status.
      checks cisa eu exploitation severity_band epss_band nvd_score status
        (get_or "max_severity_band" severity_band value) (get_or "max_epss_band" epss_band value)
        (get_or "epss" null value) (get_or "severity" null value)
