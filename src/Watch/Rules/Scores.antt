-- ===== src/Watch/Rules/Scores.antt =====
-- watch/rules.py: one CVSS score per provider, the highest score, and the bands.
use Prim.Native.Nat.{compare, Ordering}
use Prim.Native.String
use cvebeacon.Prelude.{
  insert_sorted, ℕ, ◌+◌, String, Bool, true, false, Option, none, some, List, [], ◌∷◌, not, ltb,
  str_eq, if◌then◌else◌, select, member,
}
use cvebeacon.Watch.Records.{CvssEntry, WatchView}
use cvebeacon.Watch.Rules.Data.{
  SeverityBand, unrated, low, medium, high, critical, EpssBand, unscored, below_one, below_five,
  below_nine, from_nine,
}

-- records.py: CVSS_PROVIDERS
abbrev pub cvss_providers : List String
cvss_providers = "nvd" ∷ "cna" ∷ "cisa-adp" ∷ "euvd" ∷ "other" ∷ []

-- `CVSS_PROVIDERS.index(provider)`, and the length of the tuple where it is not there.
pub index_in : String → List String → ℕ
index_in p [] = 0
index_in p (q ∷ qs) = if str_eq q p then 0 else index_in p qs + 1

pub provider_priority : String → ℕ
unfolding index_in
provider_priority p = index_in p cvss_providers

abbrev pub vector_text : Option String → String
vector_text none = ""
vector_text (some v) = v

-- Lexicographic order on tuples, one component after the other.
abbrev pub then_by : Ordering → Ordering → Ordering
then_by Ordering.eq o = o
then_by o _ = o

-- `(entry.score, entry.source, entry.version, entry.vector or "")`
pub best_order : CvssEntry → CvssEntry → Ordering
best_order a b = then_by (compare a.score b.score) (
    then_by (String.compare a.source b.source) (
      then_by (String.compare a.version b.version)
        (String.compare (vector_text a.vector) (vector_text b.vector))))

-- `(entry.score, -_provider_priority(entry.provider), entry.source, entry.version)`
pub highest_order : CvssEntry → CvssEntry → Ordering
unfolding provider_priority
highest_order a b = then_by (compare a.score b.score) (
    then_by (compare (provider_priority b.provider) (provider_priority a.provider))
      (then_by (String.compare a.source b.source) (String.compare a.version b.version)))

abbrev pub is_greater : Ordering → Bool
is_greater Ordering.gt = true
is_greater _ = false

-- `max(values, key=...)`: the first of the greatest.
pub max_by : (CvssEntry → CvssEntry → Ordering) → CvssEntry → List CvssEntry → CvssEntry
max_by order best [] = best
max_by order best (e ∷ es) = max_by order (if is_greater (order e best) then e else best) es

abbrev pub max_of : (CvssEntry → CvssEntry → Ordering) → List CvssEntry → Option CvssEntry
max_of order [] = none
max_of order (e ∷ es) = some (max_by order e es)

abbrev pub is_modern : CvssEntry → Bool
is_modern e = not (str_eq e.version "2.0")

-- `modern or candidates`
abbrev pub pool : List CvssEntry → List CvssEntry → List CvssEntry
pool [] candidates = candidates
pool (m ∷ ms) candidates = m ∷ ms

-- The distinct providers of the entries, in `sorted` order.
pub providers_of : List CvssEntry → List String
unfolding insert_sorted
providers_of [] = []
providers_of (e ∷ es) = insert_sorted e.provider (providers_of es)

abbrev pub append_option : Option CvssEntry → List CvssEntry → List CvssEntry
append_option none es = es
append_option (some e) es = e ∷ es

-- The entry that one provider contributes.
pub provider_choice : List CvssEntry → String → Option CvssEntry
unfolding max_by best_order
provider_choice entries provider =
    let candidates = select (λ e. str_eq e.provider provider) entries in
    max_of best_order (pool (select is_modern candidates) candidates)

pub choices : List CvssEntry → List String → List CvssEntry
unfolding provider_choice
choices entries [] = []
choices entries (p ∷ ps) = append_option (provider_choice entries p) (choices entries ps)

unfoldable pub provider_best : List CvssEntry → List CvssEntry
unfolding choices providers_of
provider_best entries = choices entries (providers_of entries)

unfoldable pub highest_cvss : WatchView → List String → Option CvssEntry
unfolding provider_best max_by highest_order
highest_cvss view providers =
    max_of highest_order (provider_best (select (λ e. member e.provider providers) view.cvss))

-- 0.1, 4, 7 and 9 in millionths.
unfoldable pub severity_band : Option ℕ → SeverityBand
severity_band none = unrated
severity_band (some score) =
    if ltb score 100000
    then unrated
    else if ltb score 4000000
    then low
    else if ltb score 7000000
    then medium
    else if ltb score 9000000
    then high
    else critical

unfoldable pub epss_band : Option ℕ → EpssBand
epss_band none = unscored
epss_band (some value) =
    if ltb value 100000
    then below_one
    else if ltb value 500000
    then below_five
    else if ltb value 900000
    then below_nine
    else from_nine
