-- ===== src/Scan/Merge.antt =====
-- src/cvebeacon/reconcile.py: `merge_vulnerabilities`, which makes one record of what the sources
-- say about a vulnerability.
pub mod Order
mod Tests
use Prim.Native.Nat as Nat
use Prim.Native.Nat.{Ordering}
use Prim.Native.String as Str
use cvebeacon.Prelude.{
  ℕ, zero, suc, String, Bool, true, false, Option, none, some, List, [], ◌∷◌, any, is_less,
  insert_sorted, if◌then◌else◌,
}
use cvebeacon.Scan.Reconcile.{Vulnerability}

-- `item.cvss_score if item.cvss_score is not None else -1`, one higher.
abbrev pub rank : Option ℕ → ℕ
rank none = zero
rank (some score) = suc score

-- `text or ""`
abbrev text_of : Option String → String
text_of none = ""
text_of (some text) = text

abbrev next_key : Ordering → Bool → Bool
next_key Ordering.lt later = true
next_key Ordering.eq later = later
next_key Ordering.gt later = false

abbrev text_order : Option String → Option String → Ordering
text_order s t = Str.compare (text_of s) (text_of t)

-- The sort key of the first record is less than that of the second.
unfoldable pub precedes : Vulnerability → Vulnerability → Bool
precedes v w = next_key (Nat.compare (rank w.cvss_score) (rank v.cvss_score)) (
    next_key (text_order v.cvss_version w.cvss_version) (
      next_key (text_order v.cvss_vector w.cvss_vector)
        (next_key (text_order v.summary w.summary) (is_less (text_order v.modified w.modified)))))

unfoldable pub insert_item : Vulnerability → List Vulnerability → List Vulnerability
insert_item v [] = v ∷ []
insert_item v (w ∷ ws) =
    let later = w ∷ insert_item v ws in if precedes w v then later else v ∷ w ∷ ws

-- `items.sort(key=...)`, which keeps the order of the records with equal keys.
unfoldable pub sorted_items : List Vulnerability → List Vulnerability
sorted_items [] = []
sorted_items (v ∷ vs) = insert_item v (sorted_items vs)

-- `preferred(field)`
unfoldable pub preferred : {A : Type 0} → (Vulnerability → Option A) → List Vulnerability → Option A
preferred field [] = none
preferred field (v ∷ vs) =
    let rest = preferred field vs in elim (field v) [ none ↦ rest | some a ↦ some a ]

abbrev pub says : Bool → Option Bool → Bool
says b none = false
says true (some c) = c
says false (some true) = false
says false (some false) = true

-- `True if any(field) else (False if any(field is False) else None)`
unfoldable pub flag_of : (Vulnerability → Option Bool) → List Vulnerability → Option Bool
flag_of field vs =
    if any (λ v. says true (field v)) vs
    then some true
    else if any (λ v. says false (field v)) vs
    then some false
    else none

abbrev with_texts : List String → List String → List String
with_texts [] rest = rest
with_texts (t ∷ ts) rest = insert_sorted t (with_texts ts rest)

-- `tuple(sorted({text for item in items for text in item.field}))`
unfoldable pub texts_of : (Vulnerability → List String) → List Vulnerability → List String
texts_of field [] = []
texts_of field (v ∷ vs) = with_texts (field v) (texts_of field vs)

abbrev pub merged : Vulnerability → List Vulnerability → Vulnerability
merged top items = record {
  cve_id = top.cve_id;
  summary = preferred (λ v. v.summary) items;
  published = preferred (λ v. v.published) items;
  modified = preferred (λ v. v.modified) items;
  rejected = any (λ v. v.rejected) items;
  cvss_score = top.cvss_score;
  cvss_vector = top.cvss_vector;
  cvss_version = top.cvss_version;
  epss_score = preferred (λ v. v.epss_score) items;
  epss_percentile = preferred (λ v. v.epss_percentile) items;
  epss_date = preferred (λ v. v.epss_date) items;
  cisa_kev = flag_of (λ v. v.cisa_kev) items;
  eu_kev = flag_of (λ v. v.eu_kev) items;
  references = texts_of (λ v. v.references) items;
  advisory_id = top.advisory_id;
  aliases = texts_of (λ v. v.aliases) items;
  source_ids = texts_of (λ v. v.source_ids) items;
  fixed_versions = texts_of (λ v. v.fixed_versions) items;
}

abbrev pub merge_sorted : List Vulnerability → Option Vulnerability
merge_sorted [] = none
merge_sorted (top ∷ rest) = some (merged top (top ∷ rest))

-- Without a result it raises a ValueError: there is nothing to merge.
unfoldable pub merge_vulnerabilities : List Vulnerability → Option Vulnerability
merge_vulnerabilities values = merge_sorted (sorted_items values)
