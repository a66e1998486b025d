-- ===== src/Scan/Reconcile/Tests.antt =====
-- The theorems on the verdict at concrete decisions.
use mathlib.Core.List.{Memᴰ}
use cvebeacon.Prelude.{String, ◌≡◌, ◌↔◌, refl, Bool, true, false, none, some, List, [], ◌∷◌, ◌||◌}
use cvebeacon.Scan.Reconcile.{
  affected, not_affected, needs_review, Decision, Vulnerability, reconcile,
}
use cvebeacon.Scan.Reconcile.Agreement.{reconcile-IsSame, reconcile_lem}

abbrev sample : Vulnerability
sample = record {
  cve_id = some "CVE-2024-1";
  summary = none;
  published = none;
  modified = none;
  rejected = false;
  cvss_score = some 7500000;
  cvss_vector = none;
  cvss_version = some "3.1";
  epss_score = none;
  epss_percentile = none;
  epss_date = none;
  cisa_kev = some false;
  eu_kev = none;
  references = [];
  advisory_id = "";
  aliases = [];
  source_ids = [];
  fixed_versions = [];
}

abbrev yes_decision : Decision
yes_decision = record { state = affected; reason = "in range"; conflict = false }

abbrev no_decision : Decision
no_decision = record { state = not_affected; reason = "fixed"; conflict = false }

abbrev two_ways : List Decision
two_ways = yes_decision ∷ no_decision ∷ []

abbrev other_way : List Decision
other_way = no_decision ∷ yes_decision ∷ no_decision ∷ []

there : (d : Decision) → Memᴰ d two_ways → Memᴰ d other_way
there d (Memᴰ.head e) = Memᴰ.tail (Memᴰ.head e)
there d (Memᴰ.tail (Memᴰ.head e)) = Memᴰ.head e
there d (Memᴰ.tail (Memᴰ.tail m)) = elim m [ ]

back : (d : Decision) → Memᴰ d other_way → Memᴰ d two_ways
back d (Memᴰ.head e) = Memᴰ.tail (Memᴰ.head e)
back d (Memᴰ.tail (Memᴰ.head e)) = Memᴰ.head e
back d (Memᴰ.tail (Memᴰ.tail (Memᴰ.head e))) = Memᴰ.tail (Memᴰ.head e)
back d (Memᴰ.tail (Memᴰ.tail (Memᴰ.tail m))) = elim m [ ]

reconcile-IsSame_example :
    ((reconcile {A = String} {E = String} "asset" sample [] two_ways false).applicability
      ≡ (reconcile {A = String} {E = String} "asset" sample [] other_way false).applicability)
    × ((reconcile {A = String} {E = String} "asset" sample [] two_ways false).confidence
        ≡ (reconcile {A = String} {E = String} "asset" sample [] other_way false).confidence)
reconcile-IsSame_example =
    reconcile-IsSame {A = String} {E = String} "asset" sample [] two_ways other_way false
      (λ d. (there d, back d))

reconcile_lem_example :
    (((reconcile {A = String} {E = String} "asset" sample [] (yes_decision ∷ []) true).applicability
        ≡ affected)
      ↔ ((false ≡ false)
          × (false ≡ false)
          × (false ≡ false)
          × (◌≡◌ {A = Bool} (true || true) true)))
    × (((reconcile {A = String} {E = String} "asset" sample []
            (yes_decision ∷ [])
            true).applicability
          ≡ not_affected)
        ↔ ((false ≡ false)
            × (false ≡ false)
            × (false ≡ true)
            × (true ≡ false)
            × (true ≡ false)
            × (false ≡ false)))
reconcile_lem_example =
    reconcile_lem {A = String} {E = String} "asset" sample [] (yes_decision ∷ []) true

-- Sources that disagree are reviewed.
disagreement :
    (reconcile {A = String} {E = String} "asset" sample [] two_ways false).applicability
    ≡ needs_review
unfolding reconcile
disagreement = refl
