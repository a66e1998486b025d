-- ===== src/Watch/Rules/Sources.antt =====
-- watch/rules.py: what rules ask of the sources, `contains_leaf`, `epss_minima`,
-- `rule_epss_thresholds` and `validate_rule_sources`.
pub mod Thresholds
pub mod Needs
pub mod Configured
mod Tests
use cvebeacon.Prelude.{
  ℕ, String, Bool, true, false, Option, none, some, List, [], ◌∷◌, ◌++◌, ◌&&◌, ◌||◌, not, any, all,
  member, is_nil, str_eq, if◌then◌else◌,
}
use cvebeacon.Watch.Rules.Data.{
  Leaf, kev, epss_min, KevCatalog, eu, Condition, leaf, all_of, any_of, not_of, Conditions, nil,
  cons, Rule,
}
use cvebeacon.Watch.Deliveries.Rows.{sorted_set}

-- `name == key and (value is None or item == value)`, for the two questions that are asked.
abbrev pub is_eu_kev : Leaf → Bool
is_eu_kev (kev eu) = true
is_eu_kev _ = false

abbrev pub is_epss_min : Leaf → Bool
is_epss_min (epss_min value) = true
is_epss_min _ = false

unfoldable mutual
  pub contains_leaf : (Leaf → Bool) → Condition → Bool
  contains_leaf asked (leaf ls) = any asked ls
  contains_leaf asked (all_of cs) = one_contains_leaf asked cs
  contains_leaf asked (any_of cs) = one_contains_leaf asked cs
  contains_leaf asked (not_of c) = contains_leaf asked c

  pub one_contains_leaf : (Leaf → Bool) → Conditions → Bool
  one_contains_leaf asked nil = false
  one_contains_leaf asked (cons c cs) = contains_leaf asked c || one_contains_leaf asked cs

abbrev pub leaf_minima : List Leaf → List ℕ
leaf_minima [] = []
leaf_minima (epss_min value ∷ ls) = value ∷ leaf_minima ls
leaf_minima (_ ∷ ls) = leaf_minima ls

unfoldable mutual
  pub epss_minima : Condition → List ℕ
  epss_minima (leaf ls) = leaf_minima ls
  epss_minima (all_of cs) = child_minima cs
  epss_minima (any_of cs) = child_minima cs
  epss_minima (not_of c) = epss_minima c

  pub child_minima : Conditions → List ℕ
  child_minima nil = []
  child_minima (cons c cs) = epss_minima c ++ child_minima cs

abbrev pub enabled_minima : List Rule → List ℕ
enabled_minima [] = []
enabled_minima (rule ∷ rules) =
    (if rule.enabled then epss_minima rule.condition else []) ++ enabled_minima rules

unfoldable pub rule_epss_thresholds : List Rule → List ℕ
rule_epss_thresholds rules = sorted_set (enabled_minima rules)

-- The rule that is rejected, and the source that it misses.
pub data Missing : Type 0 where
  needs_eu_kev needs_epss needs_euvd : String → Missing

-- `set(providers) == {"euvd"}`
abbrev pub only_euvd : List String → Bool
only_euvd providers = not (is_nil providers) && all (λ p. str_eq p "euvd") providers

-- The result of the check: nothing, or the first rule that is refused (ConfigurationError).
unfoldable pub validate_rule_sources : List Rule → List String → Option Missing
validate_rule_sources [] configured = none
validate_rule_sources (rule ∷ rules) configured =
    let rest = validate_rule_sources rules configured in
    if contains_leaf is_eu_kev rule.condition && not (member "eu_kev" configured)
    then some (needs_eu_kev rule.name)
    else if contains_leaf is_epss_min rule.condition && not (member "epss" configured)
    then some (needs_epss rule.name)
    else if only_euvd rule.cvss_providers && not (member "euvd" configured)
    then some (needs_euvd rule.name)
    else rest
