-- ===== src/Watch/Rules/Sources/Configured.antt =====
-- What the check of the configured sources refuses.
use mathlib.Core.List.{Memᴰ}
use cvebeacon.Prelude.{
  String, ◌≡◌, refl, ap, ◌∙◌, subst, true, false, Option, none, some, List, [], ◌∷◌, ◌&&◌, not,
  arith, member, Bool-cases, Option-cases, inl, inr,
}
use cvebeacon.Watch.Rules.Data.{Rule}
use cvebeacon.Watch.Rules.Sources.{
  contains_leaf, is_eu_kev, is_epss_min, only_euvd, Missing, needs_eu_kev, needs_epss, needs_euvd,
  validate_rule_sources,
}
use cvebeacon.Watch.Rules.Sources.Needs.{
  Uses, eu_catalog, epss_score, euvd_only, Occurs-contains, contains-eu_kev, contains-epss_min,
  only_euvd-Uses, All-only_euvd,
}

-- The source that is missing, and the rule that needs it.
abbrev pub source_of : Missing → String
source_of (needs_eu_kev name) = "eu_kev"
source_of (needs_epss name) = "epss"
source_of (needs_euvd name) = "euvd"

abbrev pub rule_of : Missing → String
rule_of (needs_eu_kev name) = name
rule_of (needs_epss name) = name
rule_of (needs_euvd name) = name

-- A rule of the list is named, needs the source and does not get it.
abbrev pub IsLacking : List Rule → List String → Missing → Type 0
IsLacking rules configured missing =
    (rule : Rule) × Memᴰ rule rules
    × (rule_of missing ≡ rule.name)
    × Uses rule (source_of missing)
    × (member (source_of missing) configured ≡ false)

-- A refused rule lacks the source.
abbrev Honest : List Rule → List String → Option Missing → Type 0
Honest rules configured none = Unit
Honest rules configured (some missing) = IsLacking rules configured missing

IsLacking-later :
    (r : Rule) (rules : List Rule) (configured : List String) (o : Option Missing)
    → Honest rules configured o
    → Honest (r ∷ rules) configured o
IsLacking-later r rules configured none h = tt
IsLacking-later r rules configured (some missing) (rule, m, e, u, l) = (rule, Memᴰ.tail m, e, u, l)

validate_rule_sources-Honest :
    (rules : List Rule) (configured : List String)
    → Honest rules configured (validate_rule_sources rules configured)
unfolding validate_rule_sources
validate_rule_sources-Honest [] configured = tt
validate_rule_sources-Honest (r ∷ rules) configured =
    elim (Bool-cases (contains_leaf is_eu_kev r.condition && not (member "eu_kev" configured))) [
      | inl e ↦
          rw (e, validate_rule_sources)
            (
              r,
              Memᴰ.head refl,
              refl,
              eu_catalog refl (contains-eu_kev r.condition (ground (arith, e))),
              ground (arith, e),
            )
      | inr e ↦
          elim (Bool-cases
            (contains_leaf is_epss_min r.condition && not (member "epss" configured))) [
              | inl f ↦
                  let (floor, o) = contains-epss_min r.condition (ground (arith, f)) in
                  rw (e, f, validate_rule_sources)
                    (r, Memᴰ.head refl, refl, epss_score floor refl o, ground (arith, f))
              | inr f ↦
                  elim (Bool-cases (only_euvd r.cvss_providers && not (member "euvd" configured))) [
                    | inl g ↦
                        rw (e, f, g, validate_rule_sources)
                          (
                            r,
                            Memᴰ.head refl,
                            refl,
                            only_euvd-Uses r r.cvss_providers refl (ground (arith, g)),
                            ground (arith, g),
                          )
                    | inr g ↦
                        rw (e, f, g, validate_rule_sources)
                          (IsLacking-later r rules configured
                            (validate_rule_sources rules configured)
                            (validate_rule_sources-Honest rules configured))
                  ]
            ]
    ]

-- The rule has what it needs when nothing is refused.
validate_rule_sources-serves :
    (rules : List Rule) (configured : List String) (rule : Rule) (source : String)
    → Memᴰ rule rules
    → Uses rule source
    → validate_rule_sources rules configured ≡ none
    → member source configured ≡ true
unfolding validate_rule_sources
validate_rule_sources-serves [] configured rule source m u h = elim m [ ]
validate_rule_sources-serves (r ∷ rules) configured rule source (Memᴰ.tail m) u h =
    validate_rule_sources-serves rules configured rule source m u (ground arith)
validate_rule_sources-serves (r ∷ rules) configured rule source (Memᴰ.head e) u h =
    passed (subst (λ s. Uses s source) e u)
  where
    passed : Uses r source → member source configured ≡ true
    passed (eu_catalog same o) =
        ap (λ s. member s configured) same ∙ ground (arith, h, Occurs-contains is_eu_kev o refl)
    passed (epss_score floor same o) =
        ap (λ s. member s configured) same ∙ ground (arith, h, Occurs-contains is_epss_min o refl)
    passed (euvd_only p ps same given only) =
        ap (λ s. member s configured) same
        ∙ ground (arith, h, ap only_euvd given, All-only_euvd p ps only)

-- When a rule of the list needs a source that is not configured, the check of the sources refuses
-- a rule of the list by its name, which needs the source that is reported and does not get it; a
-- rule needs the EU catalogue or the EPSS scores for a leaf anywhere in its tree, below a not as
-- well, and the EUVD when it chooses no other provider of scores.
pub validate_rule_sources-refuses :
    (rules : List Rule) (configured : List String) (rule : Rule) (source : String)
    → Memᴰ rule rules
    → Uses rule source
    → member source configured ≡ false
    → (missing : Missing) × (validate_rule_sources rules configured ≡ some missing)
      × IsLacking rules configured missing
validate_rule_sources-refuses rules configured rule source m u lacks =
    elim (Option-cases (validate_rule_sources rules configured)) [
      | inl e ↦
          absurd
            (ground (arith, lacks, validate_rule_sources-serves rules configured rule source m u e))
      | inr (missing, e) ↦ (
        missing,
        e,
        subst (Honest rules configured) e (validate_rule_sources-Honest rules configured),
      )
    ]
