-- ===== src/Watch/Rules/Sources/Thresholds.antt =====
-- A new EPSS score that passes the same thresholds changes no match.
use mathlib.Core.List.{Memᴰ}
use cvebeacon.Prelude.{
  ℕ, ◌≡◌, refl, sym, ap, ◌∙◌, subst, Bool, true, false, Option, none, some, List, [], ◌∷◌, ◌++◌,
  not, arith, leb, all, if◌then◌else◌, PyText,
}
use cvebeacon.Watch.Records.{WatchView}
use cvebeacon.Watch.Rules.Data.{
  Leaf, cvss_min, cvss_max, epss_min, kev, exploitation, vendor, product, keyword, cwe, cna, status,
  Rule, Condition, leaf, all_of, any_of, not_of, Conditions, nil, cons,
}
use cvebeacon.Watch.Rules.Scores.{highest_cvss}
use cvebeacon.Watch.Rules.Match.{matches_leaf, exploitation_level, exploitation_sources}
use cvebeacon.Watch.Rules.Tree.{evaluate_condition}
use cvebeacon.Watch.Rules.Tree.Meaning.{leaf_holds, holds, every, one_of, evaluate_condition_lem}
use cvebeacon.Watch.Rules.Sources.{
  leaf_minima, epss_minima, child_minima, enabled_minima, rule_epss_thresholds,
}
use cvebeacon.Watch.Deliveries.Rows.{id_in}
use cvebeacon.Watch.Deliveries.Rows.Identifiers.{id_in-sorted_set}
use cvebeacon.Watch.Deliveries.Claim.Batches.{id_in-append}

-- `epss >= threshold`, which no missing score passes
abbrev pub passes : ℕ → Option ℕ → Bool
passes t none = false
passes t (some v) = leb t v

-- The same view with another score.
abbrev pub rescored : WatchView → Option ℕ → WatchView
rescored view score = record view { epss = score }

-- The two scores pass the same of these thresholds.
abbrev pub PassesSame : Option ℕ → Option ℕ → List ℕ → Type 0
PassesSame a b ts = (t : ℕ) → id_in t ts ≡ true → passes t a ≡ passes t b

PassesSame-left : (a b : Option ℕ) (ts us : List ℕ) → PassesSame a b (ts ++ us) → PassesSame a b ts
PassesSame-left a b ts us h t m = h t (ground (arith, id_in-append t ts us))

PassesSame-right : (a b : Option ℕ) (ts us : List ℕ) → PassesSame a b (ts ++ us) → PassesSame a b us
PassesSame-right a b ts us h t m = h t (ground (arith, id_in-append t ts us))

module _ ⦃py : PyText⦄ (view : WatchView) (rule : Rule) (a b : Option ℕ) where
  epss_leaf_passes :
      (t : ℕ) (s : Option ℕ) → (matches_leaf (rescored view s) rule (epss_min t)).0 ≡ passes t s
  unfolding matches_leaf
  epss_leaf_passes t none = refl
  epss_leaf_passes t (some v) = refl

  -- Every other leaf does not read the score.
  leaf-rescored :
      (l : Leaf)
      → PassesSame a b (leaf_minima (l ∷ []))
      → (matches_leaf (rescored view a) rule l).0 ≡ (matches_leaf (rescored view b) rule l).0
  unfolding matches_leaf highest_cvss exploitation_level exploitation_sources
  leaf-rescored (epss_min t) h =
      epss_leaf_passes t a ∙ h t (ground arith) ∙ sym (epss_leaf_passes t b)
  leaf-rescored (cvss_min x) h = refl
  leaf-rescored (cvss_max x) h = refl
  leaf-rescored (kev x) h = refl
  leaf-rescored (exploitation x) h = refl
  leaf-rescored (vendor x) h = refl
  leaf-rescored (product x) h = refl
  leaf-rescored (keyword x) h = refl
  leaf-rescored (cwe x) h = refl
  leaf-rescored (cna x) h = refl
  leaf-rescored (status x) h = refl

leaf_minima-cons :
    (l : Leaf) (ls : List Leaf) → leaf_minima (l ∷ ls) ≡ leaf_minima (l ∷ []) ++ leaf_minima ls
leaf_minima-cons (cvss_min x) ls = refl
leaf_minima-cons (cvss_max x) ls = refl
leaf_minima-cons (kev x) ls = refl
leaf_minima-cons (exploitation x) ls = refl
leaf_minima-cons (vendor x) ls = refl
leaf_minima-cons (product x) ls = refl
leaf_minima-cons (keyword x) ls = refl
leaf_minima-cons (cwe x) ls = refl
leaf_minima-cons (cna x) ls = refl
leaf_minima-cons (status x) ls = refl
leaf_minima-cons (epss_min x) ls = refl

module _ ⦃py : PyText⦄ (view : WatchView) (rule : Rule) (a b : Option ℕ) where
  leaves-rescored :
      (ls : List Leaf)
      → PassesSame a b (leaf_minima ls)
      → all (leaf_holds (rescored view a) rule) ls ≡ all (leaf_holds (rescored view b) rule) ls
  leaves-rescored [] h = refl
  leaves-rescored (l ∷ ls) h =
      let both = subst (PassesSame a b) (leaf_minima-cons l ls) h in
      ground (
        arith,
        leaf-rescored view rule a b l
            (PassesSame-left a b (leaf_minima (l ∷ [])) (leaf_minima ls) both),
        leaves-rescored ls (PassesSame-right a b (leaf_minima (l ∷ [])) (leaf_minima ls) both),
      )

  mutual
    unfolding holds epss_minima

    holds-rescored :
        (c : Condition)
        → PassesSame a b (epss_minima c)
        → holds (rescored view a) rule c ≡ holds (rescored view b) rule c
    holds-rescored (leaf ls) h = leaves-rescored ls h
    holds-rescored (all_of cs) h = every-rescored cs h
    holds-rescored (any_of cs) h = one_of-rescored cs h
    holds-rescored (not_of c) h = ap not (holds-rescored c h)

    every-rescored :
        (cs : Conditions)
        → PassesSame a b (child_minima cs)
        → every (rescored view a) rule cs ≡ every (rescored view b) rule cs
    every-rescored nil h = refl
    every-rescored (cons c cs) h = ground (
      arith,
      holds-rescored c (PassesSame-left a b (epss_minima c) (child_minima cs) h),
      every-rescored cs (PassesSame-right a b (epss_minima c) (child_minima cs) h),
    )

    one_of-rescored :
        (cs : Conditions)
        → PassesSame a b (child_minima cs)
        → one_of (rescored view a) rule cs ≡ one_of (rescored view b) rule cs
    one_of-rescored nil h = refl
    one_of-rescored (cons c cs) h = ground (
      arith,
      holds-rescored c (PassesSame-left a b (epss_minima c) (child_minima cs) h),
      one_of-rescored cs (PassesSame-right a b (epss_minima c) (child_minima cs) h),
    )

-- The thresholds of a rule that is enabled are among those of all the rules.
enabled-mem :
    (rules : List Rule) (rule : Rule) (t : ℕ)
    → Memᴰ rule rules
    → rule.enabled ≡ true
    → id_in t (epss_minima rule.condition) ≡ true
    → id_in t (enabled_minima rules) ≡ true
enabled-mem [] rule t m on h = elim m [ ]
enabled-mem (r ∷ rules) rule t (Memᴰ.head e) on h = ground (
  arith,
  id_in-append t (if r.enabled then epss_minima r.condition else []) (enabled_minima rules),
  ap (λ (s : Rule). s.enabled) e,
  ap (λ (s : Rule). id_in t (epss_minima s.condition)) e,
)
enabled-mem (r ∷ rules) rule t (Memᴰ.tail m) on h = ground (
  arith,
  id_in-append t (if r.enabled then epss_minima r.condition else []) (enabled_minima rules),
  enabled-mem rules rule t m on h,
)

-- When two EPSS scores, or none, pass the same of the thresholds of a list of rules, the
-- condition of every enabled rule of the list gives the same match for a view with either score.
pub rule_epss_thresholds_lem :
    ⦃py : PyText⦄ (rules : List Rule) (rule : Rule) (view : WatchView) (a b : Option ℕ)
    → Memᴰ rule rules
    → rule.enabled ≡ true
    → PassesSame a b (rule_epss_thresholds rules)
    → (evaluate_condition (rescored view a) rule rule.condition).0
      ≡ (evaluate_condition (rescored view b) rule rule.condition).0
unfolding rule_epss_thresholds
rule_epss_thresholds_lem rules rule view a b m on h =
    let inside : PassesSame a b (epss_minima rule.condition) =
      λ t k. h t (id_in-sorted_set t (enabled_minima rules) ∙ enabled-mem rules rule t m on k) in
    (evaluate_condition_lem (rescored view a) rule rule.condition).0
    ∙ holds-rescored view rule a b rule.condition inside
    ∙ sym (evaluate_condition_lem (rescored view b) rule rule.condition).0
