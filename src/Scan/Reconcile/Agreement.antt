-- ===== src/Scan/Reconcile/Agreement.antt =====
-- The verdict and the order of the sources.
use cvebeacon.Prelude.{
  IsSame, any_same, ◌≡◌, ◌↔◌, refl, Bool, true, false, List, [], ◌∷◌, ◌||◌, not, arith, any, all,
  is_nil,
}
use cvebeacon.Scan.Reconcile.{
  affected, not_affected, needs_review, coverage_unknown, Decision, Vulnerability, state_eq,
  has_state, has_conflict, reconcile,
}

all-any : (p : Decision → Bool) (ds : List Decision) → all p ds ≡ not (any (λ d. not (p d)) ds)
all-any p [] = refl
all-any p (d ∷ ds) = ground (arith, all-any p ds)

is_nil-any : (ds : List Decision) → is_nil ds ≡ not (any (λ d. true) ds)
is_nil-any [] = refl
is_nil-any (d ∷ ds) = refl

module _ {A E : Type 0} (asset : A) (v : Vulnerability) (evidence : List E) where
  -- Two lists with the same decisions, in any order and any number of times, give the same
  -- verdict and the same confidence.
  pub reconcile-IsSame :
      (ds es : List Decision) (exact : Bool)
      → IsSame ds es
      → ((reconcile asset v evidence ds exact).applicability
          ≡ (reconcile asset v evidence es exact).applicability)
        × ((reconcile asset v evidence ds exact).confidence
            ≡ (reconcile asset v evidence es exact).confidence)
  unfolding reconcile
  reconcile-IsSame ds es exact same = ground (
    arith,
    any_same (λ d. d.conflict) ds es same,
    any_same (λ d. state_eq d.state affected) ds es same,
    any_same (λ d. state_eq d.state not_affected) ds es same,
    any_same (λ d. state_eq d.state needs_review) ds es same,
    any_same (λ d. not (state_eq d.state coverage_unknown)) ds es same,
    any_same (λ d. true) ds es same,
    all-any (λ d. state_eq d.state coverage_unknown) ds,
    all-any (λ d. state_eq d.state coverage_unknown) es,
    is_nil-any ds,
    is_nil-any es,
  )

  -- A finding is affected exactly when the record is not rejected, no decision is a conflict or
  -- says not affected, and one says affected or the NVD matched exactly; it is not affected
  -- exactly when the record is not rejected, no decision is a conflict, says affected or needs
  -- review, the NVD did not match, and one says not affected.
  pub reconcile_lem :
      (ds : List Decision) (exact : Bool)
      → (((reconcile asset v evidence ds exact).applicability ≡ affected) ↔ (
          (v.rejected ≡ false)
          × (has_conflict ds ≡ false)
          × (has_state not_affected ds ≡ false)
          × ((has_state affected ds || exact) ≡ true)))
        × (((reconcile asset v evidence ds exact).applicability ≡ not_affected) ↔ (
            (v.rejected ≡ false)
            × (has_conflict ds ≡ false)
            × (has_state not_affected ds ≡ true)
            × (has_state affected ds ≡ false)
            × (exact ≡ false)
            × (has_state needs_review ds ≡ false)))
  unfolding reconcile
  reconcile_lem ds exact = ground arith
